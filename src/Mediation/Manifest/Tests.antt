-- ===== src/Mediation/Manifest/Tests.antt =====
-- The theorems on manifests, at a binding with three grants.
use growth_operator.Mediation.Manifest.{
  Body, Grant, ToolGrant, Crypto, compile_manifest, is_read_only,
}
use growth_operator.Mediation.Manifest.Compiled.{allow-IsReadOnly}
use growth_operator.Prelude.{false, ◌≡◌, some, [], List, ◌∷◌, true, String, All, none, text_eq}

abbrev grant : String → ToolGrant
grant name = record { name = some name; per_min = some 5; params_constraints = [] }

abbrev grants : List ToolGrant
grants = grant "catalog.search" ∷ grant "messages.send" ∷ grant "ads.publish" ∷ []

abbrev allowlist : List String
allowlist = "messages.send" ∷ "catalog.search" ∷ []

abbrev body : Body
body = compile_manifest 0 1 1 allowlist grants none none

abbrev send_tool : Grant
send_tool = record {
  name = "messages.send";
  read_only = false;
  requires_tier_eval = true;
  per_min = some 5;
  params_constraints = [];
}

-- A digest and a signature that tell the instances apart.
abbrev crypto : Crypto
crypto = record {
  digest = λ b. b.instance_id ∷ [];
  signature_of = λ b. b.instance_id ∷ [];
  is_signature = λ s b. text_eq s (b.instance_id ∷ []);
}

allow-IsReadOnly_example : All (λ name. is_read_only name ≡ true) body.allow
allow-IsReadOnly_example = allow-IsReadOnly 0 1 1 allowlist grants none none
