-- ===== src/Mediation/Manifest.antt =====
-- core/mediation/manifest.py: the tools that an agent instance may use, compiled and signed.
-- The digest of a body, which is the SHA-256 of its canonical JSON, and the ed25519 signature are
-- parameters. Digests and signatures are texts, the lists of their characters.
pub mod Compiled
mod Tests
use growth_operator.Prelude.{
  none, ℕ, ◌++◌, str_eq, Bool, [], ◌∷◌, some, ◌||◌, not, ◌&&◌, find?, if◌then◌else◌, codes, String,
  Option, List, text_eq, false, contains, ends_with, remove_prefix, starts_with, drop_last,
}

-- What a constraint on a parameter is written as.
pub data Constraint : Type 0 where
  bare_list : Constraint
  schema : String → Constraint
  scalar : String → Constraint

-- A tool of a manifest.
pub record Grant : Type 0 where
  pub name : String
  pub read_only : Bool
  pub requires_tier_eval : Bool
  pub per_min : Option ℕ
  pub params_constraints : List (String × Constraint)

-- A tool grant of an agent binding.
pub record ToolGrant : Type 0 where
  pub name : Option String
  pub per_min : Option ℕ
  pub params_constraints : List (String × Constraint)

pub record Body : Type 0 where
  pub manifest_version : ℕ
  pub instance_id : ℕ
  pub org_id : ℕ
  pub compiled_at : ℕ
  pub tools : List Grant
  pub sends_day : Option ℕ
  pub allow : List String

pub record Manifest : Type 0 where
  pub body : Body
  pub hash : List ℕ
  pub signature : List ℕ

-- The two keys and the hash.
pub record Crypto : Type 0 where
  pub digest : Body → List ℕ
  pub signature_of : Body → List ℕ
  pub is_signature : List ℕ → Body → Bool

abbrev no_tier_tools : List String
no_tier_tools = "pricing.compute" ∷ "landing_page.generate" ∷ []

-- `_NO_TIER_TOOLS`
unfoldable pub is_no_tier : String → Bool
is_no_tier name = contains name no_tier_tools

-- `_is_read_only`
unfoldable pub is_read_only : String → Bool
is_read_only name =
    ends_with (codes ".read") (codes name) || ends_with (codes ".search") (codes name)

-- `tenant_allow is not None and name not in tenant_allow`
unfoldable pub is_narrowed : Option (List String) → String → Bool
is_narrowed none name = false
is_narrowed (some names) name = not (contains name names)

unfoldable pub tool_of : String → ToolGrant → Grant
tool_of name g = record {
  name = name;
  read_only = is_read_only name || is_no_tier name;
  requires_tier_eval = not (is_read_only name || is_no_tier name);
  per_min = g.per_min;
  params_constraints = g.params_constraints;
}

unfoldable pub is_granted : List String → Option (List String) → String → Bool
unfolding is_narrowed
is_granted allowlist tenant_allow name =
    not (str_eq name "") && contains name allowlist && not (is_narrowed tenant_allow name)

-- The loop of `compile_manifest`.
unfoldable pub compile_tools : List String → Option (List String) → List ToolGrant → List Grant
compile_tools allowlist tenant_allow [] = []
compile_tools allowlist tenant_allow (g ∷ grants) =
    let rest = compile_tools allowlist tenant_allow grants in
    elim g.name [
      | none ↦ rest
      | some name ↦ if is_granted allowlist tenant_allow name then tool_of name g ∷ rest else rest
    ]

-- `read_only_names`
unfoldable pub read_only_names : List Grant → List String
read_only_names [] = []
read_only_names (t ∷ tools) =
    let rest = read_only_names tools in if is_read_only t.name then t.name ∷ rest else rest

unfoldable pub compile_manifest :
    ℕ → ℕ → ℕ → List String → List ToolGrant → Option ℕ → Option (List String) → Body
compile_manifest now instance org allowlist grants sends_day tenant_allow =
    let tools = compile_tools allowlist tenant_allow grants in
    record {
      manifest_version = 3;
      instance_id = instance;
      org_id = org;
      compiled_at = now;
      tools = tools;
      sends_day = sends_day;
      allow = read_only_names tools;
    }

unfoldable pub sign : Crypto → Body → Manifest
sign crypto body = record {
  body = body;
  hash = codes "sha256:" ++ crypto.digest body;
  signature = codes "ed25519:" ++ crypto.signature_of body;
}

-- `manifest_hash`
unfoldable pub manifest_hash : Crypto → Manifest → List ℕ
manifest_hash crypto m = crypto.digest m.body

-- `verify`
unfoldable pub verify : Crypto → Manifest → Bool
unfolding manifest_hash
verify crypto m =
    let embedded = remove_prefix (codes "sha256:") m.hash in
    if text_eq embedded [] || not (text_eq embedded (manifest_hash crypto m))
    then false
    else if not (starts_with (codes "ed25519:") m.signature)
    then false
    else crypto.is_signature (remove_prefix (codes "ed25519:") m.signature) m.body

unfoldable pub is_wildcard : String → Bool
is_wildcard name = ends_with (codes ".*") (codes name)

-- The test of `_find_grant` in core/mediation/proxy.py.
unfoldable pub covers : String → String → Bool
unfolding is_wildcard
covers tool name =
    str_eq name tool || is_wildcard name && starts_with (drop_last (codes name)) (codes tool)

-- `_find_grant`
unfoldable pub find_grant : Body → String → Option Grant
unfolding covers
find_grant body tool = find? (λ g. covers tool g.name) body.tools
