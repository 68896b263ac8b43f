-- ===== src/Audit/Tamper.antt =====
-- A chain that verifies cannot be rewritten below its last hash, unless two texts share a hash.
use growth_operator.Prelude.{ℕ, ◌≡◌, ◌≢◌, String, List, [], ◌∷◌, length, codes}
use growth_operator.Audit.{ChainRecord, body_text, entry_hash}
use growth_operator.Prelude.Json.Canonical.{canonical}

abbrev record_body : ChainRecord → List ℕ
record_body r =
    body_text r.seq r.actor_type r.actor_id r.action r.resource r.payload r.permission_manifest_hash

-- Two records are the same in every field, in the payload up to the order of the keys of its objects,
-- which the stored text does not keep either.
pub record IsSame (r q : ChainRecord) : Type 0 where
  pub seq : r.seq ≡ q.seq
  pub actor_type : r.actor_type ≡ q.actor_type
  pub actor_id : r.actor_id ≡ q.actor_id
  pub action : r.action ≡ q.action
  pub resource : r.resource ≡ q.resource
  pub payload : canonical r.payload ≡ canonical q.payload
  pub prev_hash : r.prev_hash ≡ q.prev_hash
  pub entry_hash : r.entry_hash ≡ q.entry_hash
  pub permission_manifest_hash : r.permission_manifest_hash ≡ q.permission_manifest_hash

abbrev pub AllSame : List ChainRecord → List ChainRecord → Type 0
AllSame [] [] = Unit
AllSame (r ∷ rs) (q ∷ qs) = IsSame r q × AllSame rs qs
AllSame _ _ = ⊥

abbrev pub size : String → ℕ
size s = length (codes s)

module _ (sha256 : List ℕ → String) where
  pub record Collision : Type 0 where
    pub left : List ℕ
    pub right : List ℕ
    pub differ : left ≢ right
    pub collide : sha256 left ≡ sha256 right
