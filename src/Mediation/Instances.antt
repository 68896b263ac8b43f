-- ===== src/Mediation/Instances.antt =====
-- core/mediation/manifest.py: `recompile_instance`, which signs the manifest of an agent instance
-- anew from its current grants and pins it. A row is the instance joined with its binding and its
-- archetype.
pub mod Revoked
mod Tests
use growth_operator.Mediation.Manifest.{ToolGrant, Manifest, Crypto, compile_manifest, sign}
use growth_operator.Prelude.{
  none, ◌&&◌, ◌==◌, Bool, update_where, find?, Option, String, ℕ, List, some,
}

pub record Instance : Type 0 where
  pub id : ℕ
  pub org_id : ℕ
  pub capability_allowlist : List String
  pub tool_grants : List ToolGrant
  pub sends_day : Option ℕ
  pub permission_manifest : Option Manifest

unfoldable pub is_instance : ℕ → ℕ → Instance → Bool
is_instance org id i = i.id == id && i.org_id == org

-- `compile_and_sign` of the row's grants
unfoldable pub compile_and_sign : Crypto → ℕ → ℕ → ℕ → Instance → Manifest
compile_and_sign crypto now org id i =
    sign crypto (compile_manifest now id org i.capability_allowlist i.tool_grants i.sends_day none)

-- `recompile_instance`: the manifest and the table; `none` is `ValueError`
unfoldable pub recompile_instance :
    Crypto → ℕ → ℕ → ℕ → List Instance → Option (Manifest × List Instance)
recompile_instance crypto now org id rows = elim (find? (is_instance org id) rows) [
  | none ↦ none
  | some i ↦
      let manifest = compile_and_sign crypto now org id i in
      some (
        manifest,
        update_where (λ r. r.id == id) (λ r. record r { permission_manifest = some manifest }) rows,
      )
]

-- `SELECT permission_manifest ->> 'hash' FROM agent_instances WHERE id = :i`
unfoldable pub pinned_hash : List Instance → ℕ → Option (List ℕ)
pinned_hash rows id = elim (find? (λ (r : Instance). r.id == id) rows) [
  | none ↦ none
  | some r ↦ elim r.permission_manifest [ none ↦ none | some m ↦ some m.hash ]
]
