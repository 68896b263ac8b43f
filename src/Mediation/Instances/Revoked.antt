-- ===== src/Mediation/Instances/Revoked.antt =====
-- A change of grants that is compiled takes effect on the runs that are under way.
use growth_operator.Approvals.Engine.{Params}
use growth_operator.Mediation.Manifest.{Manifest, Crypto}
use growth_operator.Mediation.World.{Env, RunContext, World}
use growth_operator.Mediation.Proxy.{call, is_stale}
use growth_operator.Mediation.Proxy.Gate.{may_run, executed-call}
use growth_operator.Mediation.Instances.{
  Instance, is_instance, compile_and_sign, recompile_instance, pinned_hash,
}
use growth_operator.Prelude.{
  Option-cases, ◌++◌, find?, String, inl, text_eq, codes, ℕ, [], some, inr, ◌==◌, ◌≡◌, false, arith,
  ◌∷◌, refl, Bool-cases, List, find?-update_where, find?-sound,
}

-- A row that two tests find is found by one of them.
find-instance :
    (org id : ℕ) (rows : List Instance) (i : Instance)
    → find? (is_instance org id) rows ≡ some i
    → (r : Instance) × (find? (λ (r : Instance). r.id == id) rows ≡ some r)
unfolding is_instance
find-instance org id [] i h = absurd (ground arith)
find-instance org id (r ∷ rows) i h = elim (Bool-cases (r.id == id)) [
  | inl here ↦ (r, ground (arith, here))
  | inr later ↦
      let (q, found) = find-instance org id rows i (ground (arith, later, h)) in
      (q, ground (arith, later, found))
]

-- What is pinned after the recompilation is its manifest.
pinned_hash-recompile_instance :
    (crypto : Crypto) (now org id : ℕ) (rows rows' : List Instance) (m : Manifest)
    → recompile_instance crypto now org id rows ≡ some (m, rows')
    → pinned_hash rows' id ≡ some m.hash
unfolding recompile_instance pinned_hash
pinned_hash-recompile_instance crypto now org id rows rows' m h =
    elim (Option-cases (find? (is_instance org id) rows)) [
      | inl missing ↦ absurd (ground (arith, missing, h))
      | inr (i, found) ↦
          let (r, there) = find-instance org id rows i found in
          let manifest = compile_and_sign crypto now org id i in
          let after =
            find?-update_where (λ (r : Instance). r.id == id) (λ r. r.id == id)
              (λ r. record r { permission_manifest = some manifest }) rows (λ x. refl) in
          let own = find?-sound (λ (r : Instance). r.id == id) rows r there in
          ground (arith, found, h, after, there, own)
    ]

-- Once an instance was recompiled, no tool runs for a run that is pinned to a manifest with another
-- hash, whatever that manifest grants and whatever was approved for the run.
pub recompile_instance-revokes :
    (crypto : Crypto) (now org id : ℕ) (rows rows' : List Instance) (m : Manifest) (env : Env)
    (ctx : RunContext) (tool : String) (params : Params) (w : World)
    → recompile_instance crypto now org id rows ≡ some (m, rows')
    → env.current ≡ pinned_hash rows'
    → ctx.instance_id ≡ id
    → text_eq m.hash (codes "sha256:" ++ ctx.manifest_hash) ≡ false
    → (call env ctx tool params w).1.executed ≡ w.executed
unfolding may_run is_stale
recompile_instance-revokes crypto now org id rows rows' m env ctx tool params w h c e other =
    let pinned : env.current ctx.instance_id ≡ some m.hash =
      rw (c, e) (pinned_hash-recompile_instance crypto now org id rows rows' m h) in
    ground (arith, executed-call env ctx tool params w, pinned, other)
