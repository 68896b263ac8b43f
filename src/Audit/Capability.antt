-- ===== src/Audit/Capability.antt =====
-- A capability allows its own action on its own resource, for ten minutes.
use growth_operator.Prelude.{
  ℕ, ◌+◌, ◌≡◌, ◌↔◌, refl, String, true, false, Option, none, some, List, [], ◌∷◌, arith, ◌==◌, ◌<◌,
  str_eq_iff, ◌∙◌,
}
use growth_operator.Audit.{
  Row, AuditEntry, next_record, write, option_eq, verify_capability, capability_ttl,
}
use growth_operator.Audit.Chain.{write_all}

option_eq_iff : (a b : Option String) → (option_eq a b ≡ true) ↔ (a ≡ b)
unfolding option_eq
option_eq_iff none none = ground arith
option_eq_iff none (some t) = ground arith
option_eq_iff (some s) none = ground arith
option_eq_iff (some s) (some t) = ground (arith, str_eq_iff s t)

module _ (sha256 : List ℕ → String) where
  verify_capability-write_ne :
      (id id' now now' : ℕ) (e : AuditEntry) (log : List Row) (action : String)
      (resource : Option String)
      → (id == id') ≡ false
      → verify_capability (write sha256 id now e log).1 id' action resource now'
        ≡ verify_capability log id' action resource now'
  unfolding verify_capability write
  verify_capability-write_ne id id' now now' e log action resource h = ground arith

  pub verify_capability-write_self :
      (id now now' : ℕ) (e : AuditEntry) (log : List Row) (action : String)
      (resource : Option String)
      → (verify_capability (write sha256 id now e log).1 id action resource now' ≡ true)
        ↔ ((now' < now + capability_ttl) × (action ≡ e.action) × (resource ≡ e.resource))
  unfolding verify_capability write next_record
  verify_capability-write_self id now now' e log action resource =
      ground (arith, str_eq_iff e.action action, option_eq_iff e.resource resource)

  -- The ids of later rows, none of which is `id`.
  abbrev pub AreOther : ℕ → List (ℕ × ℕ × AuditEntry) → Type 0
  AreOther id [] = Unit
  AreOther id ((id', now, e) ∷ es) = ((id' == id) ≡ false) × AreOther id es

  verify_capability-write_all :
      (id now' : ℕ) (es : List (ℕ × ℕ × AuditEntry)) (log : List Row) (action : String)
      (resource : Option String)
      → AreOther id es
      → verify_capability (write_all sha256 es log) id action resource now'
        ≡ verify_capability log id action resource now'
  unfolding write_all
  verify_capability-write_all id now' [] log action resource h = refl
  verify_capability-write_all id now' ((id', now, e) ∷ es) log action resource h =
      verify_capability-write_all id now' es (write sha256 id' now e log).1 action resource h.1
      ∙ verify_capability-write_ne id' id now now' e log action resource h.0

  -- After `write` returned a capability, and after any further writes under other ids,
  -- `verify_capability` accepts it exactly before its expiry, for the entry's own action and
  -- resource.
  pub capability_exact :
      (id now now' : ℕ) (e : AuditEntry) (es : List (ℕ × ℕ × AuditEntry)) (log : List Row)
      (action : String) (resource : Option String)
      → AreOther id es
      → let (capability, log') = write sha256 id now e log in
        (verify_capability (write_all sha256 es log') capability.id action resource now' ≡ true)
        ↔ ((now' < capability.expires_at) × (action ≡ e.action) × (resource ≡ e.resource))
  unfolding write
  capability_exact id now now' e es log action resource h =
      rw (verify_capability-write_all id now' es (write sha256 id now e log).1 action resource h)
        (unfold write in verify_capability-write_self id now now' e log action resource)
