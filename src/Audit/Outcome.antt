-- ===== src/Audit/Outcome.antt =====
-- The entry for the outcome of an intent joins the chain of the intent's organisation.
use Prim.Native.String.{◌++◌ as concat}
use growth_operator.Audit.{
  Row, AuditEntry, AuditId, write, write_outcome, outcome_entry, records_of, verify_chain,
  verify_capability, capability_ttl,
}
use growth_operator.Audit.Chain.{
  write_all, IsIntact-verifies, write_all-IsIntact_empty, write-IsIntact,
}
use growth_operator.Audit.Capability.{verify_capability-write_self}
use growth_operator.Prelude.{
  ◌+◌, Option-cases, inl, true, ℕ, find?, arith, ◌⊎◌, Option, String, none, ◌==◌, ◌≡◌, inr, [],
  List, some, ◌↔◌, ◌<◌,
}

module _ (sha256 : List ℕ → String) where
  write_outcome-missing :
      (id now : ℕ) (id_text : String) (intent : ℕ) (outcome : String) (detail : Option String)
      (log : List Row)
      → find? (λ (r : Row). r.id == intent) log ≡ none
      → write_outcome sha256 id now id_text intent outcome detail log ≡ none
  unfolding write_outcome
  write_outcome-missing id now id_text intent outcome detail log missing = ground (arith, missing)

  write_outcome-found :
      (id now : ℕ) (id_text : String) (intent : ℕ) (outcome : String) (detail : Option String)
      (log : List Row) (r : Row)
      → find? (λ (r : Row). r.id == intent) log ≡ some r
      → write_outcome sha256 id now id_text intent outcome detail log
        ≡ some (write sha256 id now (outcome_entry sha256 id_text outcome detail r) log)
  unfolding write_outcome
  write_outcome-found id now id_text intent outcome detail log r found = ground (arith, found)

  -- After any entries, the outcome of an intent that there is can be written: it leaves the chain of
  -- every organisation verifying, and the capability that it returns is good for the outcome's own
  -- action, which is the intent's with the outcome behind a colon, on the intent's resource, and
  -- for no other. For an id that no entry has it is refused.
  pub write_outcome-verifies :
      (es : List (ℕ × ℕ × AuditEntry)) (id now : ℕ) (id_text : String) (intent : ℕ)
      (outcome : String) (detail : Option String)
      → let log = write_all sha256 es [] in
        ((find? (λ (r : Row). r.id == intent) log ≡ none)
          × (write_outcome sha256 id now id_text intent outcome detail log ≡ none))
        ⊎ ((r : Row) × (capability : AuditId) × (log' : List Row) × (find?
                (λ (r : Row). r.id == intent)
                log
              ≡ some r)
            × (write_outcome sha256 id now id_text intent outcome detail log
                ≡ some (capability, log'))
            × ((org : ℕ) → verify_chain sha256 (records_of org log') ≡ none)
            × ((action : String) (resource : Option String) (later : ℕ)
                → (verify_capability log' id action resource later ≡ true) ↔ (
                    (later < now + capability_ttl)
                    × (action ≡ concat r.chain.action (concat ":" outcome))
                    × (resource ≡ r.chain.resource))))
  write_outcome-verifies es id now id_text intent outcome detail =
      let log = write_all sha256 es [] in
      elim (Option-cases (find? (λ (r : Row). r.id == intent) log)) [
        | inl missing ↦
            inl (missing, write_outcome-missing id now id_text intent outcome detail log missing)
        | inr (r, found) ↦
            let e = outcome_entry sha256 id_text outcome detail r in
            let (capability, log') = write sha256 id now e log in
            inr (
              r,
              capability,
              log',
              found,
              write_outcome-found id now id_text intent outcome detail log r found,
              λ org.
                  IsIntact-verifies sha256 org log'
                    (write-IsIntact sha256 id now e log (write_all-IsIntact_empty sha256 es) org),
              λ action resource later.
                  unfold outcome_entry in
                  verify_capability-write_self sha256 id now later e log action resource,
            )
      ]
