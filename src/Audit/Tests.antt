-- ===== src/Audit/Tests.antt =====
-- Runs of the audit chain, and the theorems at them. The digest of the tests keeps no information.
use growth_operator.Prelude.{
  ℕ, ◌+◌, ◌≡◌, ◌↔◌, refl, String, true, none, some, List, [], ◌∷◌, length, ◌<◌,
}
use growth_operator.Prelude.Json.{obj, end, str, field}
use growth_operator.Audit.{
  ChainRecord, AuditEntry, write, verify_chain, verify_capability, records_of, head_of, next_seq,
  verify_from, next_record, Row, entry_hash,
}
use growth_operator.Audit.Chain.{write_all, write_all-verifies}
use growth_operator.Audit.Capability.{capability_exact}

-- A digest of 64 characters.
abbrev digest : List ℕ → String
digest s = "0123456789abcdef0123456789abcdef0123456789abcdef0123456789abcdef"

abbrev entry : ℕ → String → AuditEntry
entry org action = record {
  org_id = org;
  actor_type = "agent";
  action = action;
  actor_id = none;
  resource = some "run-1";
  payload = obj (field "tool" (str "messages.send") end);
  trace_id = none;
  permission_manifest_hash = none;
}

abbrev entries : List (ℕ × ℕ × AuditEntry)
entries = (7, 100, entry 1 "a") ∷ (8, 101, entry 2 "b") ∷ (9, 102, entry 1 "c") ∷ []

abbrev forged : List ChainRecord
forged = elim (records_of 1 (write_all digest entries [])) [
  | [] ↦ []
  | r ∷ rs ↦ record r { seq = 2 } ∷ rs
]

forged_is_found : verify_chain digest forged ≡ some 2
unfolding verify_chain verify_from entry_hash write_all records_of
forged_is_found = refl

write_all-verifies_example :
    (verify_chain digest (records_of 1 (write_all digest entries [])) ≡ none)
    × (next_seq (head_of 1 (write_all digest entries []))
        ≡ 1 + length (records_of 1 (write_all digest entries [])))
write_all-verifies_example = write_all-verifies digest entries 1

capability_exact_example :
    let (capability, log') = write digest 7 100 (entry 1 "a") [] in
    (verify_capability
        (write_all digest ((8, 101, entry 1 "b") ∷ []) log')
        capability.id
        "a"
        (some "run-1")
        699
      ≡ true)
    ↔ ((699 < capability.expires_at)
        × ("a" ≡ (entry 1 "a").action)
        × (some "run-1" ≡ (entry 1 "a").resource))
capability_exact_example =
    capability_exact digest 7 100 699 (entry 1 "a") ((8, 101, entry 1 "b") ∷ []) [] "a"
      (some "run-1") (refl, tt)

abbrev chain_start : ChainRecord
chain_start = next_record digest (entry 1 "a") none

abbrev first_row : Row
first_row = record { id = 7; org_id = 1; chain = chain_start; trace_id = none; created_at = 100 }

abbrev chain_end : ChainRecord
chain_end = next_record digest (entry 1 "c") (some first_row)
