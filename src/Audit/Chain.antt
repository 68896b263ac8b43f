-- ===== src/Audit/Chain.antt =====
-- Every log that `write` has built verifies, for each organisation.
use growth_operator.Prelude.{
  ℕ, ◌+◌, ◌<◌, ◌≡◌, ◌↔◌, refl, String, false, Option, none, some, List, [], ◌∷◌, ◌++◌, arith,
  length, length-append, All, Bool-cases, inl, inr, ◌==◌, ==_iff, str_eq_iff, Option-cases, ap,
}
use growth_operator.Audit.{
  ChainRecord, Row, AuditEntry, genesis_prev_hash, head_of, next_seq, prev_hash_after,
  insert_record, records_of, entry_hash, next_record, write, verify_from, verify_chain,
}

-- The hash that the next record has to name.
abbrev pub last_hash : String → List ChainRecord → String
last_hash prev [] = prev
last_hash prev (r ∷ rs) = last_hash r.entry_hash rs

abbrev IsBelow : ℕ → List ChainRecord → Type 0
IsBelow n = All (λ (r : ChainRecord). r.seq < n)

IsBelow-suc : (n : ℕ) (rs : List ChainRecord) → IsBelow n rs → IsBelow (n + 1) rs
IsBelow-suc n [] h = tt
IsBelow-suc n (r ∷ rs) h = (omega arith, IsBelow-suc n rs h.1)

insert_record-last :
    (r : ChainRecord) (rs : List ChainRecord) → IsBelow r.seq rs → insert_record r rs ≡ rs ++ r ∷ []
unfolding insert_record
insert_record-last r [] h = refl
insert_record-last r (x ∷ rs) h = ground (arith, insert_record-last r rs h.1)

IsBelow-append :
    (n : ℕ) (rs : List ChainRecord) (r : ChainRecord)
    → IsBelow n rs
    → r.seq < n
    → IsBelow n (rs ++ r ∷ [])
IsBelow-append n [] r h k = (k, tt)
IsBelow-append n (x ∷ rs) r h k = (h.0, IsBelow-append n rs r h.1 k)

last_hash-append :
    (prev : String) (rs : List ChainRecord) (r : ChainRecord)
    → last_hash prev (rs ++ r ∷ []) ≡ r.entry_hash
last_hash-append prev [] r = refl
last_hash-append prev (x ∷ rs) r = last_hash-append x.entry_hash rs r

module _ (sha256 : List ℕ → String) where
  -- A walk over a record goes on exactly if the record has the number, the link and the hash.
  pub verify_from-cons :
      (prev : String) (seq : ℕ) (r : ChainRecord) (rs : List ChainRecord)
      → (verify_from sha256 prev seq (r ∷ rs) ≡ none) ↔ (
          (r.seq ≡ seq)
          × (r.prev_hash ≡ prev)
          × (entry_hash sha256 r ≡ r.entry_hash)
          × (verify_from sha256 r.entry_hash (seq + 1) rs ≡ none))
  unfolding verify_from
  verify_from-cons prev seq r rs = (
    λ h. ground (
      arith,
      str_eq_iff r.prev_hash prev,
      str_eq_iff (entry_hash sha256 r) r.entry_hash,
      λ (e : r.seq ≡ seq). ap (λ (n : ℕ). verify_from sha256 r.entry_hash (n + 1) rs) e,
    ),
    λ h. ground (
      arith,
      str_eq_iff r.prev_hash prev,
      str_eq_iff (entry_hash sha256 r) r.entry_hash,
      ap (λ (n : ℕ). verify_from sha256 r.entry_hash (n + 1) rs) h.0,
    ),
  )

  verify_from-append :
      (prev : String) (seq : ℕ) (rs : List ChainRecord) (r : ChainRecord)
      → verify_from sha256 prev seq rs ≡ none
      → r.seq ≡ seq + length rs
      → r.prev_hash ≡ last_hash prev rs
      → entry_hash sha256 r ≡ r.entry_hash
      → verify_from sha256 prev seq (rs ++ r ∷ []) ≡ none
  verify_from-append prev seq [] r h s p e =
      (verify_from-cons prev seq r []).1 (omega arith, p, e, unfold verify_from in refl)
  verify_from-append prev seq (x ∷ rs) r h s p e =
      let (n, l, k, rest) = (verify_from-cons prev seq x rs).0 h in
      (verify_from-cons prev seq x (rs ++ r ∷ [])).1
        (n, l, k, verify_from-append x.entry_hash (seq + 1) rs r rest (omega arith) p e)

  -- The head of a chain and its records, as `write` leaves them.
  pub record IsLinked (head : Option Row) (rs : List ChainRecord) : Type 0 where
    pub verifies : verify_from sha256 genesis_prev_hash 1 rs ≡ none
    pub next : next_seq head ≡ 1 + length rs
    pub linked : prev_hash_after head ≡ last_hash genesis_prev_hash rs
    pub below : IsBelow (next_seq head) rs

  abbrev pub IsIntact : ℕ → List Row → Type 0
  IsIntact org log = IsLinked (head_of org log) (records_of org log)

  row_of : ℕ → ℕ → AuditEntry → List Row → Row
  row_of id now e log = record {
    id = id;
    org_id = e.org_id;
    chain = next_record sha256 e (head_of e.org_id log);
    trace_id = e.trace_id;
    created_at = now;
  }

  head_of-write :
      (id now : ℕ) (e : AuditEntry) (log : List Row)
      → head_of e.org_id (write sha256 id now e log).1 ≡ some (row_of id now e log)
  unfolding write head_of row_of next_record
  head_of-write id now e log = elim (Option-cases (head_of e.org_id log)) [
    | inl new ↦ ground arith
    | inr (h, old) ↦ ground arith
  ]

  records_of-write :
      (id now : ℕ) (e : AuditEntry) (log : List Row)
      → IsIntact e.org_id log
      → records_of e.org_id (write sha256 id now e log).1
        ≡ records_of e.org_id log ++ next_record sha256 e (head_of e.org_id log) ∷ []
  unfolding write records_of
  records_of-write id now e log h =
      let r = next_record sha256 e (head_of e.org_id log) in
      ground (arith, insert_record-last r (records_of e.org_id log) (unfold next_record in h.below))

  IsLinked-next :
      (e : AuditEntry) (head : Option Row) (row : Row) (rs : List ChainRecord)
      → row.chain ≡ next_record sha256 e head
      → IsLinked head rs
      → IsLinked (some row) (rs ++ next_record sha256 e head ∷ [])
  unfolding next_seq prev_hash_after
  IsLinked-next e head row rs same h =
      let r = next_record sha256 e head in
      record {
        verifies =
            verify_from-append genesis_prev_hash 1 rs r h.verifies (unfold next_record in h.next)
              (unfold next_record in h.linked) (unfold next_record entry_hash in refl);
        next = rw (same, length-append) (unfold next_record in omega (arith, h.next));
        linked = rw (same, last_hash-append);
        below = rw same (
            IsBelow-append (r.seq + 1) rs r (IsBelow-suc r.seq rs (unfold next_record in h.below))
              (omega arith));
      }

  write-IsIntact_other :
      (id now : ℕ) (e : AuditEntry) (log : List Row) (org : ℕ)
      → (e.org_id == org) ≡ false
      → IsIntact org log
      → IsIntact org (write sha256 id now e log).1
  unfolding write records_of head_of
  write-IsIntact_other id now e log org other h = rw other h

  pub write-IsIntact :
      (id now : ℕ) (e : AuditEntry) (log : List Row)
      → ((org : ℕ) → IsIntact org log)
      → (org : ℕ) → IsIntact org (write sha256 id now e log).1
  write-IsIntact id now e log h org = elim (Bool-cases (e.org_id == org)) [
    | inl same ↦ rw (← (==_iff e.org_id org).0 same) (
        rw (records_of-write id now e log (h e.org_id), head_of-write id now e log)
          (IsLinked-next e (head_of e.org_id log) (row_of id now e log) (records_of e.org_id log)
            (unfold row_of in refl) (h e.org_id)))
    | inr other ↦ write-IsIntact_other id now e log org other (h org)
  ]

  -- The log after a list of entries, each with its row's id and its time.
  unfoldable pub write_all : List (ℕ × ℕ × AuditEntry) → List Row → List Row
  unfolding write
  write_all [] log = log
  write_all ((id, now, e) ∷ es) log = write_all es (write sha256 id now e log).1

  write_all-IsIntact :
      (es : List (ℕ × ℕ × AuditEntry)) (log : List Row)
      → ((org : ℕ) → IsIntact org log)
      → (org : ℕ) → IsIntact org (write_all es log)
  unfolding write_all
  write_all-IsIntact [] log h = h
  write_all-IsIntact ((id, now, e) ∷ es) log h =
      write_all-IsIntact es (write sha256 id now e log).1 (write-IsIntact id now e log h)

  IsIntact-empty : (org : ℕ) → IsIntact org []
  unfolding head_of records_of next_seq prev_hash_after verify_from
  IsIntact-empty org = record { verifies = refl; next = omega arith; linked = refl; below = tt }

  verify_chain-eq-verify_from :
      (rs : List ChainRecord)
      → verify_from sha256 genesis_prev_hash 1 rs ≡ none
      → verify_chain sha256 rs ≡ none
  unfolding verify_chain
  verify_chain-eq-verify_from [] h = refl
  verify_chain-eq-verify_from (r ∷ rs) h =
      let (n, p, k, rest) = (verify_from-cons genesis_prev_hash 1 r rs).0 h in
      ground (
        arith,
        str_eq_iff r.prev_hash genesis_prev_hash,
        (verify_from-cons r.prev_hash r.seq r rs).1 (refl, refl, k, rw n rest),
      )

  pub IsIntact-verifies :
      (org : ℕ) (log : List Row)
      → IsIntact org log
      → verify_chain sha256 (records_of org log) ≡ none
  IsIntact-verifies org log h = verify_chain-eq-verify_from (records_of org log) h.verifies

  pub write_all-IsIntact_empty :
      (es : List (ℕ × ℕ × AuditEntry)) (org : ℕ) → IsIntact org (write_all es [])
  write_all-IsIntact_empty es org = write_all-IsIntact es [] IsIntact-empty org

  -- Whatever entries are written, the chain of every organisation verifies, and its head has the
  -- number of its records.
  pub write_all-verifies :
      (es : List (ℕ × ℕ × AuditEntry)) (org : ℕ)
      → (verify_chain sha256 (records_of org (write_all es [])) ≡ none)
        × (next_seq (head_of org (write_all es [])) ≡ 1 + length (records_of org (write_all es [])))
  write_all-verifies es org =
      let h = write_all-IsIntact_empty es org in (IsIntact-verifies org (write_all es []) h, h.next)
