-- ===== src/Events/Outbox/Relayed.antt =====
-- core/events/outbox.py: what the publisher marks and what the streams have.
use growth_operator.Prelude.{
  List, [], ◌∷◌, ◌++◌, All, ◌≡◌, true, false, arith, Bool-cases, inl, inr, update_where, ℕ, some,
  refl, Option, none, String, take, zero, filter, length, ap, suc, ◌≤◌, not, length-filter-le, ◌∙◌,
}
use growth_operator.Events.Outbox.{
  Outbox, OutboxRow, is_among, Json, emit, publish_batch, relay, accepts, mark_published,
  unpublished,
}

-- A row that is marked has an entry in the streams.
abbrev pub IsRelayed : Outbox → Type 0
IsRelayed o = All (λ r. r.published ≡ true → is_among o.streamed r ≡ true) o.rows

is_among-append :
    (xs ys : List OutboxRow) (r : OutboxRow)
    → (is_among xs r ≡ true → is_among (xs ++ ys) r ≡ true)
      × (is_among ys r ≡ true → is_among (xs ++ ys) r ≡ true)
unfolding is_among
is_among-append [] ys r = ((λ h. ground (arith, h)), λ h. h)
is_among-append (x ∷ xs) ys r =
    let (l, g) = is_among-append xs ys r in ((λ h. ground (arith, h, l)), λ h. ground (arith, g h))

All-relay :
    (rows : List OutboxRow) (streamed more : List OutboxRow)
    → All (λ r. r.published ≡ true → is_among streamed r ≡ true) rows
    → All (λ r. r.published ≡ true → is_among (streamed ++ more) r ≡ true) rows
All-relay [] streamed more h = tt
All-relay (r ∷ rows) streamed more (g, h) =
    ((λ p. (is_among-append streamed more r).0 (g p)), All-relay rows streamed more h)

All-mark :
    (rows : List OutboxRow) (streamed more : List OutboxRow)
    → All (λ r. r.published ≡ true → is_among streamed r ≡ true) rows
    → All
        (λ r. r.published ≡ true → is_among (streamed ++ more) r ≡ true)
        (update_where (is_among more) (λ r. record r { published = true }) rows)
All-mark [] streamed more h = tt
All-mark (r ∷ rows) streamed more (g, h) = elim (Bool-cases (is_among more r)) [
  | inl marked ↦ rw marked (
    (λ _. unfold is_among in (is_among-append streamed more r).1 marked),
    All-mark rows streamed more h,
  )
  | inr other ↦
      rw other ((λ p. (is_among-append streamed more r).0 (g p)), All-mark rows streamed more h)
]

All-emit :
    (rows : List OutboxRow) (streamed : List OutboxRow) (r : OutboxRow)
    → r.published ≡ false
    → All (λ x. x.published ≡ true → is_among streamed x ≡ true) rows
    → All (λ x. x.published ≡ true → is_among streamed x ≡ true) (rows ++ r ∷ [])
All-emit [] streamed r new h = ((λ p. ground (arith, new, p)), tt)
All-emit (x ∷ rows) streamed r new (g, h) = (g, All-emit rows streamed r new h)

-- What happens to the outbox: an event is emitted, or the publisher takes a batch and commits, or
-- crashes after so many entries.
pub data OutboxOp : Type 0 where
  emits : ℕ → String → List (String × Json) → String → OutboxOp
  publishes : Option ℕ → ℕ → OutboxOp

unfoldable pub or_same : Outbox → Option (ℕ × Outbox) → Outbox
or_same o none = o
or_same o (some r) = r.1

unfoldable pub outbox_op : OutboxOp → Outbox → Outbox
unfolding or_same
outbox_op (emits org event_type payload source) o = or_same o (emit org event_type payload source o)
outbox_op (publishes crash n) o = (publish_batch crash n o).1

unfoldable pub outbox_ops : List OutboxOp → Outbox → Outbox
unfolding outbox_op
outbox_ops [] o = o
outbox_ops (op ∷ ops) o = outbox_ops ops (outbox_op op o)

IsRelayed-publish_batch :
    (crash : Option ℕ) (n : ℕ) (o : Outbox) → IsRelayed o → IsRelayed (publish_batch crash n o).1
unfolding publish_batch relay mark_published
IsRelayed-publish_batch none n o h = All-mark o.rows o.streamed (unpublished n o.rows) h
IsRelayed-publish_batch (some sent) n o h =
    All-relay o.rows o.streamed (take sent (unpublished n o.rows)) h

IsRelayed-emit :
    (org : ℕ) (event_type : String) (payload : List (String × Json)) (source : String) (o : Outbox)
    → IsRelayed o
    → IsRelayed (or_same o (emit org event_type payload source o))
unfolding emit or_same
IsRelayed-emit org event_type payload source o h = elim (Bool-cases (accepts event_type payload)) [
  | inl fine ↦ rw fine (All-emit o.rows o.streamed _ refl h)
  | inr refused ↦ rw refused h
]

outbox_ops-IsRelayed :
    (ops : List OutboxOp) (o : Outbox) → IsRelayed o → IsRelayed (outbox_ops ops o)
unfolding outbox_ops
outbox_ops-IsRelayed [] o h = h
outbox_ops-IsRelayed (emits org event_type payload source ∷ ops) o h =
    outbox_ops-IsRelayed ops (or_same o (emit org event_type payload source o))
      (IsRelayed-emit org event_type payload source o h)
outbox_ops-IsRelayed (publishes crash n ∷ ops) o h =
    outbox_ops-IsRelayed ops (publish_batch crash n o).1 (IsRelayed-publish_batch crash n o h)

take-all : (n : ℕ) (xs : List OutboxRow) → length xs ≤ n → take n xs ≡ xs
take-all zero [] h = refl
take-all (suc n) [] h = refl
take-all zero (x ∷ xs) h = absurd (omega (arith, h))
take-all (suc n) (x ∷ xs) h = ap (λ (l : List OutboxRow). x ∷ l) (take-all n xs (omega (arith, h)))

abbrev waiting : List OutboxRow → List OutboxRow
waiting rows = filter (λ q. not q.published) rows

is_among-waiting :
    (x r : OutboxRow) (rows : List OutboxRow)
    → is_among (waiting rows) r ≡ true
    → is_among (waiting (x ∷ rows)) r ≡ true
unfolding is_among
is_among-waiting x r rows h = ground (arith, h)

is_among-itself :
    (x : OutboxRow) (rows : List OutboxRow)
    → x.published ≡ false
    → is_among (waiting (x ∷ rows)) x ≡ true
unfolding is_among
is_among-itself x rows new = ground (arith, new)

All-waiting :
    (rows taken : List OutboxRow)
    → ((r : OutboxRow) → is_among (waiting rows) r ≡ true → is_among taken r ≡ true)
    → All (λ r. r.published ≡ false → is_among taken r ≡ true) rows
All-waiting [] taken sub = tt
All-waiting (x ∷ rows) taken sub = (
  (λ new. sub x (is_among-itself x rows new)),
  All-waiting rows taken (λ r h. sub r (is_among-waiting x r rows h)),
)

All-published :
    (rows taken : List OutboxRow)
    → All (λ r. r.published ≡ false → is_among taken r ≡ true) rows
    → All
        (λ r. r.published ≡ true)
        (update_where (is_among taken) (λ r. record r { published = true }) rows)
All-published [] taken h = tt
All-published (x ∷ rows) taken (g, h) = elim (Bool-cases (is_among taken x)) [
  | inl marked ↦ rw marked (refl, All-published rows taken h)
  | inr other ↦ rw other (ground (arith, other, g), All-published rows taken h)
]

All-delivered :
    (rows streamed : List OutboxRow)
    → All (λ r. r.published ≡ true) rows
    → All (λ r. r.published ≡ true → is_among streamed r ≡ true) rows
    → All (λ r. is_among streamed r ≡ true) rows
All-delivered [] streamed h k = tt
All-delivered (x ∷ rows) streamed (p, h) (g, k) = (g p, All-delivered rows streamed h k)

published-publish_batch :
    (n : ℕ) (o : Outbox)
    → length o.rows ≤ n
    → All (λ r. r.published ≡ true) (publish_batch none n o).1.rows
unfolding publish_batch relay mark_published unpublished
published-publish_batch n o enough =
    let all_taken =
      take-all n (waiting o.rows)
        (omega (arith, enough, length-filter-le (λ q. not q.published) o.rows)) in
    All-published o.rows (take n (waiting o.rows))
      (All-waiting o.rows (take n (waiting o.rows)) (λ r h. ap (λ l. is_among l r) all_taken ∙ h))

-- Whatever is emitted, and however the publisher runs, crashes between two entries or before the
-- commit included: where each row marked as published had its entry in the streams, one more run that commits,
-- over a batch at least as long as the table, leaves no row without an entry and none unmarked.
pub outbox_ops-delivers :
    (ops : List OutboxOp) (n : ℕ) (o : Outbox)
    → IsRelayed o
    → length (outbox_ops ops o).rows ≤ n
    → let after = (publish_batch none n (outbox_ops ops o)).1 in
      All (λ r. is_among after.streamed r ≡ true) after.rows
      × All (λ r. r.published ≡ true) after.rows
outbox_ops-delivers ops n o relayed enough =
    let before = outbox_ops ops o in
    let after = (publish_batch none n before).1 in
    let marked = published-publish_batch n before enough in
    let entries = IsRelayed-publish_batch none n before (outbox_ops-IsRelayed ops o relayed) in
    (All-delivered after.rows after.streamed marked entries, marked)
