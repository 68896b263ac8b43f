-- ===== src/Events/Consumer.antt =====
-- core/events/consumer.py: the consumer of a stream, with its dedupe table, its bounded retries and
-- its dead-letter queue. `H` is what handlers change, and a handler returns whether it raised. A
-- delivery says whether the commit succeeds. A message that stays pending is delivered again.
pub mod Once
pub mod DeadLetter
mod Tests
use growth_operator.Prelude.{
  ◌+◌, if◌then◌else◌, String, ◌==◌, str_eq, filter, List, any, not, [], ℕ, ltb, ◌∷◌, Bool, true,
  ◌&&◌, false,
}

pub record Envelope : Type 0 where
  pub id : String
  pub event_type : String

pub record ConsumerSpec : Type 0 where
  pub stream : String
  pub group : String
  pub name : String

pub record Message : Type 0 where
  pub msg_id : ℕ
  pub envelope : Envelope

abbrev pub Handler {ℓ} : Type ℓ → Type ℓ
Handler H = Envelope → H → Bool × H

-- A row of `dedupe_consumer`.
pub record Seen : Type 0 where
  pub consumer : String
  pub event_id : String

-- An entry of a dead-letter stream: the envelope and the number of errors of its history.
pub record DlqEntry : Type 0 where
  pub envelope : Envelope
  pub errors : ℕ

-- Redis and the database, for one consumer. `pending` holds the messages that were not acknowledged,
-- `retries` the failures of a message, which are also the length of its error history, `committed`
-- the events whose handler has run in a transaction that was committed.
pub record Bus {ℓ} (H : Type ℓ) : Type ℓ where
  pub handled : H
  pub dedupe : List Seen
  pub committed : List Seen
  pub pending : List Message
  pub retries : List (ℕ × ℕ)
  pub dead : List DlqEntry
  pub alerts : List String

unfoldable pub is_seen : String → String → Seen → Bool
is_seen consumer event s = str_eq s.consumer consumer && str_eq s.event_id event

abbrev pub seen_of : ConsumerSpec → Envelope → Seen
seen_of spec envelope = record { consumer = spec.name; event_id = envelope.id }

-- `_dedupe_and_handle`: whether it returns, and the stores afterwards
unfoldable pub dedupe_and_handle {ℓ} :
    {H : Type ℓ} → Handler H → Bool → ConsumerSpec → Envelope → Bus H → Bool × Bus H
unfolding is_seen
dedupe_and_handle handler commits spec envelope bus =
    let (ok, after) = handler envelope bus.handled in
    let ran = record bus { handled = after } in
    if any (is_seen spec.name envelope.id) bus.dedupe
    then (commits, bus)
    else if ok && commits
    then (
      true,
      record ran {
        dedupe = seen_of spec envelope ∷ bus.dedupe;
        committed = seen_of spec envelope ∷ bus.committed;
      },
    )
    else (false, ran)

-- `DLQ_AFTER`
abbrev pub dlq_after : ℕ
dlq_after = 5

unfoldable pub retries_of : ℕ → List (ℕ × ℕ) → ℕ
retries_of msg [] = 0
retries_of msg ((m, n) ∷ counts) = let rest = retries_of msg counts in if m == msg then n else rest

-- `hincrby`
unfoldable pub incr_retry : ℕ → List (ℕ × ℕ) → List (ℕ × ℕ)
incr_retry msg [] = (msg, 1) ∷ []
incr_retry msg ((m, n) ∷ counts) =
    let rest = incr_retry msg counts in if m == msg then (m, n + 1) ∷ counts else (m, n) ∷ rest

-- `xack`, `hdel` of the retries and `delete` of the errors
unfoldable pub ack {ℓ} : {H : Type ℓ} → ℕ → Bus H → Bus H
ack msg bus = record bus {
  pending = filter (λ m. not (m.msg_id == msg)) bus.pending;
  retries = filter (λ c. not (c.0 == msg)) bus.retries;
}

-- The failure path of `_process`.
unfoldable pub fail {ℓ} : {H : Type ℓ} → Message → Bus H → Bus H
unfolding ack incr_retry retries_of
fail m bus =
    let counted = record bus { retries = incr_retry m.msg_id bus.retries } in
    let attempts = retries_of m.msg_id counted.retries in
    if ltb dlq_after attempts
    then ack m.msg_id (record counted {
      dead = record { envelope = m.envelope; errors = attempts } ∷ counted.dead;
      alerts = m.envelope.id ∷ counted.alerts;
    })
    else counted

-- `_process`
unfoldable pub process {ℓ} :
    {H : Type ℓ} → Handler H → Bool → ConsumerSpec → Message → Bus H → Bus H
unfolding fail ack
process handler commits spec m bus =
    let (ok, after) = dedupe_and_handle handler commits spec m.envelope bus in
    if ok then ack m.msg_id after else fail m after
