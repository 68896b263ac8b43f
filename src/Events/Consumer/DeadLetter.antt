-- ===== src/Events/Consumer/DeadLetter.antt =====
-- A message whose handler keeps raising stays pending for five failures and is dead-lettered at the
-- sixth.
use growth_operator.Events.Consumer.{
  Handler, ConsumerSpec, Message, Bus, is_seen, dedupe_and_handle, process, fail, ack, retries_of,
  incr_retry, dlq_after,
}
use growth_operator.Prelude.{
  List, zero, ◌∷◌, ◌≤◌, ◌≡◌, false, refl, true, not, ◌+◌, suc, ℕ, ◌==◌, arith, filter, any, [], ap,
  ◌∙◌,
}

retries_of-incr :
    (msg : ℕ) (counts : List (ℕ × ℕ))
    → retries_of msg (incr_retry msg counts) ≡ 1 + retries_of msg counts
unfolding retries_of incr_retry
retries_of-incr msg [] = ground arith
retries_of-incr msg ((m, n) ∷ counts) = ground (arith, retries_of-incr msg counts)

retries_of-ack :
    (msg : ℕ) (counts : List (ℕ × ℕ)) → retries_of msg (filter (λ c. not (c.0 == msg)) counts) ≡ 0
unfolding retries_of
retries_of-ack msg [] = refl
retries_of-ack msg ((m, n) ∷ counts) = ground (arith, retries_of-ack msg counts)

pending-ack :
    (msg : ℕ) (ms : List Message)
    → any (λ m. m.msg_id == msg) (filter (λ m. not (m.msg_id == msg)) ms) ≡ false
pending-ack msg [] = refl
pending-ack msg (m ∷ ms) = ground (arith, pending-ack msg ms)

-- A message that is delivered again and again.
unfoldable pub deliver_times {ℓ} :
    {H : Type ℓ} → Handler H → ConsumerSpec → Message → ℕ → Bus H → Bus H
deliver_times handler spec m zero bus = bus
deliver_times handler spec m (suc n) bus =
    process handler true spec m (deliver_times handler spec m n bus)

-- The failure past the limit.
fail-sixth {ℓ} :
    {H : Type ℓ} (m : Message) (bus : Bus H)
    → retries_of m.msg_id bus.retries ≡ dlq_after
    → ((fail m bus).dead ≡ record { envelope = m.envelope; errors = 6 } ∷ bus.dead)
      × (any (λ p. p.msg_id == m.msg_id) (fail m bus).pending ≡ false)
      × (retries_of m.msg_id (fail m bus).retries ≡ 0)
unfolding fail ack
fail-sixth m bus five =
    let more = retries_of-incr m.msg_id bus.retries in
    (
      ground (arith, more, five),
      ground (arith, more, five, pending-ack m.msg_id bus.pending),
      ground (arith, more, five, retries_of-ack m.msg_id (incr_retry m.msg_id bus.retries)),
    )

module _ {ℓ} {H : Type ℓ} (handler : Handler H) (spec : ConsumerSpec) (m : Message)
    (raises : (h : H) → (handler m.envelope h).0 ≡ false) where
  -- A failed delivery.
  process-raises :
      (bus : Bus H)
      → any (is_seen spec.name m.envelope.id) bus.dedupe ≡ false
      → process handler true spec m bus
        ≡ fail m (record bus { handled = (handler m.envelope bus.handled).1 })
  unfolding process dedupe_and_handle
  process-raises bus unseen = ground (arith, unseen, raises bus.handled)

  -- The first five failures.
  pub deliver_times-pending :
      (n : ℕ) (bus : Bus H)
      → any (is_seen spec.name m.envelope.id) bus.dedupe ≡ false
      → retries_of m.msg_id bus.retries ≡ 0
      → n ≤ dlq_after
      → let bus' = deliver_times handler spec m n bus in
        (bus'.dedupe ≡ bus.dedupe)
        × (bus'.pending ≡ bus.pending)
        × (bus'.dead ≡ bus.dead)
        × (retries_of m.msg_id bus'.retries ≡ n)
  unfolding deliver_times fail
  deliver_times-pending zero bus unseen fresh le = (refl, refl, refl, fresh)
  deliver_times-pending (suc n) bus unseen fresh le =
      let before = deliver_times handler spec m n bus in
      let (dedupe, pending, dead, count) = deliver_times-pending n bus unseen fresh (omega arith) in
      let fails = process-raises before (rw dedupe unseen) in
      let more = retries_of-incr m.msg_id before.retries in
      (
        ground (arith, fails, more, count, dedupe),
        ground (arith, fails, more, count, pending),
        ground (arith, fails, more, count, dead),
        ground (arith, fails, more, count),
      )

  sixth_is_process :
      (bus : Bus H)
      → deliver_times handler spec m 6 bus
        ≡ process handler true spec m (deliver_times handler spec m 5 bus)
  unfolding deliver_times
  sixth_is_process bus = refl

  -- A handler that raises on a message at every delivery: up to the fifth the message stays pending
  -- and the dead-letter queue as it was; the sixth puts its envelope on the queue, with six errors,
  -- and acknowledges it, so that it is no longer pending and its retries are forgotten.
  pub sixth_failure-dead-letters :
      (bus : Bus H)
      → any (is_seen spec.name m.envelope.id) bus.dedupe ≡ false
      → retries_of m.msg_id bus.retries ≡ 0
      → let five = deliver_times handler spec m 5 bus in
        let six = deliver_times handler spec m 6 bus in
        ((five.pending ≡ bus.pending) × (five.dead ≡ bus.dead))
        × ((six.dead ≡ record { envelope = m.envelope; errors = 6 } ∷ bus.dead)
            × (any (λ p. p.msg_id == m.msg_id) six.pending ≡ false)
            × (retries_of m.msg_id six.retries ≡ 0))
  sixth_failure-dead-letters bus unseen fresh =
      let five = deliver_times handler spec m 5 bus in
      let (dedupe, pending, dead, count) = deliver_times-pending 5 bus unseen fresh (omega arith) in
      let fails = process-raises five (rw dedupe unseen) in
      let (letter, gone, forgotten) =
        fail-sixth m (record five { handled = (handler m.envelope five.handled).1 }) count in
      let last = sixth_is_process bus in
      (
        (pending, dead),
        (
          ap (λ b. b.dead) (last ∙ fails)
              ∙ letter
              ∙ ap (λ ds. record { envelope = m.envelope; errors = 6 } ∷ ds) dead,
          ap (λ b. any (λ p. p.msg_id == m.msg_id) b.pending) (last ∙ fails) ∙ gone,
          ap (λ b. retries_of m.msg_id b.retries) (last ∙ fails) ∙ forgotten,
        ),
      )
