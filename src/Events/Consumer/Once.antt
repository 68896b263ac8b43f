-- ===== src/Events/Consumer/Once.antt =====
-- The effect of an event is committed once, however often the event is delivered.
use growth_operator.Events.Consumer.{
  Handler, ConsumerSpec, Message, Envelope, Seen, Bus, is_seen, seen_of, dedupe_and_handle, process,
  fail, ack,
}
use growth_operator.Prelude.{
  String, filter, ◌≤◌, List, ◌≡◌, any, arith, length, [], ℕ, ◌∷◌, Bool, true, refl, str_eq_iff,
}

-- A sequence of deliveries, the newest first: each with its consumer, its message, and whether its
-- commit succeeds.
pub record Delivery : Type 0 where
  pub spec : ConsumerSpec
  pub message : Message
  pub commits : Bool

unfoldable pub deliver_all {ℓ} : {H : Type ℓ} → Handler H → List Delivery → Bus H → Bus H
deliver_all handler [] bus = bus
deliver_all handler (d ∷ older) bus =
    process handler d.commits d.spec d.message (deliver_all handler older bus)

module _ {ℓ} {H : Type ℓ} (handler : Handler H) (consumer event : String) where
  abbrev times : Bus H → ℕ
  times bus = length (filter (is_seen consumer event) bus.committed)

  -- What was committed is in the dedupe table, and was committed once.
  abbrev pub IsOnce : Bus H → Type 0
  IsOnce bus = (times bus ≤ 1) × ((1 ≤ times bus) → any (is_seen consumer event) bus.dedupe ≡ true)

  seen-alike :
      (s : Seen) (xs : List Seen)
      → is_seen consumer event s ≡ true
      → any (is_seen s.consumer s.event_id) xs ≡ any (is_seen consumer event) xs
  unfolding is_seen
  seen-alike s xs h =
      let c : s.consumer ≡ consumer = (str_eq_iff s.consumer consumer).0 (ground arith) in
      let e : s.event_id ≡ event = (str_eq_iff s.event_id event).0 (ground arith) in rw (c, e) refl

  IsOnce-dedupe_and_handle :
      (commits : Bool) (spec : ConsumerSpec) (envelope : Envelope) (bus : Bus H)
      → IsOnce bus
      → IsOnce (dedupe_and_handle handler commits spec envelope bus).1
  unfolding dedupe_and_handle
  IsOnce-dedupe_and_handle commits spec envelope bus (most, seen) =
      let alike = seen-alike (seen_of spec envelope) bus.dedupe in
      (ground (arith, most, seen, alike), λ h. ground (arith, most, seen, alike, h))

  IsOnce-process :
      (commits : Bool) (spec : ConsumerSpec) (m : Message) (bus : Bus H)
      → IsOnce bus
      → IsOnce (process handler commits spec m bus)
  unfolding process fail ack
  IsOnce-process commits spec m bus h =
      let (most, seen) = IsOnce-dedupe_and_handle commits spec m.envelope bus h in
      (ground (arith, most), λ k. ground (arith, most, seen, k))

  -- Over any deliveries, repeated, interleaved with those of other events and consumers, with
  -- handlers that raise and commits that fail: the handler of a consumer runs at most once for an
  -- event in a transaction that is committed.
  pub deliver_all-IsOnce :
      (deliveries : List Delivery) (bus : Bus H)
      → bus.committed ≡ []
      → length (filter (is_seen consumer event) (deliver_all handler deliveries bus).committed) ≤ 1
  unfolding deliver_all
  deliver_all-IsOnce deliveries bus none_yet = (keeps deliveries).0
    where
      keeps : (ds : List Delivery) → IsOnce (deliver_all handler ds bus)
      keeps [] = rw none_yet (omega arith, λ h. absurd (omega arith))
      keeps (d ∷ older) =
          IsOnce-process d.commits d.spec d.message (deliver_all handler older bus) (keeps older)
