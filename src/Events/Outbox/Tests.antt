-- ===== src/Events/Outbox/Tests.antt =====
-- The outbox, at two events and a publisher that crashes once.
use growth_operator.Prelude.{List, [], ◌∷◌, All, ◌≡◌, true, refl, String, arith, length, some, none}
use growth_operator.Prelude.Json.{Json, str, bool}
use growth_operator.Events.Outbox.{Outbox, publish_batch, is_among, emit}
use growth_operator.Events.Outbox.Relayed.{
  OutboxOp, emits, publishes, outbox_ops, outbox_ops-delivers,
}

abbrev failed_payload : List (String × Json)
failed_payload = ("message_id", str "m1") ∷ ("error", str "timeout") ∷ ("retryable", bool true) ∷ []

abbrev empty_outbox : Outbox
empty_outbox = record { rows = []; streamed = [] }

abbrev day : List OutboxOp
day =
    emits 1 "msg.failed.v1" failed_payload "channels"
    ∷ publishes (some 1) 10
    ∷ emits 1 "rate.updated.v1" [] "pricing"
    ∷ emits 1 "no.such.event" [] "pricing"
    ∷ []

-- The event type that is not known is refused, and the crash leaves an entry behind.
two_rows : length (outbox_ops day empty_outbox).rows ≡ 2
unfolding outbox_ops emit publish_batch
two_rows = refl

one_entry : length (outbox_ops day empty_outbox).streamed ≡ 1
unfolding outbox_ops emit publish_batch
one_entry = refl

outbox_ops-delivers_example :
    let after = (publish_batch none 100 (outbox_ops day empty_outbox)).1 in
    All (λ r. is_among after.streamed r ≡ true) after.rows
    × All (λ r. r.published ≡ true) after.rows
outbox_ops-delivers_example =
    outbox_ops-delivers day 100 empty_outbox tt (rw two_rows (omega arith))
