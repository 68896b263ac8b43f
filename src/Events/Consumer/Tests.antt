-- ===== src/Events/Consumer/Tests.antt =====
-- The theorems on consumers, at an event that is delivered three times and at a poison message.
use growth_operator.Events.Consumer.{
  Handler, ConsumerSpec, Message, Bus, is_seen, process, dedupe_and_handle,
}
use growth_operator.Events.Consumer.Once.{Delivery, deliver_all, deliver_all-IsOnce}
use growth_operator.Prelude.{
  false, ◌∷◌, [], List, true, filter, ◌≤◌, Bool, ℕ, refl, length, ◌≡◌, ◌+◌,
}

abbrev spec : ConsumerSpec
spec = record { stream = "gop:events:msg.received.v1"; group = "logger"; name = "logger" }

abbrev message : Message
message = record { msg_id = 8; envelope = record { id = "e1"; event_type = "msg.received.v1" } }

-- Counts the messages.
abbrev logger : Handler ℕ
logger envelope n = (true, n + 1)

-- Raises on every message.
abbrev poisoned : Handler ℕ
poisoned envelope n = (false, n)

abbrev bus : Bus ℕ
bus = record {
  handled = 0;
  dedupe = [];
  committed = [];
  pending = message ∷ [];
  retries = [];
  dead = [];
  alerts = [];
}

abbrev delivery : Bool → Delivery
delivery commits = record { spec = spec; message = message; commits = commits }

abbrev deliveries : List Delivery
deliveries = delivery true ∷ delivery true ∷ delivery false ∷ []

-- The effect of the first delivery stays, though its commit failed.
effect_twice : (deliver_all logger deliveries bus).handled ≡ 2
unfolding deliver_all process dedupe_and_handle
effect_twice = refl

deliver_all-IsOnce_example :
    length (filter (is_seen "logger" "e1") (deliver_all logger deliveries bus).committed) ≤ 1
deliver_all-IsOnce_example = deliver_all-IsOnce logger "logger" "e1" deliveries bus refl
