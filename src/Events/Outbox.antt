-- ===== src/Events/Outbox.antt =====
-- core/events/outbox.py, topics.py and types.py: the closed set of event types, the check of a
-- payload, the outbox table (oldest row first), and the publisher.
pub mod Relayed
mod Tests
use growth_operator.Prelude.{
  String, List, [], ◌∷◌, Option, none, some, ℕ, Bool, true, false, any, ◌==◌, ◌&&◌, lookup,
  contains, filter, take, ◌++◌, text_eq, ◌||◌, split_on, if◌then◌else◌, codes, update_where, length,
  not, ends_with,
}
use growth_operator.Prelude.Json.{Json, null, bool, int, str, arr, obj}

-- `ALLOWED_EVENT_TYPES`
unfoldable pub allowed_event_types : List String
allowed_event_types =
    "msg.received.v1" ∷ "msg.sent.v1" ∷ "msg.failed.v1" ∷ "agent.action.v1"
    ∷ "approval.requested.v1" ∷ "approval.resolved.v1" ∷ "approval.expired.v1"
    ∷ "lead.stage_changed.v1" ∷ "lead.went_silent.v1" ∷ "lead.reengaged.v1" ∷ "quote.created.v1"
    ∷ "rate.updated.v1" ∷ "rate.stale.v1" ∷ "rate.recovered.v1" ∷ "pack.installed.v1"
    ∷ "import.batch_state.v1" ∷ "campaign.approved.v1" ∷ "campaign.executed.v1"
    ∷ "workflow.run_state.v1" ∷ "calendar.window_opened.v1" ∷ "attribution.confirm_requested.v1"
    ∷ "attribution.confirmed.v1" ∷ "alert.ops.v1" ∷ "catalog.price_inputs_changed.v1"
    ∷ "support.ticket.raised.v1" ∷ []

-- `PAYLOAD_SPECS`
unfoldable pub payload_specs : List (String × List (String × String))
payload_specs =
    (
      "msg.received.v1",
      ("conversation_id", "uuid")
          ∷ ("contact_id", "uuid")
          ∷ ("body", "string")
          ∷ ("media", "array")
          ∷ ("classified_intent", "string|null")
          ∷ [],
    )
    ∷ (
      "msg.sent.v1",
      ("message_id", "uuid") ∷ ("conversation_id", "uuid") ∷ ("audit_id", "uuid") ∷ [],
    )
    ∷ ("msg.failed.v1", ("message_id", "uuid") ∷ ("error", "string") ∷ ("retryable", "bool") ∷ [])
    ∷ (
      "agent.action.v1",
      ("run_id", "uuid")
          ∷ ("tool", "string")
          ∷ ("tier", "int")
          ∷ ("outcome", "string")
          ∷ ("latency_ms", "int")
          ∷ [],
    )
    ∷ (
      "approval.requested.v1",
      ("approval_id", "uuid")
          ∷ ("action_type", "string")
          ∷ ("tier", "int")
          ∷ ("preview", "object")
          ∷ ("timeout_at", "rfc3339")
          ∷ [],
    )
    ∷ (
      "approval.resolved.v1",
      ("approval_id", "uuid") ∷ ("decision", "string") ∷ ("edited", "bool") ∷ [],
    )
    ∷ ("approval.expired.v1", [])
    ∷ (
      "lead.stage_changed.v1",
      ("lead_id", "uuid") ∷ ("stage", "string") ∷ ("last_customer_msg_at", "rfc3339|null") ∷ [],
    )
    ∷ (
      "lead.went_silent.v1",
      ("lead_id", "uuid")
          ∷ ("stage", "string")
          ∷ ("silence_hours", "int")
          ∷ ("last_customer_msg_at", "rfc3339|null")
          ∷ [],
    )
    ∷ ("lead.reengaged.v1", [])
    ∷ (
      "quote.created.v1",
      ("quote_id", "uuid") ∷ ("total_minor", "int") ∷ ("strategy", "string") ∷ [],
    )
    ∷ ("rate.updated.v1", [])
    ∷ ("rate.stale.v1", ("source", "string") ∷ ("last_captured_at", "rfc3339") ∷ [])
    ∷ ("rate.recovered.v1", [])
    ∷ ("pack.installed.v1", [])
    ∷ (
      "import.batch_state.v1",
      ("batch_id", "uuid") ∷ ("state", "string") ∷ ("stats", "object") ∷ [],
    )
    ∷ ("campaign.approved.v1", [])
    ∷ ("campaign.executed.v1", ("campaign_id", "uuid") ∷ ("sent", "int") ∷ ("failed", "int") ∷ [])
    ∷ ("workflow.run_state.v1", [])
    ∷ (
      "calendar.window_opened.v1",
      ("pack", "string") ∷ ("key", "string") ∷ ("campaign_window_days", "int") ∷ [],
    )
    ∷ ("attribution.confirm_requested.v1", [])
    ∷ ("attribution.confirmed.v1", [])
    ∷ ("alert.ops.v1", ("severity", "string") ∷ ("kind", "string") ∷ ("detail", "object") ∷ [])
    ∷ ("catalog.price_inputs_changed.v1", ("item_id", "uuid") ∷ ("changed_keys", "array") ∷ [])
    ∷ (
      "support.ticket.raised.v1",
      ("ticket_id", "uuid") ∷ ("priority", "string") ∷ ("severity", "string") ∷ [],
    )
    ∷ []

-- The Python types of a JSON value.
pub data PyType : Type 0 where
  str_type : PyType
  int_type : PyType
  bool_type : PyType
  list_type : PyType
  dict_type : PyType

-- `_TYPE_MAP.get(base)`
unfoldable pub type_map : List ℕ → Option PyType
type_map base =
    if text_eq base (codes "uuid")
      || text_eq base (codes "string")
      || text_eq base (codes "rfc3339")
    then some str_type
    else if text_eq base (codes "int")
    then some int_type
    else if text_eq base (codes "bool")
    then some bool_type
    else if text_eq base (codes "array")
    then some list_type
    else if text_eq base (codes "object")
    then some dict_type
    else none

-- `isinstance(value, expected)`; a `bool` is an `int`
unfoldable pub isinstance : PyType → Json → Bool
isinstance str_type (str s) = true
isinstance int_type (int n) = true
isinstance int_type (bool b) = true
isinstance bool_type (bool b) = true
isinstance list_type (arr xs) = true
isinstance dict_type (obj fs) = true
isinstance _ _ = false

unfoldable pub is_null : Json → Bool
is_null null = true
is_null _ = false

-- `tspec.split("|")[0]`
unfoldable pub base_type : String → List ℕ
base_type tspec = elim (split_on b'|' (codes tspec)) [ [] ↦ [] | part ∷ parts ↦ part ]

-- One field of `validate_payload`.
unfoldable pub field_ok : String → Json → Bool
unfolding is_null base_type type_map isinstance
field_ok tspec value =
    ends_with (codes "|null") (codes tspec) && is_null value
    || elim (type_map (base_type tspec)) [ none ↦ true | some expected ↦ isinstance expected value ]

-- The loop of `validate_payload`: whether no field is refused
unfoldable pub fields_ok : List (String × String) → List (String × Json) → Bool
unfolding field_ok
fields_ok [] payload = true
fields_ok ((field, tspec) ∷ spec) payload =
    let rest = fields_ok spec payload in
    elim (lookup field payload) [ none ↦ false | some value ↦ field_ok tspec value && rest ]

-- `validate_payload`; `false` is `ValueError`
unfoldable pub validate_payload : String → List (String × Json) → Bool
unfolding fields_ok payload_specs
validate_payload event_type payload = elim (lookup event_type payload_specs) [
  | none ↦ true
  | some spec ↦ fields_ok spec payload
]

pub record OutboxRow : Type 0 where
  pub id : ℕ
  pub org_id : ℕ
  pub event_type : String
  pub source : String
  pub payload : List (String × Json)
  pub published : Bool

-- The table and the streams, the newest entry of a stream last. An entry is the envelope's row.
pub record Outbox : Type 0 where
  pub rows : List OutboxRow
  pub streamed : List OutboxRow

-- The two checks of `emit`.
unfoldable pub accepts : String → List (String × Json) → Bool
unfolding validate_payload allowed_event_types
accepts event_type payload =
    contains event_type allowed_event_types && validate_payload event_type payload

-- `emit`; `none` is `ValueError`
unfoldable pub emit : ℕ → String → List (String × Json) → String → Outbox → Option (ℕ × Outbox)
unfolding accepts
emit org event_type payload source outbox =
    let id = length outbox.rows in
    if accepts event_type payload
    then some (
      id,
      record outbox {
        rows =
            outbox.rows
            ++ (record {
              id = id;
              org_id = org;
              event_type = event_type;
              source = source;
              payload = payload;
              published = false;
            }
                ∷ []);
      },
    )
    else none

-- `SELECT ... WHERE published_at IS NULL ORDER BY created_at LIMIT n`
unfoldable pub unpublished : ℕ → List OutboxRow → List OutboxRow
unpublished n rows = take n (filter (λ r. not r.published) rows)

-- The `xadd` of each row.
unfoldable pub relay : List OutboxRow → Outbox → Outbox
relay rows outbox = record outbox { streamed = outbox.streamed ++ rows }

unfoldable pub is_among : List OutboxRow → OutboxRow → Bool
is_among rows r = any (λ q. q.id == r.id) rows

unfoldable pub mark_published : List OutboxRow → Outbox → Outbox
unfolding is_among
mark_published rows outbox = record outbox {
  rows = update_where (is_among rows) (λ r. record r { published = true }) outbox.rows;
}

-- `publish_batch`. A crash rolls the marks back; it comes after so many of the entries went out.
unfoldable pub publish_batch : Option ℕ → ℕ → Outbox → ℕ × Outbox
unfolding unpublished relay mark_published
publish_batch crash batch_size outbox =
    let rows = unpublished batch_size outbox.rows in
    elim crash [
      | none ↦ (length rows, mark_published rows (relay rows outbox))
      | some sent ↦ (0, relay (take sent rows) outbox)
    ]
