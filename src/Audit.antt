-- ===== src/Audit.antt =====
-- core/audit/writer.py: the hash-chained log, its capabilities, and the walk that verifies it.
-- `hashlib.sha256(...).hexdigest()` is the parameter `sha256` of what uses it. The log is the table
-- `audit_log` of all organisations, the newest row first; times are in seconds.
pub mod Chain
pub mod Fields
pub mod Tamper
pub mod Capability
pub mod Outcome
mod Tests
use Prim.Native.String.{◌++◌ as concat}
use growth_operator.Prelude.{
  ℕ, ◌+◌, String, Bool, true, false, ◌&&◌, not, Option, none, some, List, [], ◌∷◌, ◌++◌, leb, ltb,
  ◌==◌, if◌then◌else◌, is_some, filter, find?, codes, str_eq, ◌*◌,
}
use growth_operator.Prelude.Int.{pos}
use growth_operator.Prelude.Json.{Json, null, int, str, obj, field, end, dumps}

-- `timedelta(minutes=10)`
abbrev pub capability_ttl : ℕ
capability_ttl = 600

-- `prev_hash` of the first row
abbrev pub genesis_prev_hash : String
genesis_prev_hash = ""

-- The fields of a row that its hash covers, with the hash before it.
pub record ChainRecord : Type 0 where
  pub seq : ℕ
  pub actor_type : String
  pub actor_id : Option String
  pub action : String
  pub resource : Option String
  pub payload : Json
  pub prev_hash : String
  pub entry_hash : String
  pub permission_manifest_hash : Option String

-- A row of `audit_log`.
pub record Row : Type 0 where
  pub id : ℕ
  pub org_id : ℕ
  pub chain : ChainRecord
  pub open chain use *
  pub trace_id : Option String
  pub created_at : ℕ

pub record AuditEntry : Type 0 where
  pub org_id : ℕ
  pub actor_type : String
  pub action : String
  pub actor_id : Option String
  pub resource : Option String
  pub payload : Json
  pub trace_id : Option String
  pub permission_manifest_hash : Option String

pub record AuditId : Type 0 where
  pub id : ℕ
  pub expires_at : ℕ

unfoldable pub or_null : Option String → Json
or_null none = null
or_null (some s) = str s

-- `canonical_json` of the dictionary of immutable fields
unfoldable pub body_text :
    ℕ → String → Option String → String → Option String → Json → Option String → List ℕ
unfolding or_null
body_text seq actor_type actor_id action resource payload pmh = dumps (
    obj (
      field "seq" (int (pos seq)) (
        field "actor_type" (str actor_type) (
          field "actor_id" (or_null actor_id) (
            field "action" (str action) (
              field "resource" (or_null resource)
                (field "payload" payload (field "permission_manifest_hash" (or_null pmh) end))))))))

-- The text that the hash of a record covers.
unfoldable pub hashed_text : ChainRecord → List ℕ
unfolding body_text
hashed_text r =
    codes r.prev_hash
    ++ body_text r.seq r.actor_type r.actor_id r.action r.resource r.payload
        r.permission_manifest_hash

-- `SELECT ... WHERE org_id = :org ORDER BY seq DESC LIMIT 1`
unfoldable pub head_of : ℕ → List Row → Option Row
head_of org [] = none
head_of org (r ∷ log) =
    let older = head_of org log in
    if r.org_id == org
    then elim older [ none ↦ some r | some h ↦ if ltb r.seq h.seq then some h else some r ]
    else older

unfoldable pub next_seq : Option Row → ℕ
next_seq none = 1
next_seq (some h) = h.seq + 1

unfoldable pub prev_hash_after : Option Row → String
prev_hash_after none = genesis_prev_hash
prev_hash_after (some h) = h.entry_hash

-- `SELECT ... WHERE org_id = :org ORDER BY seq`, as the records that are verified
unfoldable pub insert_record : ChainRecord → List ChainRecord → List ChainRecord
insert_record r [] = r ∷ []
insert_record r (x ∷ xs) =
    let rest = insert_record r xs in if leb r.seq x.seq then r ∷ x ∷ xs else x ∷ rest

unfoldable pub records_of : ℕ → List Row → List ChainRecord
unfolding insert_record
records_of org [] = []
records_of org (r ∷ log) =
    let older = records_of org log in if r.org_id == org then insert_record r.chain older else older

module _ (sha256 : List ℕ → String) where
  -- `_entry_hash`
  unfoldable pub entry_hash : ChainRecord → String
  unfolding hashed_text
  entry_hash r = sha256 (hashed_text r)

  -- The record that `write` inserts behind the head of the chain.
  unfoldable pub next_record : AuditEntry → Option Row → ChainRecord
  unfolding next_seq prev_hash_after entry_hash
  next_record e head =
      let unhashed : ChainRecord = record {
        seq = next_seq head;
        actor_type = e.actor_type;
        actor_id = e.actor_id;
        action = e.action;
        resource = e.resource;
        payload = e.payload;
        prev_hash = prev_hash_after head;
        entry_hash = "";
        permission_manifest_hash = e.permission_manifest_hash;
      } in
      record unhashed { entry_hash = entry_hash unhashed }

  -- `write`, with the row's id and `now()` as the database gives them
  unfoldable pub write : ℕ → ℕ → AuditEntry → List Row → AuditId × List Row
  unfolding next_record head_of
  write id now e log = (
    record { id = id; expires_at = now + capability_ttl },
    record {
      id = id;
      org_id = e.org_id;
      chain = next_record e (head_of e.org_id log);
      trace_id = e.trace_id;
      created_at = now;
    }
        ∷ log,
  )

  -- The entry of `write_outcome` for an intent, where `id_text` is the text of the intent's id.
  unfoldable pub outcome_entry : String → String → Option String → Row → AuditEntry
  unfolding or_null
  outcome_entry id_text outcome detail intent = record {
    org_id = intent.org_id;
    actor_type = intent.chain.actor_type;
    action = concat intent.chain.action (concat ":" outcome);
    actor_id = intent.chain.actor_id;
    resource = intent.chain.resource;
    payload = obj (field "intent_audit_id" (str id_text) (field "detail" (or_null detail) end));
    trace_id = none;
    permission_manifest_hash = none;
  }

  -- `write_outcome`, with the new row's id and time; `none` is `ValueError`
  unfoldable pub write_outcome :
      ℕ → ℕ → String → ℕ → String → Option String → List Row → Option (AuditId × List Row)
  unfolding outcome_entry
  write_outcome id now id_text intent outcome detail log =
      elim (find? (λ (r : Row). r.id == intent) log) [
        | none ↦ none
        | some r ↦ some (write id now (outcome_entry id_text outcome detail r) log)
      ]

  -- The loop of `verify_chain`.
  unfoldable pub verify_from : String → ℕ → List ChainRecord → Option ℕ
  verify_from expected_prev expected_seq [] = none
  verify_from expected_prev expected_seq (r ∷ rs) =
      let rest = verify_from r.entry_hash (r.seq + 1) rs in
      if not (r.seq == expected_seq)
      then some r.seq
      else if not (str_eq r.prev_hash expected_prev)
      then some r.seq
      else if not (str_eq (entry_hash r) r.entry_hash)
      then some r.seq
      else rest

  unfoldable pub verify_chain : List ChainRecord → Option ℕ
  verify_chain [] = none
  verify_chain (first ∷ rest) =
      if first.seq == 1 && not (str_eq first.prev_hash genesis_prev_hash)
      then some 1
      else verify_from first.prev_hash first.seq (first ∷ rest)

unfoldable pub option_eq : Option String → Option String → Bool
option_eq none none = true
option_eq (some s) (some t) = str_eq s t
option_eq _ _ = false

-- `verify_capability`
unfoldable pub verify_capability : List Row → ℕ → String → Option String → ℕ → Bool
unfolding option_eq
verify_capability log id action resource now = elim (find? (λ (r : Row). r.id == id) log) [
  | none ↦ false
  | some r ↦
      if leb (r.created_at + capability_ttl) now
      then false
      else str_eq r.action action && option_eq r.resource resource
]
