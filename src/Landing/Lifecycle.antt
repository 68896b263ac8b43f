-- ===== src/Landing/Lifecycle.antt =====
-- core/landing/lifecycle.py: the status machine of a landing page and the owner's approval of it.
-- Row-level security is the condition on the organisation in each lookup. An operation runs in one
-- transaction, so that an `InvalidTransition` leaves the tables as they were.
pub mod Live
pub mod Steps
pub mod Outcome
pub mod Route
mod Tests
use growth_operator.Prelude.{
  Option, ◌&&◌, List, some, none, Bool, ◌==◌, ◌∷◌, true, find?, update_where, ℕ, false,
  if◌then◌else◌,
}

pub data Status : Type 0 where
  draft generated validated awaiting_approval approved published paused archived : Status

pub record Page : Type 0 where
  pub id : ℕ
  pub org_id : ℕ
  pub status : Status
  pub current_version_id : Option ℕ

pub record Version : Type 0 where
  pub id : ℕ
  pub org_id : ℕ
  pub page_id : ℕ
  pub version_no : ℕ
  pub approved_by : Option ℕ
  pub published_at : Option ℕ

-- The payload of a `landing_page.transition` entry.
pub record Transition : Type 0 where
  pub org_id : ℕ
  pub page_id : ℕ
  pub actor_id : Option ℕ
  pub source : Status
  pub target : Status
  pub version_no : Option ℕ

pub record LandingDb : Type 0 where
  pub pages : List Page
  pub versions : List Version
  pub audit : List Transition

-- `_TRANSITIONS`
unfoldable pub can_transition : Status → Status → Bool
can_transition draft generated = true
can_transition draft archived = true
can_transition generated awaiting_approval = true
can_transition generated approved = true
can_transition generated archived = true
can_transition validated awaiting_approval = true
can_transition validated approved = true
can_transition validated archived = true
can_transition awaiting_approval approved = true
can_transition awaiting_approval generated = true
can_transition awaiting_approval archived = true
can_transition approved published = true
can_transition approved generated = true
can_transition approved archived = true
can_transition published paused = true
can_transition published approved = true
can_transition published archived = true
can_transition paused published = true
can_transition paused approved = true
can_transition paused archived = true
can_transition _ _ = false

-- What an operation returns or raises: `None` is `not_found`.
pub data Moved : Type 0 where
  moved : Status → Moved
  not_found invalid_transition : Moved

unfoldable pub is_page : ℕ → ℕ → Page → Bool
is_page org page p = p.id == page && p.org_id == org

unfoldable pub is_version : ℕ → ℕ → ℕ → Version → Bool
is_version org page version_no v =
    v.org_id == org && v.page_id == page && v.version_no == version_no

-- `_version_id`
unfoldable pub version_id : LandingDb → ℕ → ℕ → ℕ → Option ℕ
version_id db org page version_no = elim (find? (is_version org page version_no) db.versions) [
  | none ↦ none
  | some v ↦ some v.id
]

-- `SET status = :s{extra_sql}`
unfoldable pub with_status : Status → Option (ℕ × ℕ) → Page → Page
with_status target none p = record p { status = target }
with_status target (some (version, version_no)) p = record p {
  status = target;
  current_version_id = some version;
}

unfoldable pub version_no_of : Option (ℕ × ℕ) → Option ℕ
version_no_of none = none
version_no_of (some (version, version_no)) = some version_no

-- The update and the audit entry of `_transition`.
unfoldable pub move : ℕ → ℕ → Status → Status → Option ℕ → Option (ℕ × ℕ) → LandingDb → LandingDb
unfolding version_no_of
move org page current target actor version db = record db {
  pages = update_where (is_page org page) (with_status target version) db.pages;
  audit =
      record {
        org_id = org;
        page_id = page;
        actor_id = actor;
        source = current;
        target = target;
        version_no = version_no_of version;
      }
      ∷ db.audit;
}

-- `_transition`, with the version that becomes current and its number
unfoldable pub transition :
    ℕ → ℕ → Status → Option ℕ → Option (ℕ × ℕ) → LandingDb → Moved × LandingDb
transition org page target actor version db = elim (find? (is_page org page) db.pages) [
  | none ↦ (not_found, db)
  | some p ↦
      if can_transition p.status target
      then (moved target, move org page p.status target actor version db)
      else (invalid_transition, db)
]

unfoldable pub submit_for_approval : ℕ → ℕ → Option ℕ → LandingDb → Moved × LandingDb
submit_for_approval org page actor db = transition org page awaiting_approval actor none db

-- The second update of `select_variant`, which an exception skips.
unfoldable pub set_approver : ℕ → Option ℕ → Moved × LandingDb → Moved × LandingDb
set_approver version actor (invalid_transition, db) = (invalid_transition, db)
set_approver version actor (out, db) = (
  out,
  record db {
    versions =
        update_where (λ v. v.id == version) (λ v. record v { approved_by = actor }) db.versions;
  },
)

unfoldable pub select_variant : ℕ → ℕ → ℕ → Option ℕ → LandingDb → Moved × LandingDb
unfolding set_approver
select_variant org page version_no actor db = elim (version_id db org page version_no) [
  | none ↦ (not_found, db)
  | some v ↦ set_approver v actor (transition org page approved actor (some (v, version_no)) db)
]

-- `SELECT current_version_id FROM landing_pages WHERE id = :p`
unfoldable pub current_version : ℕ → ℕ → LandingDb → Option ℕ
current_version org page db = elim (find? (is_page org page) db.pages) [
  | none ↦ none
  | some p ↦ p.current_version_id
]

unfoldable pub is_current : Option ℕ → Version → Bool
is_current none v = false
is_current (some id) v = v.id == id

-- The second update of `publish`, which an exception skips.
unfoldable pub set_published : ℕ → ℕ → ℕ → Moved × LandingDb → Moved × LandingDb
unfolding is_current
set_published now org page (invalid_transition, db) = (invalid_transition, db)
set_published now org page (out, db) = (
  out,
  record db {
    versions =
        update_where (is_current (current_version org page db))
          (λ v. record v { published_at = some now }) db.versions;
  },
)

unfoldable pub publish : ℕ → ℕ → ℕ → Option ℕ → LandingDb → Moved × LandingDb
unfolding set_published
publish now org page actor db =
    set_published now org page (transition org page published actor none db)

unfoldable pub pause : ℕ → ℕ → Option ℕ → LandingDb → Moved × LandingDb
pause org page actor db = transition org page paused actor none db

unfoldable pub archive : ℕ → ℕ → Option ℕ → LandingDb → Moved × LandingDb
archive org page actor db = transition org page archived actor none db

unfoldable pub rollback : ℕ → ℕ → ℕ → Option ℕ → LandingDb → Moved × LandingDb
rollback org page version_no actor db = elim (version_id db org page version_no) [
  | none ↦ (not_found, db)
  | some v ↦ transition org page approved actor (some (v, version_no)) db
]

-- One call of an operation on a page, and what it does.
pub data Op : Type 0 where
  submit_op pause_op archive_op : Op
  publish_op : ℕ → Op
  select_op rollback_op : ℕ → Op

unfoldable pub run_op : ℕ → ℕ → Option ℕ → Op → LandingDb → Moved × LandingDb
run_op org page actor submit_op db = submit_for_approval org page actor db
run_op org page actor pause_op db = pause org page actor db
run_op org page actor archive_op db = archive org page actor db
run_op org page actor (publish_op now) db = publish now org page actor db
run_op org page actor (select_op n) db = select_variant org page n actor db
run_op org page actor (rollback_op n) db = rollback org page n actor db
