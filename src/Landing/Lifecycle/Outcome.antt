-- ===== src/Landing/Lifecycle/Outcome.antt =====
-- core/landing/lifecycle.py: what an operation of the owner does to a page, or why it does nothing.
use growth_operator.Landing.Lifecycle.{
  Status, Op, select_op, rollback_op, version_id, not_found, Moved, run_op, LandingDb, Page,
  is_page, moved, invalid_transition,
}
use growth_operator.Prelude.{◌≡◌, false, ◌∷◌, ℕ, none, ◌⊎◌, Option, find?, some}
use mathlib.Core.Option
use growth_operator.Landing.Lifecycle.Steps.{IsStep, aim}

-- The version that an operation makes current, with its number.
abbrev pub chosen : ℕ → ℕ → Op → LandingDb → Option (ℕ × ℕ)
chosen org page (select_op n) db = Option.map (λ v. (v, n)) (version_id db org page n)
chosen org page (rollback_op n) db = Option.map (λ v. (v, n)) (version_id db org page n)
chosen org page _ db = none

abbrev pub LacksVersion : ℕ → ℕ → Op → LandingDb → Type 0
LacksVersion org page (select_op n) db = version_id db org page n ≡ none
LacksVersion org page (rollback_op n) db = version_id db org page n ≡ none
LacksVersion org page _ db = ⊥

abbrev pub version_after : Option (ℕ × ℕ) → Page → Option ℕ
version_after none p = p.current_version_id
version_after (some v) p = some v.0

-- Every other page is as it was.
abbrev pub OthersStay : ℕ → ℕ → LandingDb → LandingDb → Type 0
OthersStay org page db db' =
    (org' page' : ℕ) (q : Page)
    → find? (is_page org' page') db.pages ≡ some q
    → is_page org page q ≡ false
    → find? (is_page org' page') db'.pages ≡ some q

-- The page is at `target`, with the version that came with it, and the move is in the audit log.
abbrev pub Went :
    ℕ → ℕ → Option ℕ → Option (ℕ × ℕ) → Page → Status → LandingDb → Moved × LandingDb → Type 0
Went org page actor version p target db (out, db') =
    (out ≡ moved target)
    × (find? (is_page org page) db'.pages
        ≡ some record p { status = target; current_version_id = version_after version p })
    × OthersStay org page db db'
    × (db'.audit
        ≡ record {
          org_id = org;
          page_id = page;
          actor_id = actor;
          source = p.status;
          target = target;
          version_no = Option.map (λ v. v.1) version;
        }
          ∷ db.audit)

-- A transition with the target of an operation: the step, or a refusal that changes nothing.
abbrev Outcome :
    ℕ → ℕ → Option ℕ → Op → Option (ℕ × ℕ) → Page → LandingDb → Moved × LandingDb → Type 0
Outcome org page actor op version p db r =
    (IsStep op p.status (aim op) × Went org page actor version p (aim op) db r)
    ⊎ (((t : Status) → IsStep op p.status t → ⊥) × (r ≡ (invalid_transition, db)))

-- An operation on a page takes a step of the page's life, or there is no such step, or its version is
-- missing.
abbrev pub StepsOrStays : ℕ → ℕ → Option ℕ → Op → Page → LandingDb → Type 0
StepsOrStays org page actor op p db =
    let r = run_op org page actor op db in
    ((target : Status) × IsStep op p.status target
      × Went org page actor (chosen org page op db) p target db r)
    ⊎ ((((t : Status) → IsStep op p.status t → ⊥) × (r ≡ (invalid_transition, db)))
        ⊎ (LacksVersion org page op db × (r ≡ (not_found, db))))
