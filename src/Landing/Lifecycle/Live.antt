-- ===== src/Landing/Lifecycle/Live.antt =====
-- A page that is approved, published or paused has a current version.
use growth_operator.Landing.Lifecycle.{
  submit_op, pause_op, archive_op, publish_op, select_op, rollback_op, not_found,
  invalid_transition, version_id, Status, approved, published, paused, Page, LandingDb, with_status,
  is_page, move, can_transition, transition, set_approver, set_published, run_op, Moved,
  submit_for_approval, moved, pause, archive, publish, select_variant, rollback, Op,
  awaiting_approval, archived, publish_op, select_op, rollback_op,
}
use growth_operator.Prelude.{
  ◌⊎◌, Option, inl, List, All, Bool-cases, some, none, Bool, refl, inr, arith, true, ◌≡◌, ℕ,
  is_some, false, Option-cases, sym, find?, ◌∙◌, find?-sound, find?-update_where,
}

-- Past the owner's approval, and not archived.
unfoldable pub is_live : Status → Bool
is_live approved = true
is_live published = true
is_live paused = true
is_live _ = false

abbrev pub HasVersion : Page → Type 0
HasVersion p = is_live p.status ≡ true → is_some p.current_version_id ≡ true

abbrev pub AllHaveVersion : LandingDb → Type 0
AllHaveVersion db = All HasVersion db.pages

-- A move of the page that is found keeps the invariant, if it sets a version or starts from a live
-- status, or does not go to one.
HasVersion-with_status :
    (target : Status) (version : Option (ℕ × ℕ)) (p : Page)
    → (is_live target ≡ false) ⊎ ((is_some version ≡ true) ⊎ (is_live p.status ≡ true))
    → HasVersion p
    → HasVersion (with_status target version p)
unfolding with_status
HasVersion-with_status target none p (inl off) h = λ live. absurd (ground (arith, live, off))
HasVersion-with_status target none p (inr (inl set)) h = λ live. absurd (ground arith)
HasVersion-with_status target none p (inr (inr was)) h = λ live. h was
HasVersion-with_status target (some v) p any_case h = λ live. refl

pub is_page-with_status :
    (org page : ℕ) (target : Status) (version : Option (ℕ × ℕ)) (p : Page)
    → is_page org page (with_status target version p) ≡ is_page org page p
unfolding is_page with_status
is_page-with_status org page target none p = refl
is_page-with_status org page target (some v) p = refl

-- Every page that a lookup finds has its version if it is live.
abbrev pub IsSound : LandingDb → Type 0
IsSound db = (org page : ℕ) (p : Page) → find? (is_page org page) db.pages ≡ some p → HasVersion p

page-of-two :
    (org page org' page' : ℕ) (pages : List Page) (p q : Page)
    → find? (is_page org page) pages ≡ some q
    → find? (is_page org' page') pages ≡ some p
    → is_page org page p ≡ true
    → p ≡ q
page-of-two org page org' page' pages p q h h' it =
    let own = find?-sound (is_page org' page') pages p h' in
    let org_same : org' ≡ org = unfold is_page in ground (arith, it, own) in
    let page_same : page' ≡ page = unfold is_page in ground (arith, it, own) in
    let both : find? (is_page org page) pages ≡ some p = rw (← org_same, ← page_same) h' in
    some-inj (sym both ∙ h)
  where
    some-inj : {a b : Page} → some a ≡ some b → a ≡ b
    some-inj e = cc

IsSound-move :
    (org page : ℕ) (current target : Status) (actor : Option ℕ) (version : Option (ℕ × ℕ))
    (db : LandingDb) (q : Page)
    → find? (is_page org page) db.pages ≡ some q
    → (is_live target ≡ false) ⊎ ((is_some version ≡ true) ⊎ (is_live q.status ≡ true))
    → IsSound db
    → IsSound (move org page current target actor version db)
unfolding move
IsSound-move org page current target actor version db q found any_case sound org' page' p h =
    let after =
      find?-update_where (is_page org' page') (is_page org page) (with_status target version)
        db.pages (is_page-with_status org' page' target version) in
    elim (Option-cases (find? (is_page org' page') db.pages)) [
      | inl missing ↦ absurd (ground (arith, after, missing, h))
      | inr (x, there) ↦ elim (Bool-cases (is_page org page x)) [
        | inl it ↦
            let same = page-of-two org page org' page' db.pages x q found there it in
            let e : with_status target version x ≡ p = ground (arith, after, there, it, h) in
            rw (← e) (
              HasVersion-with_status target version x (rw same any_case) (sound org' page' x there))
        | inr other ↦
            let e : x ≡ p = ground (arith, after, there, other, h) in
            rw (← e) (sound org' page' x there)
      ]
    ]

-- The target is not live, or a version comes with it, or only live pages may move there.
abbrev IsGuarded : Status → Option (ℕ × ℕ) → Type 0
IsGuarded target version =
    (is_live target ≡ false)
    ⊎ ((is_some version ≡ true)
        ⊎ ((current : Status) → can_transition current target ≡ true → is_live current ≡ true))

IsSound-transition :
    (org page : ℕ) (target : Status) (actor : Option ℕ) (version : Option (ℕ × ℕ)) (db : LandingDb)
    → IsGuarded target version
    → IsSound db
    → IsSound (transition org page target actor version db).1
unfolding transition
IsSound-transition org page target actor version db guarded sound =
    elim (Option-cases (find? (is_page org page) db.pages)) [
      | inl missing ↦ rw (transition, missing) sound
      | inr (q, found) ↦ elim (Bool-cases (can_transition q.status target)) [
        | inr refused ↦ rw (transition, found, refused) sound
        | inl allowed ↦
            rw (transition, found, allowed)
              (IsSound-move org page q.status target actor version db q found
                (elim guarded [
                  | inl off ↦ inl off
                  | inr (inl set) ↦ inr (inl set)
                  | inr (inr from_live) ↦ inr (inr (from_live q.status allowed))
                ])
                sound)
      ]
    ]

to-published : (current : Status) → can_transition current published ≡ true → is_live current ≡ true
unfolding can_transition is_live
to-published current h = ground arith

to-paused : (current : Status) → can_transition current paused ≡ true → is_live current ≡ true
unfolding can_transition is_live
to-paused current h = ground arith

IsSound-set_approver :
    (version : ℕ) (actor : Option ℕ) (r : Moved × LandingDb)
    → IsSound r.1
    → IsSound (set_approver version actor r).1
unfolding set_approver
IsSound-set_approver version actor (moved s, db) h = h
IsSound-set_approver version actor (not_found, db) h = h
IsSound-set_approver version actor (invalid_transition, db) h = h

IsSound-set_published :
    (now org page : ℕ) (r : Moved × LandingDb)
    → IsSound r.1
    → IsSound (set_published now org page r).1
unfolding set_published
IsSound-set_published now org page (moved s, db) h = h
IsSound-set_published now org page (not_found, db) h = h
IsSound-set_published now org page (invalid_transition, db) h = h

-- Every operation keeps it so that a page which is approved, published or paused has a current
-- version.
pub run_op-IsSound :
    (org page : ℕ) (actor : Option ℕ) (op : Op) (db : LandingDb)
    → IsSound db
    → IsSound (run_op org page actor op db).1
unfolding run_op submit_for_approval pause archive publish select_variant rollback
run_op-IsSound org page actor submit_op db h =
    IsSound-transition org page awaiting_approval actor none db (inl (unfold is_live in refl)) h
run_op-IsSound org page actor pause_op db h =
    IsSound-transition org page paused actor none db (inr (inr to-paused)) h
run_op-IsSound org page actor archive_op db h =
    IsSound-transition org page archived actor none db (inl (unfold is_live in refl)) h
run_op-IsSound org page actor (publish_op now) db h =
    IsSound-set_published now org page (transition org page published actor none db)
      (IsSound-transition org page published actor none db (inr (inr to-published)) h)
run_op-IsSound org page actor (select_op n) db h = elim (Option-cases (version_id db org page n)) [
  | inl missing ↦ rw (select_variant, missing) h
  | inr (v, found) ↦
      rw (select_variant, found)
        (IsSound-set_approver v actor (transition org page approved actor (some (v, n)) db)
          (IsSound-transition org page approved actor (some (v, n)) db (inr (inl refl)) h))
]
run_op-IsSound org page actor (rollback_op n) db h =
    elim (Option-cases (version_id db org page n)) [
      | inl missing ↦ rw (rollback, missing) h
      | inr (v, found) ↦
          rw (rollback, found)
            (IsSound-transition org page approved actor (some (v, n)) db (inr (inl refl)) h)
    ]
