-- ===== src/Approvals/Service/Resolved.antt =====
-- An approval is resolved once, and an edit never passes at a higher tier than the approval's.
use growth_operator.Approvals.Engine.{Params, Cel, Rules, evaluate}
use growth_operator.Approvals.Service.{
  Approval, ApprovalDb, Request, ResolveResult, approved, result, resolve, decide, decided, verdict,
  plain_verdict, edit_verdict, is_pending, is_approval, replay, first_result, action_context,
}
use growth_operator.Prelude.{
  ◌≡◌, some, ◌≤◌, find?, ℕ, true, refl, false, arith, ◌==◌, find?-sound, find?-update_where, inl,
  inr, Option-cases,
}

-- The approval after a decision that was made, as the next call finds it.
find-decide :
    (cel : Cel) (rules : Rules) (now org id : ℕ) (req : Request) (row : Approval) (db : ApprovalDb)
    → find? (is_approval id org) db.approvals ≡ some row
    → find? (is_approval id org) (decide cel rules now org id req row db).1.approvals
      ≡ some (decided now req (verdict cel rules now org req row) row)
unfolding decide is_approval decided
find-decide cel rules now org id req row db h =
    let v = verdict cel rules now org req row in
    let own = find?-sound (is_approval id org) db.approvals row h in
    ground (
      arith,
      own,
      find?-update_where (is_approval id org) (λ a. a.id == id) (decided now req v) db.approvals
          (λ x. refl),
    )

verdict-not-pending :
    (cel : Cel) (rules : Rules) (now org : ℕ) (req : Request) (row : Approval)
    → is_pending (verdict cel rules now org req row).status ≡ false
unfolding verdict plain_verdict edit_verdict is_pending
verdict-not-pending cel rules now org req row = ground arith

-- The call that is given a first outcome has decided.
resolve-decides :
    (cel : Cel) (rules : Rules) (now org id : ℕ) (req : Request) (db : ApprovalDb)
    (r : ResolveResult)
    → (resolve cel rules now org id req db).0 ≡ result r
    → r.idempotent_replay ≡ false
    → (row : Approval) × (find? (is_approval id org) db.approvals ≡ some row)
      × (resolve cel rules now org id req db ≡ decide cel rules now org id req row db)
unfolding resolve replay
resolve-decides cel rules now org id req db r h first =
    elim (Option-cases (find? (is_approval id org) db.approvals)) [
      | inl missing ↦ absurd (ground arith)
      | inr (row, found) ↦ (row, found, ground (arith, found))
    ]

resolve-again :
    (cel : Cel) (rules : Rules) (now org id : ℕ) (req : Request) (db : ApprovalDb) (row : Approval)
    → find? (is_approval id org) db.approvals ≡ some row
    → is_pending row.status ≡ false
    → resolve cel rules now org id req db ≡ (result (replay row), db)
unfolding resolve
resolve-again cel rules now org id req db row found settled = ground (arith, found, settled)

first_result-fields :
    (cel : Cel) (rules : Rules) (now org id : ℕ) (req : Request) (row : Approval) (db : ApprovalDb)
    (r : ResolveResult)
    → (decide cel rules now org id req row db).0 ≡ result r
    → let q = replay (decided now req (verdict cel rules now org req row) row) in
      (q.status ≡ r.status) × (q.edited ≡ r.edited) × (q.note ≡ r.note)
unfolding decide first_result replay decided
first_result-fields cel rules now org id req row db r h = ground arith

-- A resolution that was decided is replayed to any later call: whoever asks again, whatever the
-- decision, the edit, the rules and the time, is given the status, the note and the edited flag of
-- the first outcome, and nothing changes, neither the approval nor the outbox.
pub resolve-replays :
    (cel : Cel) (rules : Rules) (now org id : ℕ) (req : Request) (db : ApprovalDb)
    (r : ResolveResult) (cel' : Cel) (rules' : Rules) (now' : ℕ) (req' : Request)
    → (resolve cel rules now org id req db).0 ≡ result r
    → r.idempotent_replay ≡ false
    → let db' = (resolve cel rules now org id req db).1 in
      (q : ResolveResult) × (resolve cel' rules' now' org id req' db' ≡ (result q, db'))
      × (q.status ≡ r.status)
      × (q.edited ≡ r.edited)
      × (q.note ≡ r.note)
      × (q.idempotent_replay ≡ true)
resolve-replays cel rules now org id req db r cel' rules' now' req' h first =
    let (row, found, made) = resolve-decides cel rules now org id req db r h first in
    let v = verdict cel rules now org req row in
    let q = replay (decided now req v row) in
    let kept = find-decide cel rules now org id req row db found in
    let shut : is_pending (decided now req v row).status ≡ false =
      unfold decided in verdict-not-pending cel rules now org req row in
    let (status, edited, note) =
      first_result-fields cel rules now org id req row db r (rw (← made) h) in
    (
      q,
      rw made (resolve-again cel' rules' now' org id req' _ (decided now req v row) kept shut),
      status,
      edited,
      note,
      unfold replay in refl,
    )

-- An approval that is granted with an edit does not exceed the authority it was asked for: the
-- engine gives the edited action a tier of at most the approval's.
pub approved_edit-within-tier :
    (cel : Cel) (rules : Rules) (now org id : ℕ) (req : Request) (db : ApprovalDb)
    (r : ResolveResult) (row : Approval) (edited : Params)
    → find? (is_approval id org) db.approvals ≡ some row
    → req.edited_payload ≡ some edited
    → (resolve cel rules now org id req db).0 ≡ result r
    → r.idempotent_replay ≡ false
    → r.status ≡ approved
    → (evaluate cel rules (action_context org row.action_type edited) now).tier ≤ row.tier
unfolding resolve decide verdict edit_verdict plain_verdict replay first_result
approved_edit-within-tier cel rules now org id req db r row edited found e h first ok = ground arith
