-- ===== src/Landing/Lifecycle/Steps.antt =====
-- The life of a landing page, as its owner's operations lead through it.
use growth_operator.Landing.Lifecycle.{
  Status, approved, published, can_transition, draft, generated, validated, awaiting_approval,
  paused, archived, Op, submit_op, pause_op, archive_op, publish_op, select_op, rollback_op,
}
use growth_operator.Prelude.{arith, ◌≡◌, true, ℕ, refl}

-- The states from which the owner may choose a version.
pub data IsChoosable : Status → Type 0 where
  choose_generated : IsChoosable generated
  choose_validated : IsChoosable validated
  choose_awaiting : IsChoosable awaiting_approval
  choose_published : IsChoosable published
  choose_paused : IsChoosable paused

-- The life of a page, by what its owner does: the operation, and the status before it and after it.
pub data IsStep : Op → Status → Status → Type 0 where
  submit_generated : IsStep submit_op generated awaiting_approval
  submit_validated : IsStep submit_op validated awaiting_approval
  publish_approved : {now : ℕ} → IsStep (publish_op now) approved published
  publish_paused : {now : ℕ} → IsStep (publish_op now) paused published
  pause_published : IsStep pause_op published paused
  select_step : {n : ℕ} {s : Status} → IsChoosable s → IsStep (select_op n) s approved
  rollback_step : {n : ℕ} {s : Status} → IsChoosable s → IsStep (rollback_op n) s approved
  archive_step : {s : Status} → (s ≡ archived → ⊥) → IsStep archive_op s archived

choosable : (s : Status) → can_transition s approved ≡ true → IsChoosable s
unfolding can_transition
choosable draft h = cc
choosable generated h = choose_generated
choosable validated h = choose_validated
choosable awaiting_approval h = choose_awaiting
choosable approved h = cc
choosable published h = choose_published
choosable paused h = choose_paused
choosable archived h = cc

submittable :
    (s : Status) → can_transition s awaiting_approval ≡ true → IsStep submit_op s awaiting_approval
unfolding can_transition
submittable draft h = cc
submittable generated h = submit_generated
submittable validated h = submit_validated
submittable awaiting_approval h = cc
submittable approved h = cc
submittable published h = cc
submittable paused h = cc
submittable archived h = cc

publishable :
    (now : ℕ) (s : Status) → can_transition s published ≡ true → IsStep (publish_op now) s published
unfolding can_transition
publishable now draft h = cc
publishable now generated h = cc
publishable now validated h = cc
publishable now awaiting_approval h = cc
publishable now approved h = publish_approved
publishable now published h = cc
publishable now paused h = publish_paused
publishable now archived h = cc

pausable : (s : Status) → can_transition s paused ≡ true → IsStep pause_op s paused
unfolding can_transition
pausable draft h = cc
pausable generated h = cc
pausable validated h = cc
pausable awaiting_approval h = cc
pausable approved h = cc
pausable published h = pause_published
pausable paused h = cc
pausable archived h = cc

archivable : (s : Status) → can_transition s archived ≡ true → IsStep archive_op s archived
unfolding can_transition
archivable s h = archive_step λ e. ground (arith, h, e)

can_transition-choosable : {s : Status} → IsChoosable s → can_transition s approved ≡ true
unfolding can_transition
can_transition-choosable choose_generated = refl
can_transition-choosable choose_validated = refl
can_transition-choosable choose_awaiting = refl
can_transition-choosable choose_published = refl
can_transition-choosable choose_paused = refl

can_transition-archived : (s : Status) → (s ≡ archived → ⊥) → can_transition s archived ≡ true
unfolding can_transition
can_transition-archived archived h = absurd (h refl)
can_transition-archived _ h = refl

pub can_transition-step : {op : Op} {s t : Status} → IsStep op s t → can_transition s t ≡ true
unfolding can_transition
can_transition-step submit_generated = refl
can_transition-step submit_validated = refl
can_transition-step publish_approved = refl
can_transition-step publish_paused = refl
can_transition-step pause_published = refl
can_transition-step (select_step c) = can_transition-choosable c
can_transition-step (rollback_step c) = can_transition-choosable c
can_transition-step (archive_step {s = s} h) = can_transition-archived s h

-- Where each operation leads.
unfoldable pub aim : Op → Status
aim submit_op = awaiting_approval
aim pause_op = paused
aim archive_op = archived
aim (publish_op now) = published
aim (select_op n) = approved
aim (rollback_op n) = approved

pub aim-step : {op : Op} {s t : Status} → IsStep op s t → t ≡ aim op
unfolding aim
aim-step submit_generated = refl
aim-step submit_validated = refl
aim-step publish_approved = refl
aim-step publish_paused = refl
aim-step pause_published = refl
aim-step (select_step c) = refl
aim-step (rollback_step c) = refl
aim-step (archive_step h) = refl

pub IsStep-aim : (op : Op) (s : Status) → can_transition s (aim op) ≡ true → IsStep op s (aim op)
unfolding aim
IsStep-aim submit_op s h = submittable s h
IsStep-aim pause_op s h = pausable s h
IsStep-aim archive_op s h = archivable s h
IsStep-aim (publish_op now) s h = publishable now s h
IsStep-aim (select_op n) s h = select_step (choosable s h)
IsStep-aim (rollback_op n) s h = rollback_step (choosable s h)
