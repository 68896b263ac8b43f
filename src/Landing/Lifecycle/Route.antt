-- ===== src/Landing/Lifecycle/Route.antt =====
-- How a page comes to be published: by way of the owner's approval.
use growth_operator.Landing.Lifecycle.{Status, approved, published, can_transition}
use growth_operator.Landing.Lifecycle.Live.{is_live}
use growth_operator.Prelude.{
  any, arith, [], ◌≡◌, List, false, ◌∷◌, true, Bool, inl, refl, Bool-cases, inr,
}

-- The statuses that a page passes through by legal transitions, after the first.
pub data Reaches : Status → List Status → Status → Type 0 where
  here : {s : Status} → Reaches s [] s
  step :
      {s t u : Status} {path : List Status}
      → can_transition s t ≡ true
      → Reaches t path u
      → Reaches s (t ∷ path) u

unfoldable pub is_approved : Status → Bool
is_approved approved = true
is_approved _ = false

-- From a page that is not live, the first live status is `approved`.
live_is_approved :
    (s t : Status)
    → can_transition s t ≡ true
    → is_live s ≡ false
    → is_live t ≡ true
    → is_approved t ≡ true
unfolding can_transition is_live is_approved
live_is_approved s t h off on = ground arith

-- A page that starts out neither approved, published nor paused is published only by way of
-- `approved`: whatever legal transitions lead it to `published`, one of them is the approval.
pub Reaches-published-approved :
    {s : Status} {path : List Status}
    → Reaches s path published
    → is_live s ≡ false
    → any is_approved path ≡ true
Reaches-published-approved r off = go r off refl
  where
    go :
        {s u : Status} {path : List Status}
        → Reaches s path u
        → is_live s ≡ false
        → u ≡ published
        → any is_approved path ≡ true
    go here off e = absurd (unfold is_live in ground (arith, e, off))
    go (step {s = s} {t = t} legal rest) off e = elim (Bool-cases (is_live t)) [
      | inl on ↦ ground (arith, live_is_approved s t legal off on)
      | inr still ↦ ground (arith, go rest still e)
    ]
