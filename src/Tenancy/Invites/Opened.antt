-- ===== src/Tenancy/Invites/Opened.antt =====
-- What an invite that opens is, and the seats after it is taken.
use mathlib.Core.Path.{subst}
use growth_operator.Prelude.Counts.{
  filter-append_le, filter-append_eq, filter-update_le, filter-update_lt,
}
use growth_operator.Tenancy.Invites.{
  Member, Invite, MemberDb, has_role, is_outstanding, seats_used, is_member, add_member,
  resolve_invite, join_org, mark_accepted, is_open, check_invite, open_invite, already_accepted,
  invite_expired, invalid_invite,
}
use growth_operator.Prelude.{
  inl, suc, filter, refl, length, ◌≤◌, any, ◌==◌, str_eq, List, arith, Bool-cases, ◌≡◌, some, false,
  String, inr, ℕ, ◌&&◌, sym, ◌∙◌, leb, ap, Bool, true, ltb, is_some, Option-cases, ◌⊎◌,
}

add_member_le :
    (user org : ℕ) (role : String) (org' : ℕ) (role' : String) (members : List Member)
    → length (filter (has_role org' role') (add_member user org role members))
      ≤ suc (length (filter (has_role org' role') members))
unfolding add_member
add_member_le user org role org' role' members =
    elim (Bool-cases (any (is_member user org) members)) [
      | inl known ↦ rw known (omega arith)
      | inr new ↦ rw new (filter-append_le (has_role org' role') members _)
    ]

add_member_eq :
    (user org : ℕ) (role : String) (org' : ℕ) (role' : String) (members : List Member)
    → org == org' && str_eq role role' ≡ false
    → length (filter (has_role org' role') (add_member user org role members))
      ≡ length (filter (has_role org' role') members)
unfolding add_member has_role
add_member_eq user org role org' role' members other =
    elim (Bool-cases (any (is_member user org) members)) [
      | inl known ↦ rw known refl
      | inr new ↦ rw new (filter-append_eq (has_role org' role') members _ other)
    ]

pub join_org_le :
    (now user : ℕ) (h : String) (i : Invite) (org : ℕ) (role : String) (db : MemberDb)
    → resolve_invite h db ≡ some i
    → is_some i.accepted_by ≡ false
    → ltb now i.expires_at ≡ true
    → seats_used now org role (join_org user i db) ≤ seats_used now org role db
unfolding join_org resolve_invite seats_used mark_accepted is_open is_outstanding
join_org_le now user h i org role db found fresh open_still =
    let live = is_outstanding now org role in
    let mark = λ (x : Invite). record x { accepted_by = some user } in
    elim (Bool-cases (i.org == org && str_eq i.role role)) [
      | inr other ↦ omega (
        arith,
        add_member_eq user i.org i.role org role db.members other,
        filter-update_le (is_open i.id) live mark db.invites (λ x l. ground (arith, l)),
      )
      | inl same ↦ omega (
        arith,
        add_member_le user i.org i.role org role db.members,
        filter-update_lt (λ x. str_eq x.token_hash h) (is_open i.id) live mark db.invites i
            (λ x l. ground (arith, l)) found (ground (arith, fresh))
            (ground (arith, same, fresh, open_still)) (ground arith),
      )
    ]

refused-opened : {A B : Type 0} {a : A} {b : B} → ◌≡◌ {A = A ⊎ B} (inl a) (inr b) → ⊥
refused-opened h = cc

opened_same : {A B : Type 0} {a b : B} → ◌≡◌ {A = A ⊎ B} (inr a) (inr b) → a ≡ b
opened_same h = cc

check_invite-open :
    (now : ℕ) (x i : Invite)
    → check_invite now x ≡ inr i
    → (x ≡ i) × (is_some i.accepted_by ≡ false) × (ltb now i.expires_at ≡ true)
unfolding check_invite
check_invite-open now x i e = elim (Bool-cases (is_some x.accepted_by)) [
  | inl used ↦
      let refusal : check_invite now x ≡ inl already_accepted = rw (check_invite, used) refl in
      absurd (refused-opened (sym refusal ∙ e))
  | inr fresh ↦ elim (Bool-cases (leb x.expires_at now)) [
    | inl late ↦
        let refusal : check_invite now x ≡ inl invite_expired =
          rw (check_invite, fresh, late) refl in
        absurd (refused-opened (sym refusal ∙ e))
    | inr early ↦
        let passed : check_invite now x ≡ inr x = rw (check_invite, fresh, early) refl in
        let same : x ≡ i = opened_same (sym passed ∙ e) in
        (
          same,
          subst (λ (y : Invite). is_some y.accepted_by ≡ false) same fresh,
          subst (λ (y : Invite). ltb now y.expires_at ≡ true) same (ground (arith, early)),
        )
  ]
]

pub open_invite-open :
    (hash : String → String) (enabled : Bool) (now : ℕ) (token : String) (db : MemberDb)
    (i : Invite)
    → open_invite hash enabled now token db ≡ inr i
    → (resolve_invite (hash token) db ≡ some i)
      × (is_some i.accepted_by ≡ false)
      × (ltb now i.expires_at ≡ true)
unfolding open_invite
open_invite-open hash false now token db i e = absurd (refused-opened e)
open_invite-open hash true now token db i e = elim (Option-cases (resolve_invite (hash token) db)) [
  | inl missing ↦
      let refusal : open_invite hash true now token db ≡ inl invalid_invite =
        rw (open_invite, missing) refl in
      absurd (refused-opened (sym refusal ∙ e))
  | inr (x, found) ↦
      let passed : open_invite hash true now token db ≡ check_invite now x =
        rw (open_invite, found) refl in
      let (same, fresh, early) = check_invite-open now x i (sym passed ∙ e) in
      (found ∙ ap (λ (y : Invite). some y) same, fresh, early)
]
