-- ===== src/Tenancy/Invites/Seats.antt =====
-- Members and outstanding invites stay within the plan.
use mathlib.Core.Path.{subst}
use growth_operator.Prelude.Counts.{filter-append_le, filter-append_eq}
use growth_operator.Tenancy.Invites.{
  Invite, Plan, MemberDb, cap_of, is_outstanding, seats_used, insert_invite, check_seat,
  create_invite, invite_ttl, check_plan_seat, check_cap, seats_full, SeatCheck, invite_by,
  InviteResult, Refusal, permission_denied, not_enabled, forbidden, join_org, AcceptResult,
  accept_by, accept_invite, open_invite,
}
use growth_operator.Prelude.{
  inl, suc, filter, refl, length, ◌≤◌, ◌==◌, str_eq, List, arith, Bool-cases, ◌≡◌, some, false,
  String, inr, ℕ, ◌&&◌, length-filter_mono, ◌<◌, none, ◌+◌, sym, ◌∙◌, str_eq_iff, leb, ap, Bool,
  if◌then◌else◌, not, true, Option, ◌⊎◌,
}
use growth_operator.Tenancy.Permissions.{has_permission, members_invite, can_grant_role}
use growth_operator.Tenancy.Invites.Opened.{join_org_le, open_invite-open}

-- The seats in use for a role with a limit are at most the limit.
abbrev pub WithinPlan : ℕ → MemberDb → Type 0
WithinPlan now db =
    (org : ℕ) (role : String) (plan : Plan) (limit : ℕ)
    → db.plan_of org ≡ some plan
    → cap_of role plan ≡ some limit
    → str_eq role "owner" ≡ false
    → seats_used now org role db ≤ limit

-- Time only frees seats.
outstanding_le :
    (now later org : ℕ) (role : String) (invites : List Invite)
    → now ≤ later
    → length (filter (is_outstanding later org role) invites)
      ≤ length (filter (is_outstanding now org role) invites)
unfolding is_outstanding
outstanding_le now later org role invites le =
    length-filter_mono (is_outstanding later org role) (is_outstanding now org role) invites
      (λ i h. ground (arith, le, h))

WithinPlan-later :
    (now later : ℕ) (db : MemberDb) → now ≤ later → WithinPlan now db → WithinPlan later db
unfolding seats_used
WithinPlan-later now later db le h org role plan limit p c o =
    omega (arith, h org role plan limit p c o, outstanding_le now later org role db.invites le)

-- An insert takes one seat of its role.
insert_invite_le :
    (now now' org : ℕ) (role h : String) (org' : ℕ) (role' : String) (db : MemberDb)
    → seats_used now' org' role' (insert_invite now org role h db)
      ≤ suc (seats_used now' org' role' db)
unfolding seats_used insert_invite
insert_invite_le now now' org role h org' role' db =
    omega (arith, filter-append_le (is_outstanding now' org' role') db.invites _)

insert_invite_eq :
    (now now' org : ℕ) (role h : String) (org' : ℕ) (role' : String) (db : MemberDb)
    → org == org' && str_eq role role' ≡ false
    → seats_used now' org' role' (insert_invite now org role h db) ≡ seats_used now' org' role' db
unfolding seats_used insert_invite
insert_invite_eq now now' org role h org' role' db other = omega (
  arith,
  filter-append_eq (is_outstanding now' org' role') db.invites
      record {
        id = length db.invites;
        org = org;
        role = role;
        token_hash = h;
        expires_at = now + invite_ttl;
        accepted_by = none;
      }
      (elsewhere other),
)
  where
    elsewhere :
        org == org' && str_eq role role' ≡ false
        → is_outstanding now' org' role' record {
          id = length db.invites;
          org = org;
          role = role;
          token_hash = h;
          expires_at = now + invite_ttl;
          accepted_by = none;
        }
          ≡ false
    elsewhere e = unfold is_outstanding in ground (arith, e)

-- A check without a refusal leaves a seat.
seat_free :
    (now org : ℕ) (role : String) (db : MemberDb) (plan : Plan) (limit : ℕ)
    → db.plan_of org ≡ some plan
    → cap_of role plan ≡ some limit
    → str_eq role "owner" ≡ false
    → (check_seat now org role db).refusal ≡ none
    → seats_used now org role db < limit
unfolding check_seat check_plan_seat check_cap
seat_free now org role db plan limit p c o free =
    let used = seats_used now org role db in
    let e : check_seat now org role db ≡ check_cap (some limit) role used =
      (λ i.
        if o i
        then record { refusal = none; used = 0; limit = none }
        else check_plan_seat (p i) role used)
      ∙ (λ i. check_cap (c i) role used) in
    let refusal : (if leb limit used then some (seats_full role limit) else none) ≡ none =
      sym (ap (λ (s : SeatCheck). s.refusal) e) ∙ free in
    ground (arith, refusal)

WithinPlan-insert :
    (now org : ℕ) (role h : String) (db : MemberDb)
    → (check_seat now org role db).refusal ≡ none
    → WithinPlan now db
    → WithinPlan now (insert_invite now org role h db)
unfolding insert_invite
WithinPlan-insert now org role h db free within org' role' plan limit p c o =
    elim (Bool-cases (org == org' && str_eq role role')) [
      | inr other ↦ omega (
        arith,
        within org' role' plan limit p c o,
        insert_invite_eq now now org role h org' role' db other,
      )
      | inl same ↦
          let same_org : org ≡ org' = ground (arith, same) in
          let same_role = (str_eq_iff role role').0 (ground (arith, same)) in
          let free' =
            subst (λ (n : ℕ). (check_seat now n role' db).refusal ≡ none) same_org
              (subst (λ (r : String). (check_seat now org r db).refusal ≡ none) same_role free) in
          omega (
            arith,
            seat_free now org' role' db plan limit p c o free',
            insert_invite_le now now org role h org' role' db,
          )
    ]

pub either :
    (now : ℕ) (b : Bool) (x y : InviteResult × MemberDb)
    → WithinPlan now x.1
    → WithinPlan now y.1
    → WithinPlan now (if b then x else y).1
either now true x y h k = h
either now false x y h k = k

WithinPlan-invite_by :
    (refusal : Option Refusal) (now org : ℕ) (role h : String) (db : MemberDb)
    → (check_seat now org role db).refusal ≡ refusal
    → WithinPlan now db
    → WithinPlan now (invite_by refusal now org role h db).1
unfolding invite_by
WithinPlan-invite_by none now org role h db e within = WithinPlan-insert now org role h db e within
WithinPlan-invite_by (some refusal) now org role h db e within = within

WithinPlan-create_invite :
    (hash : String → String) (enabled : Bool) (now org : ℕ) (roles : List String)
    (role token : String) (db : MemberDb)
    → WithinPlan now db
    → WithinPlan now (create_invite hash enabled now org roles role token db).1
unfolding create_invite
WithinPlan-create_invite hash enabled now org roles role token db within =
    either now (not (has_permission roles members_invite)) (permission_denied, db) _ within
      (either now (not enabled) (not_enabled, db) _ within
        (either now (not (can_grant_role roles role)) (forbidden, db)
          (invite_by (check_seat now org role db).refusal now org role (hash token) db) within
          (WithinPlan-invite_by (check_seat now org role db).refusal now org role (hash token) db
            refl within)))

WithinPlan-accept_by :
    (hash : String → String) (enabled : Bool) (now : ℕ) (token : String) (user : ℕ) (db : MemberDb)
    (r : AcceptResult ⊎ Invite)
    → open_invite hash enabled now token db ≡ r
    → WithinPlan now db
    → WithinPlan now (accept_by r user db).1
unfolding accept_by join_org
WithinPlan-accept_by hash enabled now token user db (inl refusal) e within = within
WithinPlan-accept_by hash enabled now token user db (inr i) e within = λ org role plan limit p c o.
    let (found, fresh, early) = open_invite-open hash enabled now token db i e in
    omega (
      arith,
      within org role plan limit p c o,
      join_org_le now user (hash token) i org role db found fresh early,
    )

-- Where the members and the outstanding invites of each capped role of each organisation are within the
-- limit of its plan, they are so at any later time, after a request for an invite, whatever its answer,
-- and after an acceptance, whatever its answer.
pub requests-WithinPlan :
    (hash : String → String) (enabled : Bool) (now later : ℕ) (org : ℕ) (roles : List String)
    (role token : String) (user : ℕ) (db : MemberDb)
    → now ≤ later
    → WithinPlan now db
    → WithinPlan later db
      × WithinPlan later (create_invite hash enabled later org roles role token db).1
      × WithinPlan later (accept_invite hash enabled later token user db).1
unfolding accept_invite
requests-WithinPlan hash enabled now later org roles role token user db le within =
    let then_too = WithinPlan-later now later db le within in
    (
      then_too,
      WithinPlan-create_invite hash enabled later org roles role token db then_too,
      WithinPlan-accept_by hash enabled later token user db
          (open_invite hash enabled later token db) refl then_too,
    )
