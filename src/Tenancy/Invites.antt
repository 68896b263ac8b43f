-- ===== src/Tenancy/Invites.antt =====
-- core/tenancy/seats.py and invites.py: the seats that a plan grants, the invites that take them, and
-- their acceptance. `hash` is SHA-256; the plan is the one of the active subscription. `accept_invite`
-- is a read and a write, between which other requests run.
pub mod Twice
pub mod Opened
pub mod Seats
mod Tests
use growth_operator.Prelude.{
  String, ℕ, Bool, ◌∷◌, ◌==◌, not, ltb, [], some, find?, str_eq, ◌⊎◌, leb, inl, inr, if◌then◌else◌,
  is_some, update_where, ◌&&◌, none, any, ◌+◌, List, length, Option, ◌++◌, filter,
}
use growth_operator.Tenancy.Permissions.{members_invite, has_permission, can_grant_role}

pub record Member : Type 0 where
  pub user : ℕ
  pub org : ℕ
  pub role : String

-- A row of `invites`.
pub record Invite : Type 0 where
  pub id : ℕ
  pub org : ℕ
  pub role : String
  pub token_hash : String
  pub expires_at : ℕ
  pub accepted_by : Option ℕ

pub record Plan : Type 0 where
  pub max_managers : ℕ
  pub max_staff : ℕ

pub record MemberDb : Type 0 where
  pub plan_of : ℕ → Option Plan
  pub members : List Member
  pub invites : List Invite

-- `_SEAT_COLUMN`, read from the plan
unfoldable pub cap_of : String → Plan → Option ℕ
cap_of role plan =
    if str_eq role "manager"
    then some plan.max_managers
    else if str_eq role "staff"
    then some plan.max_staff
    else none

unfoldable pub has_role : ℕ → String → Member → Bool
has_role org role m = m.org == org && str_eq m.role role

-- `role = :r AND accepted_at IS NULL AND expires_at > now()`
unfoldable pub is_outstanding : ℕ → ℕ → String → Invite → Bool
is_outstanding now org role i =
    i.org == org && str_eq i.role role && not (is_some i.accepted_by) && ltb now i.expires_at

-- `used`
unfoldable pub seats_used : ℕ → ℕ → String → MemberDb → ℕ
unfolding has_role is_outstanding
seats_used now org role db =
    length (filter (has_role org role) db.members)
    + length (filter (is_outstanding now org role) db.invites)

pub data Refusal : Type 0 where
  no_plan : Refusal
  seats_full : String → ℕ → Refusal

pub record SeatCheck : Type 0 where
  pub refusal : Option Refusal
  pub used : ℕ
  pub limit : Option ℕ

-- The check of a role with a seat column.
unfoldable pub check_cap : Option ℕ → String → ℕ → SeatCheck
check_cap none role used = record { refusal = none; used = 0; limit = none }
check_cap (some limit) role used = record {
  refusal = if leb limit used then some (seats_full role limit) else none;
  used = used;
  limit = some limit;
}

-- The check where there may be a plan.
unfoldable pub check_plan_seat : Option Plan → String → ℕ → SeatCheck
unfolding check_cap cap_of
check_plan_seat none role used = record { refusal = some no_plan; used = 0; limit = none }
check_plan_seat (some plan) role used = check_cap (cap_of role plan) role used

-- `check_seat`
unfoldable pub check_seat : ℕ → ℕ → String → MemberDb → SeatCheck
unfolding check_plan_seat seats_used
check_seat now org role db =
    if str_eq role "owner"
    then record { refusal = none; used = 0; limit = none }
    else check_plan_seat (db.plan_of org) role (seats_used now org role db)

-- The HTTP answers.
pub data InviteResult : Type 0 where
  not_enabled : InviteResult
  permission_denied : InviteResult
  forbidden : InviteResult
  conflict : Refusal → InviteResult
  invited : ℕ → InviteResult

-- `INVITE_TTL`, in seconds
abbrev pub invite_ttl : ℕ
invite_ttl = 604800

unfoldable pub insert_invite : ℕ → ℕ → String → String → MemberDb → MemberDb
insert_invite now org role token_hash db = record db {
  invites =
      db.invites
      ++ (record {
        id = length db.invites;
        org = org;
        role = role;
        token_hash = token_hash;
        expires_at = now + invite_ttl;
        accepted_by = none;
      }
          ∷ []);
}

-- The end of `create_invite`, after the seat check.
unfoldable pub invite_by :
    Option Refusal → ℕ → ℕ → String → String → MemberDb → InviteResult × MemberDb
unfolding insert_invite
invite_by (some refusal) now org role token_hash db = (conflict refusal, db)
invite_by none now org role token_hash db =
    (invited (length db.invites), insert_invite now org role token_hash db)

-- `create_invite` of a caller with these roles
unfoldable pub create_invite :
    (String → String)
    → Bool
    → ℕ
    → ℕ
    → List String
    → String
    → String
    → MemberDb
    → InviteResult × MemberDb
unfolding check_seat invite_by has_permission can_grant_role
create_invite hash enabled now org roles role token db =
    if not (has_permission roles members_invite)
    then (permission_denied, db)
    else if not enabled
    then (not_enabled, db)
    else if not (can_grant_role roles role)
    then (forbidden, db)
    else invite_by (check_seat now org role db).refusal now org role (hash token) db

-- `resolve_invite`
unfoldable pub resolve_invite : String → MemberDb → Option Invite
resolve_invite token_hash db = find? (λ i. str_eq i.token_hash token_hash) db.invites

pub data AcceptResult : Type 0 where
  accept_not_enabled : AcceptResult
  invalid_invite : AcceptResult
  already_accepted : AcceptResult
  invite_expired : AcceptResult
  accepted : ℕ → String → AcceptResult

-- The reads and tests of `accept_invite`: a refusal, or the invite that it goes on with.
unfoldable pub check_invite : ℕ → Invite → AcceptResult ⊎ Invite
check_invite now i =
    if is_some i.accepted_by
    then inl already_accepted
    else if leb i.expires_at now
    then inl invite_expired
    else inr i

unfoldable pub open_invite :
    (String → String) → Bool → ℕ → String → MemberDb → AcceptResult ⊎ Invite
unfolding resolve_invite check_invite
open_invite hash enabled now token db =
    if not enabled then inl accept_not_enabled else elim (resolve_invite (hash token) db) [
      | none ↦ inl invalid_invite
      | some i ↦ check_invite now i
    ]

unfoldable pub is_member : ℕ → ℕ → Member → Bool
is_member user org m = m.user == user && m.org == org

-- `INSERT INTO user_orgs ... ON CONFLICT (user_id, org_id) DO NOTHING`
unfoldable pub add_member : ℕ → ℕ → String → List Member → List Member
unfolding is_member
add_member user org role members =
    if any (is_member user org) members
    then members
    else members ++ (record { user = user; org = org; role = role } ∷ [])

unfoldable pub is_open : ℕ → Invite → Bool
is_open id i = i.id == id && not (is_some i.accepted_by)

-- `mark_accepted`
unfoldable pub mark_accepted : ℕ → ℕ → List Invite → List Invite
unfolding is_open
mark_accepted id user invites =
    update_where (is_open id) (λ i. record i { accepted_by = some user }) invites

-- The writes of `accept_invite`.
unfoldable pub join_org : ℕ → Invite → MemberDb → MemberDb
unfolding add_member mark_accepted
join_org user i db = record db {
  members = add_member user i.org i.role db.members;
  invites = mark_accepted i.id user db.invites;
}

-- `accept_invite` after its reads.
unfoldable pub accept_by : AcceptResult ⊎ Invite → ℕ → MemberDb → AcceptResult × MemberDb
unfolding join_org
accept_by (inl refusal) user db = (refusal, db)
accept_by (inr i) user db = (accepted i.org i.role, join_org user i db)

-- `accept_invite`
unfoldable pub accept_invite :
    (String → String) → Bool → ℕ → String → ℕ → MemberDb → AcceptResult × MemberDb
unfolding open_invite accept_by
accept_invite hash enabled now token user db =
    accept_by (open_invite hash enabled now token db) user db
