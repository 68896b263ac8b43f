-- ===== src/Tenancy/Permissions.antt =====
-- core/tenancy/permissions.py and rbac.py: the roles of a store, what they may do, and which roles
-- their holders may grant.
pub mod Grants
use growth_operator.Prelude.{
  String, if◌then◌else◌, Bool, some, filter, Option, max, false, leb, List, [], none, str_eq,
  contains, ◌++◌, ℕ, ◌∷◌, ◌&&◌, true,
}

abbrev pub members_invite : String
members_invite = "members:invite"

-- `ALL_ROLES`
unfoldable pub all_roles : List String
all_roles = "owner" ∷ "manager" ∷ "staff" ∷ "viewer" ∷ []

-- The ranks of the owner, the manager, the staff and the viewer, by which of them a role is.
unfoldable pub rank_by : Bool → Bool → Bool → Bool → Option ℕ
rank_by true is_manager is_staff is_viewer = some 3
rank_by false true is_staff is_viewer = some 2
rank_by false false true is_viewer = some 1
rank_by false false false true = some 0
rank_by false false false false = none

-- `ROLE_RANK.get(role)`
unfoldable pub role_rank : String → Option ℕ
unfolding rank_by
role_rank role =
    rank_by (str_eq role "owner") (str_eq role "manager") (str_eq role "staff")
      (str_eq role "viewer")

-- `ALL_PERMISSIONS`
unfoldable pub all_permissions : List String
all_permissions =
    "approvals:read" ∷ "approvals:resolve" ∷ "catalog:read" ∷ "catalog:write" ∷ "conversations:read"
    ∷ "conversations:respond" ∷ "customers:read" ∷ "customers:write" ∷ "campaigns:read"
    ∷ "campaigns:send" ∷ "insights:read" ∷ "members:invite" ∷ "members:manage" ∷ "org:manage"
    ∷ "billing:manage" ∷ []

unfoldable pub manager_permissions : List String
manager_permissions =
    "approvals:read" ∷ "approvals:resolve" ∷ "catalog:read" ∷ "catalog:write" ∷ "conversations:read"
    ∷ "conversations:respond" ∷ "customers:read" ∷ "customers:write" ∷ "campaigns:read"
    ∷ "campaigns:send" ∷ "insights:read" ∷ "members:invite" ∷ []

unfoldable pub staff_permissions : List String
staff_permissions =
    "approvals:read" ∷ "approvals:resolve" ∷ "catalog:read" ∷ "conversations:read"
    ∷ "conversations:respond" ∷ "customers:read" ∷ "insights:read" ∷ []

unfoldable pub viewer_permissions : List String
viewer_permissions =
    "approvals:read" ∷ "catalog:read" ∷ "conversations:read" ∷ "customers:read" ∷ "campaigns:read"
    ∷ "insights:read" ∷ []

-- The values of `ROLE_PERMISSIONS`, by which of the four a role is.
unfoldable pub permissions_by : Bool → Bool → Bool → Bool → List String
unfolding all_permissions manager_permissions staff_permissions viewer_permissions
permissions_by true is_manager is_staff is_viewer = all_permissions
permissions_by false true is_staff is_viewer = manager_permissions
permissions_by false false true is_viewer = staff_permissions
permissions_by false false false true = viewer_permissions
permissions_by false false false false = []

-- `ROLE_PERMISSIONS.get(role, frozenset())`
unfoldable pub role_permissions : String → List String
unfolding permissions_by
role_permissions role =
    permissions_by (str_eq role "owner") (str_eq role "manager") (str_eq role "staff")
      (str_eq role "viewer")

unfoldable pub permissions_for : List String → List String
unfolding role_permissions
permissions_for [] = []
permissions_for (role ∷ roles) = role_permissions role ++ permissions_for roles

unfoldable pub has_permission : List String → String → Bool
unfolding permissions_for
has_permission roles permission = contains permission (permissions_for roles)

-- The greater rank, `none` being -1.
unfoldable pub max_rank_of : Option ℕ → Option ℕ → Option ℕ
max_rank_of none r = r
max_rank_of (some m) none = some m
max_rank_of (some m) (some n) = some (max m n)

-- `_max_rank`
unfoldable pub max_rank : List String → Option ℕ
unfolding role_rank max_rank_of
max_rank [] = none
max_rank (role ∷ roles) = max_rank_of (role_rank role) (max_rank roles)

-- `ROLE_RANK.get(target, 99) <= rank`
unfoldable pub is_within : Option ℕ → Option ℕ → Bool
is_within none none = false
is_within none (some m) = leb 99 m
is_within (some t) none = false
is_within (some t) (some m) = leb t m

unfoldable pub can_grant_role : List String → String → Bool
unfolding all_roles role_rank max_rank is_within
can_grant_role actor_roles target =
    contains target all_roles && is_within (role_rank target) (max_rank actor_roles)

unfoldable pub assignable_roles : List String → List String
unfolding all_roles role_rank max_rank is_within
assignable_roles actor_roles =
    filter (λ r. is_within (role_rank r) (max_rank actor_roles)) all_roles
