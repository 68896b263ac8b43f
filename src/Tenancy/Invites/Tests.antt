-- ===== src/Tenancy/Invites/Tests.antt =====
-- Invites at concrete inputs, and the theorems applied to them.
use growth_operator.Tenancy.Permissions.{
  role_permissions, has_permission, can_grant_role, assignable_roles,
}
use growth_operator.Tenancy.Permissions.Grants.{granted_role-adds-nothing}
use growth_operator.Tenancy.Invites.{
  Invite, MemberDb, create_invite, accept_invite, conflict, invited, seats_full, accepted,
  open_invite, accept_by, invite_expired, is_member, seats_used,
}
use growth_operator.Tenancy.Invites.Seats.{WithinPlan, requests-WithinPlan}
use growth_operator.Tenancy.Invites.Twice.{one_invite_joins_two}
use growth_operator.Prelude.{String, false, length, [], arith, ◌≡◌, true, some, refl, none, ◌∷◌}

abbrev same_text : String → String
same_text token = token

abbrev invite_of_two : Invite
invite_of_two = record {
  id = 0;
  org = 1;
  role = "staff";
  token_hash = "goinv_x";
  expires_at = 900;
  accepted_by = none;
}

abbrev empty_shop : MemberDb
empty_shop = record {
  plan_of = λ org. some record { max_managers = 1; max_staff = 1 };
  members = [];
  invites = [];
}

abbrev shop : MemberDb
shop = record empty_shop {
  members = record { user = 5; org = 1; role = "owner" } ∷ [];
  invites = invite_of_two ∷ [];
}

full_seats :
    (create_invite same_text true 100 1 ("owner" ∷ []) "staff" "goinv_y" shop).0
    ≡ conflict (seats_full "staff" 1)
unfolding create_invite
full_seats = refl

free_manager_seat :
    (create_invite same_text true 100 1 ("owner" ∷ []) "manager" "goinv_y" shop).0 ≡ invited 1
unfolding create_invite
free_manager_seat = refl

late_accept : (accept_invite same_text true 900 "goinv_x" 7 shop).0 ≡ invite_expired
unfolding accept_invite
late_accept = refl

manager_assigns : assignable_roles ("manager" ∷ []) ≡ "manager" ∷ "staff" ∷ "viewer" ∷ []
unfolding assignable_roles
manager_assigns = refl

staff_may_name_viewer :
    (can_grant_role ("staff" ∷ []) "viewer" ≡ true)
    × (has_permission ("viewer" ∷ []) "campaigns:read" ≡ true)
    × (has_permission ("staff" ∷ []) "campaigns:read" ≡ false)
unfolding can_grant_role has_permission
staff_may_name_viewer = (refl, refl, refl)

granted_role-adds-nothing_example : has_permission ("manager" ∷ []) "catalog:read" ≡ true
unfolding has_permission can_grant_role role_permissions
granted_role-adds-nothing_example =
    granted_role-adds-nothing ("manager" ∷ []) "staff" "catalog:read" refl refl refl

requests-WithinPlan_example :
    WithinPlan 200 empty_shop
    × WithinPlan 200
        (create_invite same_text true 200 1 ("owner" ∷ []) "staff" "goinv_y" empty_shop).1
    × WithinPlan 200 (accept_invite same_text true 200 "goinv_y" 7 empty_shop).1
unfolding seats_used
requests-WithinPlan_example =
    requests-WithinPlan same_text true 100 200 1 ("owner" ∷ []) "staff" "goinv_y" 7 empty_shop
      (omega arith) (λ org role plan limit p c o. omega arith)

one_invite_joins_two_example :
    let first = accept_by (open_invite same_text true 100 "goinv_x" shop) 7 shop in
    let second = accept_by (open_invite same_text true 100 "goinv_x" shop) 8 first.1 in
    (first.0 ≡ accepted 1 "staff") × (second.0 ≡ accepted 1 "staff") × (length second.1.members ≡ 3)
unfolding open_invite is_member
one_invite_joins_two_example =
    one_invite_joins_two same_text 100 "goinv_x" 7 8 shop invite_of_two (λ e. omega (arith, e)) refl
      refl refl
