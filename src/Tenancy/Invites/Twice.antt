-- ===== src/Tenancy/Invites/Twice.antt =====
-- Two acceptances of one invite at a time.
use mathlib.Core.Path.{subst}
use growth_operator.Tenancy.Invites.{
  Member, Invite, MemberDb, is_member, add_member, join_org, AcceptResult, accept_by, accepted,
  open_invite,
}
use growth_operator.Prelude.{
  suc, refl, length, any, List, arith, ◌≡◌, false, String, inr, ℕ, ◌+◌, sym, Bool, true, ◌∷◌, ◌++◌,
  length-append, ◌⊎◌, [],
}

joined :
    (user org : ℕ) (role : String) (members : List Member)
    → any (is_member user org) members ≡ false
    → length (add_member user org role members) ≡ suc (length members)
unfolding add_member
joined user org role members new =
    rw new (
      omega
        (arith, length-append {0} members (record { user = user; org = org; role = role } ∷ [])))

any-append :
    (p : Member → Bool) (xs : List Member) (y : Member)
    → any p xs ≡ false
    → p y ≡ false
    → any p (xs ++ y ∷ []) ≡ false
any-append p [] y h k = ground (arith, k)
any-append p (x ∷ xs) y h k = ground (arith, h, k, any-append p xs y)

still_new :
    (u v org : ℕ) (role : String) (members : List Member)
    → (u ≡ v → ⊥)
    → any (is_member u org) members ≡ false
    → any (is_member v org) members ≡ false
    → any (is_member v org) (add_member u org role members) ≡ false
unfolding add_member is_member
still_new u v org role members differ new_u new_v = rw new_u (
    any-append (is_member v org) members record { user = u; org = org; role = role } new_v
      (ground (arith, differ)))

-- Two requests with one token, of two users who are no members, that both make their reads before
-- either writes: both are accepted, and one invite has made two members.
pub one_invite_joins_two :
    (hash : String → String) (now : ℕ) (token : String) (u v : ℕ) (db : MemberDb) (i : Invite)
    → (u ≡ v → ⊥)
    → open_invite hash true now token db ≡ inr i
    → any (is_member u i.org) db.members ≡ false
    → any (is_member v i.org) db.members ≡ false
    → let first = accept_by (open_invite hash true now token db) u db in
      let second = accept_by (open_invite hash true now token db) v first.1 in
      (first.0 ≡ accepted i.org i.role)
      × (second.0 ≡ accepted i.org i.role)
      × (length second.1.members ≡ 2 + length db.members)
unfolding accept_by join_org
one_invite_joins_two hash now token u v db i differ e new_u new_v =
    subst
      (λ (r : AcceptResult ⊎ Invite).
        ((accept_by r u db).0 ≡ accepted i.org i.role)
        × ((accept_by r v (accept_by r u db).1).0 ≡ accepted i.org i.role)
        × (length (accept_by r v (accept_by r u db).1).1.members ≡ 2 + length db.members))
      (sym e)
      (
        refl,
        refl,
        omega (
          arith,
          joined v i.org i.role (add_member u i.org i.role db.members)
              (still_new u v i.org i.role db.members differ new_u new_v),
          joined u i.org i.role db.members new_u,
        ),
      )
