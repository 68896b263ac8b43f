-- ===== src/Tenancy/Permissions/Grants.antt =====
-- A granted role adds no permission.
use mathlib.Core.Path.{subst}
use growth_operator.Tenancy.Permissions.{
  members_invite, all_roles, rank_by, role_rank, all_permissions, manager_permissions,
  staff_permissions, viewer_permissions, permissions_by, role_permissions, permissions_for,
  has_permission, max_rank_of, max_rank, is_within, can_grant_role,
}
use growth_operator.Prelude.{
  sym, inr, String, contains, ◌∙◌, ◌++◌, ◌∷◌, true, none, List, Option, ◌&&◌, Bool, some,
  Bool-cases, str_eq_iff, inl, refl, false, ◌||◌, ℕ, ◌≡◌, str_eq, [], str_eq_refl, ◌⊎◌, ◌≤◌, arith,
}

contains-append :
    (p : String) (xs ys : List String) → contains p (xs ++ ys) ≡ contains p xs || contains p ys
contains-append p [] ys = refl
contains-append p (x ∷ xs) ys = ground (arith, contains-append p xs ys)

or-left : (a b : Bool) → a ≡ true → a || b ≡ true
or-left true b h = refl
or-left false b h = cc

or-right : (a b : Bool) → b ≡ true → a || b ≡ true
or-right true b h = refl
or-right false b h = h

-- Every text of the one list is in the other.
abbrev is_subset : List String → List String → Bool
is_subset [] ys = true
is_subset (x ∷ xs) ys = contains x ys && is_subset xs ys

contains-subset :
    (p : String) (xs ys : List String)
    → is_subset xs ys ≡ true
    → contains p xs ≡ true
    → contains p ys ≡ true
contains-subset p [] ys h k = absurd (ground (arith, k))
contains-subset p (x ∷ xs) ys h k = elim (Bool-cases (str_eq p x)) [
  | inl same ↦
      subst (λ (t : String). contains t ys ≡ true) (sym ((str_eq_iff p x).0 same))
        (ground (arith, h))
  | inr other ↦ contains-subset p xs ys (ground (arith, h)) (ground (arith, k, other))
]

contains-cons :
    (s t : String) (ts : List String)
    → contains s (t ∷ ts) ≡ true
    → (str_eq s t ≡ true) ⊎ (contains s ts ≡ true)
contains-cons s t ts h = elim (Bool-cases (str_eq s t)) [
  | inl same ↦ inl same
  | inr other ↦ inr (ground (arith, h, other))
]

or-cases : (a b : Bool) → a || b ≡ true → (a ≡ true) ⊎ (b ≡ true)
or-cases true b h = inl refl
or-cases false b h = inr h

-- What one of the roles grants.
has-of-role :
    (p role : String) (roles : List String)
    → contains role roles ≡ true
    → contains p (role_permissions role) ≡ true
    → contains p (permissions_for roles) ≡ true
unfolding permissions_for
has-of-role p role [] m h = absurd (ground (arith, m))
has-of-role p role (r ∷ roles) m h =
    contains-append p (role_permissions r) (permissions_for roles)
    ∙ elim (contains-cons role r roles m) [
      | inl same ↦ or-left (contains p (role_permissions r)) (contains p (permissions_for roles)) (
          subst (λ (t : String). contains p (role_permissions t) ≡ true)
            ((str_eq_iff role r).0 same) h)
      | inr later ↦
          or-right (contains p (role_permissions r)) (contains p (permissions_for roles))
            (has-of-role p role roles later h)
    ]

-- A role among the roles that grants it.
role-of-has :
    (p : String) (roles : List String)
    → contains p (permissions_for roles) ≡ true
    → (role : String) × (contains role roles ≡ true) × (contains p (role_permissions role) ≡ true)
unfolding permissions_for
role-of-has p [] h = absurd (ground (arith, h))
role-of-has p (r ∷ roles) h =
    elim (or-cases (contains p (role_permissions r)) (contains p (permissions_for roles))
      (sym (contains-append p (role_permissions r) (permissions_for roles)) ∙ h)) [
        | inl own ↦ (r, or-left (str_eq r r) (contains r roles) (str_eq_refl r), own)
        | inr later ↦
            let (role, m, g) = role-of-has p roles later in
            (role, or-right (str_eq role r) (contains role roles) m, g)
      ]

-- Who may invite.
inviter_by :
    (o m s v : Bool)
    → contains members_invite (permissions_by o m s v) ≡ true
    → (o ≡ true) ⊎ (m ≡ true)
unfolding permissions_by all_permissions manager_permissions staff_permissions viewer_permissions
inviter_by true m s v h = inl refl
inviter_by false true s v h = inr refl
inviter_by false false true v h = absurd (ground (arith, h))
inviter_by false false false true h = absurd (ground (arith, h))
inviter_by false false false false h = absurd (ground (arith, h))

within_owner :
    (p : String) (o m s v : Bool)
    → contains p (permissions_by o m s v) ≡ true
    → contains p (role_permissions "owner") ≡ true
unfolding permissions_by role_permissions all_permissions manager_permissions staff_permissions
    viewer_permissions
within_owner p true m s v h = h
within_owner p false true s v h = contains-subset p manager_permissions all_permissions refl h
within_owner p false false true v h = contains-subset p staff_permissions all_permissions refl h
within_owner p false false false true h =
    contains-subset p viewer_permissions all_permissions refl h
within_owner p false false false false h = contains-subset p [] all_permissions refl h

within_manager :
    (p : String) (m s v : Bool)
    → contains p (permissions_by false m s v) ≡ true
    → contains p (role_permissions "manager") ≡ true
unfolding permissions_by role_permissions manager_permissions staff_permissions viewer_permissions
within_manager p true s v h = h
within_manager p false true v h = contains-subset p staff_permissions manager_permissions refl h
within_manager p false false true h =
    contains-subset p viewer_permissions manager_permissions refl h
within_manager p false false false h = contains-subset p [] manager_permissions refl h

-- Under the owner's rank.
abbrev IsUnder : Option ℕ → Type 0
IsUnder none = Unit
IsUnder (some n) = n ≤ 2

IsUnder-rank_by : (m s v : Bool) → IsUnder (rank_by false m s v)
unfolding rank_by
IsUnder-rank_by true s v = omega arith
IsUnder-rank_by false true v = omega arith
IsUnder-rank_by false false true = omega arith
IsUnder-rank_by false false false = tt

IsUnder-max : (a b : Option ℕ) → IsUnder a → IsUnder b → IsUnder (max_rank_of a b)
unfolding max_rank_of
IsUnder-max none b h k = k
IsUnder-max (some m) none h k = h
IsUnder-max (some m) (some n) h k = omega arith

contradict : {b : Bool} → b ≡ true → b ≡ false → ⊥
contradict p q = cc

IsUnder-max_rank : (roles : List String) → contains "owner" roles ≡ false → IsUnder (max_rank roles)
unfolding max_rank role_rank
IsUnder-max_rank [] h = tt
IsUnder-max_rank (r ∷ roles) h =
    IsUnder-max (role_rank r) (max_rank roles)
      (subst
        (λ (o : Bool).
          IsUnder (rank_by o (str_eq r "manager") (str_eq r "staff") (str_eq r "viewer")))
        (sym (not_owner r roles h))
        (IsUnder-rank_by (str_eq r "manager") (str_eq r "staff") (str_eq r "viewer")))
      (IsUnder-max_rank roles (ground (arith, h)))
  where
    not_owner :
        (r : String) (roles : List String)
        → contains "owner" (r ∷ roles) ≡ false
        → str_eq r "owner" ≡ false
    not_owner r roles h = elim (Bool-cases (str_eq r "owner")) [
      | inr other ↦ other
      | inl same ↦ absurd (
          contradict
            (or-left (str_eq "owner" r) (contains "owner" roles)
              ((str_eq_iff "owner" r).1 (sym ((str_eq_iff r "owner").0 same))))
            h)
    ]

-- Who is under the owner's rank grants roles other than the owner's.
granted_by :
    (o m s v : Bool) (rank : Option ℕ)
    → IsUnder rank
    → is_within (rank_by o m s v) rank ≡ true
    → o ≡ false
unfolding rank_by is_within
granted_by false m s v rank u h = refl
granted_by true m s v none u h = absurd (ground (arith, h))
granted_by true m s v (some n) u h = absurd (ground (arith, u, h))

-- Whoever may invite members, and may grant a role, has every permission of that role already: an
-- invite gives nobody more than the inviter has.
pub granted_role-adds-nothing :
    (roles : List String) (target permission : String)
    → has_permission roles members_invite ≡ true
    → can_grant_role roles target ≡ true
    → contains permission (role_permissions target) ≡ true
    → has_permission roles permission ≡ true
unfolding has_permission can_grant_role role_permissions role_rank
granted_role-adds-nothing roles target p invites grants has =
    let (holder, m, g) = role-of-has members_invite roles invites in
    elim (Bool-cases (contains "owner" roles)) [
      | inl owns ↦ has-of-role p "owner" roles owns (
          within_owner p (str_eq target "owner") (str_eq target "manager") (str_eq target "staff")
            (str_eq target "viewer") has)
      | inr no_owner ↦
          let not_o =
            granted_by (str_eq target "owner") (str_eq target "manager") (str_eq target "staff")
              (str_eq target "viewer") (max_rank roles) (IsUnder-max_rank roles no_owner)
              (and-right (contains target all_roles) (is_within (role_rank target) (max_rank roles))
                grants) in
          let manages : contains "manager" roles ≡ true =
            elim (inviter_by (str_eq holder "owner") (str_eq holder "manager")
              (str_eq holder "staff") (str_eq holder "viewer") g) [
                | inl is_o ↦ absurd (
                    contradict
                      (subst (λ (t : String). contains t roles ≡ true)
                        ((str_eq_iff holder "owner").0 is_o) m)
                      no_owner)
                | inr is_m ↦
                    subst (λ (t : String). contains t roles ≡ true)
                      ((str_eq_iff holder "manager").0 is_m) m
              ] in
          has-of-role p "manager" roles manages (
            within_manager p (str_eq target "manager") (str_eq target "staff")
              (str_eq target "viewer")
              (subst
                (λ (o : Bool).
                  contains p (
                    permissions_by o (str_eq target "manager") (str_eq target "staff")
                      (str_eq target "viewer"))
                  ≡ true)
                not_o has))
    ]
  where
    and-right : (a b : Bool) → a && b ≡ true → b ≡ true
    and-right true b h = h
    and-right false b h = cc
