-- ===== src/Mediation/Manifest/Compiled.antt =====
-- A compiled manifest holds no tool outside the allowlist, gates what can have an effect, and its
-- signed copy verifies.
use growth_operator.Mediation.Manifest.{
  Grant, ToolGrant, Body, Crypto, is_read_only, is_no_tier, is_narrowed, is_granted, tool_of,
  compile_tools, read_only_names, compile_manifest, find_grant, covers, sign, verify, manifest_hash,
}
use growth_operator.Prelude.{
  refl, ℕ, Bool, [], inl, ◌∷◌, some, not, ◌||◌, find?, Option-cases, Bool-cases, ◌≡◌, String, true,
  Option, All, List, arith, inr, text_eq, false, contains,
}

-- What the compiler promises of a tool.
abbrev pub IsCompiled : List String → Option (List String) → Grant → Type 0
IsCompiled allowlist tenant_allow t =
    (contains t.name allowlist ≡ true)
    × (is_narrowed tenant_allow t.name ≡ false)
    × (t.requires_tier_eval ≡ not (is_read_only t.name || is_no_tier t.name))

compile_tools-IsCompiled :
    (allowlist : List String) (tenant_allow : Option (List String)) (grants : List ToolGrant)
    → All (IsCompiled allowlist tenant_allow) (compile_tools allowlist tenant_allow grants)
unfolding compile_tools is_granted tool_of
compile_tools-IsCompiled allowlist tenant_allow [] = tt
compile_tools-IsCompiled allowlist tenant_allow (g ∷ grants) =
    let ih = compile_tools-IsCompiled allowlist tenant_allow grants in
    elim (Option-cases g.name) [
      | inl unnamed ↦ rw unnamed ih
      | inr (name, named) ↦ elim (Bool-cases (is_granted allowlist tenant_allow name)) [
        | inl granted ↦ rw (named, granted) ((ground arith, ground arith, refl), ih)
        | inr refused ↦ rw (named, refused) ih
      ]
    ]

find?-All {ℓ κ} :
    {A : Type ℓ} (P : A → Type κ) (p : A → Bool) (xs : List A) (x : A)
    → All P xs
    → find? p xs ≡ some x
    → P x × (p x ≡ true)
find?-All P p [] x all h = absurd (ground arith)
find?-All P p (y ∷ xs) x (py, all) h = elim (Bool-cases (p y)) [
  | inl found ↦ let e : y ≡ x = ground arith in rw (← e) (py, found)
  | inr later ↦ find?-All P p xs x all (ground arith)
]

-- A tool that the proxy finds in a compiled manifest is found under a name of the allowlist, one
-- that the tenant's own list keeps, and its tier is evaluated unless that name ends in `.read` or
-- `.search` or is one of the two that compute internally.
pub find_grant-IsCompiled :
    (now instance org : ℕ) (allowlist : List String) (grants : List ToolGrant)
    (sends_day : Option ℕ) (tenant_allow : Option (List String)) (tool : String) (g : Grant)
    → find_grant (compile_manifest now instance org allowlist grants sends_day tenant_allow) tool
      ≡ some g
    → IsCompiled allowlist tenant_allow g × (covers tool g.name ≡ true)
unfolding find_grant compile_manifest
find_grant-IsCompiled now instance org allowlist grants sends_day tenant_allow tool g h =
    find?-All (IsCompiled allowlist tenant_allow) (λ t. covers tool t.name)
      (compile_tools allowlist tenant_allow grants) g
      (compile_tools-IsCompiled allowlist tenant_allow grants) h

read_only_names-IsReadOnly :
    (tools : List Grant) → All (λ name. is_read_only name ≡ true) (read_only_names tools)
unfolding read_only_names
read_only_names-IsReadOnly [] = tt
read_only_names-IsReadOnly (t ∷ tools) =
    let ih = read_only_names-IsReadOnly tools in
    elim (Bool-cases (is_read_only t.name)) [
      | inl reads ↦ rw reads (reads, ih)
      | inr writes ↦ rw writes ih
    ]

-- The tools that a compiled manifest allows to a run with untrusted content are read-only: a name
-- that is not drops out, whatever the grants are.
pub allow-IsReadOnly :
    (now instance org : ℕ) (allowlist : List String) (grants : List ToolGrant)
    (sends_day : Option ℕ) (tenant_allow : Option (List String))
    → All
        (λ name. is_read_only name ≡ true)
        (compile_manifest now instance org allowlist grants sends_day tenant_allow).allow
unfolding compile_manifest
allow-IsReadOnly now instance org allowlist grants sends_day tenant_allow =
    read_only_names-IsReadOnly (compile_tools allowlist tenant_allow grants)

text_eq_refl : (s : List ℕ) → text_eq s s ≡ true
text_eq_refl [] = refl
text_eq_refl (c ∷ s) = ground (arith, text_eq_refl s)

text_eq_sound : (s t : List ℕ) → text_eq s t ≡ true → s ≡ t
text_eq_sound [] [] h = refl
text_eq_sound [] (d ∷ t) h = absurd (ground arith)
text_eq_sound (c ∷ s) [] h = absurd (ground arith)
text_eq_sound (c ∷ s) (d ∷ t) h =
    let e : c ≡ d = ground arith in let f = text_eq_sound s t (ground arith) in cc (e, f)

-- A signed manifest verifies, and no longer does if its body is replaced by one of another digest,
-- where the signature that is made passes the check of signatures and a digest is not empty.
pub verify-sign :
    (crypto : Crypto) (body other : Body)
    → crypto.is_signature (crypto.signature_of body) body ≡ true
    → text_eq (crypto.digest body) [] ≡ false
    → (verify crypto (sign crypto body) ≡ true)
      × (verify crypto (record (sign crypto body) { body = other }) ≡ true
          → crypto.digest body ≡ crypto.digest other)
unfolding verify sign manifest_hash
verify-sign crypto body other valid nonempty =
    (ground (arith, text_eq_refl (crypto.digest body)), λ h. text_eq_sound _ _ (ground arith))
