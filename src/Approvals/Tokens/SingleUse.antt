-- ===== src/Approvals/Tokens/SingleUse.antt =====
-- A token is good for its own action, once, and no longer than its time.
use growth_operator.Approvals.Tokens.{
  Keys, Token, TokenClaims, JtiRow, valid, mint, claims_of, verify, claim, is_claimable, second,
}
use growth_operator.Prelude.{
  false, String, ◌/◌, update_where, any, ◌<◌, ◌+◌, refl, ℕ, [], arith, some, List, All, ◌≡◌, true,
  ltb, ◌∷◌, find?, ◌≤◌, str_eq_refl, ◌≢◌, none, Bool-cases, inr, Bool, str_eq, str_eq_iff, inl,
  find?-sound,
}

-- A token that was minted is accepted for the organisation and the action that it was minted for,
-- at any time before its time is over, which is ten minutes unless the caller gives another, if its
-- signature is one.
pub verify-mint :
    (keys : Keys) (jti now ttl later org : ℕ) (ctx_hash : String) (tier : ℕ) (rows : List JtiRow)
    → keys.is_signature
        (keys.sign (claims_of jti now ttl ctx_hash tier))
        (claims_of jti now ttl ctx_hash tier)
      ≡ true
    → later < now + ttl
    → let (token, rows') = mint keys jti now ttl org ctx_hash tier rows in
      (verify keys later org ctx_hash (some token) rows').0
      ≡ valid (claims_of jti now ttl ctx_hash tier)
unfolding verify mint claim is_claimable
verify-mint keys jti now ttl later org ctx_hash tier rows signed soon =
    let holds : ltb (claims_of jti now ttl ctx_hash tier).exp (later / second) ≡ false =
      unfold claims_of in exp_holds now ttl later soon in
    let names : str_eq (claims_of jti now ttl ctx_hash tier).ctx_hash ctx_hash ≡ true =
      unfold claims_of in str_eq_refl ctx_hash in
    let own : (claims_of jti now ttl ctx_hash tier).jti ≡ jti = unfold claims_of in refl in
    ground (arith, signed, names, holds, own)
  where
    exp_holds :
        (now ttl later : ℕ)
        → later < now + ttl
        → ltb ((now + ttl) / second) (later / second) ≡ false
    exp_holds now ttl later h = ground arith

none_claimable :
    (now later org org' jti : ℕ) (rows : List JtiRow)
    → now ≤ later
    → All (λ r. (r.jti ≡ jti) → r.org_id ≡ org) rows
    → any
        (is_claimable later org' jti)
        (update_where (is_claimable now org jti) (λ r. record r { used_at = some now }) rows)
      ≡ false
unfolding is_claimable
none_claimable now later org org' jti [] le h = refl
none_claimable now later org org' jti (r ∷ rows) le (hr, h) =
    ground (arith, none_claimable now later org org' jti rows le h, hr)

-- A token that was accepted is never accepted again, by whichever organisation, for whichever action
-- and at whatever later time it is presented: where an id stands in one organisation's row only.
pub verify-once :
    (keys : Keys) (now later org org' : ℕ) (expected expected' : String) (token : Token)
    (claims claims' : TokenClaims) (rows : List JtiRow)
    → now ≤ later
    → All (λ r. (r.jti ≡ token.claims.jti) → r.org_id ≡ org) rows
    → (verify keys now org expected (some token) rows).0 ≡ valid claims
    → (verify keys later org' expected'
        (some token)
        (verify keys now org expected (some token) rows).1).0
      ≢ valid claims'
unfolding verify claim
verify-once keys now later org org' expected expected' token claims claims' rows le h ok again =
    ground (arith, none_claimable now later org org' token.claims.jti rows le h)

find?-any {ℓ} :
    {A : Type ℓ} (p : A → Bool) (xs : List A) → any p xs ≡ true → (x : A) × (find? p xs ≡ some x)
find?-any p [] h = absurd (ground arith)
find?-any p (x ∷ xs) h = elim (Bool-cases (p x)) [
  | inl here ↦ (x, ground (arith, here))
  | inr later ↦ let (y, found) = find?-any p xs (ground arith) in (y, ground (arith, later, found))
]

claimable_row :
    (now org jti : ℕ) (r : JtiRow)
    → is_claimable now org jti r ≡ true
    → (now < r.expires_at) × (r.used_at ≡ none)
unfolding is_claimable
claimable_row now org jti r h = (ground arith, ground arith)

verify-checks :
    (keys : Keys) (now org : ℕ) (expected : String) (token : Token) (claims : TokenClaims)
    (rows : List JtiRow)
    → (verify keys now org expected (some token) rows).0 ≡ valid claims
    → (token.claims ≡ claims)
      × (keys.is_signature token.signature token.claims ≡ true)
      × (str_eq token.claims.ctx_hash expected ≡ true)
      × (any (is_claimable now org token.claims.jti) rows ≡ true)
unfolding verify claim
verify-checks keys now org expected token claims rows ok =
    (ground arith, ground arith, ground arith, ground arith)

-- A token is accepted only if it is signed, names the expected action, and has its row in the
-- organisation, unused and not yet expired; then its claims are returned as they were signed.
pub verify_sound :
    (keys : Keys) (now org : ℕ) (expected : String) (token : Token) (claims : TokenClaims)
    (rows : List JtiRow)
    → (verify keys now org expected (some token) rows).0 ≡ valid claims
    → (keys.is_signature token.signature claims ≡ true)
      × (claims.ctx_hash ≡ expected)
      × ((row : JtiRow) × (find? (is_claimable now org claims.jti) rows ≡ some row)
          × (now < row.expires_at)
          × (row.used_at ≡ none))
verify_sound keys now org expected token claims rows ok =
    let (same, signed, names, claimed) = verify-checks keys now org expected token claims rows ok in
    let (row, found) = find?-any (is_claimable now org token.claims.jti) rows claimed in
    let (soon, unused) =
      claimable_row now org token.claims.jti row (find?-sound _ rows row found) in
    rw (← same)
      (signed, (str_eq_iff token.claims.ctx_hash expected).0 names, (row, found, soon, unused))
