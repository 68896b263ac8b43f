-- ===== src/Approvals/Tokens/Tests.antt =====
-- The theorems on tokens, at one send.
use growth_operator.Approvals.Tokens.{Keys, Token, JtiRow, TokenClaims, verify, valid, claim}
use growth_operator.Approvals.Tokens.SingleUse.{verify-once}
use growth_operator.Prelude.{some, none, ◌∷◌, [], ◌≡◌, text_eq, ◌≢◌, arith, refl}

abbrev keys : Keys
keys = record {
  sign = λ c. c.jti ∷ c.tier ∷ [];
  is_signature = λ s c. text_eq s (c.jti ∷ c.tier ∷ []);
}

abbrev claims : TokenClaims
claims = record { jti = 7; ctx_hash = "send"; tier = 1; exp = 600 }

abbrev token : Token
token = record { claims = claims; signature = 7 ∷ 1 ∷ [] }

abbrev row : JtiRow
row = record {
  jti = 7;
  org_id = 1;
  action_hash = "send";
  decision_tier = 1;
  expires_at = 600_000_000;
  used_at = none;
}

accepts : (verify keys 5 1 "send" (some token) (row ∷ [])).0 ≡ valid claims
unfolding verify claim
accepts = refl

verify-once_example :
    (verify keys 6 2 "pay" (some token) (verify keys 5 1 "send" (some token) (row ∷ [])).1).0
    ≢ valid claims
verify-once_example =
    verify-once keys 5 6 1 2 "send" "pay" token claims claims (row ∷ []) (omega arith)
      (λ e. refl, tt) accepts
