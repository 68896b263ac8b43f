-- ===== src/Approvals/Tokens.antt =====
-- core/approvals/tokens.py: single-use tokens that bind a side effect to a decision.
-- The ed25519 key pair is a parameter. A token is what its two halves decode to: its claims and the
-- signature of their canonical JSON. Times are in microseconds, and `exp` is in seconds.
pub mod SingleUse
mod Tests
use growth_operator.Prelude.{
  String, ◌/◌, update_where, any, ◌*◌, ◌+◌, ℕ, is_some, some, List, str_eq, ltb, ◌∷◌, Bool, ◌&&◌,
  Option, ◌==◌, not, if◌then◌else◌, none,
}

abbrev pub second : ℕ
second = 1_000_000

-- `TOKEN_TTL_S`
abbrev pub token_ttl : ℕ
token_ttl = 600 * second

-- `TokenClaims`, which is also the payload that is signed.
pub record TokenClaims : Type 0 where
  pub jti : ℕ
  pub ctx_hash : String
  pub tier : ℕ
  pub exp : ℕ

pub record Token : Type 0 where
  pub claims : TokenClaims
  pub signature : List ℕ

-- The signing key and the check of signatures.
pub record Keys : Type 0 where
  pub sign : TokenClaims → List ℕ
  pub is_signature : List ℕ → TokenClaims → Bool

-- A row of `execution_token_jti`.
pub record JtiRow : Type 0 where
  pub jti : ℕ
  pub org_id : ℕ
  pub action_hash : String
  pub decision_tier : ℕ
  pub expires_at : ℕ
  pub used_at : Option ℕ

unfoldable pub claims_of : ℕ → ℕ → ℕ → String → ℕ → TokenClaims
claims_of jti now ttl ctx_hash tier = record {
  jti = jti;
  ctx_hash = ctx_hash;
  tier = tier;
  exp = (now + ttl) / second;
}

-- `mint`, where `jti` is a new id and `token_ttl` the usual `ttl`
unfoldable pub mint : Keys → ℕ → ℕ → ℕ → ℕ → String → ℕ → List JtiRow → Token × List JtiRow
unfolding claims_of
mint keys jti now ttl org ctx_hash tier rows =
    let claims = claims_of jti now ttl ctx_hash tier in
    (
      record { claims = claims; signature = keys.sign claims },
      record {
        jti = jti;
        org_id = org;
        action_hash = ctx_hash;
        decision_tier = tier;
        expires_at = now + ttl;
        used_at = none;
      }
          ∷ rows,
    )

-- Why a token is refused.
pub data TokenInvalid : Type 0 where
  missing_token bad_signature ctx_mismatch expired replayed : TokenInvalid

pub data Verified : Type 0 where
  valid : TokenClaims → Verified
  invalid : TokenInvalid → Verified

-- The `WHERE` of the claim of a jti.
unfoldable pub is_claimable : ℕ → ℕ → ℕ → JtiRow → Bool
is_claimable now org jti r =
    r.jti == jti && r.org_id == org && not (is_some r.used_at) && ltb now r.expires_at

-- `UPDATE execution_token_jti SET used_at = now() ... RETURNING jti`
unfoldable pub claim : ℕ → ℕ → TokenClaims → List JtiRow → Verified × List JtiRow
unfolding is_claimable
claim now org claims rows = (
  if any (is_claimable now org claims.jti) rows then valid claims else invalid replayed,
  update_where (is_claimable now org claims.jti) (λ r. record r { used_at = some now }) rows,
)

-- `verify`, where `none` is a token that is missing or does not decode
unfoldable pub verify : Keys → ℕ → ℕ → String → Option Token → List JtiRow → Verified × List JtiRow
verify keys now org expected none rows = (invalid missing_token, rows)
verify keys now org expected (some token) rows =
    if not (keys.is_signature token.signature token.claims)
    then (invalid bad_signature, rows)
    else if not (str_eq token.claims.ctx_hash expected)
    then (invalid ctx_mismatch, rows)
    else if ltb token.claims.exp (now / second)
    then (invalid expired, rows)
    else claim now org token.claims rows
