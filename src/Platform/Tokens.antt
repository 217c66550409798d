-- ===== src/Platform/Tokens.antt =====
-- The parsing of signed tokens by golang-jwt, and what it documents.
use iam_service.Prelude.{◌+◌, ◌≤◌, ◌<◌, String, Bool, true, Option, some, ◌≡◌}
use iam_service.Errors.{Fault}
use iam_service.Effect.{Reply, done, failed}
use iam_service.Models.{Time, IamClaims}
use iam_service.Platform.Os.{Host}

-- jwt.Token: its claims, if they are an *IamClaims, and the field Valid.
pub record Token : Type 0 where
  pub claims : Option IamClaims
  pub valid : Bool

pub record Jwt (h : Host) : Type 1 where
  pub PublicKey : Type 0
  pub public_key : h.PrivateKey → PublicKey
  -- jwt.ParseWithClaims into an IamClaims. The key function is told whether the token's method is
  -- an RSA one; `none` is its error.
  pub parse_with_claims : (Bool → Option PublicKey) → String → h.State → Reply Token × h.State

module _ (h : Host) where
  -- Both dates of a claims set are whole seconds.
  pub record IsNumeric (claims : IamClaims) : Type 0 where
    pub issued_at : h.new_numeric_date claims.issued_at ≡ claims.issued_at
    pub expires_at : h.new_numeric_date claims.expires_at ≡ claims.expires_at

  -- A numeric date is cut to the second. A token that was signed RS256 with a private key parses
  -- back under its public half before its exp claim, and not from then on.
  pub record IsJwt (j : Jwt h) : Type 0 where
    pub date_below : (t : Time) → h.new_numeric_date t ≤ t
    pub date_above : (t : Time) → t < h.new_numeric_date t + 1000000000
    pub date_fixed : (t : Time) → h.new_numeric_date (h.new_numeric_date t) ≡ h.new_numeric_date t
    pub parse_valid :
        (key : h.PrivateKey) (claims : IamClaims) (raw : String)
        (key_func : Bool → Option j.PublicKey) (s : h.State)
        → h.signed_string key claims ≡ done raw
        → IsNumeric claims
        → key_func true ≡ some (j.public_key key)
        → (h.now s).0 < claims.expires_at
        → (j.parse_with_claims key_func raw s).0
          ≡ done (record { claims = some claims; valid = true })
    pub parse_expired :
        (key : h.PrivateKey) (claims : IamClaims) (raw : String)
        (key_func : Bool → Option j.PublicKey) (s : h.State)
        → h.signed_string key claims ≡ done raw
        → IsNumeric claims
        → claims.expires_at ≤ (h.now s).0
        → (f : Fault) × ((j.parse_with_claims key_func raw s).0 ≡ failed f)
