-- ===== src/Service/Token.antt =====
-- internal/service/token.go: access tokens, refresh tokens and the published key set. The key pair
-- and its encodings are the host's.
pub mod Validate
use Prim.Native.String.{◌++◌ as concat}
use iam_service.Prelude.{ℕ, ◌+◌, ◌*◌, String, [], ◌∷◌}
use iam_service.Effect.{M, Reply, pure, lift, from_reply, ◌>>=◌}
use iam_service.Models.{Time, IamClaims, AccessToken}
use iam_service.Dtos.{JwksResponse}
use iam_service.Ports.{Runtime}
use iam_service.Platform.{Bytes}

abbrev pub second : ℕ
second = 1000000000

-- 15 * time.Minute
abbrev pub access_token_ttl : ℕ
access_token_ttl = 15 * 60 * second

-- 7 * 24 * time.Hour
abbrev pub refresh_token_ttl : ℕ
refresh_token_ttl = 7 * 24 * 3600 * second

module _ {W : Type 0} (run : Runtime W) (sign : IamClaims → Reply String) where
  open run use {now, new_string, new_numeric_date}

  unfoldable pub issue_access_token : (user_id email client_id scope : String) → M W AccessToken
  issue_access_token user_id email client_id scope = do
    start ← now
    jti ← new_string
    issued ← now
    signed ← lift (
        from_reply (
          sign (record {
            user_id = user_id;
            email = email;
            client_id = client_id;
            scope = scope;
            jti = jti;
            issued_at = new_numeric_date issued;
            expires_at = new_numeric_date (start + access_token_ttl);
          })))
    pure (record { access_token_string = signed; access_token_expires_in = 15 * 60 })

  unfoldable pub issue_refresh_token : M W (String × Time)
  issue_refresh_token = do start ← now; token ← new_string; pure (token, start + refresh_token_ttl)

-- The bytes of the modulus and of the exponent, big-endian.
module _ {W : Type 0} (run : Runtime W) (modulus exponent : Bytes) where
  open run use {sum256, encode_to_string}

  unfoldable pub rsa_thumbprint : String → String → String
  rsa_thumbprint n e =
      let canonical =
        concat "{\"e\":\"" (concat e (concat "\",\"kty\":\"RSA\",\"n\":\"" (concat n "\"}"))) in
      encode_to_string (sum256 canonical)

  unfoldable pub jwks : JwksResponse
  unfolding rsa_thumbprint
  jwks =
      let n = encode_to_string modulus in
      let e = encode_to_string exponent in
      record { kty = "RSA"; use_ = "sig"; alg = "RS256"; kid = rsa_thumbprint n e; n = n; e = e }
      ∷ []
