-- ===== src/Service/Token/Validate.antt =====
-- internal/service/token.go: `Validate`.
use iam_service.Prelude.{String, Bool, Option, none, some, if◌then◌else◌}
use iam_service.Errors.{new}
use iam_service.Effect.{M, pure, or_fail, require, ◌>>=◌, ◌>>◌}
use iam_service.Models.{IamClaims}
use iam_service.Platform.{Platform, World, on_os}
use iam_service.Platform.{Jwt}

module _ (p : Platform) (j : Jwt p.host) (public_key : j.PublicKey) where
  -- A method that is not RSA is refused.
  abbrev pub key_func : Bool → Option j.PublicKey
  key_func is_rsa = if is_rsa then some public_key else none

  unfoldable pub validate : String → M (World p) IamClaims
  validate raw = do
    token ← on_os p (j.parse_with_claims key_func raw)
    claims ← or_fail (new "invalid token") token.claims
    require token.valid (new "invalid token")
    pure claims
