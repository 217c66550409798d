-- ===== src/Repository/AuthCode.antt =====
-- internal/repository/auth_code.go: single-use authorization codes in Redis.
pub mod Held
use Prim.Native.String.{◌++◌ as concat}
use iam_service.Prelude.{ℕ, ◌*◌, String, Option, some, if◌then◌else◌}
use iam_service.Errors.{Error, sentinel, auth_code_not_found, redis_key_not_found, is, at}
use iam_service.Effect.{M, pure, lift, from_reply, relabel, ◌>>=◌, ◌>>◌}
use iam_service.Models.{AuthCode}
use iam_service.Platform.{Platform, World, on_host, on_os}
use iam_service.Cache

-- 60 * time.Second
abbrev pub auth_code_ttl : ℕ
auth_code_ttl = 60 * 1000000000

abbrev pub auth_code_key_prefix : String
auth_code_key_prefix = "authcode:"

-- `authCodeKeyPrefix + code`
abbrev pub auth_code_key : String → String
auth_code_key code = concat auth_code_key_prefix code

module _ (p : Platform) where
  unfoldable pub create : AuthCode → M (World p) String
  create given = do
    raw ← relabel (at "AuthCodeRepository.Create random") (on_os p (p.host.read 32))
    let code = p.host.encode_to_string raw
    now ← on_host p p.host.now
    payload ←
        relabel (at "AuthCodeRepository.Create marshal")
          (lift (from_reply (p.host.marshal_auth_code (record given { created_at = now }))))
    relabel (at "AuthCodeRepository.Create")
        (Cache.set p (auth_code_key code) payload auth_code_ttl)
    pure code

  abbrev pub lookup_error : Error → Error
  lookup_error e =
      if is e redis_key_not_found
      then sentinel auth_code_not_found
      else at "AuthCodeRepository.Consume" e

  unfoldable pub consume : String → M (World p) (Option AuthCode)
  consume code = do
    raw ← relabel lookup_error (Cache.get_del p (auth_code_key code))
    found ←
        relabel (at "AuthCodeRepository.Consume unmarshal")
          (lift (from_reply (p.host.unmarshal_auth_code raw)))
    pure (some found)
