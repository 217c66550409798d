-- ===== src/Repository/Session.antt =====
-- internal/repository/session.go: login sessions in Redis.
pub mod Held
use Prim.Native.String.{◌++◌ as concat}
use iam_service.Prelude.{ℕ, ◌+◌, ◌*◌, String, [], ◌∷◌, Option, some, if◌then◌else◌}
use iam_service.Errors.{Error, sentinel, session_not_found, redis_key_not_found, is, at}
use iam_service.Effect.{M, pure, lift, from_reply, relabel, ◌>>=◌, ◌>>◌}
use iam_service.Models.{Time, Session}
use iam_service.Platform.{Platform, World, on_host}
use iam_service.Cache

-- 30 * 24 * time.Hour
abbrev pub session_ttl : ℕ
session_ttl = 30 * 24 * 3600 * 1000000000

abbrev pub session_key_prefix : String
session_key_prefix = "session:"

-- `sessionKeyPrefix + sessionID`
abbrev pub session_key : String → String
session_key id = concat session_key_prefix id

module _ (p : Platform) where
  unfoldable pub create : String → String → M (World p) (String × Time)
  create user_id email = do
    session_id ← on_host p p.host.new_string
    now ← on_host p p.host.now
    payload ← relabel (at "SessionRepository.Create marshal") (
        lift (
          from_reply (
            p.host.marshal_session
              (record { user_id = user_id; email = email; created_at = now }))))
    relabel (at "SessionRepository.Create")
        (Cache.set p (session_key session_id) payload session_ttl)
    later ← on_host p p.host.now
    pure (session_id, later + session_ttl)

  abbrev pub lookup_error : Error → Error
  lookup_error e =
      if is e redis_key_not_found then sentinel session_not_found else at "SessionRepository.Get" e

  unfoldable pub get : String → M (World p) (Option Session)
  get session_id = do
    raw ← relabel lookup_error (Cache.get p (session_key session_id))
    sess ←
        relabel (at "SessionRepository.Get unmarshal")
          (lift (from_reply (p.host.unmarshal_session raw)))
    pure (some sess)

  unfoldable pub destroy : String → M (World p) (Unit {0})
  destroy session_id =
      relabel (at "SessionRepository.Destroy") (Cache.delete p (session_key session_id ∷ []))
