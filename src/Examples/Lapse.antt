-- ===== src/Examples/Lapse.antt =====
-- The end of a session that is in use, on the platform in memory.
use iam_service.Prelude.{none, ◌≡◌, refl, arith}
use iam_service.Effect.{ok}
use iam_service.Platform.{World}
use iam_service.Repository.User as UserRepository
use iam_service.Repository.Session as SessionRepository
use iam_service.Repository.Session.{session_ttl}
use iam_service.Service.Auth as AuthService
use iam_service.App
use iam_service.App.Sessions.{later}
use iam_service.Lapse.Visits.{Visits, start, next, looked_up, waited}
use iam_service.Lapse.Expiry.{login-expires}
use iam_service.Examples.Memory.{platform}
use iam_service.Examples.Laws.{redis-IsRedis, redis-IsUp, host-IsHost}
use iam_service.Examples.Flow.{running, before}
use iam_service.Examples.Life.{sign_in, signed_in, inside}

-- The session is asked for a day after the login.
abbrev asked : World platform
asked = (App.session_by_id platform "iiiii" (later platform 86400000000000 inside)).1

abbrev month : Visits platform tt "iiiii" inside (later platform session_ttl asked)
month =
    next
      (next (next start (waited 86400000000000 inside))
        (looked_up "iiiii" (later platform 86400000000000 inside)))
      (waited session_ttl asked)

login-expires_example :
    (App.session_by_id platform "iiiii" (later platform session_ttl asked)).0 ≡ ok none
unfolding running AuthService.login UserRepository.get_by_email SessionRepository.create
login-expires_example =
    login-expires platform redis-IsRedis redis-IsUp host-IsHost tt sign_in signed_in before inside
      (later platform session_ttl asked) month refl (omega arith)
