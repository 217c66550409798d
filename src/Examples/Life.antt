-- ===== src/Examples/Life.antt =====
-- The lives of a session and of a code on the platform in memory.
use iam_service.Prelude.{here, ◌+◌, ◌≡◌, ◌≢◌, none, refl, arith, ne_of_eq-false}
use iam_service.Effect.{ok}
use iam_service.Dtos.{LoginRequest}
use iam_service.Platform.{World}
use iam_service.Cache
use iam_service.Cache.Ttl.{TtlReading, ttl-TtlReading}
use iam_service.Repository.User as UserRepository
use iam_service.Repository.Session as SessionRepository
use iam_service.Repository.Session.{session_ttl}
use iam_service.Service.Auth as AuthService
use iam_service.Service.Auth.{LoginResult}
use iam_service.App
use iam_service.App.Sessions.{later, IsRemembered, login-session_by_id, logout-session_by_id}
use iam_service.App.Exchange.{IsServed, authorize-exchange}
use iam_service.App.Codes.{IsReturned, authorize-redeem}
use iam_service.System.{Reach, start, next, waited, exchanged}
use iam_service.Spent.Expiry.{code_expires}
use iam_service.Examples.Memory.{a_session, platform}
use iam_service.Examples.Laws.{sql-IsSql, sql-IsUp, stored, redis-IsRedis, redis-IsUp, host-IsHost}
use iam_service.Examples.Flow.{running, spa, ann, before, ask, redeem_it, tokens, issued_world}

abbrev pub sign_in : LoginRequest
sign_in = record { email = "ann@example.com"; password = "pw" }

abbrev pub signed_in : LoginResult
signed_in = record { session_id = "iiiii"; expires_at = 7 + session_ttl }

abbrev pub inside : World platform
inside = (App.login platform sign_in before).1

login-session_by_id_example :
    IsRemembered platform redis-IsRedis redis-IsUp host-IsHost sign_in signed_in 1000 before inside
unfolding running AuthService.login UserRepository.get_by_email SessionRepository.create
login-session_by_id_example =
    login-session_by_id platform redis-IsRedis redis-IsUp host-IsHost sign_in signed_in 1000 before
      inside refl (ne_of_eq-false "iiiii" "" refl) (omega arith)

logout-session_by_id_example :
    (App.session_by_id platform "s" (later platform 3 (App.logout platform "s" before).1)).0
    ≡ ok none
unfolding running AuthService.logout SessionRepository.destroy Cache.delete
logout-session_by_id_example =
    logout-session_by_id platform redis-IsRedis redis-IsUp "s" 3 before
      (App.logout platform "s" before).1 refl

authorize-redeem_example :
    IsReturned platform redis-IsRedis host-IsHost redis-IsUp ask "iiiii" redeem_it before
      issued_world
      (later platform 9 issued_world)
unfolding running
authorize-redeem_example =
    authorize-redeem platform redis-IsRedis host-IsHost redis-IsUp ask "https://app/cb" "12345678"
      "iiiii" redeem_it spa 9 before before issued_world (later platform 9 issued_world) refl refl
      (omega arith) refl refl refl refl refl refl

-- Between two pauses of half a minute the code is presented, and refused.
abbrev pestered : World platform
pestered =
    (App.exchange platform tt (record redeem_it { client_id = "other" })
      (later platform 30000000000 issued_world)).1

abbrev minute : Reach platform tt "iiiii" issued_world (later platform 30000000000 pestered)
minute =
    next
      (next (next start (waited 30000000000 issued_world)) (
        exchanged (record redeem_it { client_id = "other" })
          (later platform 30000000000 issued_world)))
      (waited 30000000000 pestered)

code_expires_example :
    App.exchange platform tt redeem_it (later platform 30000000000 pestered) ≢ (ok tokens, before)
unfolding running
code_expires_example =
    code_expires platform redis-IsRedis host-IsHost tt ask "https://app/cb" "12345678" "iiiii"
      redeem_it tokens before issued_world (later platform 30000000000 pestered) before minute refl
      (omega arith) refl

authorize-exchange_example :
    IsServed platform redis-IsRedis redis-IsUp host-IsHost sql-IsSql sql-IsUp tt
      (λ claims. ("jwt", refl))
      ask
      redeem_it
      (later platform 9 issued_world)
unfolding running
authorize-exchange_example =
    authorize-exchange platform redis-IsRedis redis-IsUp host-IsHost sql-IsSql sql-IsUp tt
      (λ claims. ("jwt", refl)) ask "https://app/cb" "12345678" "iiiii" redeem_it spa a_session ann
      9 before before before issued_world (later platform 9 issued_world)
      (later platform 9 issued_world) refl refl refl (omega arith) refl refl
      (record {
        grant = refl;
        code = refl;
        client = refl;
        redirect = refl;
        method = refl;
        proof_key = refl;
        secret = refl;
      })
      (stored issued_world.db ann here) refl

ttl-TtlReading_example :
    TtlReading (redis-IsRedis.view before.kv "session:t") (Cache.ttl platform "session:t" before).0
ttl-TtlReading_example = ttl-TtlReading platform redis-IsRedis "session:t" before
