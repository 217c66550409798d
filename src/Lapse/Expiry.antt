-- ===== src/Lapse/Expiry.antt =====
-- The end of a login session.
use iam_service.Prelude.{none, ◌≤◌, ◌≡◌, subst, sym, arith}
use iam_service.Effect.{ok}
use iam_service.Dtos.{LoginRequest}
use iam_service.Platform.{Platform, World, IsRedis, RedisIsUp, IsHost}
use iam_service.Repository.Session.{session_ttl, session_key}
use iam_service.Repository.Session.Held.{create-IsOpened}
use iam_service.Service.Auth.{LoginResult}
use iam_service.Service.Auth.Login.{login-IsLoggedIn}
use iam_service.App
use iam_service.App.Sessions.{session_by_id-none}
use iam_service.Spent.Lifetime.{LivesOut, LivesOut-new, LivesOut-none}
use iam_service.Lapse.Visits.{Visits, elapsed}
use iam_service.Lapse.Steps.{Visits-LivesOut}

-- Once the pauses since a login add up to 30 days, its session id names no session, whatever
-- requests come between the pauses, with this session or any other, if Redis and the encoders keep
-- their laws, no later login draws the same id, and Redis answers.
pub login-expires :
    (p : Platform) (law : IsRedis p.redis) (up : RedisIsUp p.redis) (host : IsHost p.host)
    (key : p.host.PrivateKey) (req : LoginRequest) (result : LoginResult) (w w' v : World p)
    (between : Visits p key result.session_id w' v)
    → App.login p req w ≡ (ok result, w')
    → session_ttl ≤ elapsed between
    → (App.session_by_id p result.session_id v).0 ≡ ok none
login-expires p law up host key req result w w' v between h late =
    let login = login-IsLoggedIn (App.runtime p) (App.user_repo p) (App.session_repo p) req w h in
    let (now, opened) =
      create-IsOpened p law host login.user.id login.user.email login.u login.opened in
    let new : LivesOut session_ttl 0 (law.view w'.kv (session_key result.session_id)) =
      subst (LivesOut session_ttl 0) (sym opened.held)
        (LivesOut-new session_ttl opened.payload (omega arith)) in
    let still = Visits-LivesOut p law result.session_id key session_ttl between new in
    session_by_id-none p law up result.session_id v
      (LivesOut-none session_ttl (elapsed between) _ late still)
