-- ===== src/Lapse/Steps.antt =====
-- Whatever the service does, a session does not live longer for it.
use iam_service.Prelude.{ℕ, ◌+◌, String, Option, subst, sym}
use iam_service.Platform.{Platform, World, Entry, IsRedis}
use iam_service.Repository.Session.{session_key}
use iam_service.Stable.Defs.{IsSteady}
use iam_service.Stable.Services.{
  register-Preserves, logout-Preserves, session_by_id-Preserves, register_client-Preserves,
  refresh_token-Preserves, exchange-Preserves, authorize-Preserves,
}
use iam_service.Spent.Calls.{IsFading}
use iam_service.Spent.Lifetime.{LivesOut, LivesOut-IsFading, LivesOut-aged}
use iam_service.Lapse.Visits.{
  Visit, exchanged, authorized, logged_in, logged_out, looked_up, refreshed, registered, enrolled,
  waited, Visits, start, next, passed, elapsed,
}
use iam_service.Lapse.Login.{
  SessionBears, SessionBears-IsSteady, code_create-SessionBears, login-SessionBears,
}

module _ (p : Platform) (law : IsRedis p.redis) (id : String) (key : p.host.PrivateKey) where
  module _ {Q : Option Entry → Type 0} (fading : IsFading Q) where
    abbrev steady : IsSteady p (SessionBears p law id Q)
    steady = SessionBears-IsSteady p law id fading

    Visit-SessionBears :
        {u v : World p} → Visit p key id u v → SessionBears p law id Q u → SessionBears p law id Q v
    Visit-SessionBears (exchanged req w) h = (exchange-Preserves p _ steady key req).at w h
    Visit-SessionBears (authorized input w) h =
        (authorize-Preserves p _ steady input
            (λ client session. code_create-SessionBears p law id fading _)).at
          w h
    Visit-SessionBears (logged_in req w fresh) h = login-SessionBears p law id fading req w fresh h
    Visit-SessionBears (logged_out sid w) h = (logout-Preserves p _ steady sid).at w h
    Visit-SessionBears (looked_up sid w) h = (session_by_id-Preserves p _ steady sid).at w h
    Visit-SessionBears (refreshed raw w) h = (refresh_token-Preserves p _ steady key raw).at w h
    Visit-SessionBears (registered input w) h = (register-Preserves p _ steady input).at w h
    Visit-SessionBears (enrolled req w) h = (register_client-Preserves p _ steady req).at w h
    Visit-SessionBears (waited n w) h = steady.wait n w h

  module _ (total : ℕ) where
    -- A pause takes its time from the session, and nothing gives it more.
    Visit-LivesOut :
        (spent : ℕ) {u v : World p} (visit : Visit p key id u v)
        → SessionBears p law id (LivesOut total spent) u
        → SessionBears p law id (LivesOut total (passed visit spent)) v
    Visit-LivesOut spent (waited n w) h =
        subst (LivesOut total (spent + n)) (sym (law.wait_ages n (session_key id) w.kv))
          (LivesOut-aged total spent n _ h)
    Visit-LivesOut spent (authorized input w) h =
        Visit-SessionBears (LivesOut-IsFading total spent) (authorized input w) h
    Visit-LivesOut spent (exchanged req w) h =
        Visit-SessionBears (LivesOut-IsFading total spent) (exchanged req w) h
    Visit-LivesOut spent (logged_in req w fresh) h =
        Visit-SessionBears (LivesOut-IsFading total spent) (logged_in req w fresh) h
    Visit-LivesOut spent (logged_out sid w) h =
        Visit-SessionBears (LivesOut-IsFading total spent) (logged_out sid w) h
    Visit-LivesOut spent (looked_up sid w) h =
        Visit-SessionBears (LivesOut-IsFading total spent) (looked_up sid w) h
    Visit-LivesOut spent (refreshed raw w) h =
        Visit-SessionBears (LivesOut-IsFading total spent) (refreshed raw w) h
    Visit-LivesOut spent (registered input w) h =
        Visit-SessionBears (LivesOut-IsFading total spent) (registered input w) h
    Visit-LivesOut spent (enrolled req w) h =
        Visit-SessionBears (LivesOut-IsFading total spent) (enrolled req w) h

    pub Visits-LivesOut :
        {w v : World p} (r : Visits p key id w v)
        → SessionBears p law id (LivesOut total 0) w
        → SessionBears p law id (LivesOut total (elapsed r)) v
    Visits-LivesOut start h = h
    Visits-LivesOut (next r visit) h = Visit-LivesOut (elapsed r) visit (Visits-LivesOut r h)
