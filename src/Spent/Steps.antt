-- ===== src/Spent/Steps.antt =====
-- Whatever the service does, what fades in the entry of a code fades on.
use iam_service.Prelude.{ℕ, ◌+◌, String, Option, none, ◌≡◌, refl, ap, subst, sym}
use iam_service.Platform.{Platform, World, Entry, IsRedis, aged}
use iam_service.Repository.AuthCode.{auth_code_key}
use iam_service.System.{
  Step, exchanged, authorized, logged_in, logged_out, looked_up, refreshed, registered, enrolled,
  waited, Reach, start, next, passed, elapsed,
}
use iam_service.Stable.Defs.{IsSteady}
use iam_service.Stable.Services.{
  register-Preserves, login-Preserves, logout-Preserves, session_by_id-Preserves,
  register_client-Preserves, refresh_token-Preserves, exchange-Preserves,
}
use iam_service.Spent.Calls.{IsFading}
use iam_service.Spent.Lifetime.{LivesOut, LivesOut-IsFading, LivesOut-aged}
use iam_service.Spent.Repositories.{
  IsSpent, CodeBears, CodeBears-IsSteady, session_create-CodeBears,
}
use iam_service.Spent.Services.{authorize-CodeBears}

pub vacant-IsFading : IsFading (λ held. held ≡ none)
vacant-IsFading = record { gone = refl; ages = λ n held h. ap (aged n) h }

module _ (p : Platform) (law : IsRedis p.redis) (code : String) (key : p.host.PrivateKey) where
  module _ {Q : Option Entry → Type 0} (fading : IsFading Q) where
    abbrev steady : IsSteady p (CodeBears p law code Q)
    steady = CodeBears-IsSteady p law code fading

    Step-CodeBears :
        {u v : World p} → Step p key code u v → CodeBears p law code Q u → CodeBears p law code Q v
    Step-CodeBears (authorized input w fresh) h =
        authorize-CodeBears p law code fading input w fresh h
    Step-CodeBears (exchanged req w) h = (exchange-Preserves p _ steady key req).at w h
    Step-CodeBears (logged_in req w) h =
        (login-Preserves p _ steady (session_create-CodeBears p law code fading) req).at w h
    Step-CodeBears (logged_out id w) h = (logout-Preserves p _ steady id).at w h
    Step-CodeBears (looked_up id w) h = (session_by_id-Preserves p _ steady id).at w h
    Step-CodeBears (refreshed raw w) h = (refresh_token-Preserves p _ steady key raw).at w h
    Step-CodeBears (registered input w) h = (register-Preserves p _ steady input).at w h
    Step-CodeBears (enrolled req w) h = (register_client-Preserves p _ steady req).at w h
    Step-CodeBears (waited n w) h = steady.wait n w h

  -- Whatever happens, a code that Redis does not hold is not held again.
  pub Reach-IsSpent :
      {w v : World p} → Reach p key code w v → IsSpent p law code w → IsSpent p law code v
  Reach-IsSpent start h = h
  Reach-IsSpent (next r st) h = Step-CodeBears vacant-IsFading st (Reach-IsSpent r h)

  module _ (total : ℕ) where
    -- A pause takes its time from the code, and nothing else gives it more.
    Step-LivesOut :
        (spent : ℕ) {u v : World p} (st : Step p key code u v)
        → CodeBears p law code (LivesOut total spent) u
        → CodeBears p law code (LivesOut total (passed st spent)) v
    Step-LivesOut spent (waited n w) h =
        subst (LivesOut total (spent + n)) (sym (law.wait_ages n (auth_code_key code) w.kv))
          (LivesOut-aged total spent n _ h)
    Step-LivesOut spent (authorized input w fresh) h =
        Step-CodeBears (LivesOut-IsFading total spent) (authorized input w fresh) h
    Step-LivesOut spent (exchanged req w) h =
        Step-CodeBears (LivesOut-IsFading total spent) (exchanged req w) h
    Step-LivesOut spent (logged_in req w) h =
        Step-CodeBears (LivesOut-IsFading total spent) (logged_in req w) h
    Step-LivesOut spent (logged_out id w) h =
        Step-CodeBears (LivesOut-IsFading total spent) (logged_out id w) h
    Step-LivesOut spent (looked_up id w) h =
        Step-CodeBears (LivesOut-IsFading total spent) (looked_up id w) h
    Step-LivesOut spent (refreshed raw w) h =
        Step-CodeBears (LivesOut-IsFading total spent) (refreshed raw w) h
    Step-LivesOut spent (registered input w) h =
        Step-CodeBears (LivesOut-IsFading total spent) (registered input w) h
    Step-LivesOut spent (enrolled req w) h =
        Step-CodeBears (LivesOut-IsFading total spent) (enrolled req w) h

    pub Reach-LivesOut :
        {w v : World p} (r : Reach p key code w v)
        → CodeBears p law code (LivesOut total 0) w
        → CodeBears p law code (LivesOut total (elapsed r)) v
    Reach-LivesOut start h = h
    Reach-LivesOut (next r st) h = Step-LivesOut (elapsed r) st (Reach-LivesOut r h)
