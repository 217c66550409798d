-- ===== src/Server/Sessions.antt =====
-- A browser's session, from POST /login to POST /logout.
use iam_service.Prelude.{
  ℕ, ◌<◌, String, [], ◌∷◌, Bool, true, false, none, some, ◌≡◌, ◌≢◌, ◌∙◌, sym, ap, subst, Among,
  here, inl, inr, maybe, if◌then◌else◌, arith,
}
use iam_service.Errors.{is, email_or_password_wrong}
use iam_service.Effect.{ok, respond-inv}
use iam_service.Dtos.{LoginRequest}
use iam_service.Platform.{Platform, World, IsRedis, RedisIsUp, IsHost}
use iam_service.Web.{Web}
use iam_service.Validator.Rules.{Engine}
use iam_service.Service.Auth.{LoginResult}
use iam_service.App
use iam_service.Repository.Session.{session_ttl}
use iam_service.App.Sessions.{later, IsRemembered, login-session_by_id, logout-session_by_id}
use iam_service.Handler.Response.{Cookie, Request, Response, cookies}
use iam_service.Handler.Auth as AuthHandler
use iam_service.Handler.Auth.{session_cookie_name, session_cookie}
use iam_service.Handler.Session.{accepted, refused, invalid, login-LoginAnswer}
use iam_service.Server.{Endpoint, Settings, handle, auth_service}

refusal-ne-success : (b : Bool) → ◌≢◌ {A = ℕ} (if b then 401 else 500) 200
refusal-ne-success true h = omega arith
refusal-ne-success false h = omega arith

bad_request-ne-success : ◌≢◌ {A = ℕ} 400 200
bad_request-ne-success h = omega arith

error-ne-no_content : ◌≢◌ {A = ℕ} 500 204
error-ne-no_content h = omega arith

module _ (p : Platform) (law : IsRedis p.redis) (up : RedisIsUp p.redis) where
  module _ (host : IsHost p.host) (n : Web) (engine : Engine) (s : Settings p) where
    -- One cookie, out of reach of scripts and of other sites' forms, whose value names the session
    -- of the user that the body named, `m` nanoseconds later.
    pub record IsWelcomed (r : Request n) (resp : Response) (m : ℕ) (w w' : World p) : Type 0 where
      pub req : LoginRequest
      pub result : LoginResult
      pub decoded : n.decode_login r.body ≡ some req
      pub cookie :
          cookies resp.headers
          ≡ session_cookie s.secure_cookies result.session_id result.expires_at ∷ []
      pub remembered : IsRemembered p law up host req result m w w'

    -- After POST /login was answered with 200, and for less than the 30 days of a session, the one
    -- cookie that it set names a session of the user whose email and password the body gave, if
    -- Redis answers and keeps its laws and the drawn id is not empty.
    pub login-IsWelcomed :
        (r : Request n) (resp : Response) (m : ℕ) (w w' : World p)
        → handle p n engine s Endpoint.login r w ≡ (ok resp, w')
        → resp.status ≡ 200
        → ((c : Cookie) → Among c (cookies resp.headers) → c.value ≢ "")
        → m < session_ttl
        → IsWelcomed r resp m w w'
    unfolding handle
    login-IsWelcomed r resp m w w' h success full soon =
        elim (login-LoginAnswer n (auth_service p s.key) s.secure_cookies r resp w w' h) [
          | accepted req result decoded ran status set body ↦ record {
            req = req;
            result = result;
            decoded = decoded;
            cookie = set;
            remembered =
                login-session_by_id p law up host req result m w w' ran
                  (full _ (subst (Among _) (sym set) here)) soon;
          }
          | refused req e decoded ran status set ↦
              absurd (refusal-ne-success (is e email_or_password_wrong) (sym status ∙ success))
          | invalid same status set ↦ absurd (bad_request-ne-success (sym status ∙ success))
        ]

  module _ (n : Web) (engine : Engine) (s : Settings p) where
    -- After POST /logout was answered with 204, the id that its cookie carried names no session,
    -- however long it is afterwards, if Redis answers and keeps its laws.
    pub logout-session_by_id-none :
        (r : Request n) (resp : Response) (id : String) (m : ℕ) (w w' : World p)
        → handle p n engine s Endpoint.logout r w ≡ (ok resp, w')
        → r.cookie session_cookie_name ≡ some id
        → resp.status ≡ 204
        → (App.session_by_id p id (later p m w')).0 ≡ ok none
    unfolding handle AuthHandler.logout maybe
    logout-session_by_id-none r resp id m w w' h carried gone =
        elim (respond-inv _ _ (App.logout p id) w (rw carried at h)) [
          | inl (result, ran, same) ↦ logout-session_by_id p law up id m w w' ran
          | inr (e, ran, same) ↦
              absurd (error-ne-no_content (sym (ap (λ (x : Response). x.status) same) ∙ gone))
        ]
