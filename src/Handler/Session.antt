-- ===== src/Handler/Session.antt =====
-- internal/handler/auth.go: when a login sets the session cookie.
use iam_service.Prelude.{
  [], ◌∷◌, Bool, Option, none, some, ◌≡◌, inl, inr, refl, ap, ◌==◌, ◌||◌, Bool-cases, maybe,
  if◌then◌else◌,
}
use iam_service.Errors.{Error, is, email_or_password_wrong}
use iam_service.Effect.{Result, ok, err, respond-inv}
use iam_service.Dtos.{LoginRequest}
use iam_service.Web.{Web}
use iam_service.Service.Auth.{LoginResult}
use iam_service.Handler.Ports.{AuthService}
use iam_service.Handler.Next.{safe_next}
use iam_service.Handler.Response.{Request, Response, write_error, login_body, cookies}
use iam_service.Handler.Auth.{session_cookie, login_error, login_decoded, login}

module _ (n : Web) {W : Type 0} (auth : AuthService W) (secure : Bool) where
  -- What a login is answered with, by what the service made of it.
  pub data LoginAnswer (r : Request n) (resp : Response) (w w' : W) : Type 0 where
    accepted :
        (req : LoginRequest) (result : LoginResult)
        → n.decode_login r.body ≡ some req
        → auth.login req w ≡ (ok result, w')
        → resp.status ≡ 200
        → cookies resp.headers ≡ session_cookie secure result.session_id result.expires_at ∷ []
        → resp.body
          ≡ login_body (record {
            next = safe_next n (n.get r.url_query "next");
            session_expires_at = result.expires_at;
          })
        → LoginAnswer r resp w w'
    refused :
        (req : LoginRequest) (e : Error)
        → n.decode_login r.body ≡ some req
        → auth.login req w ≡ (err e, w')
        → resp.status ≡ (if is e email_or_password_wrong then 401 else 500)
        → cookies resp.headers ≡ []
        → LoginAnswer r resp w w'
    invalid : w' ≡ w → resp.status ≡ 400 → cookies resp.headers ≡ [] → LoginAnswer r resp w w'

  invalid-LoginAnswer :
      (r : Request n) (resp given : Response) (w w' : W)
      → ◌≡◌ {A = Result Response × W} (ok given, w) (ok resp, w')
      → given.status ≡ 400
      → cookies given.headers ≡ []
      → LoginAnswer r resp w w'
  invalid-LoginAnswer r resp given w w' h status none_set =
      let same : given ≡ resp = cc (ap (λ (x : Result Response × W). x.0) h) in
      let state : w' ≡ w = cc (ap (λ (x : Result Response × W). x.1) h) in
      invalid state (rw (← same) status) (rw (← same) none_set)

  login_error-cookies : (e : Error) → cookies (login_error e).headers ≡ []
  unfolding cookies
  login_error-cookies e = elim (Bool-cases (is e email_or_password_wrong)) [
    | inl h ↦ rw h refl
    | inr h ↦ rw h refl
  ]

  login_error-status :
      (e : Error) → (login_error e).status ≡ (if is e email_or_password_wrong then 401 else 500)
  login_error-status e = elim (Bool-cases (is e email_or_password_wrong)) [
    | inl h ↦ rw h refl
    | inr h ↦ rw h refl
  ]

  decoded-LoginAnswer :
      (r : Request n) (req : LoginRequest) (resp : Response) (w w' : W)
      → n.decode_login r.body ≡ some req
      → login_decoded n auth secure r req w ≡ (ok resp, w')
      → LoginAnswer r resp w w'
  unfolding login_decoded cookies
  decoded-LoginAnswer r req resp w w' decoded h =
      elim (Bool-cases (req.email == "" || req.password == "")) [
        | inl missing ↦ invalid-LoginAnswer r resp _ w w' (rw missing at h) refl refl
        | inr full ↦ elim (respond-inv login_error _ (auth.login req) w (rw full at h)) [
          | inl (result, ran, same) ↦ rw same (accepted req result decoded ran refl refl refl)
          | inr (e, ran, same) ↦
              rw same (refused req e decoded ran (login_error-status e) (login_error-cookies e))
        ]
      ]

  -- A login is answered with exactly one cookie, that of the session that the service opened, and a
  -- target inside this service; a refused one with 401 or 500, and one that is not asked of the
  -- service with 400, both without a cookie.
  pub login-LoginAnswer :
      (r : Request n) (resp : Response) (w w' : W)
      → login n auth secure r w ≡ (ok resp, w')
      → LoginAnswer r resp w w'
  unfolding login maybe cookies
  login-LoginAnswer r resp w w' h = by_decoded (n.decode_login r.body) refl h
    where
      by_decoded :
          (found : Option LoginRequest)
          → n.decode_login r.body ≡ found
          → maybe
              (λ u. (ok (write_error [] 400 "invalid request body"), u))
              (login_decoded n auth secure r)
              found
              w
            ≡ (ok resp, w')
          → LoginAnswer r resp w w'
      by_decoded none e k = invalid-LoginAnswer r resp _ w w' k refl refl
      by_decoded (some req) e k = decoded-LoginAnswer r req resp w w' e k
