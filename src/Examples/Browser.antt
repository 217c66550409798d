-- ===== src/Examples/Browser.antt =====
-- A browser's login and logout, and the rules for what it may send, at concrete inputs.
use iam_service.Prelude.{
  [], ◌∷◌, none, ◌≡◌, ◌≢◌, ◌↔◌, ◌⊎◌, refl, arith, Among, ne_of_eq-false, here, there, true,
}
use iam_service.Effect.{ok}
use iam_service.Platform.{World}
use iam_service.Repository.User as UserRepository
use iam_service.Repository.Session as SessionRepository
use iam_service.Service.Auth as AuthService
use iam_service.Cache
use iam_service.App
use iam_service.App.Sessions.{later}
use iam_service.Validator.RedirectUri.{
  validate_redirect_uri, IsRedirectUri, validate_redirect_uri_iff,
}
use iam_service.Validator.Report.{struct}
use iam_service.Validator.Reported.{Reported, struct-Reported}
use iam_service.Validator.Requests.{IsWellFormed, token_fields, validate_authorize, validate_token}
use iam_service.Validator.Form.{IsWellFormedToken, validate_token-none_iff}
use iam_service.Validator.Accepts.{validate_authorize-none_iff}
use iam_service.Handler.Auth as AuthHandler
use iam_service.Handler.Auth.{logged_in, session_cookie, logged_out}
use iam_service.Handler.Next.{safe_next, IsInternal, safe_next-IsInternal}
use iam_service.Handler.Params.{parse_authorize_request}
use iam_service.Handler.Redirect.{IsCarried, redirect_with-IsCarried}
use iam_service.Handler.Response.{Request, Response, Cookie, cookies, redirect_with}
use iam_service.Handler.Session.{LoginAnswer, login-LoginAnswer}
use iam_service.Server.{Endpoint, handle, auth_service}
use iam_service.Server.Sessions.{IsWelcomed, login-IsWelcomed, logout-session_by_id-none}
use iam_service.Examples.Memory.{platform}
use iam_service.Examples.Laws.{redis-IsRedis, redis-IsUp, host-IsHost}
use iam_service.Examples.Flow.{before, redeem_it}
use iam_service.Examples.Life.{signed_in}
use iam_service.Examples.Web.{web, web-IsWeb, engine, engine-IsEngine, app}
use iam_service.Examples.Server.{settings, query, request, serving}

abbrev login_request : Request web
login_request = record request {
  body = "ann";
  url_query = ("next", "/oauth/authorize") ∷ [];
  cookie = λ name. none;
}

abbrev welcome : Response
welcome = logged_in web (auth_service platform tt) true "/oauth/authorize?" signed_in

abbrev inside : World platform
inside = (handle platform web engine settings Endpoint.login login_request before).1

sole : {A : Type 0} (c d : A) → Among c (d ∷ []) → c ≡ d
sole c _ here = refl
sole c d (there b) = elim b [ ]

only_cookie : (c : Cookie) → Among c (cookies welcome.headers) → c.value ≢ ""
unfolding cookies
only_cookie c a = rw (sole c _ a) (ne_of_eq-false "iiiii" "" refl)

login-LoginAnswer_example :
    LoginAnswer web (auth_service platform tt) true login_request welcome before inside
unfolding serving AuthHandler.login AuthHandler.login_decoded safe_next AuthService.login
    UserRepository.get_by_email SessionRepository.create
login-LoginAnswer_example =
    login-LoginAnswer web (auth_service platform tt) true login_request welcome before inside refl

login-IsWelcomed_example :
    IsWelcomed platform redis-IsRedis redis-IsUp host-IsHost web engine settings login_request
      welcome 1000 before inside
unfolding serving AuthHandler.login AuthHandler.login_decoded safe_next AuthService.login
    UserRepository.get_by_email SessionRepository.create
login-IsWelcomed_example =
    login-IsWelcomed platform redis-IsRedis redis-IsUp host-IsHost web engine settings login_request
      welcome 1000 before inside refl refl only_cookie (omega arith)

logout-session_by_id-none_example :
    (App.session_by_id platform "s"
      (later platform 3 (handle platform web engine settings Endpoint.logout request before).1)).0
    ≡ ok none
unfolding serving AuthHandler.logout AuthService.logout SessionRepository.destroy Cache.delete
logout-session_by_id-none_example =
    logout-session_by_id-none platform redis-IsRedis redis-IsUp web engine settings request
      (logged_out web (auth_service platform tt) true) "s" 3 before
      (handle platform web engine settings Endpoint.logout request before).1 refl refl refl

safe_next-IsInternal_example :
    (safe_next web "/oauth/authorize" ≡ "/")
    ⊎ IsInternal web "/oauth/authorize" (safe_next web "/oauth/authorize")
safe_next-IsInternal_example = safe_next-IsInternal web "/oauth/authorize"

redirect_with-IsCarried_example :
    IsCarried web web-IsWeb app
      (("code", "iiiii") ∷ ("state", "") ∷ [])
      (redirect_with web "https://app/cb" (("code", "iiiii") ∷ ("state", "") ∷ []))
redirect_with-IsCarried_example =
    redirect_with-IsCarried web web-IsWeb "https://app/cb" (("code", "iiiii") ∷ ("state", "") ∷ [])
      app refl

validate_authorize-none_iff_example :
    (validate_authorize web engine (parse_authorize_request web query) ≡ none)
    ↔ IsWellFormed web engine (parse_authorize_request web query)
validate_authorize-none_iff_example =
    validate_authorize-none_iff web engine engine-IsEngine (parse_authorize_request web query)

validate_redirect_uri_iff_example :
    (validate_redirect_uri web "https://app/cb" ≡ true) ↔ IsRedirectUri web "https://app/cb"
validate_redirect_uri_iff_example =
    validate_redirect_uri_iff web "https://app/cb" (ne_of_eq-false "https://app/cb" "" refl)

struct-Reported_example :
    Reported
      (validate_redirect_uri web)
      (token_fields redeem_it)
      (struct engine (validate_redirect_uri web) (token_fields redeem_it))
struct-Reported_example =
    struct-Reported engine engine-IsEngine (validate_redirect_uri web) (token_fields redeem_it)

validate_token-none_iff_example :
    (validate_token web engine redeem_it ≡ none) ↔ IsWellFormedToken redeem_it
validate_token-none_iff_example = validate_token-none_iff web engine engine-IsEngine redeem_it
