-- ===== src/Examples/Server.antt =====
-- The server on the platform in memory.
use iam_service.Prelude.{
  sym, eq-false_of_ne, here, arith, String, [], ◌∷◌, true, none, some, ◌≡◌, refl, maybe, contains,
  ◌==◌, if◌then◌else◌,
}
use iam_service.Effect.{ok, respond}
use iam_service.Platform.{World}
use iam_service.Text.{has_prefix}
use iam_service.Validator.RedirectUri.{contains_hash, validate_redirect_uri}
use iam_service.Validator.Rules.{first_failure}
use iam_service.Validator.Report.{report, struct, has_key, message, collect}
use iam_service.Validator.Requests.{validate_authorize, validate_token}
use iam_service.Handler.Params.{parse_authorize_request, parse_token_request}
use iam_service.Handler.Response.{
  Request, Response, redirect_body, token_body, cookie_value, merge, redirect_with, write_json,
}
use iam_service.Handler.Token as TokenHandler
use iam_service.Handler.Auth as AuthHandler
use iam_service.Handler.Token.{no_store}
use iam_service.Server.{Settings, handle, Endpoint, token_grant_service}
use iam_service.Server.Redirects.{IsSafeTarget, handle-IsSafeTarget}
use iam_service.Server.Answers.{handle-Succeeds}
use iam_service.Server.History.{begin, turn, served}
use iam_service.Server.Flow.{IsCompleted, presented, authorize-token}
use iam_service.Validator.Form.{IsWellFormedToken, validate_token-none_iff}
use iam_service.Sound.Stored.{IsBound}
use iam_service.Sound.History.{History-IsBound}
use iam_service.Effect.Total.{Succeeds}
use iam_service.Repository.AuthCode.{auth_code_ttl, auth_code_key}
use iam_service.Spent.Keys.{session_key-ne-auth_code_key}
use iam_service.App.Sessions.{later}
use iam_service.Validator.Requests.{IsWellFormed}
use iam_service.Validator.Accepts.{validate_authorize-none_iff}
use iam_service.Handler.Uncached.{IsUncached, token-IsUncached}
use iam_service.Examples.Memory.{platform, a_challenge, a_code, a_session}
use iam_service.Examples.Laws.{redis-IsRedis, redis-IsUp, host-IsHost, sql-IsSql, sql-IsUp, stored}
use iam_service.Examples.Flow.{running, before, redeem_it, tokens, spa, ann}
use iam_service.Examples.Web.{web, web-IsWeb, Query, lookup, query_text, engine, engine-IsEngine}

abbrev pub settings : Settings platform
settings = record {
  key = tt;
  tokens = record { jwks = [] };
  secure_cookies = true;
  login_url = "/login";
}

abbrev pub query : Query
query =
    ("response_type", "code")
    ∷ ("client_id", "spa")
    ∷ ("redirect_uri", "https://app/cb")
    ∷ ("scope", " read  write")
    ∷ ("state", "12345678")
    ∷ ("code_challenge", a_challenge)
    ∷ ("code_challenge_method", "S256")
    ∷ []

-- Ann's browser asks for a code.
abbrev pub request : Request web
request = record {
  body = "";
  cookie = λ name. if name == "session_id" then some "s" else none;
  url_query = query;
  request_uri = "/oauth/authorize";
  post_form = none;
  authorization = "";
  basic_auth = none;
}

-- What the runs below compute through.
unfoldable pub serving : Unit {0}
unfolding running handle maybe respond has_prefix contains_hash validate_redirect_uri first_failure
    report struct has_key message collect validate_authorize validate_token parse_authorize_request
    parse_token_request cookie_value merge redirect_with AuthHandler.authorize
    AuthHandler.authorize_parsed TokenHandler.token TokenHandler.token_form
    TokenHandler.exchange_valid TokenHandler.resolve_client lookup query_text engine contains
serving = tt

abbrev pub authorized_world : World platform
authorized_world = (handle platform web engine settings Endpoint.authorize request before).1

abbrev pub sent_away : Response
sent_away = record {
  status = 302;
  headers = [];
  body = redirect_body "https://app/cb?&code=iiiii&state=12345678";
}

authorized :
    (handle platform web engine settings Endpoint.authorize request before).0 ≡ ok sent_away
unfolding serving
authorized = refl

handle-IsSafeTarget_example :
    IsSafeTarget platform web engine engine-IsEngine settings
      (parse_authorize_request web query)
      "https://app/cb?&code=iiiii&state=12345678"
      before
unfolding serving
handle-IsSafeTarget_example =
    handle-IsSafeTarget platform web engine engine-IsEngine settings request sent_away
      "https://app/cb?&code=iiiii&state=12345678" before authorized_world refl refl

pub no_codes : (code : String) → redis-IsRedis.view before.kv (auth_code_key code) ≡ none
unfolding redis-IsRedis
no_codes code =
    rw
      (eq-false_of_ne (auth_code_key code) "session:s"
        (λ h. session_key-ne-auth_code_key "s" code (sym h)))
      refl

History-IsBound_example : IsBound web a_code
unfolding serving redis-IsRedis
History-IsBound_example =
    History-IsBound platform redis-IsRedis host-IsHost web engine engine-IsEngine settings before
      authorized_world (λ code. no_codes code)
      (turn begin (served Endpoint.authorize request before)) "iiiii"
      (record { value = "code"; ttl = some auth_code_ttl }) a_code refl refl

handle-Succeeds_example :
    Succeeds (handle platform web engine settings Endpoint.authorize request) before
handle-Succeeds_example =
    handle-Succeeds platform web engine settings Endpoint.authorize request before

-- The form that the client makes of the code.
abbrev form : Query
form =
    ("grant_type", "authorization_code")
    ∷ ("code", "iiiii")
    ∷ ("redirect_uri", "https://app/cb")
    ∷ ("code_verifier", redeem_it.code_verifier)
    ∷ ("client_id", "spa")
    ∷ []

abbrev posted : Request web
posted = record request { post_form = some form }

abbrev given : Response
given = write_json (no_store []) 200 (token_body tokens)

token-IsUncached_example : IsUncached given
unfolding serving
token-IsUncached_example =
    token-IsUncached web engine (token_grant_service platform tt) posted given authorized_world
      (handle platform web engine settings Endpoint.token posted authorized_world).1 refl

front-WellFormed : IsWellFormed web engine (parse_authorize_request web query)
unfolding serving
front-WellFormed =
    (validate_authorize-none_iff web engine engine-IsEngine (parse_authorize_request web query)).0
      refl

form-WellFormed : IsWellFormedToken (presented web form "spa" "")
unfolding serving
form-WellFormed =
    (validate_token-none_iff web engine engine-IsEngine (presented web form "spa" "")).0 refl

authorize-token_example :
    IsCompleted platform redis-IsRedis redis-IsUp host-IsHost sql-IsSql sql-IsUp web web-IsWeb
      engine engine-IsEngine settings
      (λ claims. ("jwt", refl))
      request
      posted
      "12345678"
      "iiiii"
      before
      authorized_world
      (later platform 9 authorized_world)
unfolding serving
authorize-token_example =
    authorize-token platform redis-IsRedis redis-IsUp host-IsHost sql-IsSql sql-IsUp web web-IsWeb
      engine engine-IsEngine settings (λ claims. ("jwt", refl)) request posted form "https://app/cb"
      "12345678" "iiiii" "spa" "" spa a_session ann 9 before before before authorized_world
      (later platform 9 authorized_world) (later platform 9 authorized_world) front-WellFormed refl
      refl refl (omega arith) refl refl refl form-WellFormed refl
      (record {
        grant = refl;
        code = refl;
        client = refl;
        redirect = refl;
        method = refl;
        proof_key = refl;
        secret = refl;
      })
      (stored authorized_world.db ann here) refl
