-- ===== src/Server/Flow.antt =====
-- The code flow over HTTP: from GET /oauth/authorize to the tokens of POST /oauth/token.
use iam_service.Prelude.{ℕ, ◌<◌, String, [], ◌∷◌, none, some, ◌≡◌, refl, sym, subst, maybe}
use iam_service.Effect.{ok, respond, respond-ok}
use iam_service.Models.{Client, Session, User}
use iam_service.Dtos.{TokenRequest, TokenResponse}
use iam_service.Text.{fields}
use iam_service.Platform.{Platform, World, IsRedis, RedisIsUp, IsHost, IsSql, SqlIsUp}
use iam_service.Web.{Web, IsWeb}
use iam_service.Validator.Rules.{Engine, IsEngine}
use iam_service.Validator.Requests.{IsWellFormed, validate_authorize, validate_token}
use iam_service.Validator.Form.{IsWellFormedToken, validate_token-none_iff}
use iam_service.Validator.Accepts.{validate_authorize-none_iff}
use iam_service.Repository.AuthCode.{auth_code_ttl}
use iam_service.Service.Auth.{AuthorizeInput, issue_code}
use iam_service.Service.Auth.Authorize.{authorize-IsJustified}
use iam_service.App
use iam_service.App.Minted.{Signs}
use iam_service.App.Exchange.{IsAnswer, authorize-exchange}
use iam_service.Handler.Params.{parse_authorize_request, parse_token_request}
use iam_service.Handler.Response.{
  Request, Response, cookie_value, redirect_with, token_body, write_json,
}
use iam_service.Handler.Redirect.{IsCarried, redirect_with-IsCarried}
use iam_service.Handler.Auth as AuthHandler
use iam_service.Handler.Auth.{session_cookie_name}
use iam_service.Handler.Token as TokenHandler
use iam_service.Handler.Token.{no_store, resolve_client}
use iam_service.Server.{Endpoint, Settings, handle}

module _ (n : Web) where
  -- What the authorize endpoint asks its service.
  abbrev pub asked : Request n → AuthorizeInput
  asked r = record {
    request = parse_authorize_request n r.url_query;
    session_id = cookie_value n r session_cookie_name;
  }

  -- A form with its client's credentials, wherever they were sent.
  abbrev pub presented : n.Values → String → String → TokenRequest
  presented form id secret = record (parse_token_request n form) {
    client_id = id;
    client_secret = secret;
  }

module _ (p : Platform) (n : Web) (engine : Engine) (s : Settings p) where
  -- A valid request for which the service issues a code is answered with a redirect.
  authorize-redirects :
      (r : Request n) (uri state code : String) (w w' : World p)
      → validate_authorize n engine (asked n r).request ≡ none
      → App.authorize p (asked n r) w ≡ (ok (issue_code uri state code), w')
      → handle p n engine s Endpoint.authorize r w
        ≡ (ok (redirect_with n uri (("code", code) ∷ ("state", state) ∷ [])), w')
  unfolding handle AuthHandler.authorize AuthHandler.authorize_parsed maybe
  authorize-redirects r uri state code w w' valid issued =
      rw valid (respond-ok _ _ (App.authorize p (asked n r)) w issued)

  -- A valid form that the service answers with tokens is answered with them.
  token-answers :
      (t : Request n) (form : n.Values) (id secret : String) (resp : TokenResponse) (v : World p)
      → t.post_form ≡ some form
      → resolve_client t.authorization t.basic_auth (parse_token_request n form) ≡ (id, secret, "")
      → validate_token n engine (presented n form id secret) ≡ none
      → (App.exchange p s.key (presented n form id secret) v).0 ≡ ok resp
      → (handle p n engine s Endpoint.token t v).0
        ≡ ok (write_json (no_store []) 200 (token_body resp))
  unfolding handle TokenHandler.token TokenHandler.token_form TokenHandler.exchange_valid maybe
      respond
  token-answers t form id secret resp v sent resolved valid served =
      rw (sent, resolved, valid, served) refl

module _ (p : Platform) (law : IsRedis p.redis) (up : RedisIsUp p.redis) (host : IsHost p.host)
    (sql : IsSql p.sql) (sql_up : SqlIsUp p.sql) (n : Web) (web : IsWeb n) (engine : Engine)
    (docs : IsEngine engine) (s : Settings p) (signs : Signs p s.key) where
  -- The browser is sent back to the client's redirect_uri with the code and the state, and the
  -- client gets a bearer token for exactly the requested scopes.
  pub record IsCompleted (r t : Request n) (state code : String) (w w' v : World p) : Type 0 where
    pub sent : Response
    pub redirected : handle p n engine s Endpoint.authorize r w ≡ (ok sent, w')
    pub u : n.Url
    pub registered : n.parse (asked n r).request.redirect_uri ≡ some u
    pub carried : IsCarried n web u (("code", code) ∷ ("state", state) ∷ []) sent
    pub echoed : state ≡ (asked n r).request.state
    pub resp : TokenResponse
    pub granted :
        (handle p n engine s Endpoint.token t v).0
        ≡ ok (write_json (no_store []) 200 (token_body resp))
    pub token_type : resp.token_type ≡ "Bearer"
    pub scope : fields resp.scope ≡ fields (asked n r).request.scope

  -- The code flow over HTTP reaches its end. Where a well-formed GET /oauth/authorize is one for
  -- which the service issues a code, the browser is redirected to the redirect_uri with the code
  -- and the state in its query; and where less than 60 seconds later a valid POST /oauth/token
  -- answers for that code by its client, redirect_uri and verifier, it is answered with a bearer
  -- token for exactly the requested scopes that no cache stores. Redis, MySQL, the signing of
  -- tokens, net/url and the engine must work, the client must still be found and the user still be
  -- stored.
  pub authorize-token :
      (r t : Request n) (form : n.Values) (uri state code id secret : String) (client : Client)
      (session : Session) (user : User) (m : ℕ) (w u u' w' v v' : World p)
      → IsWellFormed n engine (asked n r).request
      → App.authorize p (asked n r) w ≡ (ok (issue_code uri state code), w')
      → (App.client_repo p).get_by_id (asked n r).request.client_id w ≡ (ok (some client), u)
      → App.session_by_id p (asked n r).session_id u ≡ (ok (some session), u')
      → m < auth_code_ttl
      → v.kv ≡ p.redis.wait m w'.kv
      → t.post_form ≡ some form
      → resolve_client t.authorization t.basic_auth (parse_token_request n form) ≡ (id, secret, "")
      → IsWellFormedToken (presented n form id secret)
      → (App.client_repo p).get_by_id id v ≡ (ok (some client), v')
      → IsAnswer p law up host sql sql_up s.key signs
          (asked n r)
          code
          client
          (presented n form id secret)
      → sql.users.has v.db user
      → session.user_id ≡ user.id
      → IsCompleted r t state code w w' v
  authorize-token r t form uri state code id secret client session user m w u u' w' v v' formed
        issued found opened soon same_kv sent resolved valid again answer stored owner =
      let target = formed.redirect_uri.1 in
      let (same, echoed, _) =
        authorize-IsJustified (App.client_repo p) (App.session_repo p) (App.auth_code_repo p)
          (asked n r) (issue_code uri state code) w w' issued in
      let served =
        authorize-exchange p law up host sql sql_up s.key signs (asked n r) uri state code
          (presented n form id secret) client session user m w u u' w' v v' issued found opened soon
          same_kv again answer stored owner in
      record {
        sent = redirect_with n uri (("code", code) ∷ ("state", state) ∷ []);
        redirected =
            authorize-redirects p n engine s r uri state code w w'
              ((validate_authorize-none_iff n engine docs _).1 formed) issued;
        u = target.u;
        registered = target.parsed;
        carried =
            redirect_with-IsCarried n web uri _ target.u
              (subst (λ x. n.parse x ≡ some target.u) (sym same) target.parsed);
        echoed = echoed;
        resp = served.resp;
        granted =
            token-answers p n engine s t form id secret served.resp v sent resolved
              ((validate_token-none_iff n engine docs _).1 valid) served.succeeds;
        token_type = served.token_type;
        scope = served.scope;
      }
