-- ===== src/Handler/Auth.antt =====
-- internal/handler/auth.go and internal/handler/jwks.go: the handlers but that of POST /oauth/token.
use iam_service.Prelude.{pos, negsuc, String, [], ◌∷◌, Bool, true, ◌||◌, maybe, ◌==◌, if◌then◌else◌}
use iam_service.Errors.{
  Error, is, error_text, email_or_password_wrong, unsupported_grant_type,
  public_client_credentials_grant,
}
use iam_service.Effect.{M, pure, respond}
use iam_service.Models.{Time}
use iam_service.Dtos.{LoginRequest, AuthorizeRequest, RegisterClientRequest, RefreshRequest}
use iam_service.Web.{Web}
use iam_service.Service.Auth.{
  LoginResult, AuthorizeResult, issue_code, require_login, error_to_client, reject_direct, is_empty,
}
use iam_service.Validator.Rules.{Engine}
use iam_service.Validator.Requests.{validate_authorize}
use iam_service.Handler.Params.{parse_authorize_request}
use iam_service.Handler.Ports.{AuthService, ClientService, TokenService}
use iam_service.Handler.Next.{safe_next}
use iam_service.Handler.Token.{write_validation_error}
use iam_service.Handler.Response.{
  Cookie, field, set_cookie, no_body, login_body, refresh_body, client_body, jwks_body, Response,
  write_json, write_error, Request, cookie_value, redirect_with,
}

abbrev pub session_cookie_name : String
session_cookie_name = "session_id"

abbrev pub internal_error : Response
internal_error = write_error [] 500 "internal server error"

-- The session cookie, until the session expires.
abbrev pub session_cookie : Bool → String → Time → Cookie
session_cookie secure id expires = record {
  name = session_cookie_name;
  value = id;
  path = "/";
  expires = expires;
  max_age = pos 0;
  http_only = true;
  secure = secure;
  same_site_lax = true;
}

-- A negative MaxAge makes the browser delete the cookie.
abbrev pub cleared_cookie : Bool → Cookie
cleared_cookie secure = record {
  name = session_cookie_name;
  value = "";
  path = "/";
  expires = 0;
  max_age = negsuc 0;
  http_only = true;
  secure = secure;
  same_site_lax = true;
}

abbrev pub login_error : Error → Response
login_error e =
    if is e email_or_password_wrong
    then write_error [] 401 "email or password wrong"
    else internal_error

module _ (n : Web) {W : Type 0} (auth : AuthService W) where
  module _ (secure_cookies : Bool) where
    abbrev pub logged_in : String → LoginResult → Response
    logged_in next result =
        write_json
          (set_cookie (session_cookie secure_cookies result.session_id result.expires_at) ∷ []) 200
          (login_body (record { next = next; session_expires_at = result.expires_at }))

    unfoldable pub login_decoded : Request n → LoginRequest → M W Response
    login_decoded r req =
        if req.email == "" || req.password == ""
        then pure (write_error [] 400 "email and password are required")
        else respond login_error (logged_in (safe_next n (n.get r.url_query "next")))
            (auth.login req)

    -- POST /login
    unfoldable pub login : Request n → M W Response
    login r =
        maybe (pure (write_error [] 400 "invalid request body")) (login_decoded r)
          (n.decode_login r.body)

    abbrev pub logged_out : Response
    logged_out = record {
      status = 204;
      headers = set_cookie (cleared_cookie secure_cookies) ∷ [];
      body = no_body;
    }

    -- POST /logout
    unfoldable pub logout : Request n → M W Response
    logout r =
        maybe (pure logged_out)
          (λ id. respond (λ e. internal_error) (λ _. logged_out) (auth.logout id))
          (r.cookie session_cookie_name)

  unfoldable pub refresh_decoded : RefreshRequest → M W Response
  refresh_decoded req =
      if req.refresh_token == ""
      then pure (write_error [] 400 "refresh token is required")
      else respond (λ e. internal_error) (λ resp. write_json [] 200 (refresh_body resp))
          (auth.refresh_token req.refresh_token)

  -- POST /refresh
  unfoldable pub refresh : Request n → M W Response
  refresh r =
      maybe (pure (write_error [] 400 "invalid request body")) refresh_decoded
        (n.decode_refresh r.body)

  module _ (engine : Engine) (login_url : String) where
    -- The switch over the action.
    abbrev pub take_action : Request n → AuthorizeResult → Response
    take_action r (issue_code uri state code) =
        redirect_with n uri (("code", code) ∷ ("state", state) ∷ [])
    take_action r require_login = redirect_with n login_url (("next", r.request_uri) ∷ [])
    take_action r (error_to_client uri state e) =
        redirect_with n uri (("error", e) ∷ ("state", state) ∷ [])
    take_action r (reject_direct message) = write_error [] 400 message

    unfoldable pub authorize_parsed : Request n → AuthorizeRequest → M W Response
    authorize_parsed r req =
        maybe
          (respond (λ e. internal_error) (take_action r)
            (auth.authorize
              (record { request = req; session_id = cookie_value n r session_cookie_name })))
          (λ errs. pure (write_validation_error [] errs)) (validate_authorize n engine req)

    -- GET /oauth/authorize
    unfoldable pub authorize : Request n → M W Response
    authorize r = authorize_parsed r (parse_authorize_request n r.url_query)

module _ (n : Web) {W : Type 0} (clients : ClientService W) where
  abbrev pub register_error : Error → Response
  register_error e =
      if is e unsupported_grant_type || is e public_client_credentials_grant
      then write_error [] 400 (error_text e)
      else internal_error

  unfoldable pub register_decoded : RegisterClientRequest → M W Response
  register_decoded req =
      if req.name == ""
      then pure (write_error [] 400 "name is required")
      else if is_empty req.redirect_uris
      then pure (write_error [] 400 "at least one redirect_uri is required")
      else if is_empty req.grant_types
      then pure (write_error [] 400 "at least one grant_type is required")
      else respond register_error (λ resp. write_json [] 201 (client_body resp))
          (clients.register_client req)

  -- POST /admin/clients
  unfoldable pub register_client : Request n → M W Response
  register_client r =
      maybe (pure (write_error [] 400 "invalid request body")) register_decoded
        (n.decode_client r.body)

-- GET /.well-known/jwks.json
unfoldable pub jwks : TokenService → Response
jwks tokens =
    write_json (field "Cache-Control" "public, max-age=300" ∷ []) 200 (jwks_body tokens.jwks)
