-- ===== src/Service/Auth.antt =====
-- internal/service/auth.go: registration, login sessions, the legacy refresh and the checks of
-- GET /oauth/authorize.
pub mod Asked
pub mod Authorize
pub mod Refresh
pub mod Login
use iam_service.Prelude.{
  String, List, [], ◌∷◌, Bool, true, false, ◌&&◌, ◌||◌, not, Option, none, some, ◌==◌, ltb,
  contains, if◌then◌else◌,
}
use iam_service.Errors.{
  Error, sentinel, new, email_taken, email_or_password_wrong, session_not_found, is, at,
}
use iam_service.Effect.{
  M, pure, fail, or_fail, dereference, relabel, on_error, require, ◌>>=◌, ◌>>◌,
}
use iam_service.Models.{Time, User, Client, Session}
use iam_service.Dtos.{LoginRequest, RefreshResponse, AuthorizeRequest}
use iam_service.Utils.{contains_all}
use iam_service.Text.{fields, join}
use iam_service.Service.TokenGrant.{hash_token}
use iam_service.Ports.{
  UserRepo, ClientRepo, RefreshTokenRepo, SessionRepo, AuthCodeRepo, TokenIssuer, Runtime,
}

pub record RegisterInput : Type 0 where
  pub email : String
  pub password : String

pub record LoginResult : Type 0 where
  pub session_id : String
  pub expires_at : Time

pub record AuthorizeInput : Type 0 where
  pub request : AuthorizeRequest
  pub session_id : String

-- AuthorizeResult: each action with the fields that the source populates for it.
pub data AuthorizeResult : Type 0 where
  issue_code : (redirect_uri state code : String) → AuthorizeResult
  require_login : AuthorizeResult
  error_to_client : (redirect_uri state oauth_error : String) → AuthorizeResult
  reject_direct : (message : String) → AuthorizeResult

abbrev pub to_client : AuthorizeRequest → String → AuthorizeResult
to_client req oauth_error = error_to_client req.redirect_uri req.state oauth_error

module _ {W : Type 0} (run : Runtime W) (users : UserRepo W) (sessions : SessionRepo W) where
  unfoldable pub register : RegisterInput → M W User
  register input = do
    existing ← relabel (at "AuthService.Register") (users.get_by_email input.email)
    require (elim existing [ none ↦ true | some u ↦ false ]) (sentinel email_taken)
    hash ← relabel (at "AuthService.Register bcrypt") (run.generate_from_password input.password)
    id ← run.new_string
    let user : User = record { id = id; email = input.email; password_hash = hash; created_at = 0 }
    relabel (at "AuthService.Register") (users.create user)
    pure user

  unfoldable pub login : LoginRequest → M W LoginResult
  login req = do
    found ← relabel (at "AuthService.Login") (users.get_by_email req.email)
    user ← or_fail (sentinel email_or_password_wrong) found
    require (run.compare_hash_and_password user.password_hash req.password)
        (sentinel email_or_password_wrong)
    made ← relabel (at "AuthService.Login creating session") (sessions.create user.id user.email)
    pure (record { session_id = made.0; expires_at = made.1 })

module _ {W : Type 0} (sessions : SessionRepo W) where
  unfoldable pub logout : String → M W (Unit {0})
  logout session_id = if session_id == "" then pure tt else sessions.destroy session_id

  abbrev pub not_found_is_nil : Error → M W (Option Session)
  not_found_is_nil e =
      if is e session_not_found then pure none else fail (at "AuthService.SessionByID" e)

  unfoldable pub session_by_id : String → M W (Option Session)
  session_by_id session_id =
      if session_id == "" then pure none else on_error not_found_is_nil (sessions.get session_id)

module _ {W : Type 0} (run : Runtime W) (users : UserRepo W) (refresh_tokens : RefreshTokenRepo W)
    (tokens : TokenIssuer W) where
  unfoldable pub refresh_token : String → M W RefreshResponse
  refresh_token raw = do
    found ←
        relabel (at "AuthService.RefreshToken")
          (refresh_tokens.get_token_by_hash (hash_token run raw))
    row ← or_fail (new "refresh token not found") found
    now ← run.now
    require (not (ltb row.expires_at now)) (new "refresh token expired")
    user_found ←
        relabel (at "AuthService.RefreshToken, user not found") (users.get_by_id row.user_id)
    user ← dereference user_found
    access_token ←
        relabel (at "AuthService.Login issuing access token")
          (tokens.issue_access_token user.id user.email row.client_id (join row.scope " "))
    pure (record {
      access_token = access_token.access_token_string;
      access_token_expiry_in = access_token.access_token_expires_in;
    })

-- `promptNone && len(prompts) > 1`
abbrev pub is_alone : List String → Bool
is_alone [] = true
is_alone (x ∷ []) = true
is_alone (x ∷ y ∷ rest) = false

abbrev pub is_empty : List String → Bool
is_empty [] = true
is_empty (x ∷ rest) = false

module _ {W : Type 0} (clients : ClientRepo W) (sessions : SessionRepo W)
    (auth_codes : AuthCodeRepo W) where
  -- The request is sound: the code is issued to the user of the session.
  unfoldable pub issue : AuthorizeRequest → Client → Session → M W AuthorizeResult
  issue req client session = do
    code ← relabel (at "AuthService.Authorize") (
        auth_codes.create (record {
          client_id = client.id;
          user_id = session.user_id;
          redirect_uri = req.redirect_uri;
          scope = fields req.scope;
          code_challenge = req.code_challenge;
          code_challenge_method = req.code_challenge_method;
          nonce = req.nonce;
          created_at = 0;
        }))
    pure (issue_code req.redirect_uri req.state code)

  abbrev pub with_session : AuthorizeRequest → Client → Bool → Option Session → M W AuthorizeResult
  with_session req client prompt_none none =
      if prompt_none then pure (to_client req "login_required") else pure require_login
  with_session req client prompt_none (some session) = issue req client session

  -- The checks behind the lookup of the client.
  unfoldable pub check : AuthorizeInput → Client → M W AuthorizeResult
  check input client =
      let req = input.request in
      let requested = fields req.scope in
      let prompts = fields req.prompt in
      let prompt_none = contains prompts "none" in
      if not (contains client.redirect_uris req.redirect_uri)
      then pure (reject_direct "redirect_uri is not registered for this client")
      else if is_empty requested || not (contains_all client.scopes requested)
      then pure (to_client req "invalid_scope")
      else if prompt_none && not (is_alone prompts)
      then pure (to_client req "invalid_request")
      else (do
        session ← relabel (at "AuthService.Authorize") (session_by_id sessions input.session_id)
        with_session req client prompt_none session)

  abbrev pub with_client : AuthorizeInput → Option Client → M W AuthorizeResult
  with_client input none = pure (reject_direct "unknown client_id")
  with_client input (some client) = check input client

  unfoldable pub authorize : AuthorizeInput → M W AuthorizeResult
  authorize input = do
    client ← relabel (at "AuthService.Authorize") (clients.get_by_id input.request.client_id)
    with_client input client
