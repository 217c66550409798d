-- ===== src/App/Panics/Services.antt =====
-- The services do not panic over the repositories that the program gives them.
use iam_service.Prelude.{
  String, List, [], ◌∷◌, Bool, true, false, ◌&&◌, ◌||◌, not, ◌==◌, contains, Option, none, some,
}
use iam_service.Errors.{is, session_not_found}
use iam_service.Effect.{pure}
use iam_service.Effect.Safe.{
  IsSafe, IsSafe-if, IsSafe-pure, IsSafe-fail, IsSafe-on_error, IsSafe-relabel, IsSafe-bind,
  IsPresent-IsSafe,
}
use iam_service.Models.{Client, Session}
use iam_service.Dtos.{LoginRequest, AuthorizeRequest, RegisterClientRequest, TokenRequest}
use iam_service.Oauth.{supported_grant_types, grant_client_credentials}
use iam_service.Text.{fields}
use iam_service.Utils.{contains_all}
use iam_service.Platform.{Platform}
use iam_service.Service.Token as TokenService
use iam_service.Service.Client as ClientService
use iam_service.Service.TokenGrant as TokenGrantService
use iam_service.Service.Auth as AuthService
use iam_service.Service.Auth.{
  RegisterInput, AuthorizeInput, AuthorizeResult, is_empty, is_alone, to_client, reject_direct,
}
use iam_service.App
use iam_service.App.Panics.Repositories.{
  outside, user_create-IsSafe, get_by_email-IsSafe, user_get_by_id-IsPresent,
  client_get_by_id-IsSafe, client_create-IsSafe, token_create-IsSafe, get_token_by_hash-IsSafe,
  session_create-IsSafe, session_get-IsPresent, destroy-IsSafe, auth_code_create-IsSafe,
  consume-IsPresent,
}

ruleset calls = (
  outside, user_create-IsSafe, get_by_email-IsSafe, user_get_by_id-IsPresent,
  client_get_by_id-IsSafe, client_create-IsSafe, token_create-IsSafe, get_token_by_hash-IsSafe,
  session_create-IsSafe, session_get-IsPresent, destroy-IsSafe, auth_code_create-IsSafe,
  consume-IsPresent, IsPresent-IsSafe,
)

module _ (p : Platform) where
  session_by_id-IsSafe : (id : String) → IsSafe (App.session_by_id p id)
  unfolding AuthService.session_by_id
  session_by_id-IsSafe id = IsSafe-if (id == "") (pure none) _ (IsSafe-pure none) (
      IsSafe-on_error (AuthService.not_found_is_nil (App.session_repo p)) _
        (IsPresent-IsSafe _ (session_get-IsPresent p id))
        (λ e. IsSafe-if (is e session_not_found) (pure none) _ (IsSafe-pure none) (IsSafe-fail _)))

  logout-IsSafe : (id : String) → IsSafe (App.logout p id)
  unfolding AuthService.logout
  logout-IsSafe id = IsSafe-if (id == "") (pure tt) _ (IsSafe-pure tt) (destroy-IsSafe p id)

  register-IsSafe : (input : RegisterInput) → IsSafe (App.register p input)
  unfolding AuthService.register
  register-IsSafe input = search calls depth 15

  login-IsSafe : (req : LoginRequest) → IsSafe (App.login p req)
  unfolding AuthService.login
  login-IsSafe req = search calls depth 15

  check_grants-IsSafe :
      (is_public : Bool) (grants : List String)
      → IsSafe (ClientService.check_grants (App.runtime p) (App.client_repo p) is_public grants)
  unfolding ClientService.check_grants
  check_grants-IsSafe is_public [] = search calls
  check_grants-IsSafe is_public (g ∷ gs) =
      IsSafe-if (is_public && (g == grant_client_credentials)) _ _ (IsSafe-fail _) (
        IsSafe-if (not (supported_grant_types g)) _ _ (IsSafe-fail _)
          (check_grants-IsSafe is_public gs))

  new_secret-IsSafe :
      (is_public : Bool)
      → IsSafe (ClientService.new_secret (App.runtime p) (App.client_repo p) is_public)
  unfolding ClientService.new_secret
  new_secret-IsSafe true = search calls
  new_secret-IsSafe false = search calls depth 15

  register_client-IsSafe : (req : RegisterClientRequest) → IsSafe (App.register_client p req)
  unfolding ClientService.register_client
  register_client-IsSafe req = search (calls, check_grants-IsSafe, new_secret-IsSafe) depth 15

  with_session-IsSafe :
      (req : AuthorizeRequest) (client : Client) (b : Bool) (session : Option Session)
      → IsSafe (
          AuthService.with_session
            (App.client_repo p)
            (App.session_repo p)
            (App.auth_code_repo p)
            req
            client
            b
            session)
  unfolding AuthService.issue
  with_session-IsSafe req client b none = search calls
  with_session-IsSafe req client b (some session) = search calls depth 15

  with_client-IsSafe :
      (input : AuthorizeInput) (client : Option Client)
      → IsSafe (
          AuthService.with_client
            (App.client_repo p)
            (App.session_repo p)
            (App.auth_code_repo p)
            input
            client)
  unfolding AuthService.check
  with_client-IsSafe input none = IsSafe-pure _
  with_client-IsSafe input (some client) =
      let req = input.request in
      IsSafe-if (not (contains client.redirect_uris req.redirect_uri)) _ _ (IsSafe-pure _) (
        IsSafe-if
          (is_empty (fields req.scope) || not (contains_all client.scopes (fields req.scope))) _ _
          (IsSafe-pure _)
          (IsSafe-if (contains (fields req.prompt) "none" && not (is_alone (fields req.prompt))) _ _
            (IsSafe-pure _)
            (IsSafe-bind _ _ (IsSafe-relabel _ _ (session_by_id-IsSafe input.session_id))
              (λ session. with_session-IsSafe req client _ session))))

  authorize-IsSafe : (input : AuthorizeInput) → IsSafe (App.authorize p input)
  unfolding AuthService.authorize
  authorize-IsSafe input = search (calls, with_client-IsSafe)

  module _ (key : p.host.PrivateKey) where
    issue_access_token-IsSafe :
        (user_id email client_id scope : String)
        → IsSafe ((App.token_svc p key).issue_access_token user_id email client_id scope)
    unfolding TokenService.issue_access_token
    issue_access_token-IsSafe user_id email client_id scope = search calls depth 15

    issue_refresh_token-IsSafe : IsSafe ((App.token_svc p key).issue_refresh_token)
    unfolding TokenService.issue_refresh_token
    issue_refresh_token-IsSafe = search calls depth 15

    refresh_token-IsSafe : (raw : String) → IsSafe (App.refresh_token p key raw)
    unfolding AuthService.refresh_token
    refresh_token-IsSafe raw = search (calls, issue_access_token-IsSafe) depth 20

    exchange-IsSafe : (req : TokenRequest) → IsSafe (App.exchange p key req)
    unfolding TokenGrantService.exchange TokenGrantService.authorization_code_grant
        TokenGrantService.authenticate TokenGrantService.redeem TokenGrantService.mint
        TokenGrantService.refresh_token_grant
    exchange-IsSafe req =
        search (calls, issue_access_token-IsSafe, issue_refresh_token-IsSafe) depth 30

    -- No request ends in a panic: on every state, and whatever Redis, MySQL and the libraries
    -- answer, each of the eight operations of the services ends with a value or an error.
    pub requests-IsSafe :
        ((req : TokenRequest) → IsSafe (App.exchange p key req))
        × ((input : AuthorizeInput) → IsSafe (App.authorize p input))
        × ((req : LoginRequest) → IsSafe (App.login p req))
        × ((id : String) → IsSafe (App.logout p id))
        × ((id : String) → IsSafe (App.session_by_id p id))
        × ((raw : String) → IsSafe (App.refresh_token p key raw))
        × ((input : RegisterInput) → IsSafe (App.register p input))
        × ((req : RegisterClientRequest) → IsSafe (App.register_client p req))
    requests-IsSafe = (
      exchange-IsSafe, authorize-IsSafe, login-IsSafe, logout-IsSafe, session_by_id-IsSafe,
      refresh_token-IsSafe, register-IsSafe, register_client-IsSafe,
    )
