-- ===== src/Stable/Services.antt =====
-- A steady property is kept by every operation of the services but the issue of a code, and by the
-- login where it bears the creation of a session.
use iam_service.Prelude.{
  String, List, Option, none, some, [], ◌∷◌, Bool, true, false, not, ◌&&◌, ◌||◌, ◌==◌, contains,
}
use iam_service.Text.{fields}
use iam_service.Utils.{contains_all}
use iam_service.Errors.{is, at, session_not_found}
use iam_service.Oauth.{supported_grant_types, grant_client_credentials}
use iam_service.Effect.{pure}
use iam_service.Effect.Preserves.{
  Preserves, preserves_rules, Preserves-relabel, Preserves-on_error, Preserves-if, Preserves-pure,
  Preserves-fail, Preserves-bind,
}
use iam_service.Models.{Client, Session, AuthCode}
use iam_service.Dtos.{LoginRequest, RegisterClientRequest, TokenRequest}
use iam_service.Platform.{Platform, World, World}
use iam_service.Repository.Session as SessionRepository
use iam_service.Repository.AuthCode as AuthCodeRepository
use iam_service.App
use iam_service.Service.Auth.Asked.{code_for}
use iam_service.Service.Token as TokenService
use iam_service.Service.Client as ClientService
use iam_service.Service.TokenGrant as TokenGrantService
use iam_service.Service.Auth as AuthService
use iam_service.Service.Auth.{RegisterInput, AuthorizeInput, AuthorizeResult, is_empty, is_alone}
use iam_service.Stable.Defs.{IsSteady}
use iam_service.Stable.Repositories.{
  on_os-Preserves, on_host-Preserves, get_by_email-Preserves, user_get_by_id-Preserves,
  user_create-Preserves, client_get_by_id-Preserves, client_create-Preserves,
  get_token_by_hash-Preserves, token_create-Preserves, session_get-Preserves, destroy-Preserves,
  consume-Preserves,
}

ruleset calls = (
  preserves_rules, on_os-Preserves, on_host-Preserves, get_by_email-Preserves,
  user_get_by_id-Preserves, user_create-Preserves, client_get_by_id-Preserves,
  client_create-Preserves, get_token_by_hash-Preserves, token_create-Preserves,
  session_get-Preserves, destroy-Preserves, consume-Preserves,
)

module _ (p : Platform) (P : World p → Type 0) (steady : IsSteady p P) where
  pub register-Preserves : (input : RegisterInput) → Preserves P (App.register p input)
  unfolding AuthService.register
  register-Preserves input = search calls depth 15

  pub login-Preserves :
      (create : (user_id email : String) → Preserves P (SessionRepository.create p user_id email))
      (req : LoginRequest)
      → Preserves P (App.login p req)
  unfolding AuthService.login
  login-Preserves create req = search (calls, create) depth 15

  pub logout-Preserves : (id : String) → Preserves P (App.logout p id)
  unfolding AuthService.logout
  logout-Preserves id = search calls depth 15

  pub session_by_id-Preserves : (id : String) → Preserves P (App.session_by_id p id)
  unfolding AuthService.session_by_id
  session_by_id-Preserves id = Preserves-if (id == "") (pure none) _ (Preserves-pure none) (
      Preserves-on_error (AuthService.not_found_is_nil (App.session_repo p)) _
        (session_get-Preserves p P steady id)
        (λ e.
          Preserves-if (is e session_not_found) (pure none) _ (Preserves-pure none)
            (Preserves-fail _)))

  pub check_grants-Preserves :
      (is_public : Bool) (grants : List String)
      → Preserves P
          (ClientService.check_grants (App.runtime p) (App.client_repo p) is_public grants)
  unfolding ClientService.check_grants
  check_grants-Preserves is_public [] = search calls
  check_grants-Preserves is_public (g ∷ gs) =
      Preserves-if (is_public && (g == grant_client_credentials)) _ _ (Preserves-fail _) (
        Preserves-if (not (supported_grant_types g)) _ _ (Preserves-fail _)
          (check_grants-Preserves is_public gs))

  pub new_secret-Preserves :
      (is_public : Bool)
      → Preserves P (ClientService.new_secret (App.runtime p) (App.client_repo p) is_public)
  unfolding ClientService.new_secret
  new_secret-Preserves true = search calls
  new_secret-Preserves false = search calls depth 15

  pub register_client-Preserves :
      (req : RegisterClientRequest) → Preserves P (App.register_client p req)
  unfolding ClientService.register_client
  register_client-Preserves req =
      search (calls, check_grants-Preserves, new_secret-Preserves) depth 15

  module _ (key : p.host.PrivateKey) where
    pub issue_access_token-Preserves :
        (user_id email client_id scope : String)
        → Preserves P ((App.token_svc p key).issue_access_token user_id email client_id scope)
    unfolding TokenService.issue_access_token
    issue_access_token-Preserves user_id email client_id scope = search calls depth 15

    pub issue_refresh_token-Preserves : Preserves P ((App.token_svc p key).issue_refresh_token)
    unfolding TokenService.issue_refresh_token
    issue_refresh_token-Preserves = search calls depth 15

    pub refresh_token-Preserves : (raw : String) → Preserves P (App.refresh_token p key raw)
    unfolding AuthService.refresh_token
    refresh_token-Preserves raw = search (calls, issue_access_token-Preserves) depth 15

    pub authenticate-Preserves :
        (req : TokenRequest)
        → Preserves P (TokenGrantService.authenticate (App.runtime p) (App.client_repo p) req)
    unfolding TokenGrantService.authenticate
    authenticate-Preserves req = search calls depth 15

    pub mint-Preserves :
        (client : Client) (auth_code : AuthCode)
        → Preserves P (
            TokenGrantService.mint
              (App.runtime p)
              (App.user_repo p)
              (App.refresh_token_repo p)
              (App.token_svc p key)
              client
              auth_code)
    unfolding TokenGrantService.mint
    mint-Preserves client auth_code =
        search (calls, issue_access_token-Preserves, issue_refresh_token-Preserves) depth 20

    pub exchange-Preserves : (req : TokenRequest) → Preserves P (App.exchange p key req)
    unfolding TokenGrantService.exchange TokenGrantService.authorization_code_grant
        TokenGrantService.redeem TokenGrantService.refresh_token_grant
    exchange-Preserves req = search (calls, authenticate-Preserves, mint-Preserves) depth 20

  -- Authorize stores at most the code of its request.
  module _ (input : AuthorizeInput)
      (create : (client : Client) (session : Session)
        → Preserves P (AuthCodeRepository.create p (code_for input.request client session))) where
    with_session-Preserves :
        (client : Client) (b : Bool) (session : Option Session)
        → Preserves P (
            AuthService.with_session
              (App.client_repo p)
              (App.session_repo p)
              (App.auth_code_repo p)
              input.request
              client
              b
              session)
    unfolding AuthService.issue
    with_session-Preserves client b none = search preserves_rules
    with_session-Preserves client b (some session) =
        Preserves-bind _ _ (Preserves-relabel _ _ (create client session))
          (λ code. search preserves_rules)

    with_client-Preserves :
        (client : Option Client)
        → Preserves P (
            AuthService.with_client
              (App.client_repo p)
              (App.session_repo p)
              (App.auth_code_repo p)
              input
              client)
    unfolding AuthService.check
    with_client-Preserves none = Preserves-pure _
    with_client-Preserves (some client) =
        let req = input.request in
        Preserves-if (not (contains client.redirect_uris req.redirect_uri)) _ _ (Preserves-pure _) (
          Preserves-if
            (is_empty (fields req.scope) || not (contains_all client.scopes (fields req.scope))) _ _
            (Preserves-pure _)
            (Preserves-if
              (contains (fields req.prompt) "none" && not (is_alone (fields req.prompt))) _ _
              (Preserves-pure _)
              (Preserves-bind _ _
                (Preserves-relabel (at "AuthService.Authorize") _
                  (session_by_id-Preserves input.session_id))
                (λ session.
                  with_session-Preserves client (contains (fields req.prompt) "none") session))))

    pub authorize-Preserves : Preserves P (App.authorize p input)
    unfolding AuthService.authorize
    authorize-Preserves =
        Preserves-bind _ _
          (Preserves-relabel _ _ (client_get_by_id-Preserves p P steady input.request.client_id))
          (λ client. with_client-Preserves client)
