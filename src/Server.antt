-- ===== src/Server.antt =====
-- cmd/api/main.go: the handlers over the services of the composition root, and the route table.
pub mod Answers
pub mod Redirects
pub mod History
pub mod Sessions
pub mod Flow
use iam_service.Prelude.{String, List, [], ◌∷◌, Bool}
use iam_service.Effect.{M, pure}
use iam_service.Platform.{Platform, World}
use iam_service.Web.{Web}
use iam_service.Validator.Rules.{Engine}
use iam_service.Handler.Ports.{AuthService, ClientService, TokenGrantService, TokenService}
use iam_service.Handler.Response.{Request, Response}
use iam_service.Handler.Auth as AuthHandler
use iam_service.Handler.Token as TokenHandler
use iam_service.App

-- The handler methods that the router is given.
pub data Endpoint : Type 0 where
  jwks login logout refresh authorize token register_client : Endpoint

-- By method and pattern.
abbrev pub routes : List (String × String × Endpoint)
routes =
    ("GET", "/.well-known/jwks.json", jwks)
    ∷ ("POST", "/login", login)
    ∷ ("POST", "/logout", logout)
    ∷ ("POST", "/refresh", refresh)
    ∷ ("GET", "/oauth/authorize", authorize)
    ∷ ("POST", "/oauth/token", token)
    ∷ ("POST", "/admin/clients", register_client)
    ∷ []

-- NewAuthHandler: the handlers' collaborators, and the settings COOKIE_SECURE and LOGIN_URL.
pub record Settings (p : Platform) : Type 0 where
  pub key : p.host.PrivateKey
  pub tokens : TokenService
  pub secure_cookies : Bool
  pub login_url : String

module _ (p : Platform) where
  abbrev pub auth_service : p.host.PrivateKey → AuthService (World p)
  auth_service key = record {
    login = App.login p;
    logout = App.logout p;
    refresh_token = App.refresh_token p key;
    authorize = App.authorize p;
  }

  abbrev pub client_service : ClientService (World p)
  client_service = record { register_client = App.register_client p }

  abbrev pub token_grant_service : p.host.PrivateKey → TokenGrantService (World p)
  token_grant_service key = record { exchange = App.exchange p key }

  module _ (n : Web) (engine : Engine) (s : Settings p) where
    unfoldable pub handle : Endpoint → Request n → M (World p) Response
    handle jwks r = pure (AuthHandler.jwks s.tokens)
    handle login r = AuthHandler.login n (auth_service s.key) s.secure_cookies r
    handle logout r = AuthHandler.logout n (auth_service s.key) s.secure_cookies r
    handle refresh r = AuthHandler.refresh n (auth_service s.key) r
    handle authorize r = AuthHandler.authorize n (auth_service s.key) engine s.login_url r
    handle token r = TokenHandler.token n engine (token_grant_service s.key) r
    handle register_client r = AuthHandler.register_client n client_service r
