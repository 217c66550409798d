-- ===== src/Stable/Handlers.antt =====
-- Stable properties and the endpoints other than that of the authorization.
use iam_service.Effect.Preserves.{Preserves, preserves_rules, Preserves-pure}
use iam_service.Platform.{Platform, World}
use iam_service.Web.{Web}
use iam_service.Validator.Rules.{Engine}
use iam_service.Handler.Response.{Request}
use iam_service.Handler.Auth as AuthHandler
use iam_service.Handler.Token as TokenHandler
use iam_service.Stable.Defs.{IsStable}
use iam_service.Stable.Repositories.{session_create-Preserves}
use iam_service.Stable.Services.{
  login-Preserves, logout-Preserves, register_client-Preserves, refresh_token-Preserves,
  exchange-Preserves,
}
use iam_service.Server.{
  Endpoint, jwks, login, logout, refresh, authorize, token, register_client, Settings, handle,
}

module _ (p : Platform) (P : World p → Type 0) (stable : IsStable p P) (n : Web) (engine : Engine)
    (s : Settings p)
    (at_authorize : (r : Request n) → Preserves P (handle p n engine s authorize r)) where
  pub handle-Preserves :
      (endpoint : Endpoint) (r : Request n) → Preserves P (handle p n engine s endpoint r)
  unfolding handle AuthHandler.login AuthHandler.login_decoded AuthHandler.logout
      AuthHandler.refresh AuthHandler.refresh_decoded AuthHandler.register_client
      AuthHandler.register_decoded TokenHandler.token TokenHandler.token_form
      TokenHandler.exchange_valid
  handle-Preserves jwks r = Preserves-pure _
  handle-Preserves login r =
      search
        (
          preserves_rules,
          login-Preserves p P stable.steady
              (session_create-Preserves p P stable.steady stable.set_session),
        )
        depth 12
  handle-Preserves logout r = search (preserves_rules, logout-Preserves p P stable.steady) depth 12
  handle-Preserves refresh r =
      search (preserves_rules, refresh_token-Preserves p P stable.steady s.key) depth 12
  handle-Preserves authorize r = at_authorize r
  handle-Preserves token r =
      search (preserves_rules, exchange-Preserves p P stable.steady s.key) depth 12
  handle-Preserves register_client r =
      search (preserves_rules, register_client-Preserves p P stable.steady) depth 12
