-- ===== src/Startup/Serving.antt =====
-- cmd/api/main.go: the server over what New built.
use iam_service.Prelude.{[], ◌∷◌, ◌≡◌, refl}
use iam_service.Effect.{ok}
use iam_service.Dtos.{JwksResponse}
use iam_service.Platform.{Platform, World}
use iam_service.Web.{Web}
use iam_service.Validator.Rules.{Engine}
use iam_service.Service.Token as TokenService
use iam_service.App as Services
use iam_service.Handler.Auth as AuthHandler
use iam_service.Handler.Response.{field, jwks_body, Request, write_json}
use iam_service.Server.{Endpoint, Settings, handle}
use iam_service.Startup.Config.{Config}
use iam_service.Startup.Infra.{Infra, IsInfra}
use iam_service.Startup.Pair.{IsPair}
use iam_service.Startup.New.{App, new}
use iam_service.Startup.Outcome.{new-inv}

module _ (p : Platform) (f : Infra p.host) where
  -- The key set of a public key.
  abbrev pub key_set : f.PublicKey → JwksResponse
  key_set key =
      TokenService.jwks (Services.runtime p) (f.bytes (f.modulus key)) (f.bytes (f.exponent key))

  -- What NewTokenService and NewAuthHandler are given.
  abbrev pub settings : App f → Settings p
  settings app = record {
    key = app.private_key;
    tokens = record { jwks = key_set app.public_key };
    secure_cookies = app.cfg.cookie_secure;
    login_url = app.cfg.login_url;
  }

  same_key_set :
      (private : p.host.PrivateKey) (public : f.PublicKey)
      → IsPair f private public
      → key_set public ≡ key_set (f.public_key private)
  same_key_set private public pair = rw (pair.modulus, pair.exponent) refl

  -- GET /.well-known/jwks.json of a server that started answers with the key set of the public half
  -- of the private key that the server signs its tokens with.
  pub publishes_signing_key :
      (law : IsInfra f) (n : Web) (engine : Engine) (cfg : Config) (s s' : f.State) (app : App f)
      (r : Request n) (w : World p)
      → new f cfg s ≡ (ok app, s')
      → (handle p n engine (settings app) Endpoint.jwks r w).0
        ≡ ok (
            write_json
              (field "Cache-Control" "public, max-age=300" ∷ [])
              200
              (jwks_body (key_set (f.public_key (settings app).key))))
  unfolding handle AuthHandler.jwks
  publishes_signing_key law n engine cfg s s' app r w run =
      let (dbs, rdbs, pair) = new-inv f law cfg s s' app run in
      rw (← same_key_set app.private_key app.public_key pair) refl
