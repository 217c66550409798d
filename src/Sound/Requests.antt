-- ===== src/Sound/Requests.antt =====
-- The requests and the invariant of the stored codes.
use iam_service.Prelude.{String, List, Option, none, some, ◌≡◌, refl, maybe}
use iam_service.Effect.Preserves.{Preserves, Preserves-pure, Preserves-respond}
use iam_service.Dtos.{AuthorizeRequest}
use iam_service.Platform.{Platform, IsRedis, IsHost}
use iam_service.Web.{Web}
use iam_service.Validator.Rules.{Engine, IsEngine}
use iam_service.Validator.Requests.{validate_authorize}
use iam_service.Validator.Accepts.{validate_authorize-none_iff}
use iam_service.Handler.Params.{parse_authorize_request}
use iam_service.Handler.Response.{Request, cookie_value}
use iam_service.Handler.Auth as AuthHandler
use iam_service.Handler.Auth.{session_cookie_name}
use iam_service.Service.Auth.{AuthorizeInput}
use iam_service.Stable.Services.{authorize-Preserves}
use iam_service.Stable.Handlers.{handle-Preserves}
use iam_service.Sound.Stored.{AllBound, AllBound-IsSteady, AllBound-IsStable, create-AllBound}
use iam_service.Server.{Endpoint, authorize, Settings, handle, auth_service}

module _ (p : Platform) (law : IsRedis p.redis) (host : IsHost p.host) (n : Web) (engine : Engine)
    (docs : IsEngine engine) (s : Settings p) where
  parsed-AllBound :
      (r : Request n) (req : AuthorizeRequest) (checked : Option (List (String × String)))
      → validate_authorize n engine req ≡ checked
      → Preserves
          (AllBound p law n)
          (AuthHandler.authorize_parsed n (auth_service p s.key) engine s.login_url r req)
  unfolding AuthHandler.authorize_parsed maybe
  parsed-AllBound r req (some errs) e = rw e (Preserves-pure _)
  parsed-AllBound r req none e =
      let valid = (validate_authorize-none_iff n engine docs req).0 e in
      let input : AuthorizeInput = record {
        request = req;
        session_id = cookie_value n r session_cookie_name;
      } in
      rw e (
        Preserves-respond _ _ _ (
          authorize-Preserves p (AllBound p law n) (AllBound-IsSteady p law n) input
            (λ client session. create-AllBound p law n host _ (record {
              method = valid.method;
              challenge = valid.code_challenge;
              redirect_uri = valid.redirect_uri.1;
            }))))

  at_authorize : (r : Request n) → Preserves (AllBound p law n) (handle p n engine s authorize r)
  unfolding handle AuthHandler.authorize
  at_authorize r = parsed-AllBound r (parse_authorize_request n r.url_query) _ refl

  pub handle-AllBound :
      (endpoint : Endpoint) (r : Request n)
      → Preserves (AllBound p law n) (handle p n engine s endpoint r)
  handle-AllBound endpoint r =
      handle-Preserves p _ (AllBound-IsStable p law n) n engine s at_authorize endpoint r
