-- ===== src/Server/Redirects.antt =====
-- Where GET /oauth/authorize sends a browser.
use iam_service.Prelude.{
  String, List, maybe, Option, none, some, ◌≡◌, refl, sym, subst, ap, inl, inr,
}
use iam_service.Effect.{ok, respond-inv}
use iam_service.Models.{Client}
use iam_service.Dtos.{AuthorizeRequest}
use iam_service.Platform.{Platform, World}
use iam_service.Web.{Web}
use iam_service.Validator.RedirectUri.{IsRedirectUri}
use iam_service.Validator.Rules.{Engine, IsEngine}
use iam_service.Validator.Requests.{validate_authorize}
use iam_service.Validator.Accepts.{validate_authorize-none_iff}
use iam_service.Service.Auth.{
  AuthorizeResult, AuthorizeInput, issue_code, require_login, error_to_client, reject_direct,
}
use iam_service.Service.Auth.Authorize.{IsTrusted, IsJustified, authorize-IsJustified}
use iam_service.Handler.Params.{parse_authorize_request}
use iam_service.Handler.Response.{
  Request, Response, Body, redirect_body, redirect_parsed, redirect_with, merge, cookie_value,
}
use iam_service.Handler.Auth as AuthHandler
use iam_service.Handler.Auth.{take_action, internal_error, session_cookie_name}
use iam_service.Server.{Endpoint, Settings, handle, auth_service}
use iam_service.App

target_of : Body → String
target_of (redirect_body target) = target
target_of _ = ""

redirect_body_injective : {a b : String} → redirect_body a ≡ redirect_body b → a ≡ b
unfolding target_of
redirect_body_injective e = ap target_of e

module _ (n : Web) where
  -- The text is that of the base's URL with another query.
  pub record IsExtended (base target : String) : Type 0 where
    pub u : n.Url
    pub q : n.Values
    pub parsed : n.parse base ≡ some u
    pub rendered : target ≡ n.to_text (n.with_query u q)

  parsed-IsExtended :
      (base : String) (kv : List (String × String)) (target : String) (found : Option n.Url)
      → n.parse base ≡ found
      → (redirect_parsed n kv found).body ≡ redirect_body target
      → IsExtended base target
  parsed-IsExtended base kv target none e h = absurd (cc)
  parsed-IsExtended base kv target (some u) e h = record {
    u = u;
    q = merge n (n.query u) kv;
    parsed = e;
    rendered = redirect_body_injective (sym h);
  }

  redirect_with-IsExtended :
      (base : String) (kv : List (String × String)) (target : String)
      → (redirect_with n base kv).body ≡ redirect_body target
      → IsExtended base target
  unfolding redirect_with
  redirect_with-IsExtended base kv target h = parsed-IsExtended base kv target (n.parse base) refl h

module _ (p : Platform) (n : Web) (engine : Engine) (law : IsEngine engine) (s : Settings p) where
  -- The login page, or a redirect_uri that the client of the request registered and that is an
  -- absolute URI by https, or by http to the machine itself.
  pub data IsSafeTarget (req : AuthorizeRequest) (target : String) (w : World p) : Type 0 where
    to_login : IsExtended n s.login_url target → IsSafeTarget req target w
    to_client :
        (client : Client) (u : World p)
        → IsTrusted (App.client_repo p) (App.session_repo p) (App.auth_code_repo p) req client w u
        → IsRedirectUri n req.redirect_uri
        → IsExtended n req.redirect_uri target
        → IsSafeTarget req target w

  action-IsSafeTarget :
      (r : Request n) (input : AuthorizeInput) (result : AuthorizeResult) (target : String)
      (w w' : World p)
      → IsRedirectUri n input.request.redirect_uri
      → IsJustified
          (App.client_repo p)
          (App.session_repo p)
          (App.auth_code_repo p)
          input
          result
          w
          w'
      → (take_action n (auth_service p s.key) engine s.login_url r result).body
        ≡ redirect_body target
      → IsSafeTarget input.request target w
  action-IsSafeTarget r input (issue_code uri state code) target w w' safe (same, _, issued) h =
      to_client issued.client issued.u0 issued.trusted safe
        (subst (λ x. IsExtended n x target) same (redirect_with-IsExtended n uri _ target h))
  action-IsSafeTarget r input require_login target w w' safe j h =
      to_login (redirect_with-IsExtended n s.login_url _ target h)
  action-IsSafeTarget r input (error_to_client uri state e) target w w' safe
        (same, _, (client, u, trusted, _)) h =
      to_client client u trusted safe
        (subst (λ x. IsExtended n x target) same (redirect_with-IsExtended n uri _ target h))
  action-IsSafeTarget r input (reject_direct message) target w w' safe j h = absurd (cc)

  parsed_request-IsSafeTarget :
      (r : Request n) (req : AuthorizeRequest) (resp : Response) (target : String) (w w' : World p)
      (checked : Option (List (String × String)))
      → validate_authorize n engine req ≡ checked
      → AuthHandler.authorize_parsed n (auth_service p s.key) engine s.login_url r req w
        ≡ (ok resp, w')
      → resp.body ≡ redirect_body target
      → IsSafeTarget req target w
  unfolding AuthHandler.authorize_parsed maybe
  parsed_request-IsSafeTarget r req resp target w w' (some errs) e h t = absurd (cc (rw e at h))
  parsed_request-IsSafeTarget r req resp target w w' none e h t =
      let input : AuthorizeInput = record {
        request = req;
        session_id = cookie_value n r session_cookie_name;
      } in
      let valid = (validate_authorize-none_iff n engine law req).0 e in
      elim (respond-inv _ _ (App.authorize p input) w (rw e at h)) [
        | inl (result, ran, answer) ↦
            action-IsSafeTarget r input result target w w' valid.redirect_uri.1
              (authorize-IsJustified (App.client_repo p) (App.session_repo p) (App.auth_code_repo p)
                input result w w' ran)
              (rw (← answer) t)
        | inr (x, ran, answer) ↦ absurd (cc)
      ]

  -- The authorize endpoint is no open redirector: it sends a browser to the login page, or to a
  -- redirect_uri that the client of the request registered and that passed the transport rules,
  -- and changes the query of that URL alone, if the engine keeps to its documentation.
  pub handle-IsSafeTarget :
      (r : Request n) (resp : Response) (target : String) (w w' : World p)
      → handle p n engine s Endpoint.authorize r w ≡ (ok resp, w')
      → resp.body ≡ redirect_body target
      → IsSafeTarget (parse_authorize_request n r.url_query) target w
  unfolding handle AuthHandler.authorize
  handle-IsSafeTarget r resp target w w' h t =
      parsed_request-IsSafeTarget r (parse_authorize_request n r.url_query) resp target w w'
        (validate_authorize n engine (parse_authorize_request n r.url_query)) refl h t
