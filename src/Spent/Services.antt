-- ===== src/Spent/Services.antt =====
-- What Authorize keeps of the entry of a code, where the next code to be drawn is another one.
use iam_service.Prelude.{
  String, ◌≡◌, ◌≢◌, refl, subst, Option, none, some, Bool, not, ◌&&◌, ◌||◌, ◌==◌, contains,
}
use iam_service.Text.{fields}
use iam_service.Utils.{contains_all}
use iam_service.Errors.{is, at, session_not_found}
use iam_service.Effect.{done, pure}
use iam_service.Effect.Preserves.{
  Preserves, preserves_rules, Preserves-relabel, Preserves-on_error, Preserves-if, Preserves-pure,
  Preserves-fail, Leads, Leads-of_Preserves, Leads-if, Leads-bind, Leads-then, Leads-relabel,
}
use iam_service.Models.{Client, Session, AuthCode}
use iam_service.Dtos.{AuthorizeRequest}
use iam_service.Platform.{Platform, World, IsRedis, Entry, Bytes}
use iam_service.System.{IsFresh}
use iam_service.Repository.AuthCode as AuthCodeRepository
use iam_service.App
use iam_service.Service.Auth as AuthService
use iam_service.Service.Auth.{RegisterInput, AuthorizeInput, AuthorizeResult, is_empty, is_alone}
use iam_service.Spent.Calls.{IsFading}
use iam_service.Spent.Repositories.{
  CodeBears, CodeBearsAt, session_get-CodeBearsAt, client_get_by_id-CodeBearsAt,
  auth_code_create-CodeBears,
}

module _ (p : Platform) (law : IsRedis p.redis) (code : String) {Q : Option Entry → Type 0}
    (fading : IsFading Q) where
  module _ (os : p.host.State)
      (fresh : (raw : Bytes)
        → (p.host.read 32 os).0 ≡ done raw
        → p.host.encode_to_string raw ≢ code) where
    weaken : (w : World p) → CodeBearsAt p law code Q os w → CodeBears p law code Q w
    weaken w h = h.0

    session_by_id-CodeBearsAt :
        (id : String) → Preserves (CodeBearsAt p law code Q os) (App.session_by_id p id)
    unfolding AuthService.session_by_id
    session_by_id-CodeBearsAt id = Preserves-if (id == "") (pure none) _ (Preserves-pure none) (
        Preserves-on_error (AuthService.not_found_is_nil (App.session_repo p)) _
          (session_get-CodeBearsAt p law code fading os id)
          (λ e.
            Preserves-if (is e session_not_found) (pure none) _ (Preserves-pure none)
              (Preserves-fail _)))

    create-Leads :
        (given : AuthCode)
        → Leads
            (CodeBearsAt p law code Q os)
            (CodeBears p law code Q)
            (AuthCodeRepository.create p given)
    create-Leads given = record {
      at = λ w h.
          auth_code_create-CodeBears p law code fading given w
            (λ raw e. fresh raw (subst (λ s. (p.host.read 32 s).0 ≡ done raw) h.1 e)) h.0;
    }

    with_session-Leads :
        (req : AuthorizeRequest) (client : Client) (b : Bool) (session : Option Session)
        → Leads (CodeBearsAt p law code Q os) (CodeBears p law code Q) (
            AuthService.with_session
              (App.client_repo p)
              (App.session_repo p)
              (App.auth_code_repo p)
              req
              client
              b
              session)
    unfolding AuthService.issue
    with_session-Leads req client b none = Leads-of_Preserves weaken (search preserves_rules)
    with_session-Leads req client b (some session) =
        Leads-then _ _ (Leads-relabel _ _ (create-Leads _)) (λ c. search preserves_rules)

    with_client-Leads :
        (input : AuthorizeInput) (client : Option Client)
        → Leads (CodeBearsAt p law code Q os) (CodeBears p law code Q) (
            AuthService.with_client
              (App.client_repo p)
              (App.session_repo p)
              (App.auth_code_repo p)
              input
              client)
    unfolding AuthService.check
    with_client-Leads input none = Leads-of_Preserves weaken (Preserves-pure _)
    with_client-Leads input (some client) =
        let req = input.request in
        let stop = λ (r : AuthorizeResult). Leads-of_Preserves weaken (Preserves-pure r) in
        Leads-if (not (contains client.redirect_uris req.redirect_uri)) _ _ (stop _) (
          Leads-if
            (is_empty (fields req.scope) || not (contains_all client.scopes (fields req.scope))) _ _
            (stop _)
            (Leads-if (contains (fields req.prompt) "none" && not (is_alone (fields req.prompt))) _
              _ (stop _)
              (Leads-bind weaken _ _
                (Preserves-relabel (at "AuthService.Authorize") _
                  (session_by_id-CodeBearsAt input.session_id))
                (λ session.
                  with_session-Leads req client (contains (fields req.prompt) "none") session))))

    authorize-Leads :
        (input : AuthorizeInput)
        → Leads (CodeBearsAt p law code Q os) (CodeBears p law code Q) (App.authorize p input)
    unfolding AuthService.authorize
    authorize-Leads input =
        Leads-bind weaken _ _
          (Preserves-relabel _ _
            (client_get_by_id-CodeBearsAt p law code fading os input.request.client_id))
          (λ client. with_client-Leads input client)

  pub authorize-CodeBears :
      (input : AuthorizeInput) (w : World p)
      → IsFresh p code w
      → CodeBears p law code Q w
      → CodeBears p law code Q (App.authorize p input w).1
  authorize-CodeBears input w fresh h = (authorize-Leads w.os fresh input).at w (h, refl)
