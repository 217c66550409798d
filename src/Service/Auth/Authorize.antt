-- ===== src/Service/Auth/Authorize.antt =====
-- When `Authorize` takes each of its actions, over any collaborators.
use iam_service.Service.Auth.Asked.{
  HasScope, code_for, bad_scope, good_scope, bad_prompt, good_prompt, PromptIsValid,
}
use iam_service.Prelude.{
  String, ◌&&◌, ◌||◌, not, ◌≡◌, refl, ◌⊎◌, inl, inr, Option, none, some, Bool-cases, Among,
  contains, contains_sound, contains_complete,
}
use iam_service.Errors.{at}
use iam_service.Effect.{ok, relabel-inv, pure-inv}
use iam_service.Models.{Client, Session}
use iam_service.Dtos.{AuthorizeRequest}
use iam_service.Text.{fields}
use iam_service.Utils.{contains_all}
use iam_service.Ports.{ClientRepo, SessionRepo, AuthCodeRepo}
use iam_service.Service.Auth.{
  AuthorizeInput, AuthorizeResult, issue_code, require_login, error_to_client, reject_direct,
  session_by_id, is_alone, is_empty, issue, with_session, check, with_client, authorize,
}

module _ {W : Type 0} (clients : ClientRepo W) (sessions : SessionRepo W)
    (auth_codes : AuthCodeRepo W) where
  -- The client is known, and it registered exactly this redirect_uri.
  pub record IsTrusted (req : AuthorizeRequest) (client : Client) (w u : W) : Type 0 where
    pub found : clients.get_by_id req.client_id w ≡ (ok (some client), u)
    pub registered : Among req.redirect_uri client.redirect_uris

  pub record IsIssued (input : AuthorizeInput) (code : String) (w w' : W) : Type 0 where
    pub client : Client
    pub session : Session
    pub u0 : W
    pub u1 : W
    pub trusted : IsTrusted input.request client w u0
    pub scope : HasScope input.request client
    pub prompt : PromptIsValid input.request
    pub logged_in : session_by_id sessions input.session_id u0 ≡ (ok (some session), u1)
    -- the code stands for this client, this user and the parameters of this request
    pub stored : auth_codes.create (code_for input.request client session) u1 ≡ (ok code, w')

  -- A sound request of a browser that is not logged in.
  pub record IsLoggedOut (input : AuthorizeInput) (w w' : W) : Type 0 where
    pub client : Client
    pub u0 : W
    pub trusted : IsTrusted input.request client w u0
    pub scope : HasScope input.request client
    pub prompt : PromptIsValid input.request
    pub logged_out : session_by_id sessions input.session_id u0 ≡ (ok none, w')

  -- Why the client is told of an error.
  abbrev pub IsAtFault : AuthorizeInput → Client → String → W → W → Type 0
  IsAtFault input client e u w' =
      ((e ≡ "invalid_scope") × ¬ HasScope input.request client × (u ≡ w'))
      ⊎ ((e ≡ "invalid_request") × ¬ PromptIsValid input.request × (u ≡ w'))
      ⊎ ((e ≡ "login_required")
          × Among "none" (fields input.request.prompt)
          × (session_by_id sessions input.session_id u ≡ (ok none, w')))

  abbrev pub IsJustified : AuthorizeInput → AuthorizeResult → W → W → Type 0
  IsJustified input (issue_code uri state code) w w' =
      (uri ≡ input.request.redirect_uri) × (state ≡ input.request.state) × IsIssued input code w w'
  IsJustified input require_login w w' =
      IsLoggedOut input w w' × ¬ Among "none" (fields input.request.prompt)
  IsJustified input (error_to_client uri state e) w w' =
      (uri ≡ input.request.redirect_uri)
      × (state ≡ input.request.state)
      × ((client : Client) × (u : W) × IsTrusted input.request client w u
          × IsAtFault input client e u w')
  IsJustified input (reject_direct message) w w' =
      (clients.get_by_id input.request.client_id w ≡ (ok none, w'))
      ⊎ ((client : Client) × (clients.get_by_id input.request.client_id w ≡ (ok (some client), w'))
          × ¬ Among input.request.redirect_uri client.redirect_uris)

  with_session-IsJustified :
      (input : AuthorizeInput) (client : Client) (r : AuthorizeResult) (w u u' w' : W)
      (session : Option Session)
      → IsTrusted input.request client w u
      → HasScope input.request client
      → PromptIsValid input.request
      → session_by_id sessions input.session_id u ≡ (ok session, u')
      → with_session clients sessions auth_codes input.request client
          (contains (fields input.request.prompt) "none")
          session
          u'
        ≡ (ok r, w')
      → IsJustified input r w w'
  unfolding issue
  with_session-IsJustified input client r w u u' w' none trusted scope prompt e h =
      elim (Bool-cases (contains (fields input.request.prompt) "none")) [
        | inl silent ↦
            pure-inv (λ r v. IsJustified input r w v) (rw silent at h)
              (refl, refl, (client, u, trusted, inr (inr (refl, contains_sound _ _ silent, e))))
        | inr shown ↦
            pure-inv (λ r v. IsJustified input r w v) (rw shown at h)
              (
                record {
                  client = client;
                  u0 = u;
                  trusted = trusted;
                  scope = scope;
                  prompt = prompt;
                  logged_out = e;
                },
                λ silent. cc (shown, contains_complete _ _ silent),
              )
      ]
  with_session-IsJustified input client r w u u' w' (some session) trusted scope prompt e h =
      relabel-inv (at "AuthService.Authorize")
        (auth_codes.create (code_for input.request client session)) _ u' h
        λ code v stored last.
          pure-inv (λ r v. IsJustified input r w v) last
            (
              refl,
              refl,
              record {
                client = client;
                session = session;
                u0 = u;
                u1 = u';
                trusted = trusted;
                scope = scope;
                prompt = prompt;
                logged_in = e;
                stored = stored;
              },
            )

  check-IsJustified :
      (input : AuthorizeInput) (client : Client) (r : AuthorizeResult) (w u w' : W)
      → clients.get_by_id input.request.client_id w ≡ (ok (some client), u)
      → check clients sessions auth_codes input client u ≡ (ok r, w')
      → IsJustified input r w w'
  unfolding check
  check-IsJustified input client r w u w' found h =
      let req = input.request in
      elim (Bool-cases (contains client.redirect_uris req.redirect_uri)) [
        | inr unknown ↦
            pure-inv (λ r v. IsJustified input r w v) (rw unknown at h)
              (inr (client, found, λ a. cc (unknown, contains_complete _ _ a)))
        | inl known ↦
            let trusted : IsTrusted req client w u = record {
              found = found;
              registered = contains_sound _ _ known;
            } in
            elim (Bool-cases (
              is_empty (fields req.scope) || not (contains_all client.scopes (fields req.scope)))) [
                | inl bad ↦
                    pure-inv (λ r v. IsJustified input r w v) (rw (known, bad) at h)
                      (refl, refl, (client, u, trusted, inl (refl, bad_scope req client bad, refl)))
                | inr good ↦
                    elim (Bool-cases
                      (contains (fields req.prompt) "none" && not (is_alone (fields req.prompt)))) [
                        | inl odd ↦
                            pure-inv (λ r v. IsJustified input r w v) (rw (known, good, odd) at h)
                              (
                                refl,
                                refl,
                                (client, u, trusted, inr (inl (refl, bad_prompt req odd, refl))),
                              )
                        | inr fine ↦
                            let go = rw (known, good, fine) at h in
                            relabel-inv (at "AuthService.Authorize")
                              (session_by_id sessions input.session_id) _ u go
                              λ session u' e k.
                                with_session-IsJustified input client r w u u' w' session trusted
                                  (good_scope req client good) (good_prompt req fine) e k
                      ]
              ]
      ]

  -- Every action is taken exactly for its reason: a code is issued only to a trusted client and
  -- redirect_uri, for registered scopes and a live session; an error is sent only to a registered
  -- redirect_uri; a direct rejection means that client or redirect_uri is not known.
  pub authorize-IsJustified :
      (input : AuthorizeInput) (r : AuthorizeResult) (w w' : W)
      → authorize clients sessions auth_codes input w ≡ (ok r, w')
      → IsJustified input r w w'
  unfolding authorize
  authorize-IsJustified input r w w' h =
      relabel-inv (at "AuthService.Authorize") (clients.get_by_id input.request.client_id) _ w h
        λ found u e k. rest found u e k
    where
      rest :
          (found : Option Client) (u : W)
          → clients.get_by_id input.request.client_id w ≡ (ok found, u)
          → with_client clients sessions auth_codes input found u ≡ (ok r, w')
          → IsJustified input r w w'
      rest none u e k = pure-inv (λ r v. IsJustified input r w v) k (inl e)
      rest (some client) u e k = check-IsJustified input client r w u w' e k
