-- ===== src/Validator/Accepts.antt =====
-- What the validation of the requests accepts.
use iam_service.Prelude.{
  String, none, ◌≡◌, ◌≢◌, ◌↔◌, refl, arith, ne_of_eq-false, Among, here, there,
}
use iam_service.Dtos.{AuthorizeRequest}
use iam_service.Web.{Web}
use iam_service.Validator.RedirectUri.{validate_redirect_uri, validate_redirect_uri_iff}
use iam_service.Validator.Rules.{Field, Engine, IsEngine, first_failure}
use iam_service.Validator.Report.{struct-none_iff}
use iam_service.Validator.Requests.{authorize_fields, validate_authorize, IsWellFormed}
use iam_service.Validator.Failures.{
  required_sound, length_sound, length_complete, max_iff, one_sound, one_complete,
  required_complete, optional_iff, custom_iff, not_empty,
}

code_is_full : ◌≢◌ {A = String} "code" ""
code_is_full = ne_of_eq-false "code" "" refl

s256_is_full : ◌≢◌ {A = String} "S256" ""
s256_is_full = ne_of_eq-false "S256" "" refl

module _ (n : Web) (engine : Engine) where
  -- No field fails a rule.
  abbrev Quiet : AuthorizeRequest → Type 0
  Quiet r =
      (f : Field)
      → Among f (authorize_fields r)
      → first_failure (validate_redirect_uri n) f.value f.rules ≡ none

  passed_sound : (r : AuthorizeRequest) → Quiet r → IsWellFormed n engine r
  passed_sound r quiet =
      let check = validate_redirect_uri n in
      let (_, response_type) = required_sound check _ _ (quiet _ here) in
      let (id, id_length) = required_sound check _ _ (quiet _ (there here)) in
      let (uri, uri_passes) = required_sound check _ _ (quiet _ (there (there here))) in
      let (_, state) = required_sound check _ _ (quiet _ (there (there (there here)))) in
      let (_, challenge) =
        required_sound check _ _ (quiet _ (there (there (there (there here))))) in
      let (_, method) =
        required_sound check _ _ (quiet _ (there (there (there (there (there here)))))) in
      record {
        response_type = one_sound check _ _ response_type;
        client_id = (id, (max_iff check _ _ _).0 id_length);
        redirect_uri =
            (uri, (validate_redirect_uri_iff n _ uri).0 ((custom_iff check _ _).0 uri_passes));
        state = length_sound check _ _ _ _ _ state;
        code_challenge = length_sound check _ _ _ _ _ challenge;
        method = one_sound check _ _ method;
        access_type =
            (optional_iff check _ _ _).0
              (quiet _ (there (there (there (there (there (there here)))))));
      }

  passed_complete : (r : AuthorizeRequest) → IsWellFormed n engine r → Quiet r
  passed_complete r w f here =
      required_complete _ _ _ (rw w.response_type code_is_full) (one_complete _ _ _ w.response_type)
  passed_complete r w f (there here) =
      required_complete _ _ _ w.client_id.0 ((max_iff _ _ _ _).1 w.client_id.1)
  passed_complete r w f (there (there here)) =
      let passes = (validate_redirect_uri_iff n _ w.redirect_uri.0).1 w.redirect_uri.1 in
      required_complete _ _ _ w.redirect_uri.0 ((custom_iff _ _ _).1 passes)
  passed_complete r w f (there (there (there here))) =
      required_complete _ _ _ (not_empty (validate_redirect_uri n) _ 8 (omega arith) w.state.0)
        (length_complete _ _ _ _ _ _ w.state.0 w.state.1)
  passed_complete r w f (there (there (there (there here)))) =
      required_complete _ _ _
        (not_empty (validate_redirect_uri n) _ 43 (omega arith) w.code_challenge.0)
        (length_complete _ _ _ _ _ _ w.code_challenge.0 w.code_challenge.1)
  passed_complete r w f (there (there (there (there (there here))))) =
      required_complete _ _ _ (rw w.method s256_is_full) (one_complete _ _ _ w.method)
  passed_complete r w f (there (there (there (there (there (there here)))))) =
      (optional_iff _ _ _ _).1 w.access_type
  passed_complete r w f (there (there (there (there (there (there (there a))))))) = elim a [ ]

  -- The validation of GET /oauth/authorize reports nothing exactly for a well-formed request:
  -- response_type code, a client_id of at most 255 characters, a redirect_uri that is an absolute
  -- https URI (or http to the machine itself) with no fragment, a state of 8 to 512 characters, a
  -- code_challenge of 43 to 128 characters with the method S256, and access_type absent, online or
  -- offline, if the engine keeps to its documentation.
  pub validate_authorize-none_iff :
      (law : IsEngine engine) (r : AuthorizeRequest)
      → (validate_authorize n engine r ≡ none) ↔ IsWellFormed n engine r
  unfolding validate_authorize
  validate_authorize-none_iff law r =
      let none_iff = struct-none_iff engine law (validate_redirect_uri n) (authorize_fields r) in
      (λ h. passed_sound r (none_iff.0 h), λ w. none_iff.1 (passed_complete r w))
