-- ===== src/Validator/Form.antt =====
-- What the validation of POST /oauth/token accepts.
use Prim.Native.String.{count}
use iam_service.Prelude.{
  ◌≤◌, String, List, [], ◌∷◌, Bool, none, ◌≡◌, ◌≢◌, ◌⊎◌, ◌↔◌, inl, inr, refl, ◌==◌, eq_iff,
  eq-false_of_ne, ne_of_eq-false, Bool-cases, Among, here, there,
}
use iam_service.Dtos.{TokenRequest}
use iam_service.Web.{Web}
use iam_service.Validator.RedirectUri.{validate_redirect_uri}
use iam_service.Validator.Rules.{
  Rule, required_if, omitempty, Field, Engine, IsEngine, first_failure,
}
use iam_service.Validator.Report.{struct-none_iff}
use iam_service.Validator.Requests.{token_fields, validate_token}
use iam_service.Validator.Failures.{
  required_sound, required_complete, length_sound, length_complete,
}

module _ (check : String → Bool) (v : String) where
  required_if_sound :
      (other expected : String) (rest : List Rule)
      → first_failure check v (required_if other expected ∷ rest) ≡ none
      → ((other ≢ expected) ⊎ (v ≢ "")) × (first_failure check v rest ≡ none)
  unfolding first_failure
  required_if_sound other expected rest h = elim (Bool-cases (other == expected)) [
    | inr e ↦ (inl (ne_of_eq-false _ _ e), rw e at h)
    | inl e ↦ elim (Bool-cases (v == "")) [
      | inl f ↦ absurd (cc (rw (e, f) at h))
      | inr f ↦ (inr (ne_of_eq-false _ _ f), rw (e, f) at h)
    ]
  ]

  required_if_complete :
      (other expected : String) (rest : List Rule)
      → (other ≢ expected) ⊎ (v ≢ "")
      → first_failure check v rest ≡ none
      → first_failure check v (required_if other expected ∷ rest) ≡ none
  unfolding first_failure
  required_if_complete other expected rest (inl e) h = rw (eq-false_of_ne _ _ e) h
  required_if_complete other expected rest (inr f) h = elim (Bool-cases (other == expected)) [
    | inr e ↦ rw e h
    | inl e ↦ rw (e, eq-false_of_ne _ _ f) h
  ]

  optional_sound :
      (rest : List Rule)
      → first_failure check v (omitempty ∷ rest) ≡ none
      → (v ≡ "") ⊎ (first_failure check v rest ≡ none)
  unfolding first_failure
  optional_sound rest h = elim (Bool-cases (v == "")) [
    | inl e ↦ inl ((eq_iff _ _).0 e)
    | inr e ↦ inr (rw e at h)
  ]

  optional_complete :
      (rest : List Rule)
      → (v ≡ "") ⊎ (first_failure check v rest ≡ none)
      → first_failure check v (omitempty ∷ rest) ≡ none
  unfolding first_failure
  optional_complete rest (inl e) = rw ((eq_iff v "").1 e) refl
  optional_complete rest (inr h) = elim (Bool-cases (v == "")) [
    | inl e ↦ rw e refl
    | inr e ↦ rw e h
  ]

-- What POST /oauth/token asks of its form.
pub record IsWellFormedToken (r : TokenRequest) : Type 0 where
  pub grant_type : r.grant_type ≢ ""
  pub code : (r.grant_type ≢ "authorization_code") ⊎ (r.code ≢ "")
  pub redirect_uri : (r.grant_type ≢ "authorization_code") ⊎ (r.redirect_uri ≢ "")
  pub code_verifier : (r.grant_type ≢ "authorization_code") ⊎ (r.code_verifier ≢ "")
  pub verifier_length :
      (r.code_verifier ≡ "") ⊎ ((43 ≤ count r.code_verifier) × (count r.code_verifier ≤ 128))
  pub refresh_token : (r.grant_type ≢ "refresh_token") ⊎ (r.refresh_token ≢ "")

module _ (n : Web) (engine : Engine) where
  abbrev Quiet : TokenRequest → Type 0
  Quiet r =
      (f : Field)
      → Among f (token_fields r)
      → first_failure (validate_redirect_uri n) f.value f.rules ≡ none

  passed_sound : (r : TokenRequest) → Quiet r → IsWellFormedToken r
  passed_sound r quiet =
      let check = validate_redirect_uri n in
      let (verifier, rest) =
        required_if_sound check _ _ _ _ (quiet _ (there (there (there here)))) in
      record {
        grant_type = (required_sound check _ _ (quiet _ here)).0;
        code = (required_if_sound check _ _ _ _ (quiet _ (there here))).0;
        redirect_uri = (required_if_sound check _ _ _ _ (quiet _ (there (there here)))).0;
        code_verifier = verifier;
        verifier_length = elim (optional_sound check _ _ rest) [
          | inl e ↦ inl e
          | inr h ↦ inr (length_sound check _ _ _ _ _ h)
        ];
        refresh_token =
            (required_if_sound check _ _ _ _ (quiet _ (there (there (there (there here)))))).0;
      }

  nothing_left : (v : String) → first_failure (validate_redirect_uri n) v [] ≡ none
  unfolding first_failure
  nothing_left v = refl

  passed_complete : (r : TokenRequest) → IsWellFormedToken r → Quiet r
  passed_complete r w f here = required_complete _ _ _ w.grant_type (nothing_left _)
  passed_complete r w f (there here) = required_if_complete _ _ _ _ _ w.code (nothing_left _)
  passed_complete r w f (there (there here)) =
      required_if_complete _ _ _ _ _ w.redirect_uri (nothing_left _)
  passed_complete r w f (there (there (there here))) =
      required_if_complete _ _ _ _ _ w.code_verifier (
        optional_complete _ _ _ (elim w.verifier_length [
          | inl e ↦ inl e
          | inr (lo, hi) ↦ inr (length_complete _ _ _ _ _ _ lo hi)
        ]))
  passed_complete r w f (there (there (there (there here)))) =
      required_if_complete _ _ _ _ _ w.refresh_token (nothing_left _)
  passed_complete r w f (there (there (there (there (there a))))) = elim a [ ]

  -- The validation of POST /oauth/token reports nothing exactly for a form with a grant_type, with
  -- what that grant needs (a code, a redirect_uri and a code_verifier, or a refresh_token) and with
  -- a code_verifier of 43 to 128 characters where one is given, if the engine keeps to its
  -- documentation.
  pub validate_token-none_iff :
      (law : IsEngine engine) (r : TokenRequest)
      → (validate_token n engine r ≡ none) ↔ IsWellFormedToken r
  unfolding validate_token
  validate_token-none_iff law r =
      let none_iff = struct-none_iff engine law (validate_redirect_uri n) (token_fields r) in
      (λ h. passed_sound r (none_iff.0 h), λ w. none_iff.1 (passed_complete r w))
