-- ===== src/Handler/Token.antt =====
-- internal/handler/token.go: POST /oauth/token.
use iam_service.Prelude.{
  maybe, ℕ, String, List, [], ◌∷◌, ◌||◌, not, Option, none, some, ◌≡◌, ◌≢◌, refl, ◌⊎◌, inl, inr,
  ◌==◌, eq_iff, ne_of_eq-false, Bool-cases, if◌then◌else◌,
}
use iam_service.Errors.{
  Error, is, unsupported_grant_type, invalid_client, unauthorized_client, invalid_scope,
  invalid_grant,
}
use iam_service.Dtos.{TokenRequest}
use iam_service.Web.{Web}
use iam_service.Effect.{M, pure, respond}
use iam_service.Validator.Rules.{Engine}
use iam_service.Validator.Requests.{validate_token}
use iam_service.Handler.Ports.{TokenGrantService}
use iam_service.Handler.Params.{parse_token_request}
use iam_service.Handler.Response.{
  field, validation_body, token_body, Request, Headers, token_error_body, Response, write_json,
}

abbrev pub no_store : Headers → Headers
no_store headers = field "Pragma" "no-cache" ∷ field "Cache-Control" "no-store" ∷ headers

-- internal/handler/auth.go, writeValidationError
abbrev pub write_validation_error : Headers → List (String × String) → Response
write_validation_error headers fields = write_json headers 400 (validation_body fields)

abbrev pub write_token_error : Headers → ℕ → String → String → Response
write_token_error headers status code description =
    write_json (no_store headers) status
      (token_error_body (record { error = code; error_description = description }))

unfoldable pub write_token_exchange_error : Headers → Error → Response
write_token_exchange_error headers e =
    if is e unsupported_grant_type
    then write_token_error headers 400 "unsupported_grant_type" ""
    else if is e invalid_client
    then write_token_error (field "WWW-Authenticate" "Basic realm=\"oauth2\"" ∷ headers) 401
        "invalid_client" ""
    else if is e unauthorized_client
    then write_token_error headers 400 "unauthorized_client" ""
    else if is e invalid_scope
    then write_token_error headers 400 "invalid_scope" ""
    else if is e invalid_grant
    then write_token_error headers 400 "invalid_grant" ""
    else write_token_error headers 400 "invalid_grant" "the authorization grant is invalid"

-- The request's Authorization header, what net/http's BasicAuth reads in it, and the body.
unfoldable pub resolve_client :
    (authorization : String) (basic : Option (String × String)) (req : TokenRequest)
    → String × String × String
resolve_client authorization none req =
    if not (authorization == "")
    then ("", "", "invalid_client")
    else if not (req.client_id == "")
    then (req.client_id, req.client_secret, "")
    else ("", "", "invalid_client")
resolve_client authorization (some (id, secret)) req =
    if not (req.client_id == "") || not (req.client_secret == "")
    then ("", "", "invalid_request")
    else (id, secret, "")

-- The answer where resolveClient reports an error.
abbrev pub write_client_error : String → Response
write_client_error oauth_err =
    if oauth_err == "invalid_client"
    then write_token_error (field "WWW-Authenticate" "Basic realm=\"oauth2\"" ∷ []) 401 oauth_err ""
    else write_token_error [] 400 oauth_err ""

module _ (n : Web) (engine : Engine) {W : Type 0} (grants : TokenGrantService W) where
  -- The request with its client's credentials, validated and exchanged.
  unfoldable pub exchange_valid : TokenRequest → M W Response
  exchange_valid req =
      maybe
        (respond (write_token_exchange_error [])
          (λ resp. write_json (no_store []) 200 (token_body resp)) (grants.exchange req))
        (λ errs. pure (write_validation_error (no_store []) errs)) (validate_token n engine req)

  unfoldable pub token_form : Request n → TokenRequest → M W Response
  token_form r req =
      let (id, secret, oauth_err) = resolve_client r.authorization r.basic_auth req in
      if not (oauth_err == "")
      then pure (write_client_error oauth_err)
      else exchange_valid (record req { client_id = id; client_secret = secret })

  -- POST /oauth/token
  unfoldable pub token : Request n → M W Response
  token r =
      maybe (pure (write_token_error [] 400 "invalid_request" "malformed form body"))
        (λ form. token_form r (parse_token_request n form)) r.post_form

-- Where the credentials of a request are, and what is made of them.
pub data Resolution (authorization : String) (basic : Option (String × String)) (req : TokenRequest)
    (r : String × String × String) : Type 0 where
  by_header :
      (id secret : String)
      → basic ≡ some (id, secret)
      → req.client_id ≡ ""
      → req.client_secret ≡ ""
      → r ≡ (id, secret, "")
      → Resolution authorization basic req r
  by_body :
      basic ≡ none
      → authorization ≡ ""
      → req.client_id ≢ ""
      → r ≡ (req.client_id, req.client_secret, "")
      → Resolution authorization basic req r
  twice :
      basic ≢ none
      → (req.client_id ≢ "") ⊎ (req.client_secret ≢ "")
      → r ≡ ("", "", "invalid_request")
      → Resolution authorization basic req r
  unknown :
      basic ≡ none
      → (authorization ≢ "") ⊎ (req.client_id ≡ "")
      → r ≡ ("", "", "invalid_client")
      → Resolution authorization basic req r

-- The credentials are read from one place: the Basic header, as it is, also with an empty id, where
-- the body has none, or the body, where there is no Authorization header and it has a client_id.
-- Both are invalid_request; without a Basic header, any other Authorization header, and no client_id
-- in the body, are invalid_client.
pub resolve_client-Resolution :
    (authorization : String) (basic : Option (String × String)) (req : TokenRequest)
    → Resolution authorization basic req (resolve_client authorization basic req)
unfolding resolve_client
resolve_client-Resolution authorization none req = elim (Bool-cases (authorization == "")) [
  | inr e ↦ rw e (unknown refl (inl (ne_of_eq-false _ _ e)) refl)
  | inl e ↦ elim (Bool-cases (req.client_id == "")) [
    | inr f ↦ rw (e, f) (by_body refl ((eq_iff _ _).0 e) (ne_of_eq-false _ _ f) refl)
    | inl f ↦ rw (e, f) (unknown refl (inr ((eq_iff _ _).0 f)) refl)
  ]
]
resolve_client-Resolution authorization (some (id, secret)) req =
    elim (Bool-cases (req.client_id == "")) [
      | inr e ↦ rw e (twice (λ h. cc) (inl (ne_of_eq-false _ _ e)) refl)
      | inl e ↦ elim (Bool-cases (req.client_secret == "")) [
        | inr f ↦ rw (e, f) (twice (λ h. cc) (inr (ne_of_eq-false _ _ f)) refl)
        | inl f ↦ rw (e, f) (by_header id secret refl ((eq_iff _ _).0 e) ((eq_iff _ _).0 f) refl)
      ]
    ]
