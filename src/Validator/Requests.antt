-- ===== src/Validator/Requests.antt =====
-- The tags of internal/dtos: AuthorizeRequest.Validate and TokenRequest.Validate.
use Prim.Native.String.{count}
use iam_service.Prelude.{◌≤◌, String, List, [], ◌∷◌, Option, ◌≡◌, ◌≢◌, ◌⊎◌}
use iam_service.Dtos.{AuthorizeRequest, TokenRequest}
use iam_service.Web.{Web}
use iam_service.Validator.RedirectUri.{validate_redirect_uri, IsRedirectUri}
use iam_service.Validator.Rules.{
  Rule, required, omitempty, min, max, oneof, required_if, custom, Field, Engine,
}
use iam_service.Validator.Report.{Fields, struct}

abbrev pub challenge_rules : List Rule
challenge_rules = required ∷ min "43" 43 ∷ max "128" 128 ∷ []

-- The fields of AuthorizeRequest that have a validate tag.
abbrev pub authorize_fields : AuthorizeRequest → List Field
authorize_fields r =
    record {
      name = "response_type";
      value = r.response_type;
      rules = required ∷ oneof ("code" ∷ []) ∷ [];
    }
    ∷ record { name = "client_id"; value = r.client_id; rules = required ∷ max "255" 255 ∷ [] }
    ∷ record {
      name = "redirect_uri";
      value = r.redirect_uri;
      rules = required ∷ custom "redirect_uri" ∷ [];
    }
    ∷ record { name = "state"; value = r.state; rules = required ∷ min "8" 8 ∷ max "512" 512 ∷ [] }
    ∷ record { name = "code_challenge"; value = r.code_challenge; rules = challenge_rules }
    ∷ record {
      name = "code_challenge_method";
      value = r.code_challenge_method;
      rules = required ∷ oneof ("S256" ∷ []) ∷ [];
    }
    ∷ record {
      name = "access_type";
      value = r.access_type;
      rules = omitempty ∷ oneof ("online" ∷ "offline" ∷ []) ∷ [];
    }
    ∷ []

abbrev pub for_code : String → Rule
for_code grant = required_if grant "authorization_code"

abbrev pub token_fields : TokenRequest → List Field
token_fields r =
    record { name = "grant_type"; value = r.grant_type; rules = required ∷ [] }
    ∷ record { name = "code"; value = r.code; rules = for_code r.grant_type ∷ [] }
    ∷ record { name = "redirect_uri"; value = r.redirect_uri; rules = for_code r.grant_type ∷ [] }
    ∷ record {
      name = "code_verifier";
      value = r.code_verifier;
      rules = for_code r.grant_type ∷ omitempty ∷ min "43" 43 ∷ max "128" 128 ∷ [];
    }
    ∷ record {
      name = "refresh_token";
      value = r.refresh_token;
      rules = required_if r.grant_type "refresh_token" ∷ [];
    }
    ∷ []

module _ (n : Web) (engine : Engine) where
  unfoldable pub validate_authorize : AuthorizeRequest → Option Fields
  validate_authorize r = struct engine (validate_redirect_uri n) (authorize_fields r)

  unfoldable pub validate_token : TokenRequest → Option Fields
  validate_token r = struct engine (validate_redirect_uri n) (token_fields r)

  -- What GET /oauth/authorize asks of its parameters.
  pub record IsWellFormed (r : AuthorizeRequest) : Type 0 where
    pub response_type : r.response_type ≡ "code"
    pub client_id : (r.client_id ≢ "") × (count r.client_id ≤ 255)
    pub redirect_uri : (r.redirect_uri ≢ "") × IsRedirectUri n r.redirect_uri
    pub state : (8 ≤ count r.state) × (count r.state ≤ 512)
    pub code_challenge : (43 ≤ count r.code_challenge) × (count r.code_challenge ≤ 128)
    pub method : r.code_challenge_method ≡ "S256"
    pub access_type :
        (r.access_type ≡ "") ⊎ (r.access_type ≡ "online") ⊎ (r.access_type ≡ "offline")
