-- ===== src/Handler/Response.antt =====
-- internal/httpx/httpx.go: requests and responses as the handlers see and build them.
use iam_service.Prelude.{ℕ, ℤ, String, List, [], ◌∷◌, Bool, Option, none, some, ◌==◌, if◌then◌else◌}
use iam_service.Models.{Time}
use iam_service.Dtos.{
  LoginResponse, RefreshResponse, RegisterClientResponse, TokenResponse, TokenErrorResponse,
  JwksResponse,
}
use iam_service.Web.{Web}

-- http.Cookie; a field that is not set has Go's zero value.
pub record Cookie : Type 0 where
  pub name : String
  pub value : String
  pub path : String
  pub expires : Time
  pub max_age : ℤ
  pub http_only : Bool
  pub secure : Bool
  pub same_site_lax : Bool

pub data Header : Type 0 where
  -- w.Header().Set
  field : (name value : String) → Header
  -- http.SetCookie
  set_cookie : Cookie → Header

-- The headers that were set, the last first.
abbrev pub Headers : Type 0
Headers = List Header

-- What a header holds: the last `Set` of its name counts.
unfoldable pub header : Headers → String → Option String
header [] name = none
header (field key value ∷ rest) name = if key == name then some value else header rest name
header (set_cookie c ∷ rest) name = header rest name

unfoldable pub cookies : Headers → List Cookie
cookies [] = []
cookies (field key value ∷ rest) = cookies rest
cookies (set_cookie c ∷ rest) = c ∷ cookies rest

-- The JSON bodies by their Go type; `redirect_body` is what http.Redirect writes.
pub data Body : Type 0 where
  no_body : Body
  message_body : (error : String) → Body
  validation_body : (fields : List (String × String)) → Body
  login_body : LoginResponse → Body
  refresh_body : RefreshResponse → Body
  client_body : RegisterClientResponse → Body
  token_body : TokenResponse → Body
  token_error_body : TokenErrorResponse → Body
  jwks_body : JwksResponse → Body
  redirect_body : (target : String) → Body

pub record Response : Type 0 where
  pub status : ℕ
  pub headers : Headers
  pub body : Body

-- httpx.WriteJSON
abbrev pub write_json : Headers → ℕ → Body → Response
write_json headers status body = record {
  status = status;
  headers = field "Content-Type" "application/json" ∷ headers;
  body = body;
}

-- httpx.WriteError
abbrev pub write_error : Headers → ℕ → String → Response
write_error headers status msg = write_json headers status (message_body msg)

-- What a handler reads of its request: of the body, the JSON text or the form that ParseForm
-- makes of it (`none` is its error), and of the Authorization header what BasicAuth makes of it.
pub record Request (n : Web) : Type 0 where
  pub body : String
  pub cookie : String → Option String
  pub url_query : n.Values
  pub request_uri : String
  pub post_form : Option n.Values
  pub authorization : String
  pub basic_auth : Option (String × String)

module _ (n : Web) where
  -- httpx.CookieValue
  unfoldable pub cookie_value : Request n → String → String
  cookie_value r name = elim (r.cookie name) [ none ↦ "" | some value ↦ value ]

  -- The loop over the pairs: those with an empty value are left out.
  unfoldable pub merge : n.Values → List (String × String) → n.Values
  merge q [] = q
  merge q ((k, v) ∷ rest) = merge (if v == "" then q else n.set q k v) rest

  -- httpx.RedirectWith, up to the text that http.Redirect is given.
  abbrev pub redirect_parsed : List (String × String) → Option n.Url → Response
  redirect_parsed kv none = write_error [] 500 "internal server error"
  redirect_parsed kv (some u) = record {
    status = 302;
    headers = [];
    body = redirect_body (n.to_text (n.with_query u (merge (n.query u) kv)));
  }

  unfoldable pub redirect_with : String → List (String × String) → Response
  redirect_with base kv = redirect_parsed kv (n.parse base)
