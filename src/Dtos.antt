-- ===== src/Dtos.antt =====
-- internal/dtos: the requests and responses of the HTTP interface.
use iam_service.Prelude.{ℕ, String, List, Bool}
use iam_service.Models.{Time}

pub record LoginRequest : Type 0 where
  pub email : String
  pub password : String

pub record LoginResponse : Type 0 where
  pub next : String
  pub session_expires_at : Time

pub record RefreshRequest : Type 0 where
  pub refresh_token : String

pub record RefreshResponse : Type 0 where
  pub access_token : String
  pub access_token_expiry_in : ℕ

pub record RegisterClientRequest : Type 0 where
  pub name : String
  pub redirect_uris : List String
  pub scopes : List String
  pub grant_types : List String
  pub is_first_party : Bool
  pub is_public : Bool

pub record RegisterClientResponse : Type 0 where
  pub client_id : String
  pub client_secret : String
  pub name : String

pub record AuthorizeRequest : Type 0 where
  pub response_type : String
  pub client_id : String
  pub redirect_uri : String
  pub scope : String
  pub state : String
  pub code_challenge : String
  pub code_challenge_method : String
  pub nonce : String
  pub prompt : String
  pub access_type : String

pub record TokenRequest : Type 0 where
  pub grant_type : String
  pub code : String
  pub redirect_uri : String
  pub code_verifier : String
  pub refresh_token : String
  pub scope : String
  pub client_id : String
  pub client_secret : String

pub record TokenResponse : Type 0 where
  pub access_token : String
  pub token_type : String
  pub expires_in : ℕ
  pub scope : String
  pub refresh_token : String

pub record TokenErrorResponse : Type 0 where
  pub error : String
  pub error_description : String

pub record Jwk : Type 0 where
  pub kty : String
  pub use_ : String
  pub alg : String
  pub kid : String
  pub n : String
  pub e : String

-- A JWKSResponse holds its list of keys alone.
abbrev pub JwksResponse : Type 0
JwksResponse = List Jwk
