-- ===== src/Models.antt =====
-- internal/models: the rows of the tables and the payloads of the Redis entries. A time is a number
-- of nanoseconds since Go's zero time, which is 0.
use iam_service.Prelude.{ℕ, String, List, Bool, Option}

abbrev pub Time : Type 0
Time = ℕ

pub record User : Type 0 where
  pub id : String
  pub email : String
  pub password_hash : String
  pub created_at : Time

-- `client_secret_hash` is empty for a public client.
pub record Client : Type 0 where
  pub id : String
  pub name : String
  pub client_secret_hash : String
  pub redirect_uris : List String
  pub scopes : List String
  pub grant_types : List String
  pub is_first_party : Bool
  pub created_at : Time

pub record RefreshToken : Type 0 where
  pub id : String
  pub user_id : String
  pub client_id : String
  pub scope : List String
  pub token_hash : String
  pub expires_at : Time
  pub revoked_at : Option Time
  pub created_at : Time

pub record Session : Type 0 where
  pub user_id : String
  pub email : String
  pub created_at : Time

pub record AuthCode : Type 0 where
  pub client_id : String
  pub user_id : String
  pub redirect_uri : String
  pub scope : List String
  pub code_challenge : String
  pub code_challenge_method : String
  pub nonce : String
  pub created_at : Time

-- The registered claims that the program sets stand beside its own.
pub record IamClaims : Type 0 where
  pub user_id : String
  pub email : String
  pub client_id : String
  pub scope : String
  pub jti : String
  pub issued_at : Time
  pub expires_at : Time

pub record AccessToken : Type 0 where
  pub access_token_string : String
  pub access_token_expires_in : ℕ
