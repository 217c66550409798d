-- ===== src/Ports.antt =====
-- internal/service/ports.go: what the services ask of their collaborators, over any state `W`. A
-- pointer that may be nil beside a nil error is an Option.
use iam_service.Prelude.{ℕ, String, Bool, Option}
use iam_service.Effect.{M}
use iam_service.Models.{Time, User, Client, RefreshToken, Session, AuthCode, AccessToken}
use iam_service.Platform.{Bytes}

pub record UserRepo (W : Type 0) : Type 0 where
  pub get_by_email : String → M W (Option User)
  pub get_by_id : String → M W (Option User)
  pub create : User → M W (Unit {0})

pub record ClientRepo (W : Type 0) : Type 0 where
  pub get_by_id : String → M W (Option Client)
  pub create : Client → M W (Unit {0})

pub record RefreshTokenRepo (W : Type 0) : Type 0 where
  pub get_token_by_hash : String → M W (Option RefreshToken)
  pub create : RefreshToken → M W (Unit {0})

pub record SessionRepo (W : Type 0) : Type 0 where
  pub create : String → String → M W (String × Time)
  pub get : String → M W (Option Session)
  pub destroy : String → M W (Unit {0})

pub record AuthCodeRepo (W : Type 0) : Type 0 where
  pub create : AuthCode → M W String
  pub consume : String → M W (Option AuthCode)

pub record TokenIssuer (W : Type 0) : Type 0 where
  pub issue_access_token : (user_id email client_id scope : String) → M W AccessToken
  pub issue_refresh_token : M W (String × Time)

-- The packages that the services call directly: time, uuid, crypto/rand, bcrypt, crypto/sha256,
-- encoding/base64, the verbs of fmt and the dates of golang-jwt.
pub record Runtime (W : Type 0) : Type 0 where
  pub now : M W Time
  pub new_string : M W String
  pub read : ℕ → M W Bytes
  pub generate_from_password : String → M W String
  pub compare_hash_and_password : String → String → Bool
  pub sum256 : String → Bytes
  pub hex : Bytes → String
  pub encode_to_string : Bytes → String
  pub quote : String → String
  pub new_numeric_date : Time → Time
