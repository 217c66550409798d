-- ===== src/Platform/Os.antt =====
-- The clock, the randomness and the libraries of the process: time.Now, uuid.NewString,
-- crypto/rand, bcrypt, crypto/sha256, encoding/base64, encoding/json and golang-jwt.
use iam_service.Prelude.{ℕ, String, List, Bool, true, ◌≡◌, ◌≢◌}
use iam_service.Effect.{Reply, done}
use iam_service.Models.{Time, Session, AuthCode, IamClaims}

abbrev pub Bytes : Type 0
Bytes = List ℕ

pub record Host : Type 1 where
  pub State : Type 0
  -- time.Now()
  pub now : State → Time × State
  -- uuid.NewString()
  pub new_string : State → String × State
  -- rand.Read into a buffer of that many bytes
  pub read : ℕ → State → Reply Bytes × State
  -- bcrypt.GenerateFromPassword: the salt is random, and a long password is refused
  pub generate_from_password : String → State → Reply String × State
  -- bcrypt.CompareHashAndPassword(hash, password) == nil
  pub compare_hash_and_password : String → String → Bool
  -- sha256.Sum256
  pub sum256 : String → Bytes
  -- fmt.Sprintf("%x", …)
  pub hex : Bytes → String
  -- base64.RawURLEncoding.EncodeToString
  pub encode_to_string : Bytes → String
  -- strconv.Quote, which is the verb %q
  pub quote : String → String
  -- json.Marshal and json.Unmarshal at the two types that are kept in Redis
  pub marshal_session : Session → Reply String
  pub unmarshal_session : String → Reply Session
  pub marshal_auth_code : AuthCode → Reply String
  pub unmarshal_auth_code : String → Reply AuthCode
  -- jwt.NewNumericDate
  pub new_numeric_date : Time → Time
  -- a JWT with these claims, signed RS256 with the private key
  pub PrivateKey : Type 0
  pub signed_string : PrivateKey → IamClaims → Reply String

-- What the libraries document.
pub record IsHost (h : Host) : Type 0 where
  pub compare-generate :
      (password hash : String) (s : h.State)
      → (h.generate_from_password password s).0 ≡ done hash
      → h.compare_hash_and_password hash password ≡ true
  -- a hash begins with "$2"
  pub generate-ne-empty :
      (password hash : String) (s : h.State)
      → (h.generate_from_password password s).0 ≡ done hash
      → hash ≢ ""
  pub unmarshal-marshal_session :
      (a : Session) (text : String)
      → h.marshal_session a ≡ done text
      → h.unmarshal_session text ≡ done a
  pub unmarshal-marshal_auth_code :
      (a : AuthCode) (text : String)
      → h.marshal_auth_code a ≡ done text
      → h.unmarshal_auth_code text ≡ done a
