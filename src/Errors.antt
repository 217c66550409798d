-- ===== src/Errors.antt =====
-- Go's error values as the program uses them: the sentinels of the packages cache, repository and
-- service, `errors.New`, `fmt.Errorf` with %w, and `errors.Is`.
use Prim.Native.String.{◌++◌ as concat}
use iam_service.Prelude.{String, Bool, true, false}

-- What a system outside the program reports: the two sentinels that the program asks for by
-- `errors.Is` (redis.Nil and sql.ErrNoRows), or any other failure.
pub data Fault : Type 0 where
  redis_nil no_rows : Fault
  fault : String → Fault

-- The program's own sentinel errors.
pub data Sentinel : Type 0 where
  redis_key_not_found : Sentinel
  session_not_found auth_code_not_found : Sentinel
  email_taken email_or_password_wrong : Sentinel
  unsupported_grant_type public_client_credentials_grant : Sentinel
  invalid_grant invalid_client unauthorized_client invalid_scope : Sentinel

pub data Error : Type 0 where
  sentinel : Sentinel → Error
  foreign : Fault → Error
  -- errors.New, and fmt.Errorf without %w
  new : String → Error
  -- fmt.Errorf with one %w: the text before it and the text after it
  wrap : String → Error → String → Error

abbrev same_sentinel : Sentinel → Sentinel → Bool
same_sentinel redis_key_not_found redis_key_not_found = true
same_sentinel session_not_found session_not_found = true
same_sentinel auth_code_not_found auth_code_not_found = true
same_sentinel email_taken email_taken = true
same_sentinel email_or_password_wrong email_or_password_wrong = true
same_sentinel unsupported_grant_type unsupported_grant_type = true
same_sentinel public_client_credentials_grant public_client_credentials_grant = true
same_sentinel invalid_grant invalid_grant = true
same_sentinel invalid_client invalid_client = true
same_sentinel unauthorized_client unauthorized_client = true
same_sentinel invalid_scope invalid_scope = true
same_sentinel _ _ = false

-- `errors.Is(err, target)` at one of the program's sentinels.
abbrev pub is : Error → Sentinel → Bool
is (sentinel s) target = same_sentinel s target
is (foreign f) target = false
is (new text) target = false
is (wrap before e after) target = is e target

-- `errors.Is(err, redis.Nil)`.
abbrev pub is_redis_nil : Error → Bool
is_redis_nil (foreign redis_nil) = true
is_redis_nil (wrap before e after) = is_redis_nil e
is_redis_nil _ = false

-- `errors.Is(err, sql.ErrNoRows)`.
abbrev pub is_no_rows : Error → Bool
is_no_rows (foreign no_rows) = true
is_no_rows (wrap before e after) = is_no_rows e
is_no_rows _ = false

abbrev sentinel_text : Sentinel → String
sentinel_text redis_key_not_found = "cache: key not found"
sentinel_text session_not_found = "session not found"
sentinel_text auth_code_not_found = "authorization code not found"
sentinel_text email_taken = "email already in use"
sentinel_text email_or_password_wrong = "email or password wrong"
sentinel_text unsupported_grant_type = "unsupported grant_type"
sentinel_text public_client_credentials_grant = "client_credentials requires a confidential client"
sentinel_text invalid_grant = "invalid_grant"
sentinel_text invalid_client = "invalid_client"
sentinel_text unauthorized_client = "unauthorized_client"
sentinel_text invalid_scope = "invalid_scope"

abbrev fault_text : Fault → String
fault_text redis_nil = "redis: nil"
fault_text no_rows = "sql: no rows in result set"
fault_text (fault text) = text

-- `err.Error()`.
unfoldable pub error_text : Error → String
error_text (sentinel s) = sentinel_text s
error_text (foreign f) = fault_text f
error_text (new text) = text
error_text (wrap before e after) = concat before (concat (error_text e) after)

-- `fmt.Errorf("place: %w", err)`.
abbrev pub at : String → Error → Error
at place e = wrap (concat place ": ") e ""
