-- ===== src/Startup/Config.antt =====
-- internal/app/config.go: the settings, read from the environment.
use Prim.Native.String.{◌++◌ as concat}
use iam_service.Prelude.{ℤ, pos, String, Bool, Option, maybe, ◌==◌, if◌then◌else◌}

pub record Config : Type 0 where
  pub db_host : String
  pub db_port : ℤ
  pub db_user : String
  pub db_password : String
  pub db_name : String
  pub redis_addr : String
  pub redis_password : String
  pub redis_db : ℤ
  pub rsa_private_key_path : String
  pub rsa_public_key_path : String
  pub http_addr : String
  pub cookie_secure : Bool
  pub login_url : String

-- os.Getenv, empty for a variable that is not set, and strconv.Atoi, `none` for its error.
module _ (getenv : String → String) where
  abbrev pub env : (key default : String) → String
  env key default = let v = getenv key in if v == "" then default else v

  module _ (atoi : String → Option ℤ) where
    abbrev pub env_int : (key : String) (default : ℤ) → ℤ
    env_int key default = maybe default (λ v. v) (atoi (getenv key))

    unfoldable pub load : Config
    load = record {
      db_host = env "DB_HOST" "localhost";
      db_port = env_int "DB_PORT" (pos 3306);
      db_user = env "DB_USER" "iam";
      db_password = env "DB_PASSWORD" "secret";
      db_name = env "DB_NAME" "iam_db";
      redis_addr = env "REDIS_ADDR" "localhost:6379";
      redis_password = getenv "REDIS_PASSWORD";
      redis_db = env_int "REDIS_DB" (pos 0);
      rsa_private_key_path = env "RSA_PRIVATE_KEY" ".rsa/private.pem";
      rsa_public_key_path = env "RSA_PUBLIC_KEY" ".rsa/public.pem";
      http_addr = concat ":" (env "PORT" "8080");
      cookie_secure = env "COOKIE_SECURE" "true" == "true";
      login_url = env "LOGIN_URL" "/login";
    }
