-- ===== src/Startup/Infra.antt =====
-- What starting up asks of database/sql, go-redis, the file system, encoding/pem and crypto/x509,
-- and what these document.
use iam_service.Prelude.{ℕ, ℤ, String, List, ◌∷◌, Option, ◌≡◌}
use iam_service.Errors.{Fault}
use iam_service.Effect.{Reply, done, failed, M, from_reply, ok}
use iam_service.Platform.{Host, Bytes}

-- os.ReadFile: `missing` is an error that is fs.ErrNotExist.
pub data FileReply : Type 0 where
  contents : Bytes → FileReply
  missing : Fault → FileReply
  unreadable : Fault → FileReply

pub record Infra (h : Host) : Type 1 where
  pub State : Type 0
  -- sqlx.Open("mysql", dsn), SetMaxOpenConns with SetMaxIdleConns and SetConnMaxLifetime, Ping, Close
  pub Db : Type 0
  pub sqlx_open : (dsn : String) → State → Reply Db × State
  pub limit : Db → (max_open max_idle lifetime : ℕ) → State → State
  pub ping_db : Db → State → Reply (Unit {0}) × State
  pub close_db : Db → State → Reply (Unit {0}) × State
  -- redis.NewUniversalClient, Ping, Close
  pub Rdb : Type 0
  pub new_universal_client :
      (addrs : List String) (password : String) (db : ℤ) → State → Rdb × State
  pub ping_rdb : Rdb → State → Reply (Unit {0}) × State
  pub close_rdb : Rdb → State → Reply (Unit {0}) × State
  pub read_file : String → State → FileReply × State
  -- pem.Decode; `none` is a nil block
  pub Block : Type 0
  pub decode : Bytes → Option Block
  pub parse_pkcs1_private_key : Block → Reply h.PrivateKey
  -- a key of any algorithm, its Go type's name (%T) and the assertions to RSA
  pub AnyKey : Type 0
  pub PublicKey : Type 0
  pub type_name : AnyKey → String
  pub parse_pkcs8_private_key : Block → Reply AnyKey
  pub as_rsa_private_key : AnyKey → Option h.PrivateKey
  pub parse_pkix_public_key : Block → Reply AnyKey
  pub as_rsa_public_key : AnyKey → Option PublicKey
  -- the public half of a private key, and the fields N and E
  pub public_key : h.PrivateKey → PublicKey
  pub modulus : PublicKey → ℕ
  pub exponent : PublicKey → ℕ
  -- big.Int.Bytes, and the verb %d
  pub bytes : ℕ → Bytes
  pub decimal : ℤ → String

module _ {h : Host} (f : Infra h) where
  -- The pools and clients that are open. Opening and closing change their own list alone, and
  -- closing the one that was opened last gives the rest back, whatever it answers.
  pub record IsInfra : Type 0 where
    pub dbs : f.State → List f.Db
    pub rdbs : f.State → List f.Rdb
    pub open_done :
        (dsn : String) (s : f.State) (db : f.Db)
        → (f.sqlx_open dsn s).0 ≡ done db
        → dbs (f.sqlx_open dsn s).1 ≡ db ∷ dbs s
    pub open_failed :
        (dsn : String) (s : f.State) (e : Fault)
        → (f.sqlx_open dsn s).0 ≡ failed e
        → dbs (f.sqlx_open dsn s).1 ≡ dbs s
    pub open_rdbs : (dsn : String) (s : f.State) → rdbs (f.sqlx_open dsn s).1 ≡ rdbs s
    pub limit_dbs : (db : f.Db) (a b c : ℕ) (s : f.State) → dbs (f.limit db a b c s) ≡ dbs s
    pub limit_rdbs : (db : f.Db) (a b c : ℕ) (s : f.State) → rdbs (f.limit db a b c s) ≡ rdbs s
    pub ping_db_dbs : (db : f.Db) (s : f.State) → dbs (f.ping_db db s).1 ≡ dbs s
    pub ping_db_rdbs : (db : f.Db) (s : f.State) → rdbs (f.ping_db db s).1 ≡ rdbs s
    pub close_db_dbs :
        (db : f.Db) (rest : List f.Db) (s : f.State)
        → dbs s ≡ db ∷ rest
        → dbs (f.close_db db s).1 ≡ rest
    pub close_db_rdbs : (db : f.Db) (s : f.State) → rdbs (f.close_db db s).1 ≡ rdbs s
    pub client_rdbs :
        (addrs : List String) (password : String) (db : ℤ) (s : f.State)
        → rdbs (f.new_universal_client addrs password db s).1
          ≡ (f.new_universal_client addrs password db s).0 ∷ rdbs s
    pub client_dbs :
        (addrs : List String) (password : String) (db : ℤ) (s : f.State)
        → dbs (f.new_universal_client addrs password db s).1 ≡ dbs s
    pub ping_rdb_dbs : (c : f.Rdb) (s : f.State) → dbs (f.ping_rdb c s).1 ≡ dbs s
    pub ping_rdb_rdbs : (c : f.Rdb) (s : f.State) → rdbs (f.ping_rdb c s).1 ≡ rdbs s
    pub close_rdb_rdbs :
        (c : f.Rdb) (rest : List f.Rdb) (s : f.State)
        → rdbs s ≡ c ∷ rest
        → rdbs (f.close_rdb c s).1 ≡ rest
    pub close_rdb_dbs : (c : f.Rdb) (s : f.State) → dbs (f.close_rdb c s).1 ≡ dbs s
    pub read_dbs : (path : String) (s : f.State) → dbs (f.read_file path s).1 ≡ dbs s
    pub read_rdbs : (path : String) (s : f.State) → rdbs (f.read_file path s).1 ≡ rdbs s

  module _ {A : Type 0} where
    abbrev pub calling : (f.State → Reply A × f.State) → M f.State A
    calling op s = let (r, s') = op s in (from_reply r, s')

    abbrev pub making : (f.State → A × f.State) → M f.State A
    making op s = let (a, s') = op s in (ok a, s')
