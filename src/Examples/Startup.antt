-- ===== src/Examples/Startup.antt =====
-- A start on an infrastructure in memory.
use iam_service.Prelude.{ℕ, Bool, true, false, List, [], ◌∷◌, none, some, ◌≡◌, refl, ap}
use iam_service.Errors.{fault}
use iam_service.Effect.{Reply, done, failed, ok, on_error, ◌>>=◌}
use iam_service.Startup.Config.{Config, load}
use iam_service.Startup.Infra.{contents, Infra, IsInfra}
use iam_service.Startup.Keys.{read_pem, load_rsa_keys}
use iam_service.Startup.Connections.{connect, new_redis_client}
use iam_service.Startup.New.{App, new, close}
use iam_service.Startup.Outcome.{new-close}
use iam_service.Startup.Serving.{key_set, settings, publishes_signing_key}
use iam_service.Server.{Endpoint, handle}
use iam_service.Handler.Response.{field, jwks_body, write_json}
use iam_service.Examples.Memory.{host, platform}
use iam_service.Examples.Flow.{before}
use iam_service.Examples.Web.{web, engine}
use iam_service.Examples.Server.{request}

pub record Handles : Type 0 where
  pub pools : List ℕ
  pub clients : List ℕ

abbrev rest : List ℕ → List ℕ
rest [] = []
rest (x ∷ xs) = xs

abbrev reached : Bool → Reply (Unit {0})
reached true = done tt
reached false = failed (fault "connection refused")

-- Whether Redis answers is a parameter; the rest works.
abbrev infra : Bool → Infra host
infra redis_answers = record {
  State = Handles;
  Db = ℕ;
  sqlx_open = λ dsn s. (done 1, record s { pools = 1 ∷ s.pools });
  limit = λ db a b c s. s;
  ping_db = λ db s. (done tt, s);
  close_db = λ db s. (done tt, record s { pools = rest s.pools });
  Rdb = ℕ;
  new_universal_client = λ addrs password db s. (2, record s { clients = 2 ∷ s.clients });
  ping_rdb = λ c s. (reached redis_answers, s);
  close_rdb = λ c s. (done tt, record s { clients = rest s.clients });
  read_file = λ path s. (contents [], s);
  Block = Unit {0};
  decode = λ pem. some tt;
  parse_pkcs1_private_key = λ block. done tt;
  AnyKey = Unit {0};
  PublicKey = ℕ;
  type_name = λ key. "rsa";
  parse_pkcs8_private_key = λ block. done tt;
  as_rsa_private_key = λ key. some tt;
  parse_pkix_public_key = λ block. done tt;
  as_rsa_public_key = λ key. some 5;
  public_key = λ key. 5;
  modulus = λ key. key;
  exponent = λ key. 3;
  bytes = λ n. n ∷ [];
  decimal = λ n. "3306";
}

infra-IsInfra : (redis_answers : Bool) → IsInfra (infra redis_answers)
infra-IsInfra redis_answers = record {
  dbs = λ s. s.pools;
  rdbs = λ s. s.clients;
  open_done = λ dsn s db e. let same : 1 ≡ db = done_value e in ap (λ x. x ∷ s.pools) same;
  open_failed = λ dsn s x e. absurd (cc);
  open_rdbs = λ dsn s. refl;
  limit_dbs = λ db a b c s. refl;
  limit_rdbs = λ db a b c s. refl;
  ping_db_dbs = λ db s. refl;
  ping_db_rdbs = λ db s. refl;
  close_db_dbs = λ db kept s e. ap rest e;
  close_db_rdbs = λ db s. refl;
  client_rdbs = λ addrs password db s. refl;
  client_dbs = λ addrs password db s. refl;
  ping_rdb_dbs = λ c s. refl;
  ping_rdb_rdbs = λ c s. refl;
  close_rdb_rdbs = λ c kept s e. ap rest e;
  close_rdb_dbs = λ c s. refl;
  read_dbs = λ path s. refl;
  read_rdbs = λ path s. refl;
}
  where
    done_value : {a b : ℕ} → done a ≡ done b → a ≡ b
    done_value h = cc

-- An environment where no variable is set.
abbrev cfg : Config
cfg = load (λ key. "") (λ s. none)

abbrev nothing : Handles
nothing = record { pools = []; clients = [] }

abbrev app : App (infra true)
app = record { cfg = cfg; private_key = tt; public_key = 5; db = 1; rdb = 2 }

abbrev running_handles : Handles
running_handles = record { pools = 1 ∷ []; clients = 2 ∷ [] }

-- Redis does not answer: its client stays open.
left_open : (new (infra false) cfg nothing).1 ≡ record { pools = []; clients = 2 ∷ [] }
unfolding new load connect new_redis_client load_rsa_keys read_pem ◌>>=◌ on_error
left_open = refl

new-close_example :
    ((infra-IsInfra true).dbs (close (infra true) app running_handles).1
      ≡ (infra-IsInfra true).dbs nothing)
    × ((infra-IsInfra true).rdbs (close (infra true) app running_handles).1
        ≡ (infra-IsInfra true).rdbs nothing)
unfolding new load connect new_redis_client load_rsa_keys read_pem ◌>>=◌ on_error
new-close_example = new-close (infra true) (infra-IsInfra true) cfg nothing running_handles app refl

publishes_signing_key_example :
    (handle platform web engine (settings platform (infra true) app) Endpoint.jwks request before).0
    ≡ ok (
        write_json
          (field "Cache-Control" "public, max-age=300" ∷ [])
          200
          (jwks_body (key_set platform (infra true) 5)))
unfolding new load connect new_redis_client load_rsa_keys read_pem ◌>>=◌ on_error
publishes_signing_key_example =
    publishes_signing_key platform (infra true) (infra-IsInfra true) web engine cfg nothing
      running_handles app request before refl
