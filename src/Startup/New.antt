-- ===== src/Startup/New.antt =====
-- internal/app/app.go: `New` and `Close`.
use iam_service.Prelude.{List, [], ◌∷◌}
use iam_service.Errors.{Fault, at}
use iam_service.Effect.{Reply, done, failed, M, pure, fail, on_error, relabel, ◌>>=◌, ◌>>◌}
use iam_service.Platform.{Host}
use iam_service.Startup.Config.{Config}
use iam_service.Startup.Infra.{Infra}
use iam_service.Startup.Keys.{load_rsa_keys}
use iam_service.Startup.Connections.{DbConfig, CacheConfig, connect, new_redis_client}

module _ {h : Host} (f : Infra h) where
  -- `App`: the settings, the keys that the services are built of, and the handles.
  pub record App : Type 0 where
    pub cfg : Config
    pub private_key : h.PrivateKey
    pub public_key : f.PublicKey
    pub db : f.Db
    pub rdb : f.Rdb

  abbrev pub db_config : Config → DbConfig
  db_config cfg = record {
    host = cfg.db_host;
    port = cfg.db_port;
    user = cfg.db_user;
    password = cfg.db_password;
    name = cfg.db_name;
  }

  abbrev pub cache_config : Config → CacheConfig
  cache_config cfg = record {
    addrs = cfg.redis_addr ∷ [];
    password = cfg.redis_password;
    db = cfg.redis_db;
  }

  -- A handle is closed and what Close answers is dropped: `_ = x.Close()`.
  abbrev pub dropped_db : f.Db → M f.State (Unit {0})
  dropped_db db s = pure tt (f.close_db db s).1

  abbrev pub dropped_rdb : f.Rdb → M f.State (Unit {0})
  dropped_rdb rdb s = pure tt (f.close_rdb rdb s).1

  unfoldable pub new : Config → M f.State App
  new cfg = do
    db ← relabel (at "app.New: database") (connect f (db_config cfg))
    rdb ←
        on_error (λ e. dropped_db db >> fail (at "app.New: redis" e))
          (new_redis_client f (cache_config cfg))
    keys ←
        on_error (λ e. dropped_rdb rdb >> dropped_db db >> fail (at "app.New: rsa keys" e))
          (load_rsa_keys f cfg.rsa_private_key_path cfg.rsa_public_key_path)
    pure (record { cfg = cfg; private_key = keys.0; public_key = keys.1; db = db; rdb = rdb })

  -- errors.Join: the errors of those that are not nil; the empty list is nil.
  abbrev pub joined : Reply (Unit {0}) → List Fault → List Fault
  joined (done u) errs = errs
  joined (failed e) errs = e ∷ errs

  -- `Close`: Redis first, then the database, whatever the first answers.
  unfoldable pub close : App → f.State → List Fault × f.State
  close app s =
      let (rdb_reply, s1) = f.close_rdb app.rdb s in
      let (db_reply, s2) = f.close_db app.db s1 in (joined rdb_reply (joined db_reply []), s2)
