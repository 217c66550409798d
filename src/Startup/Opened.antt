-- ===== src/Startup/Opened.antt =====
-- What connecting to MySQL and to Redis leaves open.
use iam_service.Prelude.{◌*◌, ◌∷◌, ◌≡◌, ◌∙◌, refl}
use iam_service.Errors.{Error, Fault}
use iam_service.Effect.{Reply, done, failed, Result, ok, err, on_error, ◌>>=◌}
use iam_service.Platform.{Host}
use iam_service.Startup.Infra.{Infra, IsInfra}
use iam_service.Startup.Connections.{DbConfig, CacheConfig, dsn, connect, new_redis_client}

module _ {h : Host} (f : Infra h) (law : IsInfra f) where
  -- The state after the pool was opened and its limits were set.
  abbrev pub opened_state : DbConfig → f.Db → f.State → f.State
  opened_state cfg db s = f.limit db 25 10 (5 * 60 * 1000000000) (f.sqlx_open (dsn f cfg) s).1

  -- The client of Redis, and the state after it was made.
  abbrev pub made : CacheConfig → f.State → f.Rdb × f.State
  made cfg s = f.new_universal_client cfg.addrs cfg.password cfg.db s

  pub data ConnectOutcome (cfg : DbConfig) (s : f.State) (r : Result f.Db) (s' : f.State)
      : Type 0 where
    connected :
        (db : f.Db)
        → r ≡ ok db
        → law.dbs s' ≡ db ∷ law.dbs s
        → law.rdbs s' ≡ law.rdbs s
        → ConnectOutcome cfg s r s'
    unopened :
        (e : Error) (x : Fault)
        → (f.sqlx_open (dsn f cfg) s).0 ≡ failed x
        → r ≡ err e
        → law.dbs s' ≡ law.dbs s
        → law.rdbs s' ≡ law.rdbs s
        → ConnectOutcome cfg s r s'
    -- the Ping of the opened pool failed: the pool is open, and nobody has it
    unanswered :
        (e : Error) (db : f.Db) (x : Fault)
        → (f.sqlx_open (dsn f cfg) s).0 ≡ done db
        → (f.ping_db db (opened_state cfg db s)).0 ≡ failed x
        → r ≡ err e
        → law.dbs s' ≡ db ∷ law.dbs s
        → law.rdbs s' ≡ law.rdbs s
        → ConnectOutcome cfg s r s'

  pub data ClientOutcome (cfg : CacheConfig) (s : f.State) (r : Result f.Rdb) (s' : f.State)
      : Type 0 where
    ready :
        (rdb : f.Rdb)
        → r ≡ ok rdb
        → law.rdbs s' ≡ rdb ∷ law.rdbs s
        → law.dbs s' ≡ law.dbs s
        → ClientOutcome cfg s r s'
    -- the PING of the client failed
    silent :
        (e : Error) (rdb : f.Rdb) (x : Fault)
        → (made cfg s).0 ≡ rdb
        → (f.ping_rdb (made cfg s).0 (made cfg s).1).0 ≡ failed x
        → r ≡ err e
        → law.rdbs s' ≡ rdb ∷ law.rdbs s
        → law.dbs s' ≡ law.dbs s
        → ClientOutcome cfg s r s'

  -- What is open after the pool was opened and its limits were set, and after the Ping.
  module _ (cfg : DbConfig) (s : f.State) (db : f.Db) where
    opened_dbs :
        (f.sqlx_open (dsn f cfg) s).0 ≡ done db
        → law.dbs (f.ping_db db (opened_state cfg db s)).1 ≡ db ∷ law.dbs s
    opened_dbs e =
        law.ping_db_dbs db (opened_state cfg db s)
        ∙ (law.limit_dbs db 25 10 _ _ ∙ law.open_done _ s db e)

    opened_rdbs : law.rdbs (f.ping_db db (opened_state cfg db s)).1 ≡ law.rdbs s
    opened_rdbs =
        law.ping_db_rdbs db (opened_state cfg db s)
        ∙ (law.limit_rdbs db 25 10 _ _ ∙ law.open_rdbs _ s)

    pinged :
        (f.sqlx_open (dsn f cfg) s).0 ≡ done db
        → (reply : Reply (Unit {0})) → (f.ping_db db (opened_state cfg db s)).0 ≡ reply
        → ConnectOutcome cfg s (connect f cfg s).0 (connect f cfg s).1
    unfolding connect ◌>>=◌ on_error
    pinged e (done u) answer = rw (e, answer) (connected db refl (opened_dbs e) opened_rdbs)
    pinged e (failed x) answer =
        rw (e, answer) (unanswered _ db x e answer refl (opened_dbs e) opened_rdbs)

  opened :
      (cfg : DbConfig) (s : f.State) (reply : Reply f.Db)
      → (f.sqlx_open (dsn f cfg) s).0 ≡ reply
      → ConnectOutcome cfg s (connect f cfg s).0 (connect f cfg s).1
  unfolding connect ◌>>=◌ on_error
  opened cfg s (done db) e = pinged cfg s db e _ refl
  opened cfg s (failed x) e =
      rw e (unopened _ x e refl (law.open_failed _ s x e) (law.open_rdbs _ s))

  pub connect-ConnectOutcome :
      (cfg : DbConfig) (s : f.State) → ConnectOutcome cfg s (connect f cfg s).0 (connect f cfg s).1
  connect-ConnectOutcome cfg s = opened cfg s _ refl

  module _ (cfg : CacheConfig) (s : f.State) where
    made_rdbs : law.rdbs (f.ping_rdb (made cfg s).0 (made cfg s).1).1 ≡ (made cfg s).0 ∷ law.rdbs s
    made_rdbs = law.ping_rdb_rdbs (made cfg s).0 (made cfg s).1 ∙ law.client_rdbs _ _ _ s

    made_dbs : law.dbs (f.ping_rdb (made cfg s).0 (made cfg s).1).1 ≡ law.dbs s
    made_dbs = law.ping_rdb_dbs (made cfg s).0 (made cfg s).1 ∙ law.client_dbs _ _ _ s

    asked :
        (reply : Reply (Unit {0}))
        → (f.ping_rdb (made cfg s).0 (made cfg s).1).0 ≡ reply
        → ClientOutcome cfg s (new_redis_client f cfg s).0 (new_redis_client f cfg s).1
    unfolding new_redis_client ◌>>=◌ on_error
    asked (done u) e = rw e (ready (made cfg s).0 refl made_rdbs made_dbs)
    asked (failed x) e = rw e (silent _ (made cfg s).0 x refl e refl made_rdbs made_dbs)

    pub new_redis_client-ClientOutcome :
        ClientOutcome cfg s (new_redis_client f cfg s).0 (new_redis_client f cfg s).1
    new_redis_client-ClientOutcome = asked _ refl
