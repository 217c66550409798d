-- ===== src/Startup/Outcome.antt =====
-- What New and Close leave open.
use iam_service.Prelude.{◌∷◌, ◌≡◌, ◌∙◌, ◌⊎◌, inl, inr, refl, sym, ap, subst}
use iam_service.Errors.{Error, Fault}
use iam_service.Effect.{Reply, done, failed, ok_injective, Result, ok, err, panic, on_error, ◌>>=◌}
use iam_service.Platform.{Host}
use iam_service.Startup.Config.{Config}
use iam_service.Startup.Infra.{Infra, IsInfra}
use iam_service.Startup.Keys.{load_rsa_keys}
use iam_service.Startup.Pair.{
  IsPair, load_rsa_keys-IsPair, load_rsa_keys-Preserves, load_rsa_keys-IsSafe,
}
use iam_service.Startup.Connections.{dsn, connect, new_redis_client}
use iam_service.Startup.Opened.{
  opened_state, made, connected, unopened, unanswered, ready, silent, connect-ConnectOutcome,
  new_redis_client-ClientOutcome,
}
use iam_service.Startup.New.{App, db_config, cache_config, new, close}

module _ {h : Host} (f : Infra h) (law : IsInfra f) where
  -- The client of Redis that New makes, and what its PING is answered.
  abbrev client_made : Config → f.State → f.Rdb
  client_made cfg s = (made f law (cache_config f cfg) (connect f (db_config f cfg) s).1).0

  abbrev client_ping : Config → f.State → Reply (Unit {0})
  client_ping cfg s =
      let (rdb, s1) = made f law (cache_config f cfg) (connect f (db_config f cfg) s).1 in
      (f.ping_rdb rdb s1).0

  -- What the loading of the keys answers, and the state after it.
  abbrev keys_loaded : Config → f.State → Result (h.PrivateKey × f.PublicKey) × f.State
  keys_loaded cfg s =
      load_rsa_keys f cfg.rsa_private_key_path cfg.rsa_public_key_path
        (new_redis_client f (cache_config f cfg) (connect f (db_config f cfg) s).1).1

  -- How New ends, and what is open then beside what was.
  pub data NewOutcome (cfg : Config) (s : f.State) (r : Result (App f)) (s' : f.State)
      : Type 0 where
    started :
        (app : App f)
        → r ≡ ok app
        → law.dbs s' ≡ app.db ∷ law.dbs s
        → law.rdbs s' ≡ app.rdb ∷ law.rdbs s
        → IsPair f app.private_key app.public_key
        → NewOutcome cfg s r s'
    -- the pool was not opened, or the keys were not (keys_loaded cfg s)
    refused :
        (e : Error)
        → ((x : Fault) × ((f.sqlx_open (dsn f (db_config f cfg)) s).0 ≡ failed x))
          ⊎ ((x : Error) × ((keys_loaded cfg s).0 ≡ err x))
        → r ≡ err e
        → law.dbs s' ≡ law.dbs s
        → law.rdbs s' ≡ law.rdbs s
        → NewOutcome cfg s r s'
    -- the pool was opened, and its Ping failed
    db_left_open :
        (e : Error) (db : f.Db) (x : Fault)
        → (f.sqlx_open (dsn f (db_config f cfg)) s).0 ≡ done db
        → (f.ping_db db (opened_state f law (db_config f cfg) db s)).0 ≡ failed x
        → r ≡ err e
        → law.dbs s' ≡ db ∷ law.dbs s
        → law.rdbs s' ≡ law.rdbs s
        → NewOutcome cfg s r s'
    -- MySQL answered, and the PING of the client of Redis failed
    rdb_left_open :
        (e : Error) (db : f.Db) (rdb : f.Rdb) (x : Fault)
        → (connect f (db_config f cfg) s).0 ≡ ok db
        → client_made cfg s ≡ rdb
        → client_ping cfg s ≡ failed x
        → r ≡ err e
        → law.dbs s' ≡ law.dbs s
        → law.rdbs s' ≡ rdb ∷ law.rdbs s
        → NewOutcome cfg s r s'

  module _ (cfg : Config) (s : f.State) where
    abbrev s1 : f.State
    s1 = (connect f (db_config f cfg) s).1

    abbrev s2 : f.State
    s2 = (new_redis_client f (cache_config f cfg) s1).1

    module _ (db : f.Db) (rdb : f.Rdb) (is_connected : (connect f (db_config f cfg) s).0 ≡ ok db)
        (is_ready : (new_redis_client f (cache_config f cfg) s1).0 ≡ ok rdb)
        (dbs : law.dbs s2 ≡ db ∷ law.dbs s) (rdbs : law.rdbs s2 ≡ rdb ∷ law.rdbs s) where
      kept_dbs : law.dbs (keys_loaded cfg s).1 ≡ db ∷ law.dbs s
      kept_dbs =
          (load_rsa_keys-Preserves f (λ x. law.dbs x ≡ db ∷ law.dbs s)
              (λ path x held. law.read_dbs path x ∙ held) _ _).at
            s2 dbs

      kept_rdbs : law.rdbs (keys_loaded cfg s).1 ≡ rdb ∷ law.rdbs s
      kept_rdbs =
          (load_rsa_keys-Preserves f (λ x. law.rdbs x ≡ rdb ∷ law.rdbs s)
              (λ path x held. law.read_rdbs path x ∙ held) _ _).at
            s2 rdbs

      with_keys :
          (r : Result (h.PrivateKey × f.PublicKey))
          → (keys_loaded cfg s).0 ≡ r
          → NewOutcome cfg s (new f cfg s).0 (new f cfg s).1
      unfolding new ◌>>=◌ on_error
      with_keys (ok (private, public)) e =
          rw (is_connected, is_ready, e)
            (started _ refl kept_dbs kept_rdbs (
              load_rsa_keys-IsPair f _ _ private public s2 (keys_loaded cfg s).1
                (λ i. (e i, (keys_loaded cfg s).1))))
      with_keys (err x) e =
          rw (is_connected, is_ready, e)
            (refused _ (inr (x, e)) refl
              (law.close_db_dbs db _ _ (law.close_rdb_dbs rdb (keys_loaded cfg s).1 ∙ kept_dbs))
              (law.close_db_rdbs db _ ∙ law.close_rdb_rdbs rdb _ (keys_loaded cfg s).1 kept_rdbs))
      with_keys panic e = absurd ((load_rsa_keys-IsSafe f _ _).at s2 e)

    with_client :
        (db : f.Db)
        → (connect f (db_config f cfg) s).0 ≡ ok db
        → law.dbs s1 ≡ db ∷ law.dbs s
        → law.rdbs s1 ≡ law.rdbs s
        → NewOutcome cfg s (new f cfg s).0 (new f cfg s).1
    unfolding new ◌>>=◌ on_error
    with_client db e dbs rdbs =
        elim (new_redis_client-ClientOutcome f law (cache_config f cfg) s1) [
          | ready rdb e' held same ↦
              with_keys db rdb e e' (same ∙ dbs) (held ∙ ap (λ l. rdb ∷ l) rdbs) _ refl
          | silent x rdb y made_it unanswered_ping e' held same ↦
              rw (e, e')
                (rdb_left_open _ db rdb y e made_it unanswered_ping refl
                  (law.close_db_dbs db _ s2 (same ∙ dbs))
                  (law.close_db_rdbs db s2 ∙ (held ∙ ap (λ l. rdb ∷ l) rdbs)))
        ]

    pub new-NewOutcome : NewOutcome cfg s (new f cfg s).0 (new f cfg s).1
    unfolding new ◌>>=◌ on_error
    new-NewOutcome = elim (connect-ConnectOutcome f law (db_config f cfg) s) [
      | connected db e dbs rdbs ↦ with_client db e dbs rdbs
      | unopened x y failed_open e dbs rdbs ↦ rw e (refused _ (inl (y, failed_open)) refl dbs rdbs)
      | unanswered x db y opened no_ping e dbs rdbs ↦
          rw e (db_left_open _ db y opened no_ping refl dbs rdbs)
    ]

  -- How a start that succeeded left the connections.
  started-inv :
      (cfg : Config) (s s' : f.State) (r : Result (App f)) (app : App f)
      → NewOutcome cfg s r s'
      → r ≡ ok app
      → (law.dbs s' ≡ app.db ∷ law.dbs s)
        × (law.rdbs s' ≡ app.rdb ∷ law.rdbs s)
        × IsPair f app.private_key app.public_key
  started-inv cfg s s' r app (started given e dbs rdbs pair) h =
      let same : given ≡ app = ok_injective (sym e ∙ h) in rw (← same) (dbs, rdbs, pair)
  started-inv cfg s s' r app (refused x cause e dbs rdbs) h = absurd (cc)
  started-inv cfg s s' r app (db_left_open x db y o g e dbs rdbs) h = absurd (cc)
  started-inv cfg s s' r app (rdb_left_open x db rdb y c m g e dbs rdbs) h = absurd (cc)

  pub new-inv :
      (cfg : Config) (s s' : f.State) (app : App f)
      → new f cfg s ≡ (ok app, s')
      → (law.dbs s' ≡ app.db ∷ law.dbs s)
        × (law.rdbs s' ≡ app.rdb ∷ law.rdbs s)
        × IsPair f app.private_key app.public_key
  new-inv cfg s s' app run =
      started-inv cfg s s' (ok app) app
        (subst (λ (x : Result (App f) × f.State). NewOutcome cfg s x.0 x.1) run
          (new-NewOutcome cfg s))
        refl

  -- What a start opened, Close releases: the pools and clients that are open afterwards are those
  -- that were open before.
  pub new-close :
      (cfg : Config) (s s' : f.State) (app : App f)
      → new f cfg s ≡ (ok app, s')
      → (law.dbs (close f app s').1 ≡ law.dbs s) × (law.rdbs (close f app s').1 ≡ law.rdbs s)
  unfolding close
  new-close cfg s s' app run =
      let (dbs, rdbs, pair) = new-inv cfg s s' app run in
      (
        law.close_db_dbs app.db _ _ (law.close_rdb_dbs app.rdb s' ∙ dbs),
        law.close_db_rdbs app.db _ ∙ law.close_rdb_rdbs app.rdb _ s' rdbs,
      )
