-- ===== src/Startup/Connections.antt =====
-- internal/database/db.go and the constructor of internal/cache/redis.go.
use Prim.Native.String.{◌++◌ as concat}
use iam_service.Prelude.{ℤ, ◌*◌, String, List}
use iam_service.Errors.{at}
use iam_service.Effect.{M, pure, relabel, ok, ◌>>=◌, ◌>>◌}
use iam_service.Platform.{Host}
use iam_service.Startup.Infra.{Infra, calling, making}

-- database.Config
pub record DbConfig : Type 0 where
  pub host : String
  pub port : ℤ
  pub user : String
  pub password : String
  pub name : String

-- cache.Config
pub record CacheConfig : Type 0 where
  pub addrs : List String
  pub password : String
  pub db : ℤ

module _ {h : Host} (f : Infra h) where
  abbrev pub dsn : DbConfig → String
  dsn cfg = concat cfg.user (
      concat ":" (
        concat cfg.password (
          concat "@tcp(" (
            concat cfg.host (
              concat ":" (
                concat (f.decimal cfg.port)
                  (concat ")/" (concat cfg.name "?parseTime=true&charset=utf8mb4"))))))))

  -- 25 connections, 10 of them idle, for 5 minutes
  abbrev pub limited : f.Db → M f.State (Unit {0})
  limited db s = (ok tt, f.limit db 25 10 (5 * 60 * 1000000000) s)

  unfoldable pub connect : DbConfig → M f.State f.Db
  connect cfg = do
    db ← relabel (at "sqlx.Open") (calling f (f.sqlx_open (dsn cfg)))
    limited db
    relabel (at "db.Ping") (calling f (f.ping_db db))
    pure db

  unfoldable pub new_redis_client : CacheConfig → M f.State f.Rdb
  new_redis_client cfg = do
    rdb ← making f (f.new_universal_client cfg.addrs cfg.password cfg.db)
    relabel (at "cache.New ping") (calling f (f.ping_rdb rdb))
    pure rdb
