-- ===== src/Platform/Systems.antt =====
-- The three systems side by side: a call of one leaves the states of the others alone.
use iam_service.Effect.{Reply, from_reply, ok, M}
use iam_service.Platform.Kv.{Redis}
use iam_service.Platform.Db.{Sql}
use iam_service.Platform.Os.{Host}

pub record Platform : Type 1 where
  pub redis : Redis
  pub sql : Sql
  pub host : Host

module _ (p : Platform) where
  pub record World : Type 0 where
    pub kv : p.redis.State
    pub db : p.sql.State
    pub os : p.host.State

module _ (p : Platform) {A : Type 0} where
  abbrev pub on_kv : (p.redis.State → Reply A × p.redis.State) → M (World p) A
  on_kv op w = let (r, s) = op w.kv in (from_reply r, record w { kv = s })

  abbrev pub on_db : (p.sql.State → Reply A × p.sql.State) → M (World p) A
  on_db op w = let (r, s) = op w.db in (from_reply r, record w { db = s })

  abbrev pub on_os : (p.host.State → Reply A × p.host.State) → M (World p) A
  on_os op w = let (r, s) = op w.os in (from_reply r, record w { os = s })

  -- for calls that cannot fail
  abbrev pub on_host : (p.host.State → A × p.host.State) → M (World p) A
  on_host op w = let (a, s) = op w.os in (ok a, record w { os = s })
