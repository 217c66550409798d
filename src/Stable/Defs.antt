-- ===== src/Stable/Defs.antt =====
-- What a property must bear to be kept by all calls but the creation of a code and of
-- a session.
use iam_service.Prelude.{ℕ, String, List}
use iam_service.Effect.Preserves.{Preserves}
use iam_service.Platform.{Platform, World}
use iam_service.Repository.Session.{session_key}
use iam_service.Cache

pub record IsSteady (p : Platform) (P : World p → Type 0) : Type 0 where
  pub db : (w : World p) (s : p.sql.State) → P w → P (record w { db = s })
  pub os : (w : World p) (s : p.host.State) → P w → P (record w { os = s })
  pub get : (key : String) → Preserves P (Cache.get p key)
  pub get_del : (key : String) → Preserves P (Cache.get_del p key)
  pub del : (keys : List String) → Preserves P (Cache.delete p keys)
  pub wait : (n : ℕ) (w : World p) → P w → P (record w { kv = p.redis.wait n w.kv })

-- The storing of a session keeps it too.
pub record IsStable (p : Platform) (P : World p → Type 0) : Type 0 where
  pub steady : IsSteady p P
  pub set_session :
      (id payload : String) (ttl : ℕ) → Preserves P (Cache.set p (session_key id) payload ttl)
