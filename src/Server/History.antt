-- ===== src/Server/History.antt =====
-- The running server as a step relation: requests of any endpoint in any order, and pauses.
use iam_service.Prelude.{ℕ}
use iam_service.Platform.{Platform, World}
use iam_service.Web.{Web}
use iam_service.Validator.Rules.{Engine}
use iam_service.Handler.Response.{Request}
use iam_service.Server.{Endpoint, Settings, handle}

pub data Turn (p : Platform) (n : Web) (engine : Engine) (s : Settings p)
    : World p → World p → Type 0 where
  served :
      (endpoint : Endpoint) (r : Request n) (w : World p)
      → Turn p n engine s w (handle p n engine s endpoint r w).1
  paused : (m : ℕ) (w : World p) → Turn p n engine s w (record w { kv = p.redis.wait m w.kv })

pub data History (p : Platform) (n : Web) (engine : Engine) (s : Settings p) (w : World p)
    : World p → Type 0 where
  begin : History p n engine s w w
  turn :
      {u v : World p} → History p n engine s w u → Turn p n engine s u v → History p n engine s w v
