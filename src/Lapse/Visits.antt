-- ===== src/Lapse/Visits.antt =====
-- The running service as a step relation, as a session sees it: requests in any order, and the
-- passing of time.
use iam_service.Prelude.{ℕ, ◌+◌, String, ◌≢◌}
use iam_service.Dtos.{LoginRequest, RegisterClientRequest, TokenRequest}
use iam_service.Platform.{Platform, World}
use iam_service.Service.Auth.{RegisterInput, AuthorizeInput}
use iam_service.App

-- The next session id to be drawn is another one.
abbrev pub IsOtherSession : (p : Platform) → String → World p → Type 0
IsOtherSession p id w = (p.host.new_string w.os).0 ≢ id

-- A request runs one of the service's operations, also with the session `id` itself, or time passes.
-- A step keeps the state that its operation left, also where it failed. No login draws `id`.
pub data Visit (p : Platform) (key : p.host.PrivateKey) (id : String)
    : World p → World p → Type 0 where
  exchanged : (req : TokenRequest) (w : World p) → Visit p key id w (App.exchange p key req w).1
  authorized : (input : AuthorizeInput) (w : World p) → Visit p key id w (App.authorize p input w).1
  logged_in :
      (req : LoginRequest) (w : World p)
      → IsOtherSession p id w
      → Visit p key id w (App.login p req w).1
  logged_out : (sid : String) (w : World p) → Visit p key id w (App.logout p sid w).1
  looked_up : (sid : String) (w : World p) → Visit p key id w (App.session_by_id p sid w).1
  refreshed : (raw : String) (w : World p) → Visit p key id w (App.refresh_token p key raw w).1
  registered : (input : RegisterInput) (w : World p) → Visit p key id w (App.register p input w).1
  enrolled :
      (req : RegisterClientRequest) (w : World p) → Visit p key id w (App.register_client p req w).1
  waited : (n : ℕ) (w : World p) → Visit p key id w (record w { kv = p.redis.wait n w.kv })

pub data Visits (p : Platform) (key : p.host.PrivateKey) (id : String) (w : World p)
    : World p → Type 0 where
  start : Visits p key id w w
  next : {u v : World p} → Visits p key id w u → Visit p key id u v → Visits p key id w v

-- How long the pauses were.
abbrev pub passed :
    {p : Platform} {key : p.host.PrivateKey} {id : String} {u v : World p}
    → Visit p key id u v
    → ℕ
    → ℕ
passed (waited n w) before = before + n
passed _ before = before

abbrev pub elapsed :
    {p : Platform} {key : p.host.PrivateKey} {id : String} {w v : World p} → Visits p key id w v → ℕ
elapsed start = 0
elapsed (next r visit) = passed visit (elapsed r)
