-- ===== src/System.antt =====
-- The running service as a step relation: requests in any order, and the passing of time.
use iam_service.Prelude.{ℕ, ◌+◌, String, ◌≡◌, ◌≢◌}
use iam_service.Effect.{done}
use iam_service.Dtos.{LoginRequest, RegisterClientRequest, TokenRequest}
use iam_service.Platform.{Platform, World, Bytes}
use iam_service.Service.Auth.{RegisterInput, AuthorizeInput}
use iam_service.App

-- The next code to be drawn is another one.
abbrev pub IsFresh : (p : Platform) → String → World p → Type 0
IsFresh p code w =
    (raw : Bytes) → (p.host.read 32 w.os).0 ≡ done raw → p.host.encode_to_string raw ≢ code

-- What may happen to the service: a request runs one of its operations, or time passes. A step
-- keeps the state that its operation left, also where the operation failed. No step draws `code`.
pub data Step (p : Platform) (key : p.host.PrivateKey) (code : String)
    : World p → World p → Type 0 where
  exchanged : (req : TokenRequest) (w : World p) → Step p key code w (App.exchange p key req w).1
  authorized :
      (input : AuthorizeInput) (w : World p)
      → IsFresh p code w
      → Step p key code w (App.authorize p input w).1
  logged_in : (req : LoginRequest) (w : World p) → Step p key code w (App.login p req w).1
  logged_out : (id : String) (w : World p) → Step p key code w (App.logout p id w).1
  looked_up : (id : String) (w : World p) → Step p key code w (App.session_by_id p id w).1
  refreshed : (raw : String) (w : World p) → Step p key code w (App.refresh_token p key raw w).1
  registered : (input : RegisterInput) (w : World p) → Step p key code w (App.register p input w).1
  enrolled :
      (req : RegisterClientRequest) (w : World p)
      → Step p key code w (App.register_client p req w).1
  waited : (n : ℕ) (w : World p) → Step p key code w (record w { kv = p.redis.wait n w.kv })

pub data Reach (p : Platform) (key : p.host.PrivateKey) (code : String) (w : World p)
    : World p → Type 0 where
  start : Reach p key code w w
  next : {u v : World p} → Reach p key code w u → Step p key code u v → Reach p key code w v

-- How long the pauses were.
abbrev pub passed :
    {p : Platform} {key : p.host.PrivateKey} {code : String} {u v : World p}
    → Step p key code u v
    → ℕ
    → ℕ
passed (waited n w) before = before + n
passed _ before = before

abbrev pub elapsed :
    {p : Platform} {key : p.host.PrivateKey} {code : String} {w v : World p}
    → Reach p key code w v
    → ℕ
elapsed start = 0
elapsed (next r step) = passed step (elapsed r)
