-- ===== src/Sound/History.antt =====
-- The invariant of the stored codes after any history of the server.
use iam_service.Prelude.{String, some, none, ◌≡◌}
use iam_service.Effect.{done}
use iam_service.Models.{AuthCode}
use iam_service.Platform.{Platform, World, Entry, IsRedis, IsHost}
use iam_service.Web.{Web}
use iam_service.Validator.Rules.{Engine, IsEngine}
use iam_service.Repository.AuthCode.{auth_code_key}
use iam_service.Stable.Defs.{IsSteady}
use iam_service.Sound.Stored.{IsBound, AllBound, AllBound-IsSteady}
use iam_service.Sound.Requests.{handle-AllBound}
use iam_service.Server.{Settings}
use iam_service.Server.History.{Turn, served, paused, History, begin, turn}

module _ (p : Platform) (law : IsRedis p.redis) (host : IsHost p.host) (n : Web) (engine : Engine)
    (docs : IsEngine engine) (s : Settings p) where
  Turn-AllBound : {u v : World p} → Turn p n engine s u v → AllBound p law n u → AllBound p law n v
  Turn-AllBound (served endpoint r w) h =
      (handle-AllBound p law host n engine docs s endpoint r).at w h
  Turn-AllBound (paused m w) h = IsSteady.wait (AllBound-IsSteady p law n) m w h

  History-AllBound :
      {w v : World p} → History p n engine s w v → AllBound p law n w → AllBound p law n v
  History-AllBound begin h = h
  History-AllBound (turn before t) h = Turn-AllBound t (History-AllBound before h)

  -- After any history of requests and pauses that began with no stored codes, every code that Redis
  -- holds and that decodes has the method S256, a challenge of 43 to 128 characters and a
  -- redirect_uri that passed the transport rules, if Redis, the encoders and the validation engine
  -- keep their laws.
  pub History-IsBound :
      (w v : World p)
      → ((code : String) → law.view w.kv (auth_code_key code) ≡ none)
      → History p n engine s w v
      → (code : String) (e : Entry) (a : AuthCode) → law.view v.kv (auth_code_key code) ≡ some e
      → p.host.unmarshal_auth_code e.value ≡ done a
      → IsBound n a
  History-IsBound w v empty history code e a held decodes =
      History-AllBound history (λ other f b h _. absurd (cc (empty other, h))) code e a held decodes
