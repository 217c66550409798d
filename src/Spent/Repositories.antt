-- ===== src/Spent/Repositories.antt =====
-- What the calls of the repositories keep of the entry of a code.
use iam_service.Prelude.{Option, none, subst, sym, ℕ, String, ◌≡◌, ◌≢◌}
use iam_service.Errors.{at}
use iam_service.Effect.{Reply, relabel, from_reply-eq-ok, relabel-value}
use iam_service.Effect.Preserves.{
  Preserves, preserves_rules, Preserves-relabel, Preserves-bind, Preserves-bind_from,
  Preserves-on_error,
}
use iam_service.Models.{AuthCode}
use iam_service.System.{IsFresh}
use iam_service.Stable.Defs.{IsSteady}
use iam_service.Stable.Repositories.{session_create-Preserves, on_os-Preserves, on_host-Preserves}
use iam_service.Platform.{Platform, World, IsRedis, Entry, on_db, on_os}
use iam_service.Cache
use iam_service.Repository.Client as ClientRepository
use iam_service.Repository.Session as SessionRepository
use iam_service.Repository.AuthCode as AuthCodeRepository
use iam_service.Repository.AuthCode.{auth_code_key}
use iam_service.Repository.Session.{session_key}
use iam_service.Spent.Keys.{session_key-ne-auth_code_key, auth_code_key_injective}
use iam_service.Spent.Calls.{IsFading, Bears, set-Bears, Bears-IsSteady}

module _ (p : Platform) (law : IsRedis p.redis) (code : String) where
  -- The code is not in Redis: it was consumed, or it has expired, or it never was.
  abbrev pub IsSpent : World p → Type 0
  IsSpent w = law.view w.kv (auth_code_key code) ≡ none

module _ (p : Platform) (law : IsRedis p.redis) (code : String) (Q : Option Entry → Type 0) where
  -- What Redis holds under the code.
  abbrev pub CodeBears : World p → Type 0
  CodeBears = Bears p law (auth_code_key code) Q

  -- And the randomness is at a given state.
  abbrev pub CodeBearsAt : p.host.State → World p → Type 0
  CodeBearsAt os w = CodeBears w × (w.os ≡ os)

module _ (p : Platform) (law : IsRedis p.redis) (code : String) {Q : Option Entry → Type 0}
    (fading : IsFading Q) where
  pub CodeBears-IsSteady : IsSteady p (CodeBears p law code Q)
  CodeBears-IsSteady = Bears-IsSteady p law (auth_code_key code) fading

  pub session_create-CodeBears :
      (user_id email : String)
      → Preserves (CodeBears p law code Q) (SessionRepository.create p user_id email)
  session_create-CodeBears = session_create-Preserves p _ CodeBears-IsSteady (λ id payload ttl.
      set-Bears p law (auth_code_key code) fading (session_key id) payload ttl
        (session_key-ne-auth_code_key id code))

  code_set-CodeBears :
      (other payload : String) (ttl : ℕ)
      → other ≢ code
      → Preserves (CodeBears p law code Q) (Cache.set p (auth_code_key other) payload ttl)
  code_set-CodeBears other payload ttl ne =
      set-Bears p law (auth_code_key code) fading (auth_code_key other) payload ttl
        (λ e. ne (auth_code_key_injective other code e))

  module _ (os : p.host.State) where
    on_db-CodeBearsAt :
        {A : Type 0} (op : p.sql.State → Reply A × p.sql.State)
        → Preserves (CodeBearsAt p law code Q os) (on_db p op)
    on_db-CodeBearsAt op = record { at = λ w h. h }

    pub client_get_by_id-CodeBearsAt :
        (id : String) → Preserves (CodeBearsAt p law code Q os) (ClientRepository.get_by_id p id)
    unfolding ClientRepository.get_by_id
    client_get_by_id-CodeBearsAt id =
        Preserves-on_error _ _ (search (preserves_rules, on_db-CodeBearsAt))
          (λ e. search preserves_rules)

    cache_get-CodeBearsAt : (k : String) → Preserves (CodeBearsAt p law code Q os) (Cache.get p k)
    unfolding Cache.get
    cache_get-CodeBearsAt k = Preserves-relabel _ _ (record {
      at = λ w h. (subst Q (sym (law.get_keeps k (auth_code_key code) w.kv)) h.0, h.1);
    })

    pub session_get-CodeBearsAt :
        (id : String) → Preserves (CodeBearsAt p law code Q os) (SessionRepository.get p id)
    unfolding SessionRepository.get
    session_get-CodeBearsAt id =
        Preserves-bind _ _
          (Preserves-relabel (SessionRepository.lookup_error p) _
            (cache_get-CodeBearsAt (session_key id)))
          (λ raw. search preserves_rules)

  ruleset rules = (preserves_rules, on_os-Preserves, on_host-Preserves, CodeBears-IsSteady)

  -- Storing another code leaves what is held under this one.
  pub auth_code_create-CodeBears :
      (given : AuthCode) (w : World p)
      → IsFresh p code w
      → CodeBears p law code Q w
      → CodeBears p law code Q (AuthCodeRepository.create p given w).1
  unfolding AuthCodeRepository.create
  auth_code_create-CodeBears given w fresh h =
      (Preserves-bind_from {P = CodeBears p law code Q} w
          (relabel (at "AuthCodeRepository.Create random") (on_os p (p.host.read 32))) _
          (search rules)
          (λ raw e.
            let drawn = from_reply-eq-ok (p.host.read 32 w.os).0 (
              relabel-value (at "AuthCodeRepository.Create random") (on_os p (p.host.read 32)) w
                e) in
            let other : p.host.encode_to_string raw ≢ code = fresh raw drawn in
            search (rules, code_set-CodeBears) depth 15))
        h
