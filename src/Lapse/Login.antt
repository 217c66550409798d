-- ===== src/Lapse/Login.antt =====
-- What the calls that store sessions and codes keep of the entry of one session.
use iam_service.Prelude.{ℕ, String, Option, ◌≡◌, ◌≢◌, ◌∙◌, refl, sym, subst}
use iam_service.Effect.{Reply, ok_injective}
use iam_service.Effect.Preserves.{
  Preserves, preserves_rules, Preserves-relabel, Preserves-on_error, Preserves-or_fail,
  Preserves-require, Preserves-bind_from, Leads, Leads-bind, Leads-then, Leads-relabel,
}
use iam_service.Models.{AuthCode}
use iam_service.Dtos.{LoginRequest}
use iam_service.Platform.{Platform, World, Entry, IsRedis, on_db, on_host}
use iam_service.Cache
use iam_service.Repository.User as UserRepository
use iam_service.Repository.Session as SessionRepository
use iam_service.Repository.AuthCode as AuthCodeRepository
use iam_service.Repository.AuthCode.{auth_code_key}
use iam_service.Repository.Session.{session_key}
use iam_service.Service.Auth as AuthService
use iam_service.App
use iam_service.Stable.Defs.{IsSteady}
use iam_service.Stable.Repositories.{on_os-Preserves, on_host-Preserves}
use iam_service.Spent.Calls.{IsFading, Bears, set-Bears, Bears-IsSteady}
use iam_service.Spent.Keys.{session_key-ne-auth_code_key, session_key_injective}
use iam_service.Lapse.Visits.{IsOtherSession}

module _ (p : Platform) (law : IsRedis p.redis) (id : String) (Q : Option Entry → Type 0) where
  -- What Redis holds for the session.
  abbrev pub SessionBears : World p → Type 0
  SessionBears = Bears p law (session_key id) Q

  -- And the randomness is at a given state.
  abbrev SessionBearsAt : p.host.State → World p → Type 0
  SessionBearsAt os w = SessionBears w × (w.os ≡ os)

module _ (p : Platform) (law : IsRedis p.redis) (id : String) {Q : Option Entry → Type 0}
    (fading : IsFading Q) where
  pub SessionBears-IsSteady : IsSteady p (SessionBears p law id Q)
  SessionBears-IsSteady = Bears-IsSteady p law (session_key id) fading

  code_set-SessionBears :
      (code payload : String) (ttl : ℕ)
      → Preserves (SessionBears p law id Q) (Cache.set p (auth_code_key code) payload ttl)
  code_set-SessionBears code payload ttl =
      set-Bears p law (session_key id) fading (auth_code_key code) payload ttl
        (λ e. session_key-ne-auth_code_key id code (sym e))

  session_set-SessionBears :
      (other payload : String) (ttl : ℕ)
      → other ≢ id
      → Preserves (SessionBears p law id Q) (Cache.set p (session_key other) payload ttl)
  session_set-SessionBears other payload ttl ne =
      set-Bears p law (session_key id) fading (session_key other) payload ttl
        (λ e. ne (session_key_injective other id e))

  ruleset rules = (preserves_rules, on_os-Preserves, on_host-Preserves, SessionBears-IsSteady)

  pub code_create-SessionBears :
      (given : AuthCode) → Preserves (SessionBears p law id Q) (AuthCodeRepository.create p given)
  unfolding AuthCodeRepository.create
  code_create-SessionBears given = search (rules, code_set-SessionBears) depth 15

  -- Another session leaves what is held for this one.
  session_create-SessionBears :
      (user_id email : String) (w : World p)
      → IsOtherSession p id w
      → SessionBears p law id Q w
      → SessionBears p law id Q (SessionRepository.create p user_id email w).1
  unfolding SessionRepository.create
  session_create-SessionBears user_id email w fresh h =
      (Preserves-bind_from {P = SessionBears p law id Q} w (on_host p p.host.new_string) _
          (search rules)
          (λ drawn e.
            let other : drawn ≢ id = λ same. fresh (ok_injective e ∙ same) in
            search (rules, session_set-SessionBears) depth 15))
        h

  module _ (os : p.host.State) (fresh : (p.host.new_string os).0 ≢ id) where
    weaken : (w : World p) → SessionBearsAt p law id Q os w → SessionBears p law id Q w
    weaken w h = h.0

    on_db-SessionBearsAt :
        {A : Type 0} (op : p.sql.State → Reply A × p.sql.State)
        → Preserves (SessionBearsAt p law id Q os) (on_db p op)
    on_db-SessionBearsAt op = record { at = λ w h. h }

    get_by_email-SessionBearsAt :
        (email : String)
        → Preserves (SessionBearsAt p law id Q os) (UserRepository.get_by_email p email)
    unfolding UserRepository.get_by_email
    get_by_email-SessionBearsAt email =
        Preserves-on_error _ _ (search (preserves_rules, on_db-SessionBearsAt))
          (λ e. search preserves_rules)

    create-Leads :
        (user_id email : String)
        → Leads
            (SessionBearsAt p law id Q os)
            (SessionBears p law id Q)
            (SessionRepository.create p user_id email)
    create-Leads user_id email = record {
      at = λ w h.
          session_create-SessionBears user_id email w
            (subst (λ s. (p.host.new_string s).0 ≢ id) (sym h.1) fresh) h.0;
    }

    login-Leads :
        (req : LoginRequest)
        → Leads (SessionBearsAt p law id Q os) (SessionBears p law id Q) (App.login p req)
    unfolding AuthService.login
    login-Leads req =
        Leads-bind weaken _ _ (Preserves-relabel _ _ (get_by_email-SessionBearsAt req.email))
          λ found. Leads-bind weaken _ _ (Preserves-or_fail _ found) λ user.
            Leads-bind weaken _ _ (Preserves-require _ _) λ _.
              Leads-then _ _ (Leads-relabel _ _ (create-Leads user.id user.email))
                λ made. search preserves_rules

  pub login-SessionBears :
      (req : LoginRequest) (w : World p)
      → IsOtherSession p id w
      → SessionBears p law id Q w
      → SessionBears p law id Q (App.login p req w).1
  login-SessionBears req w fresh h = (login-Leads w.os fresh req).at w (h, refl)
