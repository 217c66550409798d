-- ===== src/Stable/Repositories.antt =====
-- A steady property is kept by every call of the repositories but the creation of a code, and by
-- the creation of a session where it bears that.
use iam_service.Prelude.{ℕ, String, [], ◌∷◌}
use iam_service.Effect.{Reply}
use iam_service.Effect.Preserves.{
  Preserves, preserves_rules, Preserves-relabel, Preserves-bind, Preserves-on_error,
}
use iam_service.Models.{User, Client, RefreshToken}
use iam_service.Platform.{Platform, World, on_db, on_os, on_host}
use iam_service.Cache
use iam_service.Repository.User as UserRepository
use iam_service.Repository.Client as ClientRepository
use iam_service.Repository.RefreshToken as RefreshTokenRepository
use iam_service.Repository.Session as SessionRepository
use iam_service.Repository.AuthCode as AuthCodeRepository
use iam_service.Repository.AuthCode.{auth_code_key}
use iam_service.Repository.Session.{session_key}
use iam_service.Stable.Defs.{IsSteady}

module _ (p : Platform) (P : World p → Type 0) (steady : IsSteady p P) where
  module _ {A : Type 0} where
    pub on_db-Preserves : (op : p.sql.State → Reply A × p.sql.State) → Preserves P (on_db p op)
    on_db-Preserves op = record { at = λ w h. steady.db w _ h }

    pub on_os-Preserves : (op : p.host.State → Reply A × p.host.State) → Preserves P (on_os p op)
    on_os-Preserves op = record { at = λ w h. steady.os w _ h }

    pub on_host-Preserves : (op : p.host.State → A × p.host.State) → Preserves P (on_host p op)
    on_host-Preserves op = record { at = λ w h. steady.os w _ h }

  ruleset outside = (preserves_rules, on_db-Preserves, on_os-Preserves, on_host-Preserves)

  -- users, clients and refresh_tokens
  pub get_by_email-Preserves : (email : String) → Preserves P (UserRepository.get_by_email p email)
  unfolding UserRepository.get_by_email
  get_by_email-Preserves email = Preserves-on_error _ _ (search outside) (λ e. search outside)

  pub user_get_by_id-Preserves : (id : String) → Preserves P (UserRepository.get_by_id p id)
  unfolding UserRepository.get_by_id
  user_get_by_id-Preserves id = search outside

  pub user_create-Preserves : (u : User) → Preserves P (UserRepository.create p u)
  unfolding UserRepository.create
  user_create-Preserves u = search outside

  pub client_get_by_id-Preserves : (id : String) → Preserves P (ClientRepository.get_by_id p id)
  unfolding ClientRepository.get_by_id
  client_get_by_id-Preserves id = Preserves-on_error _ _ (search outside) (λ e. search outside)

  pub client_create-Preserves : (c : Client) → Preserves P (ClientRepository.create p c)
  unfolding ClientRepository.create
  client_create-Preserves c = search outside

  pub get_token_by_hash-Preserves :
      (hash : String) → Preserves P (RefreshTokenRepository.get_token_by_hash p hash)
  unfolding RefreshTokenRepository.get_token_by_hash
  get_token_by_hash-Preserves hash = Preserves-on_error _ _ (search outside) (λ e. search outside)

  pub token_create-Preserves : (t : RefreshToken) → Preserves P (RefreshTokenRepository.create p t)
  unfolding RefreshTokenRepository.create
  token_create-Preserves t = search outside

  -- sessions and codes
  pub session_create-Preserves :
      (set : (id payload : String) (ttl : ℕ)
        → Preserves P (Cache.set p (session_key id) payload ttl))
      (user_id email : String)
      → Preserves P (SessionRepository.create p user_id email)
  unfolding SessionRepository.create
  session_create-Preserves set user_id email = search (outside, set) depth 15

  pub session_get-Preserves : (id : String) → Preserves P (SessionRepository.get p id)
  unfolding SessionRepository.get
  session_get-Preserves id =
      Preserves-bind _ _
        (Preserves-relabel (SessionRepository.lookup_error p) _ (steady.get (session_key id)))
        (λ raw. search outside)

  pub destroy-Preserves : (id : String) → Preserves P (SessionRepository.destroy p id)
  unfolding SessionRepository.destroy
  destroy-Preserves id = search (outside, steady.del (session_key id ∷ [])) depth 15

  pub consume-Preserves : (other : String) → Preserves P (AuthCodeRepository.consume p other)
  unfolding AuthCodeRepository.consume
  consume-Preserves other =
      Preserves-bind _ _
        (Preserves-relabel (AuthCodeRepository.lookup_error p) _
          (steady.get_del (auth_code_key other)))
        (λ raw. search outside)
