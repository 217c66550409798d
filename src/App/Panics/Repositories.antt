-- ===== src/App/Panics/Repositories.antt =====
-- The repositories do not panic, and those that answer without an error answer no nil where the
-- services rely on it.
use iam_service.Prelude.{ℕ, String}
use iam_service.Effect.{Reply}
use iam_service.Effect.Safe
use iam_service.Effect.Safe.{
  IsSafe, IsPresent, safe_rules, from_reply-ne-panic, IsSafe-if, IsSafe-pure, IsSafe-fail,
  IsSafe-on_error, IsSafe-relabel, IsSafe-bind,
}
use iam_service.Models.{User, Client, RefreshToken, AuthCode}
use iam_service.Platform.{Platform, on_db, on_kv, on_os, on_host}
use iam_service.Cache
use iam_service.Repository.User as UserRepository
use iam_service.Repository.Client as ClientRepository
use iam_service.Repository.RefreshToken as RefreshTokenRepository
use iam_service.Repository.Session as SessionRepository
use iam_service.Repository.AuthCode as AuthCodeRepository

module _ (p : Platform) where
  module _ {A : Type 0} where
    pub on_kv-IsSafe : (op : p.redis.State → Reply A × p.redis.State) → IsSafe (on_kv p op)
    on_kv-IsSafe op = record { at = λ w. from_reply-ne-panic (op w.kv).0 }

    pub on_db-IsSafe : (op : p.sql.State → Reply A × p.sql.State) → IsSafe (on_db p op)
    on_db-IsSafe op = record { at = λ w. from_reply-ne-panic (op w.db).0 }

    pub on_os-IsSafe : (op : p.host.State → Reply A × p.host.State) → IsSafe (on_os p op)
    on_os-IsSafe op = record { at = λ w. from_reply-ne-panic (op w.os).0 }

    pub on_host-IsSafe : (op : p.host.State → A × p.host.State) → IsSafe (on_host p op)
    on_host-IsSafe op = record { at = λ w h. cc }

  pub ruleset outside = (safe_rules, on_kv-IsSafe, on_db-IsSafe, on_os-IsSafe, on_host-IsSafe)

  pub cache_set-IsSafe : (key value : String) (ttl : ℕ) → IsSafe (Cache.set p key value ttl)
  unfolding Cache.set
  cache_set-IsSafe key value ttl = search outside

  pub cache_get-IsSafe : (key : String) → IsSafe (Cache.get p key)
  unfolding Cache.get
  cache_get-IsSafe key = search outside

  pub cache_get_del-IsSafe : (key : String) → IsSafe (Cache.get_del p key)
  unfolding Cache.get_del
  cache_get_del-IsSafe key = search outside

  pub user_create-IsSafe : (u : User) → IsSafe (UserRepository.create p u)
  unfolding UserRepository.create
  user_create-IsSafe u = search outside

  pub get_by_email-IsSafe : (email : String) → IsSafe (UserRepository.get_by_email p email)
  unfolding UserRepository.get_by_email
  get_by_email-IsSafe email = IsSafe-on_error _ _ (search outside) (λ e. search outside)

  pub user_get_by_id-IsPresent : (id : String) → IsPresent (UserRepository.get_by_id p id)
  unfolding UserRepository.get_by_id
  user_get_by_id-IsPresent id = search outside

  pub client_get_by_id-IsSafe : (id : String) → IsSafe (ClientRepository.get_by_id p id)
  unfolding ClientRepository.get_by_id
  client_get_by_id-IsSafe id = IsSafe-on_error _ _ (search outside) (λ e. search outside)

  pub client_create-IsSafe : (c : Client) → IsSafe (ClientRepository.create p c)
  unfolding ClientRepository.create
  client_create-IsSafe c = search outside

  pub token_create-IsSafe : (t : RefreshToken) → IsSafe (RefreshTokenRepository.create p t)
  unfolding RefreshTokenRepository.create
  token_create-IsSafe t = search outside

  pub get_token_by_hash-IsSafe :
      (hash : String) → IsSafe (RefreshTokenRepository.get_token_by_hash p hash)
  unfolding RefreshTokenRepository.get_token_by_hash
  get_token_by_hash-IsSafe hash = IsSafe-on_error _ _ (search outside) (λ e. search outside)

  pub session_create-IsSafe :
      (user_id email : String) → IsSafe (SessionRepository.create p user_id email)
  unfolding SessionRepository.create
  session_create-IsSafe user_id email = search (outside, cache_set-IsSafe) depth 15

  pub session_get-IsPresent : (id : String) → IsPresent (SessionRepository.get p id)
  unfolding SessionRepository.get
  session_get-IsPresent id = search (outside, cache_get-IsSafe) depth 15

  pub destroy-IsSafe : (id : String) → IsSafe (SessionRepository.destroy p id)
  unfolding SessionRepository.destroy Cache.delete
  destroy-IsSafe id = search outside

  pub auth_code_create-IsSafe : (given : AuthCode) → IsSafe (AuthCodeRepository.create p given)
  unfolding AuthCodeRepository.create
  auth_code_create-IsSafe given = search (outside, cache_set-IsSafe) depth 15

  pub consume-IsPresent : (code : String) → IsPresent (AuthCodeRepository.consume p code)
  unfolding AuthCodeRepository.consume
  consume-IsPresent code = search (outside, cache_get_del-IsSafe) depth 15
