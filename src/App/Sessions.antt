-- ===== src/App/Sessions.antt =====
-- The life of a login session: from the login to the logout.
use iam_service.Prelude.{
  ℕ, ◌-◌, ◌<◌, String, some, none, true, ◌≡◌, ◌≢◌, refl, ap, ◌∙◌, ◌==◌, inl, inr, Bool-cases,
  eq-false_of_ne,
}
use iam_service.Effect.{ok, Result, on_error-ok, on_error-err, relabel-eq-ok}
use iam_service.Errors.{at}
use iam_service.Models.{User, Session}
use iam_service.Dtos.{LoginRequest}
use iam_service.Platform.{Platform, World, IsRedis, RedisIsUp, IsHost, aged}
use iam_service.Cache.Held.{delete-vacates, aged-lives}
use iam_service.Repository.Session as SessionRepository
use iam_service.Repository.Session.{session_ttl, session_key}
use iam_service.Repository.Session.Held.{create-IsOpened, get-session, get-missing}
use iam_service.Service.Auth as AuthService
use iam_service.Service.Auth.{LoginResult}
use iam_service.Service.Auth.Login.{login-IsLoggedIn}
use iam_service.App

module _ (p : Platform) where
  -- The service has been left alone for `n` nanoseconds.
  abbrev pub later : ℕ → World p → World p
  later n w = record w { kv = p.redis.wait n w.kv }

module _ (p : Platform) (law : IsRedis p.redis) (up : RedisIsUp p.redis) where
  session_by_id-some :
      (id : String) (w : World p) (session : Session)
      → id ≢ ""
      → (SessionRepository.get p id w).0 ≡ ok (some session)
      → (App.session_by_id p id w).0 ≡ ok (some session)
  unfolding AuthService.session_by_id
  session_by_id-some id w session ne h =
      rw (eq-false_of_ne id "" ne) (on_error-ok _ (SessionRepository.get p id) w h)

  pub session_by_id-none :
      (id : String) (w : World p)
      → law.view w.kv (session_key id) ≡ none
      → (App.session_by_id p id w).0 ≡ ok none
  unfolding AuthService.session_by_id
  session_by_id-none id w h = elim (Bool-cases (id == "")) [
    | inl e ↦ rw e refl
    | inr e ↦ rw e (
        ap (λ (x : Result _ × World p). x.0)
          (on_error-err (AuthService.not_found_is_nil (App.session_repo p))
            (SessionRepository.get p id) w (get-missing p law up id w h)))
  ]

  module _ (host : IsHost p.host) where
    -- The user of the email, whose password it was, and the session that the id names after `n`
    -- nanoseconds.
    pub record IsRemembered (req : LoginRequest) (result : LoginResult) (n : ℕ) (w w' : World p)
        : Type 0 where
      pub user : User
      pub session : Session
      pub u : World p
      pub found : (App.user_repo p).get_by_email req.email w ≡ (ok (some user), u)
      pub password : p.host.compare_hash_and_password user.password_hash req.password ≡ true
      pub user_id : session.user_id ≡ user.id
      pub email : session.email ≡ user.email
      pub answers : (App.session_by_id p result.session_id (later p n w')).0 ≡ ok (some session)

    -- After a login, and for less than the 30 days of a session, its id names a session of the
    -- user whose email and password were given. Redis must answer, and a drawn id is not empty.
    pub login-session_by_id :
        (req : LoginRequest) (result : LoginResult) (n : ℕ) (w w' : World p)
        → App.login p req w ≡ (ok result, w')
        → result.session_id ≢ ""
        → n < session_ttl
        → IsRemembered req result n w w'
    login-session_by_id req result n w w' h ne soon =
        let login =
          login-IsLoggedIn (App.runtime p) (App.user_repo p) (App.session_repo p) req w h in
        let (now, opened) =
          create-IsOpened p law host login.user.id login.user.email login.u login.opened in
        record {
          user = login.user;
          session = record { user_id = login.user.id; email = login.user.email; created_at = now };
          u = login.u;
          found = login.found;
          password = login.password;
          user_id = refl;
          email = refl;
          answers = session_by_id-some result.session_id (later p n w') _ ne (
              get-session p law up result.session_id (later p n w')
                (record { value = opened.payload; ttl = some (session_ttl - n) }) _
                (law.wait_ages n (session_key result.session_id) w'.kv
                  ∙ (ap (aged n) opened.held ∙ aged-lives n session_ttl opened.payload soon))
                opened.decodes);
        }

  -- After a logout the session id names no session, however long it is afterwards.
  pub logout-session_by_id :
      (id : String) (n : ℕ) (w w' : World p)
      → App.logout p id w ≡ (ok tt, w')
      → (App.session_by_id p id (later p n w')).0 ≡ ok none
  unfolding AuthService.logout AuthService.session_by_id SessionRepository.destroy
  logout-session_by_id id n w w' h = elim (Bool-cases (id == "")) [
    | inl e ↦ rw e refl
    | inr e ↦
        let vacant =
          delete-vacates p law (session_key id) w
            (relabel-eq-ok (at "SessionRepository.Destroy") _ w (rw e at h)) in
        session_by_id-none id (later p n w')
          (law.wait_ages n (session_key id) w'.kv ∙ ap (aged n) vacant)
  ]
