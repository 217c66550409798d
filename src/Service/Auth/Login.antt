-- ===== src/Service/Auth/Login.antt =====
-- What a successful login has established, over any collaborators.
use iam_service.Prelude.{true, some, ◌≡◌}
use iam_service.Errors.{sentinel, email_or_password_wrong, at}
use iam_service.Effect.{ok, relabel-inv, require-inv, or_fail-inv}
use iam_service.Models.{User}
use iam_service.Dtos.{LoginRequest}
use iam_service.Ports.{UserRepo, SessionRepo, Runtime}
use iam_service.Service.Auth.{LoginResult, login}

module _ {W : Type 0} (run : Runtime W) (users : UserRepo W) (sessions : SessionRepo W) where
  -- The user of the email, whose password it was, and the session that was made for this user.
  pub record IsLoggedIn (req : LoginRequest) (result : LoginResult) (w w' : W) : Type 0 where
    pub user : User
    pub u : W
    pub found : users.get_by_email req.email w ≡ (ok (some user), u)
    pub password : run.compare_hash_and_password user.password_hash req.password ≡ true
    pub opened :
        sessions.create user.id user.email u ≡ (ok (result.session_id, result.expires_at), w')

  pub login-IsLoggedIn :
      (req : LoginRequest) (w : W) {result : LoginResult} {w' : W}
      → login run users sessions req w ≡ (ok result, w')
      → IsLoggedIn req result w w'
  unfolding login
  login-IsLoggedIn req w {result} {w'} h =
      relabel-inv (at "AuthService.Login") (users.get_by_email req.email) _ w h λ found u e k.
        or_fail-inv (sentinel email_or_password_wrong) found _ u k λ user present k1.
          require-inv (run.compare_hash_and_password user.password_hash req.password) _ _ u k1
            λ valid k2.
              relabel-inv (at "AuthService.Login creating session") _ _ u k2 λ made v e' last.
                let id : made.0 ≡ result.session_id = cc in
                let expiry : made.1 ≡ result.expires_at = cc in
                let state : v ≡ w' = cc in
                record {
                  user = user;
                  u = u;
                  found = rw (← present) e;
                  password = valid;
                  opened = rw (← id, ← expiry, ← state) e';
                }
