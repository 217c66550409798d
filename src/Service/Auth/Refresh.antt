-- ===== src/Service/Auth/Refresh.antt =====
-- When the legacy refresh gives an access token, over any collaborators.
use iam_service.Prelude.{String, ◌≡◌, ◌≤◌, ◌↔◌, refl, not, ltb, arith, ltb-false_iff}
use iam_service.Errors.{new, at}
use iam_service.Effect.{
  ok, bind-inv, relabel-inv, require-inv, or_fail-inv, dereference-inv, on_error, ◌>>=◌,
}
use iam_service.Models.{Time, User, RefreshToken, AccessToken}
use iam_service.Dtos.{RefreshResponse}
use iam_service.Text.{join}
use iam_service.Ports.{UserRepo, RefreshTokenRepo, TokenIssuer, Runtime}
use iam_service.Prelude.{some}
use iam_service.Service.TokenGrant.{hash_token}
use iam_service.Service.Auth.{refresh_token}

module _ {W : Type 0} (run : Runtime W) (users : UserRepo W) (refresh_tokens : RefreshTokenRepo W)
    (tokens : TokenIssuer W) where
  -- The calls of a successful refresh. Of the stored row only the expiry is asked for.
  pub record IsRefreshed (raw : String) (resp : RefreshResponse) (w w' : W) : Type 0 where
    pub row : RefreshToken
    pub now : Time
    pub user : User
    pub access_token : AccessToken
    pub u0 : W
    pub u1 : W
    pub u2 : W
    pub found : refresh_tokens.get_token_by_hash (hash_token run raw) w ≡ (ok (some row), u0)
    pub clock : run.now u0 ≡ (ok now, u1)
    pub live : now ≤ row.expires_at
    pub owner : users.get_by_id row.user_id u1 ≡ (ok (some user), u2)
    pub issued :
        tokens.issue_access_token user.id user.email row.client_id (join row.scope " ") u2
        ≡ (ok access_token, w')
    pub response : resp ≡ record {
      access_token = access_token.access_token_string;
      access_token_expiry_in = access_token.access_token_expires_in;
    }

  refresh_token-IsRefreshed :
      (raw : String) (w : W) {resp : RefreshResponse} {w' : W}
      → refresh_token run users refresh_tokens tokens raw w ≡ (ok resp, w')
      → IsRefreshed raw resp w w'
  unfolding refresh_token
  refresh_token-IsRefreshed raw w {resp} {w'} h =
      relabel-inv (at "AuthService.RefreshToken") _ _ w h λ found u0 e0 k0.
        or_fail-inv (new "refresh token not found") found _ u0 k0 λ row present k1.
          bind-inv run.now _ u0 k1 λ now u1 e1 k2.
            require-inv (not (ltb row.expires_at now)) _ _ u1 k2 λ live k3.
              relabel-inv (at "AuthService.RefreshToken, user not found") _ _ u1 k3
                λ user_found u2 e2 k4. dereference-inv user_found _ u2 k4 λ user here k5.
                  relabel-inv (at "AuthService.Login issuing access token") _ _ u2 k5
                    λ access u3 e3 last.
                      let same_state : u3 ≡ w' = cc in
                      record {
                        row = row;
                        now = now;
                        user = user;
                        access_token = access;
                        u0 = u0;
                        u1 = u1;
                        u2 = u2;
                        found = rw (← present) e0;
                        clock = e1;
                        live = (ltb-false_iff row.expires_at now).0 (ground arith);
                        owner = rw (← here) e2;
                        issued = rw (← same_state) e3;
                        response = cc;
                      }

  IsRefreshed-refresh_token :
      (raw : String) (w : W) (resp : RefreshResponse) (w' : W)
      → IsRefreshed raw resp w w'
      → refresh_token run users refresh_tokens tokens raw w ≡ (ok resp, w')
  unfolding refresh_token ◌>>=◌ on_error
  IsRefreshed-refresh_token raw w resp w' made =
      let open_still = (ltb-false_iff made.row.expires_at made.now).1 made.live in
      rw (made.found, made.clock, open_still, made.owner, made.issued, made.response) refl

  -- The legacy refresh succeeds exactly where a row with the hash of the token is found that has
  -- not expired, its user is found and an access token for the user, client and scope of the row is
  -- issued. The row's `revoked_at` has no part in it.
  pub refresh_token_iff :
      (raw : String) (resp : RefreshResponse) (w w' : W)
      → (refresh_token run users refresh_tokens tokens raw w ≡ (ok resp, w'))
        ↔ IsRefreshed raw resp w w'
  refresh_token_iff raw resp w w' =
      (refresh_token-IsRefreshed raw w, IsRefreshed-refresh_token raw w resp w')
