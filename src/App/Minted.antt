-- ===== src/App/Minted.antt =====
-- Minting tokens succeeds where the systems answer and the user is stored.
use iam_service.Prelude.{Bool, String, some, true, ◌≡◌, refl, ap}
use iam_service.Errors.{Fault, redis_nil, no_rows, fault}
use iam_service.Effect.{
  with_state, Reply, ok, done, failed, from_reply, M, bind-value, relabel-ok, lift,
}
use iam_service.Effect.Total.{Succeeds, IsTotal, total_rules, Succeeds-IsTotal, Succeeds-relabel}
use iam_service.Models.{Time, User, Client, RefreshToken, AuthCode, IamClaims}
use iam_service.Dtos.{TokenResponse}
use iam_service.Platform.{Platform, World, Finds, IsSql, SqlIsUp, on_host}
use iam_service.Repository.User as UserRepository
use iam_service.Repository.RefreshToken as RefreshTokenRepository
use iam_service.Service.Token as TokenService
use iam_service.Service.TokenGrant as TokenGrantService
use iam_service.App
use iam_service.Text.{join}
use iam_service.Service.TokenGrant.Soundness.{mint-IsMinted}

module _ (p : Platform) where
  pub on_host-IsTotal : {A : Type 0} (op : p.host.State → A × p.host.State) → IsTotal (on_host p op)
  on_host-IsTotal op = record { at = λ w. ((op w.os).0, refl) }

  -- The key signs every claims set.
  abbrev pub Signs : p.host.PrivateKey → Type 0
  Signs key =
      (claims : IamClaims) → (token : String) × (p.host.signed_string key claims ≡ done token)

  module _ (key : p.host.PrivateKey) (signs : Signs key) where
    sign-IsTotal :
        (claims : IamClaims)
        → IsTotal (lift {W = World p} (from_reply (p.host.signed_string key claims)))
    sign-IsTotal claims = record {
      at = λ w. ((signs claims).0, ap (λ r. from_reply r) (signs claims).1);
    }

    issue_access_token-IsTotal :
        (user_id email client_id scope : String)
        → IsTotal ((App.token_svc p key).issue_access_token user_id email client_id scope)
    unfolding TokenService.issue_access_token
    issue_access_token-IsTotal user_id email client_id scope =
        search (total_rules, on_host-IsTotal, sign-IsTotal) depth 15

    issue_refresh_token-IsTotal : IsTotal ((App.token_svc p key).issue_refresh_token)
    unfolding TokenService.issue_refresh_token
    issue_refresh_token-IsTotal = search (total_rules, on_host-IsTotal) depth 15

  module _ (sql : IsSql p.sql) (up : SqlIsUp p.sql) where
    token_create-IsTotal : (t : RefreshToken) → IsTotal (RefreshTokenRepository.create p t)
    unfolding RefreshTokenRepository.create
    token_create-IsTotal t = record {
      at = λ w. Succeeds-relabel _ _ w (tt, ap (λ r. from_reply r) (up.token_insert_up _ w.db));
    }

    -- A query that a row of the table answers finds a row.
    found_lem :
        (test : User → Bool) (has : User → Type 0) (user : User) (r : Reply User)
        → Finds has test r
        → has user
        → test user ≡ true
        → ((f : Fault) → r ≡ failed f → f ≡ no_rows)
        → (u : User) × (r ≡ done u)
    found_lem test has user (done u) finds h t up = (u, refl)
    found_lem test has user (failed redis_nil) finds h t up = absurd (cc (up redis_nil refl))
    found_lem test has user (failed no_rows) finds h t up = absurd (cc (finds user h, t))
    found_lem test has user (failed (fault s)) finds h t up = absurd (cc (up (fault s) refl))

    pub user_get_by_id-found :
        (user : User) (w : World p)
        → sql.users.has w.db user
        → (u : User) × ((UserRepository.get_by_id p user.id w).0 ≡ ok (some u))
    unfolding UserRepository.get_by_id
    user_get_by_id-found user w h =
        let test = λ (now : Time) (row : User). p.sql.text_eq row.id user.id in
        let (u, e) =
          found_lem (test (sql.users.now w.db)) (sql.users.has w.db) user _
            (sql.users.find_answers test w.db) h (sql.text_eq_refl user.id)
            (up.user_up test w.db) in
        (u, bind-value _ _ w (relabel-ok _ _ w (ap (λ r. from_reply r) e)))

    module _ (key : p.host.PrivateKey) (signs : Signs key) (client : Client) (auth_code : AuthCode)
        (user : User) (w : World p) (h : sql.users.has w.db user)
        (same : auth_code.user_id ≡ user.id) where
      abbrev minting : M (World p) TokenResponse
      minting =
          TokenGrantService.mint (App.runtime p) (App.user_repo p) (App.refresh_token_repo p)
            (App.token_svc p key) client auth_code

      mint-Succeeds : Succeeds minting w
      unfolding TokenGrantService.mint
      mint-Succeeds =
          let (u, e) = user_get_by_id-found user w h in
          Succeeds-IsTotal _ _ w (some u) (relabel-ok _ _ w (rw same e)) (
            search
              (
                total_rules, on_host-IsTotal, issue_access_token-IsTotal,
                issue_refresh_token-IsTotal, token_create-IsTotal,
              )
              depth 20)

      pub mint-IsIssued :
          (resp : TokenResponse) × ((minting w).0 ≡ ok resp)
          × (resp.token_type ≡ "Bearer")
          × (resp.scope ≡ join auth_code.scope " ")
      mint-IsIssued =
          let (resp, runs) = mint-Succeeds in
          let minted =
            mint-IsMinted (App.runtime p) (App.user_repo p) (App.refresh_token_repo p)
              (App.token_svc p key) client auth_code w (with_state minting w runs) in
          (
            resp,
            runs,
            ap (λ (r : TokenResponse). r.token_type) minted.response,
            ap (λ (r : TokenResponse). r.scope) minted.response,
          )
