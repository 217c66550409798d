-- ===== src/App/Exchange.antt =====
-- A browser that was sent through /oauth/authorize ends up with tokens.
use iam_service.Prelude.{ℕ, Bool, ◌<◌, String, some, true, ◌≡◌, ap, ◌∙◌, subst}
use iam_service.Effect.{Reply, ok}
use iam_service.Effect.Preserves.{Preserves, preserves_rules, Preserves-run, Preserves-on_error}
use iam_service.Models.{Time, User, Client, Session}
use iam_service.Dtos.{TokenRequest, TokenResponse}
use iam_service.Platform.{Platform, World, IsRedis, RedisIsUp, IsHost, IsSql, SqlIsUp, on_db, on_kv}
use iam_service.Text.{fields, join}
use iam_service.Text.Fields.{fields-join-fields}
use iam_service.Cache
use iam_service.Repository.Client as ClientRepository
use iam_service.Repository.AuthCode as AuthCodeRepository
use iam_service.Repository.AuthCode.{auth_code_ttl}
use iam_service.Service.TokenGrant as TokenGrantService
use iam_service.Service.TokenGrant.{challenge_of, secret_is_valid}
use iam_service.Service.TokenGrant.Redeemed.{authenticate-found, exchange-stages}
use iam_service.Service.Auth.{AuthorizeInput, issue_code}
use iam_service.Oauth.{grant_authorization_code}
use iam_service.App
use iam_service.App.Codes.{answered, answered_state, authorize-redeem}
use iam_service.App.Minted.{Signs, mint-IsIssued}

module _ (p : Platform) where
  -- What Redis holds is not changed by looking a client up.
  client_get_by_id-keeps_kv :
      (kv : p.redis.State) (id : String)
      → Preserves (λ w. w.kv ≡ kv) (ClientRepository.get_by_id p id)
  unfolding ClientRepository.get_by_id
  client_get_by_id-keeps_kv kv id =
      Preserves-on_error _ _ (search (preserves_rules, keeps)) (λ e. search preserves_rules)
    where
      keeps :
          {A : Type 0} (op : p.sql.State → Reply A × p.sql.State)
          → Preserves (λ w. w.kv ≡ kv) (on_db p op)
      keeps op = record { at = λ w h. h }

  module _ (sql : IsSql p.sql) (user : User) where
    abbrev HasUser : World p → Type 0
    HasUser w = sql.users.has w.db user

    client_get_by_id-HasUser : (id : String) → Preserves HasUser (ClientRepository.get_by_id p id)
    unfolding ClientRepository.get_by_id
    client_get_by_id-HasUser id =
        Preserves-on_error _ _ (search (preserves_rules, keeps)) (λ e. search preserves_rules)
      where
        keeps :
            (test : Time → Client → Bool) → Preserves HasUser (on_db p (p.sql.clients.find test))
        keeps test = record { at = λ w h. sql.client_find_keeps_users test w.db user h }

    redeem-HasUser :
        (req : TokenRequest)
        → Preserves HasUser (TokenGrantService.redeem (App.runtime p) (App.auth_code_repo p) req)
    unfolding TokenGrantService.redeem AuthCodeRepository.consume Cache.get_del
    redeem-HasUser req = search (preserves_rules, keeps) depth 20
      where
        keeps :
            {A : Type 0} (op : p.redis.State → Reply A × p.redis.State)
            → Preserves HasUser (on_kv p op)
        keeps op = record { at = λ w h. h }

module _ (p : Platform) (law : IsRedis p.redis) (up : RedisIsUp p.redis) (host : IsHost p.host)
    (sql : IsSql p.sql) (sql_up : SqlIsUp p.sql) (key : p.host.PrivateKey)
    (signs : Signs p key) where
  -- What the browser was sent away with, and the token request that is made of it: by the client
  -- of the code, for its redirect_uri, with a verifier that answers its challenge.
  pub record IsAnswer (input : AuthorizeInput) (drawn : String) (known : Client)
      (req : TokenRequest) : Type 0 where
    pub grant : req.grant_type ≡ grant_authorization_code
    pub code : req.code ≡ drawn
    pub client : known.id ≡ req.client_id
    pub redirect : input.request.redirect_uri ≡ req.redirect_uri
    pub method : input.request.code_challenge_method ≡ "S256"
    pub proof_key : challenge_of (App.runtime p) req.code_verifier ≡ input.request.code_challenge
    pub secret : secret_is_valid (App.runtime p) known req.client_secret ≡ true

  pub record IsServed (input : AuthorizeInput) (req : TokenRequest) (v : World p) : Type 0 where
    pub resp : TokenResponse
    pub succeeds : (App.exchange p key req v).0 ≡ ok resp
    pub token_type : resp.token_type ≡ "Bearer"
    pub scope : fields resp.scope ≡ fields input.request.scope

  -- The code flow reaches its end. Where Authorize issued a code to the client and the session that
  -- it found, and less than 60 seconds later the client presents it with a matching request, the
  -- exchange answers a bearer token for exactly the requested scopes. Redis, MySQL and the signing
  -- of tokens must work, the client must still be found and the user still be stored.
  pub authorize-exchange :
      (input : AuthorizeInput) (uri state code : String) (req : TokenRequest) (client : Client)
      (session : Session) (user : User) (n : ℕ) (w u u' w' v v' : World p)
      → App.authorize p input w ≡ (ok (issue_code uri state code), w')
      → (App.client_repo p).get_by_id input.request.client_id w ≡ (ok (some client), u)
      → App.session_by_id p input.session_id u ≡ (ok (some session), u')
      → n < auth_code_ttl
      → v.kv ≡ p.redis.wait n w'.kv
      → (App.client_repo p).get_by_id req.client_id v ≡ (ok (some client), v')
      → IsAnswer input code client req
      → sql.users.has v.db user
      → session.user_id ≡ user.id
      → IsServed input req v
  authorize-exchange input uri state code req client session user n w u u' w' v v' h found opened
        soon same_kv again answer stored owner =
      let kv : v'.kv ≡ p.redis.wait n w'.kv =
        Preserves-run _ v (client_get_by_id-keeps_kv p _ req.client_id) again same_kv in
      let returned =
        authorize-redeem p law host up input uri state code req client n w u w' v' h found soon kv
          answer.code answer.client answer.redirect answer.method answer.proof_key in
      let issued = returned.kept.issued in
      let same_state = answered_state found issued.trusted.found in
      let same_session : issued.session ≡ session = answered opened (
        subst (λ x. App.session_by_id p input.session_id x ≡ (ok (some issued.session), issued.u1))
          same_state issued.logged_in) in
      let owned : returned.auth_code.user_id ≡ user.id =
        returned.user_id ∙ (ap (λ (s : Session). s.user_id) same_session ∙ owner) in
      let at_redeem =
        Preserves-run _ v (client_get_by_id-HasUser p sql user req.client_id) again stored in
      let v2 = (TokenGrantService.redeem (App.runtime p) (App.auth_code_repo p) req v').1 in
      let (resp, runs, token_type, scope) =
        mint-IsIssued p sql sql_up key signs client returned.auth_code user v2
          ((redeem-HasUser p sql user req).at v' at_redeem) owned in
      record {
        resp = resp;
        succeeds =
            exchange-stages (App.runtime p) (App.client_repo p) (App.user_repo p)
              (App.auth_code_repo p) (App.refresh_token_repo p) (App.token_svc p key) req client
              returned.auth_code resp v v' answer.grant
              (authenticate-found (App.runtime p) (App.client_repo p) req client v v' again
                answer.secret)
              returned.redeemed runs;
        token_type = token_type;
        scope =
            ap fields scope
            ∙ (ap (λ s. fields (join s " ")) returned.scope
                ∙ fields-join-fields input.request.scope);
      }
