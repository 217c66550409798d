-- ===== src/Spent/SingleUse.antt =====
-- An authorization code is good for one exchange.
use iam_service.Prelude.{
  String, ◌≡◌, ◌≢◌, ap, sym, ◌∙◌, subst, Option, none, some, inl, inr, ◌==◌, Bool-cases,
}
use iam_service.Errors.{at}
use iam_service.Effect.{
  M, Result, ok, done, from_reply, bind-inv, relabel-inv, relabel-eq-ok, lift, from_reply-eq-ok,
}
use iam_service.Effect.Preserves.{Preserves-run}
use iam_service.Models.{AuthCode}
use iam_service.Dtos.{TokenRequest, TokenResponse}
use iam_service.Platform.{Platform, World, Entry, IsRedis, on_kv, Answers}
use iam_service.Repository.AuthCode as AuthCodeRepository
use iam_service.Repository.AuthCode.{auth_code_key, auth_code_ttl}
use iam_service.Cache
use iam_service.App
use iam_service.Oauth.{grant_authorization_code, grant_refresh_token}
use iam_service.Service.TokenGrant as TokenGrantService
use iam_service.Service.TokenGrant.Soundness.{redeem-IsRedeemed}
use iam_service.System.{Reach}
use iam_service.Spent.Repositories.{IsSpent, CodeBears-IsSteady}
use iam_service.Stable.Services.{authenticate-Preserves, mint-Preserves}
use iam_service.Spent.Steps.{vacant-IsFading, Reach-IsSpent}

absent : {held : Option Entry} {v : String} → Answers held (done v) → held ≢ none
absent (e, present, same) h = cc (present, h)

module _ (p : Platform) (law : IsRedis p.redis) where
  get_del-inv :
      (key v : String) (w w' : World p)
      → Cache.get_del p key w ≡ (ok v, w')
      → ((p.redis.get_del key w.kv).0 ≡ done v) × (w'.kv ≡ (p.redis.get_del key w.kv).1)
  unfolding Cache.get_del
  get_del-inv key v w w' h =
      let e =
        relabel-eq-ok (Cache.missing_or p "cache.GetDel" key) (on_kv p (p.redis.get_del key)) w h in
      (
        from_reply-eq-ok _ (ap (λ (r : Result String × World p). r.0) e),
        sym (ap (λ (r : Result String × World p). r.1.kv) e),
      )

  -- A consumed code is gone.
  consume-empties :
      (code : String) (found : Option AuthCode) (w w' : World p)
      → AuthCodeRepository.consume p code w ≡ (ok found, w')
      → IsSpent p law code w'
  unfolding AuthCodeRepository.consume
  consume-empties code found w w' h =
      relabel-inv (AuthCodeRepository.lookup_error p) (Cache.get_del p (auth_code_key code)) _ w h
        λ raw u e k.
          let (reply, same) = get_del-inv (auth_code_key code) raw w u e in
          let gone : IsSpent p law code u =
            ap (λ s. law.view s (auth_code_key code)) same
            ∙ law.get_del_done (auth_code_key code) raw w.kv reply in
          relabel-inv (at "AuthCodeRepository.Consume unmarshal")
            (lift (from_reply (p.host.unmarshal_auth_code raw))) _ u k
            λ a u2 e2 k2.
              subst (IsSpent p law code)
                (ap (λ (r : Result AuthCode × World p). r.1) e2
                  ∙ ap (λ (r : Result (Option AuthCode) × World p). r.1) k2)
                gone

  -- A spent code is not consumed.
  consume-spent :
      (code : String) (found : Option AuthCode) (w w' : World p)
      → IsSpent p law code w
      → AuthCodeRepository.consume p code w ≢ (ok found, w')
  unfolding AuthCodeRepository.consume
  consume-spent code found w w' spent h =
      relabel-inv (AuthCodeRepository.lookup_error p) (Cache.get_del p (auth_code_key code)) _ w h
        λ raw u e k.
          let (reply, same) = get_del-inv (auth_code_key code) raw w u e in
          absent
            (subst (Answers (law.view w.kv (auth_code_key code))) reply
              (law.get_del_answers (auth_code_key code) w.kv))
            spent

  module _ (key : p.host.PrivateKey) where
    abbrev grant : TokenRequest → M (World p) TokenResponse
    grant =
        TokenGrantService.authorization_code_grant (App.runtime p) (App.client_repo p)
          (App.user_repo p) (App.auth_code_repo p) (App.refresh_token_repo p) (App.token_svc p key)

    -- Only the authorization_code grant succeeds.
    exchange-eq-ok :
        (req : TokenRequest) (w : World p) {resp : TokenResponse} {w' : World p}
        → App.exchange p key req w ≡ (ok resp, w')
        → grant req w ≡ (ok resp, w')
    unfolding TokenGrantService.exchange TokenGrantService.refresh_token_grant
    exchange-eq-ok req w h = elim (Bool-cases (req.grant_type == grant_authorization_code)) [
      | inl code ↦ rw code at h
      | inr other ↦ elim (Bool-cases (req.grant_type == grant_refresh_token)) [
        | inl refresh ↦
            absurd
              (cc (ap (λ (r : Result TokenResponse × World p). r.0) (rw (other, refresh) at h)))
        | inr neither ↦
            absurd
              (cc (ap (λ (r : Result TokenResponse × World p). r.0) (rw (other, neither) at h)))
      ]
    ]

    grant-empties :
        (req : TokenRequest) (resp : TokenResponse) (w w' : World p)
        → grant req w ≡ (ok resp, w')
        → IsSpent p law req.code w'
    unfolding TokenGrantService.authorization_code_grant
    grant-empties req resp w w' h =
        bind-inv (TokenGrantService.authenticate (App.runtime p) (App.client_repo p) req) _ w h
          λ client v0 e0 k0.
            bind-inv (TokenGrantService.redeem (App.runtime p) (App.auth_code_repo p) req) _ v0 k0
              λ auth_code v1 e1 k1.
                let redeemed = redeem-IsRedeemed (App.runtime p) (App.auth_code_repo p) req v0 e1 in
                Preserves-run _ v1
                  (mint-Preserves p _ (CodeBears-IsSteady p law req.code vacant-IsFading) key client
                    auth_code)
                  k1 (consume-empties req.code (some auth_code) v0 v1 redeemed.consumed)

    grant-spent :
        (req : TokenRequest) (resp : TokenResponse) (w w' : World p)
        → IsSpent p law req.code w
        → grant req w ≢ (ok resp, w')
    unfolding TokenGrantService.authorization_code_grant
    grant-spent req resp w w' spent h =
        bind-inv (TokenGrantService.authenticate (App.runtime p) (App.client_repo p) req) _ w h
          λ client v0 e0 k0.
            bind-inv (TokenGrantService.redeem (App.runtime p) (App.auth_code_repo p) req) _ v0 k0
              λ auth_code v1 e1 k1.
                let redeemed = redeem-IsRedeemed (App.runtime p) (App.auth_code_repo p) req v0 e1 in
                consume-spent req.code (some auth_code) v0 v1
                  (Preserves-run _ w
                    (authenticate-Preserves p _ (CodeBears-IsSteady p law req.code vacant-IsFading)
                      key req)
                    e0 spent)
                  redeemed.consumed

    pub exchange-spent :
        (req : TokenRequest) (resp : TokenResponse) (w w' : World p)
        → IsSpent p law req.code w
        → App.exchange p key req w ≢ (ok resp, w')
    exchange-spent req resp w w' spent h = grant-spent req resp w w' spent (exchange-eq-ok req w h)

-- Once a code was exchanged for tokens, no request that presents it gets tokens again, whatever
-- requests and pauses come between, if Redis keeps its laws and the random source does not draw
-- the same code again meanwhile.
pub single_use :
    (p : Platform) (law : IsRedis p.redis) (key : p.host.PrivateKey) (req again : TokenRequest)
    (resp resp' : TokenResponse) (w w' v v' : World p)
    → App.exchange p key req w ≡ (ok resp, w')
    → Reach p key req.code w' v
    → again.code ≡ req.code
    → App.exchange p key again v ≢ (ok resp', v')
single_use p law key req again resp resp' w w' v v' first between same second =
    let spent = grant-empties p law key req resp w w' (exchange-eq-ok p law key req w first) in
    let still = Reach-IsSpent p law req.code key between spent in
    exchange-spent p law key again resp' v v' (subst (λ c. IsSpent p law c v) (sym same) still)
      second
