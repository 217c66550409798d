-- ===== src/App/Verified.antt =====
-- The access tokens that the service issues, when they are validated.
use iam_service.Prelude.{◌+◌, ◌≤◌, String, true, some, ◌≡◌, ◌∙◌, refl, ap, arith}
use iam_service.Errors.{Error, Fault, foreign}
use iam_service.Effect.{
  Result, done, failed, ok, err, from_reply, ok_injective, from_reply-eq-ok, bind-inv, lift, ◌>>=◌,
}
use iam_service.Models.{IamClaims, AccessToken}
use iam_service.Platform.{Platform, World, on_host}
use iam_service.Platform.{Jwt, IsNumeric, IsJwt}
use iam_service.Service.Token as TokenService
use iam_service.Service.Token.{access_token_ttl, second}
use iam_service.Service.Token.Validate.{key_func, validate}
use iam_service.App

module _ (p : Platform) (j : Jwt p.host) (law : IsJwt p.host j) (key : p.host.PrivateKey) where
  -- What a token was signed over.
  pub record IsSigned (user_id email client_id scope : String) (token : AccessToken) (w : World p)
      : Type 0 where
    pub claims : IamClaims
    pub signed : p.host.signed_string key claims ≡ done token.access_token_string
    pub user_id_claim : claims.user_id ≡ user_id
    pub email_claim : claims.email ≡ email
    pub client_id_claim : claims.client_id ≡ client_id
    pub scope_claim : claims.scope ≡ scope
    pub numeric : IsNumeric p.host claims
    pub expires_at :
        claims.expires_at ≡ p.host.new_numeric_date ((p.host.now w.os).0 + access_token_ttl)

  issue_access_token-IsSigned :
      (user_id email client_id scope : String) (token : AccessToken) (w w' : World p)
      → (App.token_svc p key).issue_access_token user_id email client_id scope w ≡ (ok token, w')
      → IsSigned user_id email client_id scope token w
  unfolding TokenService.issue_access_token
  issue_access_token-IsSigned user_id email client_id scope token w w' h =
      bind-inv (on_host p p.host.now) _ w h λ start u0 e0 k0.
        bind-inv (on_host p p.host.new_string) _ u0 k0 λ jti u1 e1 k1.
          bind-inv (on_host p p.host.now) _ u1 k1 λ issued u2 e2 k2.
            bind-inv
              (lift (
                from_reply (
                  p.host.signed_string key (record {
                    user_id = user_id;
                    email = email;
                    client_id = client_id;
                    scope = scope;
                    jti = jti;
                    issued_at = p.host.new_numeric_date issued;
                    expires_at = p.host.new_numeric_date (start + access_token_ttl);
                  }))))
              _ u2 k2
              λ signed u3 e3 k3.
                let started : (p.host.now w.os).0 ≡ start = cc in
                let text : signed ≡ token.access_token_string =
                  ap (λ (x : AccessToken). x.access_token_string)
                    (ok_injective (ap (λ (x : Result AccessToken × World p). x.0) k3)) in
                record {
                  claims = _;
                  signed =
                      from_reply-eq-ok _ (ap (λ (x : Result String × World p). x.0) e3)
                      ∙ ap (λ x. done x) text;
                  user_id_claim = refl;
                  email_claim = refl;
                  client_id_claim = refl;
                  scope_claim = refl;
                  numeric = record {
                    issued_at = law.date_fixed issued;
                    expires_at = law.date_fixed _;
                  };
                  expires_at = rw started refl;
                }

  -- The claims of an issued token, as its holder is known by them.
  pub record IsVerified (user_id email client_id scope raw : String) (u : World p) : Type 0 where
    pub claims : IamClaims
    pub answers : (validate p j (j.public_key key) raw u).0 ≡ ok claims
    pub user_id_claim : claims.user_id ≡ user_id
    pub email_claim : claims.email ≡ email
    pub client_id_claim : claims.client_id ≡ client_id
    pub scope_claim : claims.scope ≡ scope

  validate-done :
      (public_key : j.PublicKey) (raw : String) (claims : IamClaims) (u : World p)
      → (j.parse_with_claims (key_func p j public_key) raw u.os).0
        ≡ done (record { claims = some claims; valid = true })
      → (validate p j public_key raw u).0 ≡ ok claims
  unfolding validate ◌>>=◌
  validate-done public_key raw claims u h = rw h refl

  validate-failed :
      (public_key : j.PublicKey) (raw : String) (f : Fault) (u : World p)
      → (j.parse_with_claims (key_func p j public_key) raw u.os).0 ≡ failed f
      → (validate p j public_key raw u).0 ≡ err (foreign f)
  unfolding validate ◌>>=◌
  validate-failed public_key raw f u h = rw h refl

  -- An access token that was issued validates to the claims that it was issued for, at every time
  -- that is more than a second before the end of its 15 minutes, if golang-jwt keeps its laws.
  pub issue_access_token-validate :
      (user_id email client_id scope : String) (token : AccessToken) (w w' u : World p)
      → (App.token_svc p key).issue_access_token user_id email client_id scope w ≡ (ok token, w')
      → (p.host.now u.os).0 + second ≤ (p.host.now w.os).0 + access_token_ttl
      → IsVerified user_id email client_id scope token.access_token_string u
  issue_access_token-validate user_id email client_id scope token w w' u run soon =
      let signed = issue_access_token-IsSigned user_id email client_id scope token w w' run in
      let above = law.date_above ((p.host.now w.os).0 + access_token_ttl) in
      record {
        claims = signed.claims;
        answers = validate-done (j.public_key key) _ signed.claims u (
            law.parse_valid key signed.claims _ _ u.os signed.signed signed.numeric refl
              (omega (arith, signed.expires_at, above, soon)));
        user_id_claim = signed.user_id_claim;
        email_claim = signed.email_claim;
        client_id_claim = signed.client_id_claim;
        scope_claim = signed.scope_claim;
      }

  -- From 15 minutes after it was issued on, an access token is refused, if golang-jwt keeps its
  -- laws.
  pub issue_access_token-expires :
      (user_id email client_id scope : String) (token : AccessToken) (w w' u : World p)
      → (App.token_svc p key).issue_access_token user_id email client_id scope w ≡ (ok token, w')
      → (p.host.now w.os).0 + access_token_ttl ≤ (p.host.now u.os).0
      → (e : Error) × ((validate p j (j.public_key key) token.access_token_string u).0 ≡ err e)
  issue_access_token-expires user_id email client_id scope token w w' u run late =
      let signed = issue_access_token-IsSigned user_id email client_id scope token w w' run in
      let below = law.date_below ((p.host.now w.os).0 + access_token_ttl) in
      let (f, refused) =
        law.parse_expired key signed.claims _ (key_func p j (j.public_key key)) u.os signed.signed
          signed.numeric (omega (arith, signed.expires_at, below, late)) in
      (foreign f, validate-failed (j.public_key key) _ f u refused)
