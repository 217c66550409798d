-- ===== src/Service/TokenGrant/Redeemed.antt =====
-- A code that is held and that the request matches is redeemed.
use iam_service.Prelude.{true, some, ◌≡◌, refl, eq_iff}
use iam_service.Effect.{ok, relabel-ok, ◌>>=◌, on_error}
use iam_service.Models.{Client, AuthCode}
use iam_service.Dtos.{TokenRequest, TokenResponse}
use iam_service.Oauth.{grant_authorization_code}
use iam_service.Ports.{UserRepo, ClientRepo, RefreshTokenRepo, AuthCodeRepo, TokenIssuer, Runtime}
use iam_service.Service.TokenGrant.{
  challenge_of, secret_is_valid, consume_error, authenticate, redeem, mint,
  authorization_code_grant, exchange,
}

module _ {W : Type 0} (run : Runtime W) (auth_codes : AuthCodeRepo W) where
  -- The request answers to the code.
  pub record Matches (req : TokenRequest) (auth_code : AuthCode) : Type 0 where
    pub client : auth_code.client_id ≡ req.client_id
    pub redirect : auth_code.redirect_uri ≡ req.redirect_uri
    pub method : auth_code.code_challenge_method ≡ "S256"
    pub proof_key : challenge_of run req.code_verifier ≡ auth_code.code_challenge

  pub redeem-held :
      (req : TokenRequest) (auth_code : AuthCode) (w : W)
      → (auth_codes.consume req.code w).0 ≡ ok (some auth_code)
      → Matches req auth_code
      → (redeem run auth_codes req w).0 ≡ ok auth_code
  unfolding redeem ◌>>=◌
  redeem-held req auth_code w h m =
      rw
        (
          relabel-ok consume_error (auth_codes.consume req.code) w h,
          (eq_iff auth_code.client_id req.client_id).1 m.client,
          (eq_iff auth_code.redirect_uri req.redirect_uri).1 m.redirect,
          (eq_iff auth_code.code_challenge_method "S256").1 m.method,
          (eq_iff (challenge_of run req.code_verifier) auth_code.code_challenge).1 m.proof_key,
        )
        refl

module _ {W : Type 0} (run : Runtime W) (clients : ClientRepo W) where
  pub authenticate-found :
      (req : TokenRequest) (client : Client) (w u : W)
      → clients.get_by_id req.client_id w ≡ (ok (some client), u)
      → secret_is_valid run client req.client_secret ≡ true
      → authenticate run clients req w ≡ (ok client, u)
  unfolding authenticate ◌>>=◌ on_error
  authenticate-found req client w u h valid = rw (h, valid) refl

module _ {W : Type 0} (run : Runtime W) (clients : ClientRepo W) (users : UserRepo W)
    (auth_codes : AuthCodeRepo W) (refresh_tokens : RefreshTokenRepo W)
    (tokens : TokenIssuer W) where
  -- The stages of the grant succeed, and so does the exchange.
  pub exchange-stages :
      (req : TokenRequest) (client : Client) (auth_code : AuthCode) (resp : TokenResponse) (w u : W)
      → req.grant_type ≡ grant_authorization_code
      → authenticate run clients req w ≡ (ok client, u)
      → (redeem run auth_codes req u).0 ≡ ok auth_code
      → (mint run users refresh_tokens tokens client auth_code (redeem run auth_codes req u).1).0
        ≡ ok resp
      → (exchange run clients users auth_codes refresh_tokens tokens req w).0 ≡ ok resp
  unfolding exchange authorization_code_grant ◌>>=◌
  exchange-stages req client auth_code resp w u grant h h' h'' =
      rw ((eq_iff req.grant_type grant_authorization_code).1 grant, h, h', h'') refl
