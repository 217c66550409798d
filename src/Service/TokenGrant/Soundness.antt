-- ===== src/Service/TokenGrant/Soundness.antt =====
-- What a successful authorization_code grant has established, over any collaborators.
use iam_service.Prelude.{
  String, true, ◌&&◌, ◌≡◌, subst, ◌⊎◌, inl, inr, none, some, arith, ◌==◌, eq_iff, Bool-cases,
}
use iam_service.Errors.{sentinel, invalid_grant, invalid_client, at}
use iam_service.Effect.{ok, bind-inv, relabel-inv, require-inv, or_fail-inv, dereference-inv}
use iam_service.Models.{Time, User, Client, AuthCode, AccessToken}
use iam_service.Dtos.{TokenRequest, TokenResponse}
use iam_service.Text.{join}
use iam_service.Ports.{UserRepo, ClientRepo, RefreshTokenRepo, AuthCodeRepo, TokenIssuer, Runtime}
use iam_service.Service.TokenGrant.{
  secret_is_valid, challenge_of, hash_token, place, consume_error, authenticate, redeem, mint,
  authorization_code_grant,
}

module _ {W : Type 0} (run : Runtime W) (clients : ClientRepo W) where
  -- The client of the request is registered, and a confidential one presented its secret.
  pub record IsAuthenticated (req : TokenRequest) (client : Client) (w w' : W) : Type 0 where
    pub found : clients.get_by_id req.client_id w ≡ (ok (some client), w')
    pub secret :
        (client.client_secret_hash ≡ "")
        ⊎ (run.compare_hash_and_password client.client_secret_hash req.client_secret ≡ true)

  secret_lem :
      (client : Client) (secret : String)
      → secret_is_valid run client secret ≡ true
      → (client.client_secret_hash ≡ "")
        ⊎ (run.compare_hash_and_password client.client_secret_hash secret ≡ true)
  secret_lem client secret h = elim (Bool-cases (client.client_secret_hash == "")) [
    | inl e ↦ inl ((eq_iff client.client_secret_hash "").0 e)
    | inr e ↦ inr (rw e at h)
  ]

  pub authenticate-IsAuthenticated :
      (req : TokenRequest) (w : W) {client : Client} {w' : W}
      → authenticate run clients req w ≡ (ok client, w')
      → IsAuthenticated req client w w'
  unfolding authenticate
  authenticate-IsAuthenticated req w {client} {w'} h =
      relabel-inv (at place) (clients.get_by_id req.client_id) _ w h λ found u e k.
        or_fail-inv (sentinel invalid_client) found _ u k λ c present k'.
          require-inv (secret_is_valid run c req.client_secret) _ _ u k' λ valid last.
            let same : c ≡ client = cc in
            let same_state : u ≡ w' = cc in
            record {
              found = rw (← same, ← same_state, ← present) e;
              secret = rw (← same) (secret_lem c req.client_secret valid);
            }

module _ {W : Type 0} (run : Runtime W) (auth_codes : AuthCodeRepo W) where
  -- The code was held, and it was issued to this client and this redirect_uri for a challenge that
  -- the verifier of the request answers.
  pub record IsRedeemed (req : TokenRequest) (auth_code : AuthCode) (w w' : W) : Type 0 where
    pub consumed : auth_codes.consume req.code w ≡ (ok (some auth_code), w')
    pub client : auth_code.client_id ≡ req.client_id
    pub redirect : auth_code.redirect_uri ≡ req.redirect_uri
    pub method : auth_code.code_challenge_method ≡ "S256"
    pub proof_key : challenge_of run req.code_verifier ≡ auth_code.code_challenge

  pub redeem-IsRedeemed :
      (req : TokenRequest) (w : W) {auth_code : AuthCode} {w' : W}
      → redeem run auth_codes req w ≡ (ok auth_code, w')
      → IsRedeemed req auth_code w w'
  unfolding redeem
  redeem-IsRedeemed req w {auth_code} {w'} h =
      relabel-inv consume_error (auth_codes.consume req.code) _ w h λ found u e k.
        dereference-inv found _ u k λ a present k1.
          require-inv (a.client_id == req.client_id && a.redirect_uri == req.redirect_uri) _ _ u k1
            λ both k2. require-inv (a.code_challenge_method == "S256") _ _ u k2 λ method k3.
              require-inv (challenge_of run req.code_verifier == a.code_challenge) _ _ u k3
                λ key last.
                  let same : a ≡ auth_code = cc in
                  let same_state : u ≡ w' = cc in
                  subst (λ b. IsRedeemed req b w w') same
                    (record {
                      consumed = rw (← same_state, ← present) e;
                      client = ground (arith, eq_iff a.client_id req.client_id);
                      redirect = ground (arith, eq_iff a.redirect_uri req.redirect_uri);
                      method = (eq_iff a.code_challenge_method "S256").0 method;
                      proof_key = (eq_iff _ _).0 key;
                    })

module _ {W : Type 0} (run : Runtime W) (users : UserRepo W) (refresh_tokens : RefreshTokenRepo W)
    (tokens : TokenIssuer W) where
  -- The calls of a successful `mint`, each from the state that the one before it left.
  pub record IsMinted (client : Client) (auth_code : AuthCode) (resp : TokenResponse) (w w' : W)
      : Type 0 where
    pub user : User
    pub access_token : AccessToken
    pub raw : String
    pub id : String
    pub expires_at : Time
    pub u0 : W
    pub u1 : W
    pub u2 : W
    pub u3 : W
    pub found : users.get_by_id auth_code.user_id w ≡ (ok (some user), u0)
    pub issued :
        tokens.issue_access_token user.id user.email client.id (join auth_code.scope " ") u0
        ≡ (ok access_token, u1)
    pub refreshed : tokens.issue_refresh_token u1 ≡ (ok (raw, expires_at), u2)
    pub named : run.new_string u2 ≡ (ok id, u3)
    -- the refresh token is stored under its hash, for this user, client and scope
    pub stored :
        refresh_tokens.create
          (record {
            id = id;
            user_id = user.id;
            client_id = client.id;
            scope = auth_code.scope;
            token_hash = hash_token run raw;
            expires_at = expires_at;
            revoked_at = none;
            created_at = 0;
          })
          u3
        ≡ (ok tt, w')
    pub response : resp ≡ record {
      access_token = access_token.access_token_string;
      token_type = "Bearer";
      expires_in = access_token.access_token_expires_in;
      scope = join auth_code.scope " ";
      refresh_token = raw;
    }

  pub mint-IsMinted :
      (client : Client) (auth_code : AuthCode) (w : W) {resp : TokenResponse} {w' : W}
      → mint run users refresh_tokens tokens client auth_code w ≡ (ok resp, w')
      → IsMinted client auth_code resp w w'
  unfolding mint
  mint-IsMinted client auth_code w {resp} {w'} h =
      relabel-inv (at place) (users.get_by_id auth_code.user_id) _ w h λ found u0 e0 k0.
        or_fail-inv (sentinel invalid_grant) found _ u0 k0 λ user present k1.
          relabel-inv (at place) _ _ u0 k1 λ access u1 e1 k2.
            bind-inv tokens.issue_refresh_token _ u1 k2 λ refresh u2 e2 k3.
              bind-inv run.new_string _ u2 k3 λ id u3 e3 k4.
                relabel-inv (at place) _ _ u3 k4 λ _ u4 e4 last.
                  let same_state : u4 ≡ w' = cc in
                  record {
                    user = user;
                    access_token = access;
                    raw = refresh.0;
                    id = id;
                    expires_at = refresh.1;
                    u0 = u0;
                    u1 = u1;
                    u2 = u2;
                    u3 = u3;
                    found = rw (← present) e0;
                    issued = e1;
                    refreshed = e2;
                    named = e3;
                    stored = rw (← same_state) e4;
                    response = cc;
                  }

module _ {W : Type 0} (run : Runtime W) (clients : ClientRepo W) (users : UserRepo W)
    (auth_codes : AuthCodeRepo W) (refresh_tokens : RefreshTokenRepo W)
    (tokens : TokenIssuer W) where
  -- The three stages of a grant.
  pub record IsGranted (req : TokenRequest) (resp : TokenResponse) (w w' : W) : Type 0 where
    pub client : Client
    pub auth_code : AuthCode
    pub v0 : W
    pub v1 : W
    pub authenticated : IsAuthenticated run clients req client w v0
    pub redeemed : IsRedeemed run auth_codes req auth_code v0 v1
    pub minted : IsMinted run users refresh_tokens tokens client auth_code resp v1 w'

  -- A successful authorization_code grant authenticated the client, consumed a code that was issued
  -- to this client and redirect_uri and whose S256 challenge the verifier answers, and minted
  -- tokens for the code's user and scope.
  pub authorization_code_grant-IsGranted :
      (req : TokenRequest) (resp : TokenResponse) (w w' : W)
      → authorization_code_grant run clients users auth_codes refresh_tokens tokens req w
        ≡ (ok resp, w')
      → IsGranted req resp w w'
  unfolding authorization_code_grant
  authorization_code_grant-IsGranted req resp w w' h =
      bind-inv (authenticate run clients req) _ w h λ client v0 e0 k0.
        bind-inv (redeem run auth_codes req) _ v0 k0 λ auth_code v1 e1 k1. record {
          client = client;
          auth_code = auth_code;
          v0 = v0;
          v1 = v1;
          authenticated = authenticate-IsAuthenticated run clients req w e0;
          redeemed = redeem-IsRedeemed run auth_codes req v0 e1;
          minted = mint-IsMinted run users refresh_tokens tokens client auth_code v1 k1;
        }
