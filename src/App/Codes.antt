-- ===== src/App/Codes.antt =====
-- The life of an authorization code: from /oauth/authorize to /oauth/token or the end of its time.
use iam_service.Prelude.{ℕ, ◌-◌, Option, ◌<◌, String, some, ◌≡◌, refl, ap, ◌∙◌}
use iam_service.Effect.{ok, Result}
use iam_service.Models.{Time, Client, AuthCode}
use iam_service.Dtos.{TokenRequest}
use iam_service.Platform.{Platform, World, IsRedis, RedisIsUp, IsHost, aged}
use iam_service.Text.{fields}
use iam_service.Cache.Held.{aged-lives}
use iam_service.Repository.AuthCode.{auth_code_ttl, auth_code_key}
use iam_service.Repository.AuthCode.Held.{IsHeld, create-IsHeld, consume-held}
use iam_service.Service.TokenGrant.{challenge_of, redeem}
use iam_service.Service.TokenGrant.Redeemed.{redeem-held}
use iam_service.Service.Auth.{AuthorizeInput, issue_code}
use iam_service.Service.Auth.Authorize.{IsIssued, authorize-IsJustified}
use iam_service.Service.Auth.Asked.{code_for}
use iam_service.App

-- A call has one outcome.
pub answered :
    {W A : Type 0} {r : Result (Option A) × W} {a b : A} {u v : W}
    → r ≡ (ok (some a), u)
    → r ≡ (ok (some b), v)
    → b ≡ a
answered h h' = cc

pub answered_state :
    {W A : Type 0} {r : Result (Option A) × W} {a b : A} {u v : W}
    → r ≡ (ok (some a), u)
    → r ≡ (ok (some b), v)
    → v ≡ u
answered_state h h' = cc

module _ (p : Platform) (law : IsRedis p.redis) (host : IsHost p.host) where
  -- What Authorize did for a code, and what Redis then holds.
  pub record IsKept (input : AuthorizeInput) (code : String) (w w' : World p) : Type 0 where
    pub issued :
        IsIssued (App.client_repo p) (App.session_repo p) (App.auth_code_repo p) input code w w'
    pub now : Time
    pub held :
        IsHeld p law
          (record (code_for input.request issued.client issued.session) { created_at = now })
          code
          w'

  pub authorize-IsKept :
      (input : AuthorizeInput) (uri state code : String) (w w' : World p)
      → App.authorize p input w ≡ (ok (issue_code uri state code), w')
      → IsKept input code w w'
  authorize-IsKept input uri state code w w' h =
      let (_, _, issued) =
        authorize-IsJustified (App.client_repo p) (App.session_repo p) (App.auth_code_repo p) input
          (issue_code uri state code) w w' h in
      let (now, held) = create-IsHeld p law host _ issued.u1 issued.stored in
      record { issued = issued; now = now; held = held }

  module _ (up : RedisIsUp p.redis) where
    -- The code that is redeemed is the one of the authorization.
    pub record IsReturned (input : AuthorizeInput) (code : String) (req : TokenRequest)
        (w w' v : World p) : Type 0 where
      pub kept : IsKept input code w w'
      pub auth_code : AuthCode
      pub redeemed : (redeem (App.runtime p) (App.auth_code_repo p) req v).0 ≡ ok auth_code
      pub user_id : auth_code.user_id ≡ kept.issued.session.user_id
      pub scope : auth_code.scope ≡ fields input.request.scope
      pub nonce : auth_code.nonce ≡ input.request.nonce

    -- Where Authorize issued a code, and less than its 60 seconds later, a token request with this
    -- code, the client_id of its client, its redirect_uri and a verifier that answers its S256
    -- challenge redeems it: for the user of the session and the requested scope. Redis must answer,
    -- and hold what it held; the rest of the state may have changed.
    pub authorize-redeem :
        (input : AuthorizeInput) (uri state code : String) (req : TokenRequest) (client : Client)
        (n : ℕ) (w u w' v : World p)
        → App.authorize p input w ≡ (ok (issue_code uri state code), w')
        → (App.client_repo p).get_by_id input.request.client_id w ≡ (ok (some client), u)
        → n < auth_code_ttl
        → v.kv ≡ p.redis.wait n w'.kv
        → req.code ≡ code
        → client.id ≡ req.client_id
        → input.request.redirect_uri ≡ req.redirect_uri
        → input.request.code_challenge_method ≡ "S256"
        → challenge_of (App.runtime p) req.code_verifier ≡ input.request.code_challenge
        → IsReturned input code req w w' v
    authorize-redeem input uri state code req client n w u w' v h found soon same_kv same id
          redirect method key =
        let kept = authorize-IsKept input uri state code w w' h in
        let held = kept.held in
        let which : kept.issued.client ≡ client = answered found kept.issued.trusted.found in
        let view =
          ap (λ s. law.view s (auth_code_key code)) same_kv
          ∙ (law.wait_ages n (auth_code_key code) w'.kv
              ∙ (ap (aged n) held.held ∙ aged-lives n auth_code_ttl held.payload soon)) in
        record {
          kept = kept;
          auth_code = record (code_for input.request kept.issued.client kept.issued.session) {
            created_at = kept.now;
          };
          redeemed =
              redeem-held (App.runtime p) (App.auth_code_repo p) req _ v
                (rw same (
                  consume-held p law up code v
                    (record { value = held.payload; ttl = some (auth_code_ttl - n) }) _ view
                    held.decodes))
                (record {
                  client = rw which id;
                  redirect = redirect;
                  method = method;
                  proof_key = key;
                });
          user_id = refl;
          scope = refl;
          nonce = refl;
        }
