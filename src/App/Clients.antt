-- ===== src/App/Clients.antt =====
-- A registered client authenticates with the secret that it was given.
use iam_service.Prelude.{
  String, Bool, ◌⊎◌, inl, inr, true, false, ◌≡◌, ◌≢◌, refl, ap, ◌==◌, eq-false_of_ne, All,
  if◌then◌else◌,
}
use iam_service.Effect.{ok, Result, from_reply-eq-ok}
use iam_service.Models.{Client}
use iam_service.Dtos.{RegisterClientRequest, RegisterClientResponse}
use iam_service.Platform.{Platform, World, IsHost}
use iam_service.Service.TokenGrant.{secret_is_valid}
use iam_service.Service.Client.Registration.{
  IsAllowed, IsSecret, without, hashed, register_client-IsRegistered,
}
use iam_service.App

module _ (p : Platform) where
  -- The stored client, as the token endpoint will see it.
  pub record IsEnrolled (req : RegisterClientRequest) (resp : RegisterClientResponse) (w' : World p)
      : Type 0 where
    pub client : Client
    pub u : World p
    pub stored : (App.client_repo p).create client u ≡ (ok tt, w')
    pub id : client.id ≡ resp.client_id
    pub redirect_uris : client.redirect_uris ≡ req.redirect_uris
    pub scopes : client.scopes ≡ req.scopes
    pub grants : All (IsAllowed req.is_public) client.grant_types
    -- the answered secret is the one that authenticates
    pub authenticates : secret_is_valid (App.runtime p) client resp.client_secret ≡ true
    -- only a confidential client has a secret to present
    pub guarded :
        ((req.is_public ≡ true) × (client.client_secret_hash ≡ ""))
        ⊎ ((req.is_public ≡ false) × (client.client_secret_hash ≢ ""))

  module _ (law : IsHost p.host) where
    -- What bcrypt documents, at a call that made the hash.
    generated :
        (secret hash : String) (v v' : World p)
        → (App.runtime p).generate_from_password secret v ≡ (ok hash, v')
        → (hash ≢ "") × (p.host.compare_hash_and_password hash secret ≡ true)
    generated secret hash v v' h =
        let made =
          from_reply-eq-ok (p.host.generate_from_password secret v.os).0
            (ap (λ (x : Result String × World p). x.0) h) in
        (law.generate-ne-empty secret hash v.os made, law.compare-generate secret hash v.os made)

    secret_lem :
        (secret hash : String) (is_public : Bool)
        → IsSecret (App.runtime p) (App.client_repo p) secret hash is_public
        → ((if hash == "" then true else p.host.compare_hash_and_password hash secret) ≡ true)
          × (((is_public ≡ true) × (hash ≡ "")) ⊎ ((is_public ≡ false) × (hash ≢ "")))
    secret_lem secret hash true (without e e') = (rw e' refl, inl (refl, e'))
    secret_lem secret hash false (hashed v v' h) =
        let (full, valid) = generated secret hash v v' h in
        (rw (eq-false_of_ne hash "" full) valid, inr (refl, full))

    -- A successful registration stored a client whose grant types are all allowed, whose
    -- redirect_uris and scopes are the requested ones, and which the answered secret authenticates.
    -- A public client has no secret hash; a confidential one has one, so its secret is asked for.
    pub register_client-IsEnrolled :
        (req : RegisterClientRequest) (resp : RegisterClientResponse) (w w' : World p)
        → App.register_client p req w ≡ (ok resp, w')
        → IsEnrolled req resp w'
    register_client-IsEnrolled req resp w w' h =
        let made = register_client-IsRegistered (App.runtime p) (App.client_repo p) req w h in
        let (valid, guarded) = secret_lem resp.client_secret made.hash req.is_public made.secret in
        record {
          client = record {
            id = resp.client_id;
            name = req.name;
            client_secret_hash = made.hash;
            redirect_uris = req.redirect_uris;
            scopes = req.scopes;
            grant_types = req.grant_types;
            is_first_party = req.is_first_party;
            created_at = 0;
          };
          u = made.u;
          stored = made.stored;
          id = refl;
          redirect_uris = refl;
          scopes = refl;
          grants = made.grants;
          authenticates = valid;
          guarded = guarded;
        }
