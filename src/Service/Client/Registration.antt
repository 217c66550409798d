-- ===== src/Service/Client/Registration.antt =====
-- What the registration of a client checks and stores, over any collaborators.
use iam_service.Prelude.{
  String, List, [], ◌∷◌, ◌++◌, Bool, true, false, ◌&&◌, ◌≡◌, ◌≢◌, refl, sym, ap, ◌⊎◌, inl, inr,
  ◌==◌, arith, eq_iff, ne_of_eq-false, Bool-cases, All,
}
use iam_service.Errors.{sentinel, public_client_credentials_grant, at}
use iam_service.Effect.{Result, ok, err, bind-inv, relabel-inv}
use iam_service.Dtos.{RegisterClientRequest, RegisterClientResponse}
use iam_service.Oauth.{supported_grant_types, grant_client_credentials}
use iam_service.Ports.{ClientRepo, Runtime}
use iam_service.Service.Client.{unsupported, check_grants, new_secret, register_client}

-- A grant type that a client may be registered for.
pub record IsAllowed (is_public : Bool) (grant : String) : Type 0 where
  pub supported : supported_grant_types grant ≡ true
  pub suits : (is_public ≡ false) ⊎ (grant ≢ grant_client_credentials)

module _ {W : Type 0} (run : Runtime W) (clients : ClientRepo W) where
  -- The outcome for a list of grant types: all are allowed, or the first that is not decides.
  pub data Verdict (is_public : Bool) (grants : List String) (r : Result (Unit {0})) : Type 0 where
    accepted : r ≡ ok tt → All (IsAllowed is_public) grants → Verdict is_public grants r
    refused_public :
        (before rest : List String)
        → grants ≡ before ++ grant_client_credentials ∷ rest
        → All (IsAllowed is_public) before
        → is_public ≡ true
        → r ≡ err (sentinel public_client_credentials_grant)
        → Verdict is_public grants r
    refused :
        (before rest : List String) (grant : String)
        → grants ≡ before ++ grant ∷ rest
        → All (IsAllowed is_public) before
        → (is_public ≡ false) ⊎ (grant ≢ grant_client_credentials)
        → supported_grant_types grant ≡ false
        → r ≡ err (unsupported run clients grant)
        → Verdict is_public grants r

  after_allowed :
      (is_public : Bool) (g : String) (gs : List String) (r : Result (Unit {0}))
      → IsAllowed is_public g
      → Verdict is_public gs r
      → Verdict is_public (g ∷ gs) r
  after_allowed is_public g gs r a (accepted e all) = accepted e (a, all)
  after_allowed is_public g gs r a (refused_public before rest e all is e') =
      refused_public (g ∷ before) rest (ap (λ xs. g ∷ xs) e) (a, all) is e'
  after_allowed is_public g gs r a (refused before rest grant e all suits is e') =
      refused (g ∷ before) rest grant (ap (λ xs. g ∷ xs) e) (a, all) suits is e'

  -- Only a public client with client_credentials does not suit.
  suits_of :
      (is_public : Bool) (g : String)
      → (is_public && (g == grant_client_credentials)) ≡ false
      → (is_public ≡ false) ⊎ (g ≢ grant_client_credentials)
  suits_of true g suits = inr (ne_of_eq-false g grant_client_credentials suits)
  suits_of false g suits = inl refl

  allowed :
      (is_public : Bool) (g : String)
      → (is_public && (g == grant_client_credentials)) ≡ false
      → supported_grant_types g ≡ true
      → IsAllowed is_public g
  allowed is_public g suits supported = record {
    supported = supported;
    suits = suits_of is_public g suits;
  }

  -- The grant types are checked in their order: the registration goes on exactly if all are
  -- allowed, and otherwise the first that is not decides the error: client_credentials of a public
  -- client is ErrPublicClientCredentialsGrant, and any other one is ErrUnsupportedGrantType. Nothing
  -- is changed.
  pub check_grants-Verdict :
      (is_public : Bool) (grants : List String) (w : W)
      → Verdict is_public grants (check_grants run clients is_public grants w).0
        × ((check_grants run clients is_public grants w).1 ≡ w)
  unfolding check_grants
  check_grants-Verdict is_public [] w = (accepted refl tt, refl)
  check_grants-Verdict is_public (g ∷ gs) w =
      elim (Bool-cases (is_public && (g == grant_client_credentials))) [
        | inl e ↦ rw e (
          refused_public [] gs
              (ap (λ x. x ∷ gs) ((eq_iff g grant_client_credentials).0 (ground arith))) tt
              (ground arith) refl,
          refl,
        )
        | inr e ↦ elim (Bool-cases (supported_grant_types g)) [
          | inl s ↦
              let (verdict, same) = check_grants-Verdict is_public gs w in
              rw (e, s) (after_allowed is_public g gs _ (allowed is_public g e s) verdict, same)
          | inr s ↦ rw (e, s) (refused [] gs g refl tt (suits_of is_public g e) s refl, refl)
        ]
      ]

  -- The secret: none for a public client, and for a confidential one a text that was hashed.
  pub data IsSecret (secret hash : String) : Bool → Type 0 where
    without : secret ≡ "" → hash ≡ "" → IsSecret secret hash true
    hashed :
        (v v' : W)
        → run.generate_from_password secret v ≡ (ok hash, v')
        → IsSecret secret hash false

  new_secret-IsSecret :
      (is_public : Bool) (w : W) {made : String × String} {w' : W}
      → new_secret run clients is_public w ≡ (ok made, w')
      → IsSecret made.0 made.1 is_public
  unfolding new_secret
  new_secret-IsSecret true w {made} h =
      let made_empty : ("", "") ≡ made = cc in
      without (sym (ap (λ x. x.0) made_empty)) (sym (ap (λ x. x.1) made_empty))
  new_secret-IsSecret false w {made} h =
      relabel-inv (at "ClientService.RegisterClient generating secret") (run.read 32) _ w h
        λ raw u e k.
          relabel-inv (at "ClientService.RegisterClient hashing secret") _ _ u k λ hash v e' last.
            let first : run.encode_to_string raw ≡ made.0 = cc in
            let second : hash ≡ made.1 = cc in hashed u v (rw (← first, ← second) e')

  -- What a successful registration has checked, stored and answered.
  pub record IsRegistered (req : RegisterClientRequest) (resp : RegisterClientResponse) (w' : W)
      : Type 0 where
    pub hash : String
    pub u : W
    pub grants : All (IsAllowed req.is_public) req.grant_types
    pub secret : IsSecret resp.client_secret hash req.is_public
    pub stored :
        clients.create
          (record {
            id = resp.client_id;
            name = req.name;
            client_secret_hash = hash;
            redirect_uris = req.redirect_uris;
            scopes = req.scopes;
            grant_types = req.grant_types;
            is_first_party = req.is_first_party;
            created_at = 0;
          })
          u
        ≡ (ok tt, w')
    pub name : resp.name ≡ req.name

  Verdict-All :
      (is_public : Bool) (grants : List String) {r : Result (Unit {0})} {a : Unit {0}}
      → Verdict is_public grants r
      → r ≡ ok a
      → All (IsAllowed is_public) grants
  Verdict-All is_public grants (accepted e all) h = all
  Verdict-All is_public grants (refused_public before rest e all is e') h = absurd (cc)
  Verdict-All is_public grants (refused before rest grant e all suits is e') h = absurd (cc)

  pub register_client-IsRegistered :
      (req : RegisterClientRequest) (w : W) {resp : RegisterClientResponse} {w' : W}
      → register_client run clients req w ≡ (ok resp, w')
      → IsRegistered req resp w'
  unfolding register_client
  register_client-IsRegistered req w {resp} {w'} h =
      bind-inv (check_grants run clients req.is_public req.grant_types) _ w h λ done u0 e0 k0.
        bind-inv (new_secret run clients req.is_public) _ u0 k0 λ made u1 e1 k1.
          bind-inv run.new_string _ u1 k1 λ id u2 e2 k2.
            relabel-inv (at "ClientService.RegisterClient") _ _ u2 k2 λ _ u3 e3 last.
              let same_id : id ≡ resp.client_id = cc in
              let same_secret : made.0 ≡ resp.client_secret = cc in
              let same_state : u3 ≡ w' = cc in
              record {
                hash = made.1;
                u = u2;
                grants =
                    Verdict-All req.is_public req.grant_types
                      (check_grants-Verdict req.is_public req.grant_types w).0
                      (ap (λ (x : Result (Unit {0}) × W). x.0) e0);
                secret = rw (← same_secret) (new_secret-IsSecret req.is_public u0 e1);
                stored = rw (← same_id, ← same_state) e3;
                name = cc;
              }
