-- ===== src/Sound/Stored.antt =====
-- The invariant of the stored codes, and that it is stable.
use Prim.Native.String.{count}
use iam_service.Prelude.{
  ℕ, List, ◌≤◌, String, Option, none, some, ◌≡◌, ◌⊎◌, inl, inr, refl, sym, ap, ◌∙◌, subst,
  Bool-cases, Option-cases, ◌==◌, eq_iff, ne_of_eq-false, leb,
}
use iam_service.Effect.{done_injective, done, relabel-value, from_reply-eq-ok}
use iam_service.Effect.Preserves.{
  Preserves, preserves_rules, Preserves-relabel, Preserves-bind, Preserves-bind_from,
  Preserves-lift,
}
use iam_service.Models.{AuthCode}
use iam_service.Platform.{Platform, World, Entry, IsRedis, IsHost, aged, lives_for}
use iam_service.Web.{Web}
use iam_service.Validator.RedirectUri.{IsRedirectUri}
use iam_service.Repository.AuthCode as AuthCodeRepository
use iam_service.Repository.AuthCode.{auth_code_key, auth_code_ttl}
use iam_service.Repository.Session.{session_key}
use iam_service.Spent.Keys.{session_key-ne-auth_code_key}
use iam_service.Stable.Defs.{IsSteady, IsStable}
use iam_service.Stable.Repositories.{on_os-Preserves, on_host-Preserves}
use iam_service.Cache

-- What the token endpoint can rely on.
pub record IsBound (n : Web) (a : AuthCode) : Type 0 where
  pub method : a.code_challenge_method ≡ "S256"
  pub challenge : (43 ≤ count a.code_challenge) × (count a.code_challenge ≤ 128)
  pub redirect_uri : IsRedirectUri n a.redirect_uri

same_value : (a b : Entry) → some a ≡ some b → a.value ≡ b.value
same_value a b h = let same : a ≡ b = cc in ap (λ (e : Entry). e.value) same

aged-some :
    (n : ℕ) (held : Option Entry) (e : Entry)
    → aged n held ≡ some e
    → (e' : Entry) × (held ≡ some e') × (e'.value ≡ e.value)
aged-some n none e h = absurd (cc)
aged-some n (some e') e h = (
  e',
  refl,
  elim (Option-cases e'.ttl) [
    | inl t ↦ same_value e' e (rw t at h)
    | inr (left, t) ↦ elim (Bool-cases (leb left n)) [
      | inl dead ↦ absurd (cc (rw (t, dead) at h))
      | inr alive ↦ same_value _ e (rw (t, alive) at h)
    ]
  ],
)

module _ (p : Platform) (law : IsRedis p.redis) (n : Web) where
  -- Every stored code that decodes is bound.
  abbrev pub AllBound : World p → Type 0
  AllBound w =
      (code : String) (e : Entry) (a : AuthCode)
      → law.view w.kv (auth_code_key code) ≡ some e
      → p.host.unmarshal_auth_code e.value ≡ done a
      → IsBound n a

  -- A step after which each code's key holds what it held, or nothing.
  kept :
      (w : World p) (s : p.redis.State)
      → ((code : String)
          → (law.view s (auth_code_key code) ≡ none)
            ⊎ (law.view s (auth_code_key code) ≡ law.view w.kv (auth_code_key code)))
      → AllBound w
      → AllBound (record w { kv = s })
  kept w s same h code e a held decodes = elim (same code) [
    | inl gone ↦ absurd (cc (gone, held))
    | inr old ↦ h code e a (sym old ∙ held) decodes
  ]

  get_del_kept :
      (k : String) (w : World p) (code : String)
      → (law.view (p.redis.get_del k w.kv).1 (auth_code_key code) ≡ none)
        ⊎ (law.view (p.redis.get_del k w.kv).1 (auth_code_key code)
            ≡ law.view w.kv (auth_code_key code))
  get_del_kept k w code = elim (Bool-cases (k == auth_code_key code)) [
    | inl e ↦ rw ((eq_iff _ _).0 e) (law.get_del_self (auth_code_key code) w.kv)
    | inr e ↦ inr (law.get_del_other k (auth_code_key code) w.kv (ne_of_eq-false _ _ e))
  ]

  set_session-AllBound :
      (id payload : String) (ttl : ℕ)
      → Preserves AllBound (Cache.set p (session_key id) payload ttl)
  unfolding Cache.set
  set_session-AllBound id payload ttl = Preserves-relabel _ _ (record {
    at = λ w h.
        kept w _
          (λ code. inr (
            law.set_other (session_key id) (auth_code_key code) payload ttl w.kv
              (session_key-ne-auth_code_key id code)))
          h;
  })

  get-AllBound : (k : String) → Preserves AllBound (Cache.get p k)
  unfolding Cache.get
  get-AllBound k =
      Preserves-relabel _ _ (record {
        at = λ w h. kept w _ (λ code. inr (law.get_keeps k (auth_code_key code) w.kv)) h;
      })

  get_del-AllBound : (k : String) → Preserves AllBound (Cache.get_del p k)
  unfolding Cache.get_del
  get_del-AllBound k = Preserves-relabel _ _ (record { at = λ w h. kept w _ (get_del_kept k w) h })

  del-AllBound : (ks : List String) → Preserves AllBound (Cache.delete p ks)
  unfolding Cache.delete
  del-AllBound ks =
      Preserves-relabel _ _
        (record { at = λ w h. kept w _ (λ code. law.del_self ks (auth_code_key code) w.kv) h })

  pub AllBound-IsSteady : IsSteady p AllBound
  AllBound-IsSteady = record {
    db = λ w s h. h;
    os = λ w s h. h;
    get = get-AllBound;
    get_del = get_del-AllBound;
    del = del-AllBound;
    wait = λ m w h code e a held decodes.
        let (e', was, value) =
          aged-some m _ e (sym (law.wait_ages m (auth_code_key code) w.kv) ∙ held) in
        h code e' a was (subst (λ v. p.host.unmarshal_auth_code v ≡ done a) (sym value) decodes);
  }

  pub AllBound-IsStable : IsStable p AllBound
  AllBound-IsStable = record { steady = AllBound-IsSteady; set_session = set_session-AllBound }

  set_view :
      (k key payload : String) (ttl : ℕ) (w : World p)
      → (law.view (p.redis.set k payload ttl w.kv).1 key
          ≡ some (record { value = payload; ttl = lives_for ttl }))
        ⊎ (law.view (p.redis.set k payload ttl w.kv).1 key ≡ law.view w.kv key)
  set_view k key payload ttl w = elim (Bool-cases (k == key)) [
    | inl e ↦ rw ((eq_iff _ _).0 e) (law.set_self key payload ttl w.kv)
    | inr e ↦ inr (law.set_other k key payload ttl w.kv (ne_of_eq-false _ _ e))
  ]

  -- A payload that decodes to a bound code may be stored.
  set_bound-AllBound :
      (code payload : String) (given : AuthCode)
      → p.host.unmarshal_auth_code payload ≡ done given
      → IsBound n given
      → Preserves AllBound (Cache.set p (auth_code_key code) payload auth_code_ttl)
  unfolding Cache.set
  set_bound-AllBound code payload given decodes bound = Preserves-relabel _ _ (record {
    at = λ w h other e a held u.
        elim (set_view (auth_code_key code) (auth_code_key other) payload auth_code_ttl w) [
          | inl new ↦
              let value : payload ≡ e.value = same_value _ e (sym new ∙ held) in
              let same : given ≡ a = done_injective (sym decodes ∙ (rw value u)) in
              subst (IsBound n) same bound
          | inr old ↦ h other e a (sym old ∙ held) u
        ];
  })

  -- Creating a code keeps the invariant where the code is bound.
  pub create-AllBound :
      (host : IsHost p.host) (given : AuthCode)
      → IsBound n given
      → Preserves AllBound (AuthCodeRepository.create p given)
  unfolding AuthCodeRepository.create
  create-AllBound host given bound =
      Preserves-bind _ _
        (Preserves-relabel _ _ (on_os-Preserves p AllBound AllBound-IsSteady (p.host.read 32)))
        λ raw. Preserves-bind _ _ (on_host-Preserves p AllBound AllBound-IsSteady p.host.now) λ now.
          let stamped : AuthCode = record given { created_at = now } in
          record {
            at = λ w h.
                Preserves-bind_from {P = AllBound} w _ _ (Preserves-relabel _ _ (Preserves-lift _))
                  (λ payload e.
                    let decodes =
                      host.unmarshal-marshal_auth_code stamped payload
                        (from_reply-eq-ok _ (relabel-value _ _ w e)) in
                    Preserves-bind _ _
                      (Preserves-relabel _ _ (
                        set_bound-AllBound (p.host.encode_to_string raw) payload stamped decodes
                          (record {
                            method = bound.method;
                            challenge = bound.challenge;
                            redirect_uri = bound.redirect_uri;
                          })))
                      (λ _. search preserves_rules))
                  h;
          }
