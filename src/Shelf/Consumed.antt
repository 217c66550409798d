-- ===== src/Shelf/Consumed.antt =====
-- What a consumption of an authorization code asks of Redis, and what it leaves.
use iam_service.Prelude.{String, Option, none, some, true, ◌≡◌, ◌≢◌, ◌∙◌, refl, subst, ap, inl, inr}
use iam_service.Errors.{Error, redis_nil, no_rows, fault, auth_code_not_found, is, at}
use iam_service.Effect.{
  err_injective, Reply, done, failed, Result, ok, err, on_error, relabel-inv, relabel-eq-ok,
  from_reply-eq-ok, ◌>>=◌,
}
use iam_service.Effect.Preserves.{Preserves, preserves_rules, Preserves-relabel, Preserves-bind}
use iam_service.Models.{AuthCode}
use iam_service.Platform.{Platform, World, Entry, IsRedis, Answers}
use iam_service.Repository.AuthCode.{auth_code_key, consume, lookup_error}
use iam_service.Cache
use iam_service.Spent.Keys.{auth_code_key_injective}

module _ (p : Platform) where
  -- What the consumption of a code asked Redis, where it found one.
  pub consume-inv :
      (code : String) (a : AuthCode) (w w' : World p)
      → consume p code w ≡ (ok (some a), w')
      → (raw : String) × (Cache.get_del p (auth_code_key code) w ≡ (ok raw, w'))
        × (p.host.unmarshal_auth_code raw ≡ done a)
  unfolding consume
  consume-inv code a w w' h = relabel-inv (lookup_error p) _ _ w h λ raw u e k.
      relabel-inv (at "AuthCodeRepository.Consume unmarshal") _ _ u k λ found v d last.
        let value : found ≡ a = cc in
        let state : u ≡ w' = cc in
        (
          raw,
          e ∙ (λ i. (ok raw, state i)),
          from_reply-eq-ok _ (ap (λ (x : Result AuthCode × World p). x.0) d)
              ∙ ap (λ x. done x) value,
        )

  module _ (law : IsRedis p.redis) where
    pub got :
        (key raw : String) (w w' : World p)
        → Cache.get_del p key w ≡ (ok raw, w')
        → (e : Entry) × (law.view w.kv key ≡ some e) × (e.value ≡ raw) × (law.view w'.kv key ≡ none)
    unfolding Cache.get_del
    got key raw w w' h =
        let run = relabel-eq-ok _ _ w h in
        let kv : (p.redis.get_del key w.kv).1 ≡ w'.kv =
          ap (λ (x : Result String × World p). x.1.kv) run in
        let reply = from_reply-eq-ok _ (ap (λ (x : Result String × World p). x.0) run) in
        let (e, held, value) =
          subst (Answers (law.view w.kv key)) reply (law.get_del_answers key w.kv) in
        (e, held, value, rw (← kv) (law.get_del_done key raw w.kv reply))

    -- A consumption that finds no code.
    pub missed-vacant :
        (code : String) (e : Error) (w w' : World p) (reply : Reply String)
        → (p.redis.get_del (auth_code_key code) w.kv).0 ≡ reply
        → consume p code w ≡ (err e, w')
        → is e auth_code_not_found ≡ true
        → law.view w.kv (auth_code_key code) ≡ none
    unfolding consume Cache.get_del ◌>>=◌ on_error
    missed-vacant code e w w' (failed redis_nil) h run missing =
        subst (Answers (law.view w.kv (auth_code_key code))) h
          (law.get_del_answers (auth_code_key code) w.kv)
    missed-vacant code e w w' (failed no_rows) h run missing =
        let same =
          err_injective (ap (λ (x : Result (Option AuthCode) × World p). x.0) (rw h at run)) in
        absurd (cc (ap (λ x. is x auth_code_not_found) same, missing))
    missed-vacant code e w w' (failed (fault text)) h run missing =
        let same =
          err_injective (ap (λ (x : Result (Option AuthCode) × World p). x.0) (rw h at run)) in
        absurd (cc (ap (λ x. is x auth_code_not_found) same, missing))
    missed-vacant code e w w' (done raw) h run missing =
        absurd (by_decoding (p.host.unmarshal_auth_code raw) refl)
      where
        by_decoding : (decoded : Reply AuthCode) → p.host.unmarshal_auth_code raw ≡ decoded → ⊥
        by_decoding (done a) d =
            absurd (cc (ap (λ (x : Result (Option AuthCode) × World p). x.0) (rw (h, d) at run)))
        by_decoding (failed x) d =
            let same =
              err_injective
                (ap (λ (x : Result (Option AuthCode) × World p). x.0) (rw (h, d) at run)) in
            absurd (cc (ap (λ x. is x auth_code_not_found) same, missing))

  consume-Preserves :
      (P : World p → Type 0) (code : String)
      → Preserves P (Cache.get_del p (auth_code_key code))
      → Preserves P (consume p code)
  unfolding consume
  consume-Preserves P code keeps =
      Preserves-bind _ _ (Preserves-relabel (lookup_error p) _ keeps)
        (λ raw. search preserves_rules)

  module _ (law : IsRedis p.redis) where
    -- A consumption leaves the other codes alone.
    pub consume-elsewhere :
        (code other : String) (w : World p)
        → code ≢ other
        → law.view (consume p code w).1.kv (auth_code_key other)
          ≡ law.view w.kv (auth_code_key other)
    unfolding Cache.get_del
    consume-elsewhere code other w ne =
        Preserves.at
          (consume-Preserves
            (λ u. law.view u.kv (auth_code_key other) ≡ law.view w.kv (auth_code_key other)) code
            (Preserves-relabel _ _ (record {
              at = λ u h.
                  law.get_del_other (auth_code_key code) (auth_code_key other) u.kv
                    (λ e. ne (auth_code_key_injective _ _ e))
                  ∙ h;
            })))
          w refl

    pub consume-vacant :
        (code : String) (w : World p)
        → law.view w.kv (auth_code_key code) ≡ none
        → law.view (consume p code w).1.kv (auth_code_key code) ≡ none
    unfolding Cache.get_del
    consume-vacant code w gone =
        Preserves.at
          (consume-Preserves (λ u. law.view u.kv (auth_code_key code) ≡ none) code
            (Preserves-relabel _ _ (record {
              at = λ u h. elim (law.get_del_self (auth_code_key code) u.kv) [
                | inl none_left ↦ none_left
                | inr same ↦ same ∙ h
              ];
            })))
          w gone
