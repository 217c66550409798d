-- ===== src/Repository/AuthCode/Held.antt =====
-- The authorization codes that Redis holds, and what the repository answers from them.
use iam_service.Prelude.{String, some, ◌≡◌, ◌≢◌, sym, ap, ◌∙◌}
use iam_service.Errors.{at}
use iam_service.Effect.{
  ok, Result, done, from_reply, bind-inv, relabel-inv, bind-value, relabel-ok, from_reply-eq-ok,
}
use iam_service.Models.{Time, AuthCode}
use iam_service.Platform.{
  Platform, World, Entry, IsRedis, RedisIsUp, IsHost, lives_for, on_os, on_host,
}
use iam_service.Cache.Held.{set-holds, set-elsewhere, get_del-held}
use iam_service.Cache
use iam_service.Spent.Keys.{auth_code_key_injective}
use iam_service.Repository.AuthCode.{auth_code_ttl, auth_code_key, create, consume}

module _ (p : Platform) (law : IsRedis p.redis) where
  -- Redis holds this code, for the whole time to live.
  pub record IsHeld (auth_code : AuthCode) (code : String) (w : World p) : Type 0 where
    pub payload : String
    pub held :
        law.view w.kv (auth_code_key code)
        ≡ some (record { value = payload; ttl = lives_for auth_code_ttl })
    pub decodes : p.host.unmarshal_auth_code payload ≡ done auth_code

  pub create-IsHeld :
      (host : IsHost p.host) (given : AuthCode) (w : World p) {code : String} {w' : World p}
      → create p given w ≡ (ok code, w')
      → (now : Time) × IsHeld (record given { created_at = now }) code w'
  unfolding create
  create-IsHeld host given w {code} {w'} h =
      relabel-inv (at "AuthCodeRepository.Create random") (on_os p (p.host.read 32)) _ w h
        λ raw u0 e0 k0. bind-inv (on_host p p.host.now) _ u0 k0 λ now u1 e1 k1.
          relabel-inv (at "AuthCodeRepository.Create marshal") _ _ u1 k1 λ payload u2 e2 k2.
            relabel-inv (at "AuthCodeRepository.Create") _ _ u2 k2 λ _ u3 e3 last.
              let state : u3 ≡ w' = cc in
              let drawn : p.host.encode_to_string raw ≡ code = cc in
              (
                now,
                record {
                  payload = payload;
                  held =
                      rw (← state, ← drawn)
                        (set-holds p law (auth_code_key (p.host.encode_to_string raw)) payload
                          auth_code_ttl u2 e3);
                  decodes =
                      host.unmarshal-marshal_auth_code _ payload
                        (from_reply-eq-ok _ (ap (λ (x : Result String × World p). x.0) e2));
                },
              )

  pub consume-held :
      (up : RedisIsUp p.redis) (code : String) (w : World p) (e : Entry) (auth_code : AuthCode)
      → law.view w.kv (auth_code_key code) ≡ some e
      → p.host.unmarshal_auth_code e.value ≡ done auth_code
      → (consume p code w).0 ≡ ok (some auth_code)
  unfolding consume
  consume-held up code w e auth_code h decodes =
      bind-value _ _ w (relabel-ok _ _ w (get_del-held p law (auth_code_key code) up e w h))
      ∙ bind-value _ _ _ (relabel-ok _ _ _ (ap (λ r. from_reply r) decodes))

  -- Creating a code leaves the other codes alone.
  pub create-elsewhere :
      (given : AuthCode) (w : World p) {code : String} {w' : World p} (other : String)
      → create p given w ≡ (ok code, w')
      → code ≢ other
      → law.view w'.kv (auth_code_key other) ≡ law.view w.kv (auth_code_key other)
  unfolding create Cache.set
  create-elsewhere given w {code} {w'} other h ne =
      relabel-inv (at "AuthCodeRepository.Create random") (on_os p (p.host.read 32)) _ w h
        λ raw u0 e0 k0. bind-inv (on_host p p.host.now) _ u0 k0 λ now u1 e1 k1.
          relabel-inv (at "AuthCodeRepository.Create marshal") _ _ u1 k1 λ payload u2 e2 k2.
            relabel-inv (at "AuthCodeRepository.Create") _ _ u2 k2 λ _ u3 e3 last.
              let drawn : p.host.encode_to_string raw ≡ code = cc in
              let read = ap (λ (x : Result _ × World p). x.1.kv) e0 in
              let clock = ap (λ (x : Result _ × World p). x.1.kv) e1 in
              let marshal = ap (λ (x : Result _ × World p). x.1.kv) e2 in
              let finish = ap (λ (x : Result _ × World p). x.1.kv) last in
              let earlier : w.kv ≡ u2.kv = read ∙ (clock ∙ marshal) in
              rw (← finish, earlier)
                (set-elsewhere p law (auth_code_key (p.host.encode_to_string raw))
                  (auth_code_key other) payload auth_code_ttl u2 e3
                  (λ e. ne (sym drawn ∙ auth_code_key_injective _ _ e)))
