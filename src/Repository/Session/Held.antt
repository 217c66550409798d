-- ===== src/Repository/Session/Held.antt =====
-- The sessions that Redis holds, and what the repository answers from them.
use iam_service.Prelude.{String, some, none, ◌≡◌, ap, ◌∙◌}
use iam_service.Errors.{sentinel, session_not_found, at}
use iam_service.Effect.{
  ok, err, Result, done, from_reply, bind-inv, relabel-inv, bind-value, bind-err, relabel-ok,
  relabel-err, from_reply-eq-ok,
}
use iam_service.Models.{Time, Session}
use iam_service.Platform.{Platform, World, Entry, IsRedis, RedisIsUp, IsHost, lives_for, on_host}
use iam_service.Cache.Held.{set-holds, get-held, get-vacant}
use iam_service.Repository.Session.{session_ttl, session_key, create, get}

module _ (p : Platform) (law : IsRedis p.redis) where
  -- Redis holds this session under the id, for the whole time to live.
  pub record IsOpened (session : Session) (id : String) (w : World p) : Type 0 where
    pub payload : String
    pub held :
        law.view w.kv (session_key id)
        ≡ some (record { value = payload; ttl = lives_for session_ttl })
    pub decodes : p.host.unmarshal_session payload ≡ done session

  pub create-IsOpened :
      (host : IsHost p.host) (user_id email : String) (w : World p) {made : String × Time}
      {w' : World p}
      → create p user_id email w ≡ (ok made, w')
      → (now : Time) × IsOpened
          (record { user_id = user_id; email = email; created_at = now })
          made.0
          w'
  unfolding create
  create-IsOpened host user_id email w {made} {w'} h =
      bind-inv (on_host p p.host.new_string) _ w h λ id u0 e0 k0.
        bind-inv (on_host p p.host.now) _ u0 k0 λ now u1 e1 k1.
          relabel-inv (at "SessionRepository.Create marshal") _ _ u1 k1 λ payload u2 e2 k2.
            relabel-inv (at "SessionRepository.Create") _ _ u2 k2 λ _ u3 e3 k3.
              bind-inv (on_host p p.host.now) _ u3 k3 λ later u4 e4 last.
                let kv : u3.kv ≡ w'.kv =
                  ap (λ (x : Result Time × World p). x.1.kv) e4
                  ∙ ap (λ (x : Result (String × Time) × World p). x.1.kv) last in
                let same_id : id ≡ made.0 = cc in
                (
                  now,
                  record {
                    payload = payload;
                    held =
                        rw (← kv, ← same_id)
                          (set-holds p law (session_key id) payload session_ttl u2 e3);
                    decodes =
                        host.unmarshal-marshal_session _ payload
                          (from_reply-eq-ok _ (ap (λ (x : Result String × World p). x.0) e2));
                  },
                )

  module _ (up : RedisIsUp p.redis) (id : String) (w : World p) where
    pub get-session :
        (e : Entry) (session : Session)
        → law.view w.kv (session_key id) ≡ some e
        → p.host.unmarshal_session e.value ≡ done session
        → (get p id w).0 ≡ ok (some session)
    unfolding get
    get-session e session h decodes =
        bind-value _ _ w (relabel-ok _ _ w (get-held p law (session_key id) up e w h))
        ∙ bind-value _ _ _ (relabel-ok _ _ _ (ap (λ r. from_reply r) decodes))

    pub get-missing :
        law.view w.kv (session_key id) ≡ none → (get p id w).0 ≡ err (sentinel session_not_found)
    unfolding get
    get-missing h = bind-err _ _ w (relabel-err _ _ w (get-vacant p law (session_key id) up w h))
