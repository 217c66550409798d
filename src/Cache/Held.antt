-- ===== src/Cache/Held.antt =====
-- What the calls of the cache answer and leave, by what Redis holds at the key.
use iam_service.Prelude.{
  ℕ, ◌-◌, ◌≤◌, ◌<◌, String, [], ◌∷◌, Option, none, some, ◌≡◌, ◌≢◌, refl, ap, ◌∙◌, leb-false_of_lt,
  leb-true_of_le, eq_refl, contains, arith,
}
use iam_service.Errors.{Fault, redis_nil, no_rows, fault, sentinel, redis_key_not_found}
use iam_service.Effect.{
  Reply, done, failed, ok, err, Result, from_reply, relabel-ok, relabel-err, from_reply-eq-ok,
  relabel-eq-ok,
}
use iam_service.Effect.Preserves.{Preserves, Preserves-relabel}
use iam_service.Platform.{Platform, World, Entry, Answers, IsRedis, RedisIsUp, lives_for, aged}
use iam_service.Cache

module _ (held : Option Entry) where
  answer-done :
      (r : Reply String) (e : Entry)
      → Answers held r
      → ((f : Fault) → r ≡ failed f → f ≡ redis_nil)
      → held ≡ some e
      → r ≡ done e.value
  answer-done (done v) e (e', same, value) up h =
      let which : e' ≡ e = cc in rw (← which, value) refl
  answer-done (failed redis_nil) e answers up h = absurd (cc)
  answer-done (failed no_rows) e answers up h = absurd (cc (up no_rows refl))
  answer-done (failed (fault t)) e answers up h = absurd (cc (up (fault t) refl))

  answer-nil :
      (r : Reply String)
      → Answers held r
      → ((f : Fault) → r ≡ failed f → f ≡ redis_nil)
      → held ≡ none
      → r ≡ failed redis_nil
  answer-nil (done v) (e', same, value) up h = absurd (cc)
  answer-nil (failed f) answers up h = ap (λ g. failed g) (up f refl)

module _ (p : Platform) (law : IsRedis p.redis) (key : String) where
  pub set-holds :
      (value : String) (ttl : ℕ) (w : World p) {a : Unit {0}} {w' : World p}
      → Cache.set p key value ttl w ≡ (ok a, w')
      → law.view w'.kv key ≡ some (record { value = value; ttl = lives_for ttl })
  unfolding Cache.set
  set-holds value ttl w {w'} h =
      let run = relabel-eq-ok _ _ w h in
      let kv : (p.redis.set key value ttl w.kv).1 ≡ w'.kv =
        ap (λ (x : Result (Unit {0}) × World p). x.1.kv) run in
      rw (← kv) (
        law.set_done key value ttl w.kv
          (from_reply-eq-ok _ (ap (λ (x : Result (Unit {0}) × World p). x.0) run)))

  pub set-elsewhere :
      (other value : String) (ttl : ℕ) (w : World p) {a : Unit {0}} {w' : World p}
      → Cache.set p key value ttl w ≡ (ok a, w')
      → key ≢ other
      → law.view w'.kv other ≡ law.view w.kv other
  unfolding Cache.set
  set-elsewhere other value ttl w {w'} h ne =
      let run = relabel-eq-ok _ _ w h in
      let kv : (p.redis.set key value ttl w.kv).1 ≡ w'.kv =
        ap (λ (x : Result (Unit {0}) × World p). x.1.kv) run in
      rw (← kv) (law.set_other key other value ttl w.kv ne)

  pub get_del-elsewhere :
      (other : String) (w : World p)
      → key ≢ other
      → law.view (Cache.get_del p key w).1.kv other ≡ law.view w.kv other
  unfolding Cache.get_del
  get_del-elsewhere other w ne =
      Preserves.at
        (Preserves-relabel {P = λ u. law.view u.kv other ≡ law.view w.kv other} _ _
          (record { at = λ u h. law.get_del_other key other u.kv ne ∙ h }))
        w refl

  pub delete-vacates :
      (w : World p) {a : Unit {0}} {w' : World p}
      → Cache.delete p (key ∷ []) w ≡ (ok a, w')
      → law.view w'.kv key ≡ none
  unfolding Cache.delete contains
  delete-vacates w {w'} h =
      let run = relabel-eq-ok _ _ w h in
      let kv : (p.redis.del (key ∷ []) w.kv).1 ≡ w'.kv =
        ap (λ (x : Result (Unit {0}) × World p). x.1.kv) run in
      rw (← kv) (
        law.del_done (key ∷ []) key w.kv
          (from_reply-eq-ok _ (ap (λ (x : Result (Unit {0}) × World p). x.0) run))
        ∙ rw (eq_refl key) refl)

  module _ (up : RedisIsUp p.redis) where
    pub get-held :
        (e : Entry) (w : World p) → law.view w.kv key ≡ some e → (Cache.get p key w).0 ≡ ok e.value
    unfolding Cache.get
    get-held e w h = relabel-ok _ _ w (
        ap (λ r. from_reply r)
          (answer-done _ _ e (law.get_answers key w.kv) (up.get_up key w.kv) h))

    pub get-vacant :
        (w : World p)
        → law.view w.kv key ≡ none
        → (Cache.get p key w).0 ≡ err (sentinel redis_key_not_found)
    unfolding Cache.get
    get-vacant w h =
        relabel-err _ _ w (
          ap (λ r. from_reply r) (answer-nil _ _ (law.get_answers key w.kv) (up.get_up key w.kv) h))

    pub get_del-held :
        (e : Entry) (w : World p)
        → law.view w.kv key ≡ some e
        → (Cache.get_del p key w).0 ≡ ok e.value
    unfolding Cache.get_del
    get_del-held e w h = relabel-ok _ _ w (
        ap (λ r. from_reply r)
          (answer-done _ _ e (law.get_del_answers key w.kv) (up.get_del_up key w.kv) h))

-- An entry outlives every time below its time to live, and no other.
pub aged-lives :
    (n ttl : ℕ) (value : String)
    → n < ttl
    → aged n (some (record { value = value; ttl = lives_for ttl }))
      ≡ some (record { value = value; ttl = some (ttl - n) })
aged-lives n ttl value h = rw (leb-false_of_lt ttl 0 (omega arith), leb-false_of_lt ttl n h) refl

pub aged-expires :
    (n ttl : ℕ) (value : String)
    → 0 < ttl
    → ttl ≤ n
    → aged n (some (record { value = value; ttl = lives_for ttl })) ≡ none
aged-expires n ttl value h h' = rw (leb-false_of_lt ttl 0 h, leb-true_of_le ttl n h') refl
