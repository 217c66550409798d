-- ===== src/Spent/Calls.antt =====
-- What every call keeps of the entry at a key: what holds of no entry, and of an entry that has
-- less time left.
use iam_service.Prelude.{
  ℕ, String, List, ◌≡◌, ◌≢◌, ◌⊎◌, eq_iff, ◌==◌, ne_of_eq-false, Bool-cases, inl, inr, Option, none,
  subst, sym,
}
use iam_service.Effect.Preserves.{Preserves, Preserves-relabel}
use iam_service.Platform.{Platform, World, Entry, IsRedis, aged}
use iam_service.Stable.Defs.{IsSteady}
use iam_service.Cache

pub record IsFading (Q : Option Entry → Type 0) : Type 0 where
  pub gone : Q none
  pub ages : (n : ℕ) (held : Option Entry) → Q held → Q (aged n held)

module _ (p : Platform) (law : IsRedis p.redis) (key : String) (Q : Option Entry → Type 0) where
  -- What Redis holds at the key.
  abbrev pub Bears : World p → Type 0
  Bears w = Q (law.view w.kv key)

module _ (p : Platform) (law : IsRedis p.redis) (key : String) {Q : Option Entry → Type 0}
    (fading : IsFading Q) where
  kept : {a b : Option Entry} → (a ≡ none) ⊎ (a ≡ b) → Q b → Q a
  kept (inl e) h = subst Q (sym e) fading.gone
  kept (inr e) h = subst Q (sym e) h

  pub set-Bears :
      (k v : String) (ttl : ℕ) → k ≢ key → Preserves (Bears p law key Q) (Cache.set p k v ttl)
  unfolding Cache.set
  set-Bears k v ttl ne =
      Preserves-relabel _ _
        (record { at = λ w h. kept (inr (law.set_other k key v ttl w.kv ne)) h })

  get-Bears : (k : String) → Preserves (Bears p law key Q) (Cache.get p k)
  unfolding Cache.get
  get-Bears k =
      Preserves-relabel _ _ (record { at = λ w h. kept (inr (law.get_keeps k key w.kv)) h })

  del-Bears : (ks : List String) → Preserves (Bears p law key Q) (Cache.delete p ks)
  unfolding Cache.delete
  del-Bears ks = Preserves-relabel _ _ (record { at = λ w h. kept (law.del_self ks key w.kv) h })

  get_del-Bears : (k : String) → Preserves (Bears p law key Q) (Cache.get_del p k)
  unfolding Cache.get_del
  get_del-Bears k = Preserves-relabel _ _ (record {
    at = λ w h. elim (Bool-cases (k == key)) [
      | inl same ↦
          let at_key = (eq_iff k key).0 same in rw at_key (kept (law.get_del_self key w.kv) h)
      | inr other ↦ kept (inr (law.get_del_other k key w.kv (ne_of_eq-false k key other))) h
    ];
  })

  pub Bears-IsSteady : IsSteady p (Bears p law key Q)
  Bears-IsSteady = record {
    db = λ w s h. h;
    os = λ w s h. h;
    get = get-Bears;
    get_del = get_del-Bears;
    del = del-Bears;
    wait = λ n w h. subst Q (sym (law.wait_ages n key w.kv)) (fading.ages n _ h);
  }
