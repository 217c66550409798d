-- ===== src/Shelf/Represents.antt =====
-- The shelf that a state of Redis stands for, and what a change of one key does to it.
use iam_service.Prelude.{
  ℕ, ◌-◌, String, Option, none, some, ◌≡◌, ◌≢◌, ◌==◌, eq_iff, ne_of_eq-false, Bool-cases, inl, inr,
  leb,
}
use iam_service.Effect.{done}
use iam_service.Models.{AuthCode}
use iam_service.Platform.{Platform, Entry, IsRedis, aged}
use iam_service.Repository.AuthCode.{auth_code_key, auth_code_ttl}
use iam_service.Shelf.Spec.{Item, Shelf, put, take, left_after, pass}

module _ (p : Platform) where
  -- An item and the entry that holds it.
  pub data Holds : Option Item → Option Entry → Type 0 where
    vacant : Holds none none
    holds :
        (a : AuthCode) (left : ℕ) (payload : String)
        → p.host.unmarshal_auth_code payload ≡ done a
        → Holds (some (a, left)) (some (record { value = payload; ttl = some left }))

  pub Holds-aged :
      (n : ℕ) (item : Option Item) (entry : Option Entry)
      → Holds item entry
      → Holds (left_after n item) (aged n entry)
  Holds-aged n _ _ vacant = vacant
  Holds-aged n _ _ (holds a left payload decodes) = elim (Bool-cases (leb left n)) [
    | inl e ↦ rw e vacant
    | inr e ↦ rw e (holds a (left - n) payload decodes)
  ]

  module _ (law : IsRedis p.redis) where
    pub record Represents (shelf : Shelf) (s : p.redis.State) : Type 0 where
      pub at : (code : String) → Holds (shelf code) (law.view s (auth_code_key code))

    -- One code's key holds a new entry.
    pub Represents-put :
        (shelf : Shelf) (s s' : p.redis.State) (code payload : String) (a : AuthCode)
        → Represents shelf s
        → p.host.unmarshal_auth_code payload ≡ done a
        → law.view s' (auth_code_key code)
          ≡ some (record { value = payload; ttl = some auth_code_ttl })
        → ((other : String)
            → code ≢ other
            → law.view s' (auth_code_key other) ≡ law.view s (auth_code_key other))
        → Represents (put shelf code a) s'
    Represents-put shelf s s' code payload a before decodes new same = record {
      at = λ other. elim (Bool-cases (code == other)) [
        | inl e ↦ rw (e, ← (eq_iff code other).0 e, new) (holds a auth_code_ttl payload decodes)
        | inr e ↦ rw (e, same other (ne_of_eq-false _ _ e)) (before.at other)
      ];
    }

    -- One code's key holds nothing any more.
    pub Represents-take :
        (shelf : Shelf) (s s' : p.redis.State) (code : String)
        → Represents shelf s
        → law.view s' (auth_code_key code) ≡ none
        → ((other : String)
            → code ≢ other
            → law.view s' (auth_code_key other) ≡ law.view s (auth_code_key other))
        → Represents (take shelf code) s'
    Represents-take shelf s s' code before gone same = record {
      at = λ other. elim (Bool-cases (code == other)) [
        | inl e ↦ rw (e, ← (eq_iff code other).0 e, gone) vacant
        | inr e ↦ rw (e, same other (ne_of_eq-false _ _ e)) (before.at other)
      ];
    }

    pub Represents-pass :
        (shelf : Shelf) (s : p.redis.State) (n : ℕ)
        → Represents shelf s
        → Represents (pass shelf n) (p.redis.wait n s)
    Represents-pass shelf s n before = record {
      at = λ code. rw (law.wait_ages n (auth_code_key code) s) (Holds-aged n _ _ (before.at code));
    }
