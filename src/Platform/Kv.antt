-- ===== src/Platform/Kv.antt =====
-- The commands of Redis that cache/redis.go sends through go-redis, and what Redis documents.
use iam_service.Prelude.{
  ℕ, ℤ, pos, negsuc, ◌*◌, ◌-◌, String, List, Option, none, some, ◌≡◌, ◌≢◌, ◌⊎◌, if◌then◌else◌, leb,
  contains,
}
use iam_service.Errors.{Fault, redis_nil}
use iam_service.Effect.{Reply, done, failed}

-- A stored value and the nanoseconds that it still lives; `none` is a key without expiry.
pub record Entry : Type 0 where
  pub value : String
  pub ttl : Option ℕ

pub record Redis : Type 1 where
  pub State : Type 0
  pub set : String → String → ℕ → State → Reply (Unit {0}) × State
  pub get : String → State → Reply String × State
  pub get_del : String → State → Reply String × State
  pub del : List String → State → Reply (Unit {0}) × State
  pub exists : String → State → Reply ℕ × State
  -- a time.Duration: whole seconds, or a count of nanoseconds below 0
  pub ttl : String → State → Reply ℤ × State
  -- Time passes while the program sends nothing.
  pub wait : ℕ → State → State

-- What GET and GETDEL may answer where `held` is stored: the value or redis.Nil, or a failure of
-- the connection.
abbrev pub Answers : Option Entry → Reply String → Type 0
Answers held (done v) = (e : Entry) × (held ≡ some e) × (e.value ≡ v)
Answers held (failed redis_nil) = held ≡ none
Answers held (failed _) = Unit

-- What TTL may answer: go-redis hands on Redis's -2 for a missing key and -1 for a key without expiry
-- as they are, as nanoseconds, and turns a number of seconds into that many.
abbrev pub TtlAnswers : Option Entry → Reply ℤ → Type 0
TtlAnswers none (done d) = d ≡ negsuc 1
TtlAnswers (some e) (done d) =
    ((e.ttl ≡ none) × (d ≡ negsuc 0))
    ⊎ ((left seconds : ℕ) × (e.ttl ≡ some left) × (d ≡ pos (seconds * 1000000000)))
TtlAnswers held (failed _) = Unit

abbrev pub lives_for : ℕ → Option ℕ
lives_for ttl = if leb ttl 0 then none else some ttl

-- What is left of an entry after a time.
abbrev pub aged : ℕ → Option Entry → Option Entry
aged n none = none
aged n (some e) = elim e.ttl [
  | none ↦ some e
  | some left ↦
      if leb left n then none else some (record { value = e.value; ttl = some (left - n) })
]

-- Redis keeps a map from keys to live entries. A command that fails may or may not have changed
-- its own key, and changes no other.
pub record IsRedis (r : Redis) : Type 0 where
  pub view : r.State → String → Option Entry
  pub set_done :
      (k v : String) (ttl : ℕ) (s : r.State)
      → (r.set k v ttl s).0 ≡ done tt
      → view (r.set k v ttl s).1 k ≡ some (record { value = v; ttl = lives_for ttl })
  -- whatever the reply, the key holds the new value or what it held
  pub set_self :
      (k v : String) (ttl : ℕ) (s : r.State)
      → (view (r.set k v ttl s).1 k ≡ some (record { value = v; ttl = lives_for ttl }))
        ⊎ (view (r.set k v ttl s).1 k ≡ view s k)
  pub set_other :
      (k j v : String) (ttl : ℕ) (s : r.State) → k ≢ j → view (r.set k v ttl s).1 j ≡ view s j
  pub get_answers : (k : String) (s : r.State) → Answers (view s k) (r.get k s).0
  pub get_keeps : (k j : String) (s : r.State) → view (r.get k s).1 j ≡ view s j
  pub get_del_answers : (k : String) (s : r.State) → Answers (view s k) (r.get_del k s).0
  pub get_del_done :
      (k v : String) (s : r.State) → (r.get_del k s).0 ≡ done v → view (r.get_del k s).1 k ≡ none
  -- whatever the reply, the key holds what it held or nothing
  pub get_del_self :
      (k : String) (s : r.State)
      → (view (r.get_del k s).1 k ≡ none) ⊎ (view (r.get_del k s).1 k ≡ view s k)
  pub get_del_other : (k j : String) (s : r.State) → k ≢ j → view (r.get_del k s).1 j ≡ view s j
  pub del_done :
      (ks : List String) (k : String) (s : r.State)
      → (r.del ks s).0 ≡ done tt
      → view (r.del ks s).1 k ≡ (if contains ks k then none else view s k)
  -- whatever the reply, no key gets a value that it did not hold
  pub del_self :
      (ks : List String) (k : String) (s : r.State)
      → (view (r.del ks s).1 k ≡ none) ⊎ (view (r.del ks s).1 k ≡ view s k)
  pub ttl_answers : (k : String) (s : r.State) → TtlAnswers (view s k) (r.ttl k s).0
  pub wait_ages : (n : ℕ) (k : String) (s : r.State) → view (r.wait n s) k ≡ aged n (view s k)

-- No command of the program meets a failure of the connection.
pub record RedisIsUp (r : Redis) : Type 0 where
  pub set_up : (k v : String) (ttl : ℕ) (s : r.State) → (r.set k v ttl s).0 ≡ done tt
  pub get_up : (k : String) (s : r.State) (f : Fault) → (r.get k s).0 ≡ failed f → f ≡ redis_nil
  pub get_del_up :
      (k : String) (s : r.State) (f : Fault) → (r.get_del k s).0 ≡ failed f → f ≡ redis_nil
  pub del_up : (ks : List String) (s : r.State) → (r.del ks s).0 ≡ done tt
