-- ===== src/Cache/Ttl.antt =====
-- What RedisClient.TTL answers.
use iam_service.Prelude.{
  ℕ, ℤ, pos, negsuc, ◌*◌, String, false, Option, none, some, ◌≡◌, inl, inr, refl,
}
use iam_service.Errors.{Error, is, redis_key_not_found}
use iam_service.Effect.{Reply, done, failed, Result, ok, err, on_error, ◌>>=◌}
use iam_service.Platform.{Platform, World, Entry, TtlAnswers, IsRedis}
use iam_service.Cache

-- A missing key reads as -2 nanoseconds, a key without expiry as -1 nanosecond, any other key as
-- whole seconds; no error is ErrRedisKeyNotFound.
pub data TtlReading (held : Option Entry) (r : Result ℤ) : Type 0 where
  missing : held ≡ none → r ≡ ok (negsuc 1) → TtlReading held r
  lasting : (e : Entry) → held ≡ some e → e.ttl ≡ none → r ≡ ok (negsuc 0) → TtlReading held r
  living :
      (e : Entry) (left seconds : ℕ)
      → held ≡ some e
      → e.ttl ≡ some left
      → r ≡ ok (pos (seconds * 1000000000))
      → TtlReading held r
  broken : (e : Error) → r ≡ err e → is e redis_key_not_found ≡ false → TtlReading held r

module _ (p : Platform) (law : IsRedis p.redis) (key : String) (w : World p) where
  read_done :
      (d : ℤ) (held : Option Entry)
      → (p.redis.ttl key w.kv).0 ≡ done d
      → TtlAnswers held (done d)
      → TtlReading held (Cache.ttl p key w).0
  unfolding Cache.ttl ◌>>=◌ on_error
  read_done d none e answers = rw (e, answers) (missing refl refl)
  read_done d (some entry) e (inl (lasts, answers)) =
      rw (e, answers) (lasting entry refl lasts refl)
  read_done d (some entry) e (inr (left, seconds, lives, answers)) =
      rw (e, answers) (living entry left seconds refl lives refl)

  read :
      (reply : Reply ℤ)
      → (p.redis.ttl key w.kv).0 ≡ reply
      → TtlAnswers (law.view w.kv key) reply
      → TtlReading (law.view w.kv key) (Cache.ttl p key w).0
  unfolding Cache.ttl ◌>>=◌ on_error
  read (done d) e answers = read_done d _ e answers
  read (failed f) e answers = rw e (broken _ refl refl)

  -- TTL reads a missing key as -2 nanoseconds and a key without expiry as -1 nanosecond, neither as
  -- ErrRedisKeyNotFound nor as 0, and every other key as whole seconds; an error of it is a failure
  -- of Redis alone, if Redis keeps its laws.
  pub ttl-TtlReading : TtlReading (law.view w.kv key) (Cache.ttl p key w).0
  ttl-TtlReading = read _ refl (law.ttl_answers key w.kv)
