-- ===== src/Cache.antt =====
-- internal/cache/redis.go: the wrapper over go-redis.
pub mod Held
pub mod Ttl
use Prim.Native.String.{◌++◌ as concat}
use iam_service.Prelude.{
  ℕ, ℤ, pos, negsuc, String, Bool, false, List, leb, ◌&&◌, ltb, if◌then◌else◌,
}
use iam_service.Errors.{Error, sentinel, redis_key_not_found, is_redis_nil, at}
use iam_service.Effect.{M, pure, fail, relabel, ◌>>=◌}
use iam_service.Platform.{Platform, World, on_kv}

-- `==` on durations
abbrev pub same_duration : ℤ → ℤ → Bool
same_duration (pos a) (pos b) = leb a b && leb b a
same_duration (negsuc a) (negsuc b) = leb a b && leb b a
same_duration _ _ = false

-- -2*time.Second and -1*time.Second
abbrev pub no_key : ℤ
no_key = negsuc 1999999999

abbrev pub no_expiry : ℤ
no_expiry = negsuc 999999999

module _ (p : Platform) where
  abbrev pub named : String → String → Error → Error
  named command key e = at (concat command (concat " " (p.host.quote key))) e

  -- redis.Nil becomes ErrRedisKeyNotFound.
  abbrev pub missing_or : String → String → Error → Error
  missing_or command key e =
      if is_redis_nil e then sentinel redis_key_not_found else named command key e

  unfoldable pub set : String → String → ℕ → M (World p) (Unit {0})
  set key value ttl = relabel (named "cache.Set" key) (on_kv p (p.redis.set key value ttl))

  unfoldable pub get : String → M (World p) String
  get key = relabel (missing_or "cache.Get" key) (on_kv p (p.redis.get key))

  unfoldable pub get_del : String → M (World p) String
  get_del key = relabel (missing_or "cache.GetDel" key) (on_kv p (p.redis.get_del key))

  unfoldable pub delete : List String → M (World p) (Unit {0})
  delete keys = relabel (at "cache.Delete") (on_kv p (p.redis.del keys))

  unfoldable pub exists : String → M (World p) Bool
  exists key = do
    n ← relabel (named "cache.Exists" key) (on_kv p (p.redis.exists key))
    pure (ltb 0 n)

  unfoldable pub ttl : String → M (World p) ℤ
  ttl key = do
    d ← relabel (named "cache.TTL" key) (on_kv p (p.redis.ttl key))
    if same_duration d no_key
        then fail (sentinel redis_key_not_found)
        else if same_duration d no_expiry
        then pure (pos 0)
        else pure d
