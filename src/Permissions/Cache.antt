-- ===== src/Permissions/Cache.antt =====
-- common/redis/cache.service.ts: a failure of Redis is logged and otherwise ignored.
use api_payment.Common.{ℕ, ◌*◌, String, ◌&?◌, Option, none, truthy}
use api_payment.Common.Exec.{Result, ok, throw, Exec}
use api_payment.Platform.Redis.{Json}
use api_payment.Permissions.Store.{Environment, Store}

-- `RedisPolicies.permissionsCacheTtlSeconds`
abbrev pub cache_ttl : ℕ
cache_ttl = 30 * 60

module _ {A : Type 0} (j : Json A) where
  unfoldable pub parsed : Result (Option String) → Option A
  parsed (ok value) = truthy value &? j.parse
  parsed (throw x) = none

module _ (v : Environment) where
  module _ {A : Type 0} (j : Json A) where
    unfoldable pub cache_get : String → Exec (Store v) (Option A)
    unfolding parsed
    cache_get key s = (ok (parsed j (v.redis.get key s.cache)), s)

    unfoldable pub cache_set : String → A → Exec (Store v) (Unit {0})
    cache_set key value s =
        (ok tt, record s { cache = (v.redis.set key (j.stringify value) cache_ttl s.cache).1 })

  unfoldable pub cache_del : String → Exec (Store v) (Unit {0})
  cache_del key s = (ok tt, record s { cache = (v.redis.del key s.cache).1 })
