-- ===== src/Infra/Redis.antt =====
-- internal/infra/redis/cache.go. The Redis client is a parameter; `scan` is a whole iteration of
-- `SCAN` with a pattern.
pub mod Contract
use search_engine_service.Base.{String, ◌<>◌, List, [], ◌∷◌, Option, none, some}
use search_engine_service.Base.Effects.{
  Error, redis_nil, plain, wrapped, record_not_found, lock_failed, panicked, Result, ok, err, Eff,
  pure, ◌>>=◌,
}
use search_engine_service.Domain.Content.{Duration}
use search_engine_service.Domain.Ports.{Bytes, Cache}

pub record RedisClient (W : Type 0) : Type 0 where
  pub get : String → Eff W (Result Bytes)
  pub set : String → Bytes → Duration → Eff W (Result (Unit {0}))
  pub del : List String → Eff W (Result (Unit {0}))
  pub scan : String → Eff W (Result (List String))

pub record RedisCache (W : Type 0) : Type 0 where
  pub client : RedisClient W
  pub key_prefix : String

-- `err == redis.Nil` is a missing key, and no error.
unfoldable pub of_get : Result Bytes → Result (Option Bytes)
of_get (ok found) = ok (some found)
of_get (err redis_nil) = ok none
of_get (err e) = err e

module _ {W : Type 0} where
  unfoldable pub new_cache : RedisClient W → String → RedisCache W
  new_cache client key_prefix = record { client = client; key_prefix = key_prefix }

  unfoldable pub build_key : RedisCache W → String → String
  build_key c key = c.key_prefix <> (":" <> key)

  unfoldable pub get : RedisCache W → String → Eff W (Result (Option Bytes))
  unfolding of_get build_key
  get c key = do found ← c.client.get (build_key c key); pure (of_get found)

  unfoldable pub set : RedisCache W → String → Bytes → Duration → Eff W (Result (Unit {0}))
  unfolding build_key
  set c key value ttl = c.client.set (build_key c key) value ttl

  unfoldable pub delete : RedisCache W → String → Eff W (Result (Unit {0}))
  unfolding build_key
  delete c key = c.client.del (build_key c key ∷ [])

  -- `Del` is called only if the scan found keys.
  unfoldable pub delete_found : RedisCache W → Result (List String) → Eff W (Result (Unit {0}))
  delete_found c (ok []) = pure (ok tt)
  delete_found c (ok (k ∷ keys)) = c.client.del (k ∷ keys)
  delete_found c (err e) = pure (err e)

  unfoldable pub clear : RedisCache W → Eff W (Result (Unit {0}))
  unfolding delete_found
  clear c = do found ← c.client.scan (c.key_prefix <> ":*"); delete_found c found

  -- The port that the search service is given.
  unfoldable pub as_cache : RedisCache W → Cache W
  unfolding get set delete clear
  as_cache c = record { get = get c; set = set c; delete = delete c; clear = clear c }
