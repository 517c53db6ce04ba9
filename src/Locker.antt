-- ===== src/Locker.antt =====
-- pkg/locker: the interface of a distributed lock (locker.go), and its implementation over Redsync
-- (redis.go). Redsync is a parameter: a mutex is a handle into the world, which holds its token.
pub mod Handles
use search_engine_service.Base.{
  String, ◌<>◌, List, [], Option, none, some, Bool, true, false, ◌||◌, contains, if◌then◌else◌,
}
use search_engine_service.Base.Effects.{
  Error, plain, wrapped, record_not_found, redis_nil, lock_failed, panicked, error_text, Result, ok,
  err, Eff,
}
use search_engine_service.Base.Dict.{lookup, insert, erase}
use search_engine_service.Domain.Content.{Duration}

-- `DistributedLocker`.
pub record DistributedLocker (W : Type 0) : Type 0 where
  pub acquire : String → Duration → Eff W (Result Bool)
  pub release : String → Eff W (Result (Unit {0}))

-- `NewMutex` (with one try), `LockContext` and `UnlockContext`.
pub record Redsync (W M : Type 0) : Type 0 where
  pub new_mutex : String → Duration → Eff W M
  pub lock : M → Eff W (Result (Unit {0}))
  pub unlock : M → Eff W (Result Bool)

-- The mutexes that this instance has locked, by key, in their world.
pub record RedisLocker (W M : Type 0) : Type 0 where
  pub mutexes : List (String × M)
  pub world : W

-- `err == redsync.ErrFailed`.
abbrev is_lock_failed : Error → Bool
is_lock_failed lock_failed = true
is_lock_failed (plain s) = false
is_lock_failed (wrapped s e) = false
is_lock_failed record_not_found = false
is_lock_failed redis_nil = false
is_lock_failed panicked = false

-- The errors that mean that another instance holds the lock.
unfoldable pub is_contention : Error → Bool
is_contention e = is_lock_failed e || contains (error_text e) "lock already taken"

unfoldable pub after_unlock : String → Result Bool → Result (Unit {0})
after_unlock key (ok released) = ok tt
after_unlock key (err e) = err (wrapped ("release lock " <> key) e)

module _ {W M : Type 0} where
  unfoldable pub new_redis_locker : W → RedisLocker W M
  new_redis_locker w = record { mutexes = []; world = w }

  unfoldable pub after_lock :
      String → M → Result (Unit {0}) → RedisLocker W M → Result Bool × RedisLocker W M
  unfolding is_contention
  after_lock key mutex (ok done) l = (ok true, record l { mutexes = insert key mutex l.mutexes })
  after_lock key mutex (err e) l =
      (if is_contention e then ok false else err (wrapped ("acquire lock " <> key) e), l)

  unfoldable pub acquire : Redsync W M → String → Duration → Eff (RedisLocker W M) (Result Bool)
  unfolding after_lock
  acquire rs key ttl l =
      let (mutex, w1) = rs.new_mutex key ttl l.world in
      let (locked, w2) = rs.lock mutex w1 in after_lock key mutex locked (record l { world = w2 })

  unfoldable pub release_mutex :
      Redsync W M → String → Option M → Eff (RedisLocker W M) (Result (Unit {0}))
  unfolding after_unlock
  release_mutex rs key none l = (ok tt, l)
  release_mutex rs key (some mutex) l =
      let (unlocked, w) = rs.unlock mutex l.world in
      (after_unlock key unlocked, record { mutexes = erase key l.mutexes; world = w })

  unfoldable pub release : Redsync W M → String → Eff (RedisLocker W M) (Result (Unit {0}))
  unfolding release_mutex
  release rs key l = release_mutex rs key (lookup key l.mutexes) l

  -- The interface that the scheduler is given.
  unfoldable pub as_locker : Redsync W M → DistributedLocker (RedisLocker W M)
  unfolding acquire release
  as_locker rs = record { acquire = acquire rs; release = release rs }
