-- ===== src/Tests/LockerTests.antt =====
-- pkg/locker/redis.go over a Redsync that counts its mutexes.
use search_engine_service.Base.{
  ◌==◌, nat_eq, ==_iff, ℕ, suc, ◌+◌, leb, Bool-cases, inl, inr, arith, String, ◌&&◌, ◌≡◌, refl, [],
  true, if◌then◌else◌, string_eq,
}
use search_engine_service.Base.Int.{pos, pos_part}
use search_engine_service.Base.Effects.{ok, err, lock_failed}
use search_engine_service.Locker.{Redsync, RedisLocker, acquire, release}
use search_engine_service.Job.Cooldown.{LockContract}
use search_engine_service.Job.{lock_key}
use search_engine_service.Job.Cooldown.Lockers.{
  RedsyncContract, clock, Leased, lockers, lockers-LockContract,
}
use search_engine_service.Locker.Handles.{release-acquire}

-- An unlocked mutex leaves its number and the count in the world.
abbrev counting : Redsync (ℕ × ℕ) ℕ
counting = record {
  new_mutex = λ key ttl w. (w.0, (suc w.0, w.1));
  lock = λ m w. (ok tt, w);
  unlock = λ m w. (ok true, (w.0, m));
}

abbrev idle : RedisLocker (ℕ × ℕ) ℕ
idle = record { mutexes = []; world = (7, 0) }

abbrev holding : RedisLocker (ℕ × ℕ) ℕ
holding = (acquire counting "sync" (pos 5) idle).1

release-acquire_example : (release counting "sync" holding).1.world ≡ (8, 7)
unfolding acquire
release-acquire_example = release-acquire counting "sync" (pos 5) idle refl

-- A Redis with the lock of the scheduler, as its holder and the time until which it is held, and with
-- locks of other keys that are always free; nothing takes time.
record Redis : Type 0 where
  time : ℕ
  holder : ℕ
  until : ℕ

abbrev one_lock : ℕ → Redsync Redis (String × ℕ)
one_lock i = record {
  new_mutex = λ key ttl w. ((key, pos_part ttl), w);
  lock = λ m w.
      if m.0 == lock_key
      then (if leb w.until w.time
          then (ok tt, record w { holder = i; until = w.time + m.1 })
          else (err lock_failed, w))
      else (ok tt, w);
  unlock = λ m w. (ok true, if m.0 == lock_key && w.holder == i then record w { until = 0 } else w);
}

abbrev time_of : Redis → ℕ
time_of w = w.time

abbrev Runs : Redis → ℕ → ℕ → Type 0
Runs w i e = (w.holder ≡ i) × (w.until ≡ e)

one_lock-RedsyncContract : RedsyncContract time_of Runs one_lock
one_lock-RedsyncContract = record {
  mutex_keeps = λ i ttl w j e runs soon. runs;
  mutex_clock = λ i ttl w. omega arith;
  lock_runs = λ i ttl w got. elim (Bool-cases (leb w.until w.time)) [
    | inl free ↦ rw free (w.time + pos_part ttl, omega arith, (refl, refl))
    | inr taken ↦ absurd (ground arith)
  ];
  lock_excludes = λ i ttl w j e got runs. ground arith;
  lock_keeps = λ i m w j e runs soon. ground arith;
  lock_clock = λ i m w. ground arith;
  unlock_keeps = λ i m w j e other runs soon. ground (arith, ==_iff w.holder i);
  unlock_clock = λ i m w. ground arith;
}

lockers-LockContract_example :
    LockContract
      (clock time_of Runs one_lock one_lock-RedsyncContract)
      (Leased time_of Runs one_lock one_lock-RedsyncContract)
      (lockers one_lock)
lockers-LockContract_example = lockers-LockContract time_of Runs one_lock one_lock-RedsyncContract
