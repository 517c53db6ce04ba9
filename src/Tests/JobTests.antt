-- ===== src/Tests/JobTests.antt =====
-- internal/job/sync_scheduler.go over a clock and one lease.
use search_engine_service.Base.{
  ℕ, ◌+◌, ◌≡◌, refl, List, [], ◌∷◌, none, some, true, false, arith, leb, ◌==◌, nat_eq,
  if◌then◌else◌, Bool-cases, inl, inr,
}
use search_engine_service.Base.Int.{pos, pos_part}
use search_engine_service.Base.Effects.{plain, ok, Eff}
use search_engine_service.Domain.Content.{Duration}
use search_engine_service.Service.Sync.{SyncResult}
use search_engine_service.Locker.{DistributedLocker}
use search_engine_service.Job.{SyncScheduler, failed, handle_results, execute_sync}
use search_engine_service.Job.Cooldown.{
  LockContract, SyncContract, IsBlocked, instance_at, run_all, cooldown,
}
use search_engine_service.Job.Loop.{handle_results_lem}

record Clock : Type 0 where
  time : ℕ
  holder : ℕ
  until : ℕ

abbrev locker : ℕ → DistributedLocker Clock
locker i = record {
  acquire = λ key ttl w.
      if leb w.until w.time
      then (ok true, record { time = w.time; holder = i; until = w.time + pos_part ttl })
      else (ok false, w);
  release = λ key w. (ok tt, if w.holder == i then record w { until = 0 } else w);
}

abbrev good_result : SyncResult
good_result = record { provider = "a"; count = 3; duration = pos 0; error = none }

abbrev bad_result : SyncResult
bad_result = record { provider = "b"; count = 0; duration = pos 0; error = some (plain "down") }

-- A sync takes one unit of time.
abbrev sync : ℕ → Duration → Eff Clock (List SyncResult)
sync i timeout w = (good_result ∷ [], record w { time = w.time + 1 })

abbrev Leased : Clock → ℕ → ℕ → Type 0
Leased w i e = (w.holder ≡ i) × (w.until ≡ e)

abbrev now : Clock → ℕ
now w = w.time

locker-LockContract : LockContract now Leased locker
locker-LockContract = record {
  acquire_leases = λ i ttl w got. elim (Bool-cases (leb w.until w.time)) [
    | inl free ↦ rw free (w.time + pos_part ttl, omega arith, (refl, refl))
    | inr taken ↦ absurd (ground arith)
  ];
  acquire_excludes = λ i ttl w j e got leased. ground arith;
  acquire_keeps = λ i ttl w j e leased soon. ground arith;
  acquire_clock = λ i ttl w. ground arith;
  release_clock = λ i w. ground arith;
}

sync-SyncContract : (i : ℕ) → SyncContract now Leased (sync i)
sync-SyncContract i = record {
  sync_keeps = λ t w j e leased soon. leased;
  sync_clock = λ t w. omega arith;
}

abbrev start : Clock
start = record { time = 10; holder = 0; until = 0 }

abbrev member : ℕ → SyncScheduler Clock
member = instance_at now Leased sync (pos 5) (pos 3) locker

abbrev after_first : Clock
after_first = (execute_sync (member 0) start).1

abbrev after_second : Clock
after_second = (run_all now Leased sync (pos 5) (pos 3) locker (1 ∷ []) after_first).1

cooldown_example : IsBlocked (execute_sync (member 2) after_second).0
unfolding execute_sync handle_results
cooldown_example =
    cooldown now Leased sync (pos 5) (pos 3) locker locker-LockContract sync-SyncContract 0 start 3
      (1 ∷ []) 2 refl (omega arith)

handle_results_example :
    handle_results (member 0) (good_result ∷ bad_result ∷ []) (record start { until = 15 })
    ≡ (failed 3 1 (ok tt), start)
handle_results_example =
    handle_results_lem (member 0) (good_result ∷ bad_result ∷ []) (record start { until = 15 })
