-- ===== src/Job/Cooldown.antt =====
-- internal/job/sync_scheduler.go, `executeSync`, in all instances of the service: the time between two
-- synchronisations.
pub mod Lockers
pub mod Hosting
use search_engine_service.Base.{
  ℕ, ◌+◌, ◌≤◌, ◌<◌, ◌≡◌, refl, sym, subst, inl, inr, ◌≢◌, List, [], ◌∷◌, Bool, true, false,
  Bool-cases, arith,
}
use search_engine_service.Base.Int.{pos_part}
use search_engine_service.Base.Effects.{Result, ok, err, Eff, pure, ◌>>=◌}
use search_engine_service.Domain.Content.{Duration}
use search_engine_service.Service.Sync.{SyncResult}
use search_engine_service.Locker.{DistributedLocker}
use search_engine_service.Job.{
  SyncScheduler, lock_key, SyncOutcome, lock_error, skipped, failed, completed, has_error,
  handle_results, after_acquire, execute_sync,
}

-- `Leased w i e` says that in the world `w` instance `i` holds the lock until the time `e`, and
-- `now w` is the time. What the lock's documentation promises: an acquisition that succeeds leaves
-- a lease of at least the given length, and was not made while another lease was running; a lease
-- that is running is taken away by its own holder's release alone; time does not go back.
pub record LockContract {W : Type 0} (now : W → ℕ) (Leased : W → ℕ → ℕ → Type 0)
    (locker : ℕ → DistributedLocker W) : Type 0 where
  pub acquire_leases :
      (i : ℕ) (ttl : Duration) (w : W)
      → ((locker i).acquire lock_key ttl w).0 ≡ ok true
      → (e : ℕ) × (now w + pos_part ttl ≤ e) × Leased ((locker i).acquire lock_key ttl w).1 i e
  pub acquire_excludes :
      (i : ℕ) (ttl : Duration) (w : W) (j e : ℕ)
      → ((locker i).acquire lock_key ttl w).0 ≡ ok true
      → Leased w j e
      → e ≤ now ((locker i).acquire lock_key ttl w).1
  pub acquire_keeps :
      (i : ℕ) (ttl : Duration) (w : W) (j e : ℕ)
      → Leased w j e
      → now ((locker i).acquire lock_key ttl w).1 < e
      → Leased ((locker i).acquire lock_key ttl w).1 j e
  pub acquire_clock :
      (i : ℕ) (ttl : Duration) (w : W) → now w ≤ now ((locker i).acquire lock_key ttl w).1
  pub release_clock : (i : ℕ) (w : W) → now w ≤ now ((locker i).release lock_key w).1

-- What a synchronisation may do meanwhile, other instances included: time passes, and a running
-- lease stays.
pub record SyncContract {W : Type 0} (now : W → ℕ) (Leased : W → ℕ → ℕ → Type 0)
    (sync : Duration → Eff W (List SyncResult)) : Type 0 where
  pub sync_keeps :
      (t : Duration) (w : W) (j e : ℕ)
      → Leased w j e
      → now (sync t w).1 < e
      → Leased (sync t w).1 j e
  pub sync_clock : (t : Duration) (w : W) → now w ≤ now (sync t w).1

-- The instances of the service: schedulers with one interval, each with its own locker.
abbrev cluster :
    {W : Type 0}
    → (ℕ → Duration → Eff W (List SyncResult))
    → Duration
    → Duration
    → (ℕ → DistributedLocker W)
    → ℕ
    → SyncScheduler W
cluster sync interval timeout locker i = record {
  sync = sync i;
  interval = interval;
  timeout = timeout;
  locker = locker i;
}

-- The synchronisation was not run.
abbrev pub IsBlocked : SyncOutcome → Type 0
IsBlocked (lock_error e) = Unit {0}
IsBlocked skipped = Unit {0}
IsBlocked (failed n m r) = ⊥
IsBlocked (completed n) = ⊥

module _ {W : Type 0} (now : W → ℕ) (Leased : W → ℕ → ℕ → Type 0)
    (sync : ℕ → Duration → Eff W (List SyncResult)) (interval timeout : Duration)
    (locker : ℕ → DistributedLocker W) where
  abbrev pub instance_at : ℕ → SyncScheduler W
  instance_at = cluster sync interval timeout locker

  -- Instances execute one sync after the other; what overlaps with a sync is part of it.
  abbrev pub run_all : List ℕ → Eff W (Unit {0})
  run_all [] = pure tt
  run_all (j ∷ js) = do _ ← execute_sync (instance_at j); run_all js

  module _ (lock : LockContract now Leased locker)
      (work : (i : ℕ) → SyncContract now Leased (sync i)) where
    handle_results_clock :
        (i : ℕ) (rs : List SyncResult) (w : W) → now w ≤ now (handle_results (instance_at i) rs w).1
    unfolding handle_results
    handle_results_clock i rs w = elim (Bool-cases (has_error rs)) [
      | inl bad ↦ rw bad (lock.release_clock i w)
      | inr good ↦ rw good (omega arith)
    ]

    handle_results_kept :
        (i : ℕ) (rs : List SyncResult) (w : W) (n : ℕ)
        → (handle_results (instance_at i) rs w).0 ≡ completed n
        → (handle_results (instance_at i) rs w).1 ≡ w
    unfolding handle_results
    handle_results_kept i rs w n e = ground arith

    after_acquire_clock :
        (i : ℕ) (r : Result Bool) (w : W) → now w ≤ now (after_acquire (instance_at i) r w).1
    unfolding after_acquire
    after_acquire_clock i (err x) w = omega arith
    after_acquire_clock i (ok false) w = omega arith
    after_acquire_clock i (ok true) w =
        let synced = (sync i timeout w).1 in
        omega
          (arith, (work i).sync_clock timeout w, handle_results_clock i (sync i timeout w).0 synced)

    execute_sync_clock : (i : ℕ) (w : W) → now w ≤ now (execute_sync (instance_at i) w).1
    unfolding execute_sync
    execute_sync_clock i w =
        let acquired = (locker i).acquire lock_key interval w in
        omega (arith, lock.acquire_clock i interval w, after_acquire_clock i acquired.0 acquired.1)

    -- A lease of `i` until `e`, as long as it runs.
    abbrev Holds : ℕ → ℕ → W → Type 0
    Holds i e w = now w < e → Leased w i e

    after_acquire-Holds :
        (i : ℕ) (r : Result Bool) (w : W) (e n : ℕ)
        → (r ≡ ok true → Leased w i e)
        → (after_acquire (instance_at i) r w).0 ≡ completed n
        → Holds i e (after_acquire (instance_at i) r w).1
    unfolding after_acquire
    after_acquire-Holds i (err x) w e n leased h = cc
    after_acquire-Holds i (ok false) w e n leased h = cc
    after_acquire-Holds i (ok true) w e n leased h =
        let synced = sync i timeout w in
        subst (Holds i e) (sym (handle_results_kept i synced.0 synced.1 n h))
          ((work i).sync_keeps timeout w i e (leased refl))

    -- A completed sync leaves its instance a lease of the whole interval.
    execute_sync-Holds :
        (i : ℕ) (w : W) (n : ℕ)
        → (execute_sync (instance_at i) w).0 ≡ completed n
        → (e : ℕ) × (now w + pos_part interval ≤ e) × Holds i e (execute_sync (instance_at i) w).1
    unfolding execute_sync
    execute_sync-Holds i w n h =
        let acquired = (locker i).acquire lock_key interval w in acquired_cases acquired.0 refl
      where
        acquired_cases :
            (r : Result Bool)
            → ((locker i).acquire lock_key interval w).0 ≡ r
            → (e : ℕ) × (now w + pos_part interval ≤ e)
              × Holds i e (execute_sync (instance_at i) w).1
        acquired_cases (ok true) got =
            let (e, far, leased) = lock.acquire_leases i interval w got in
            (e, far, after_acquire-Holds i _ _ e n (λ same. leased) h)
        acquired_cases (ok false) got = cc
        acquired_cases (err x) got = cc

    after_acquire-IsBlocked :
        (j : ℕ) (r : Result Bool) (v : W)
        → r ≢ ok true
        → IsBlocked (after_acquire (instance_at j) r v).0
          × ((after_acquire (instance_at j) r v).1 ≡ v)
    unfolding after_acquire
    after_acquire-IsBlocked j (err x) v h = (tt, refl)
    after_acquire-IsBlocked j (ok false) v h = (tt, refl)
    after_acquire-IsBlocked j (ok true) v h = absurd (h refl)

    -- While a lease runs, an execution of any instance runs no sync and leaves the lease.
    execute_sync-IsBlocked :
        (i j e : ℕ) (v : W)
        → Leased v i e
        → now (execute_sync (instance_at j) v).1 < e
        → IsBlocked (execute_sync (instance_at j) v).0
          × Leased (execute_sync (instance_at j) v).1 i e
    unfolding execute_sync
    execute_sync-IsBlocked i j e v leased soon =
        let acquired = (locker j).acquire lock_key interval v in
        let later = after_acquire_clock j acquired.0 acquired.1 in
        let refused : acquired.0 ≢ ok true =
          λ got. absurd (omega (arith, lock.acquire_excludes j interval v i e got leased)) in
        let (blocked, same) = after_acquire-IsBlocked j acquired.0 acquired.1 refused in
        (
          blocked,
          subst (λ u. Leased u i e) (sym same)
              (lock.acquire_keeps j interval v i e leased (omega arith)),
        )

    run_all_clock : (js : List ℕ) (w : W) → now w ≤ now (run_all js w).1
    run_all_clock [] w = omega arith
    run_all_clock (j ∷ js) w =
        let next = (execute_sync (instance_at j) w).1 in
        omega (arith, execute_sync_clock j w, run_all_clock js next)

    run_all-Leased :
        (i e : ℕ) (js : List ℕ) (v : W)
        → Leased v i e
        → now (run_all js v).1 < e
        → Leased (run_all js v).1 i e
    run_all-Leased i e [] v leased soon = leased
    run_all-Leased i e (j ∷ js) v leased soon =
        let next = (execute_sync (instance_at j) v).1 in
        let in_time = run_all_clock js next in
        run_all-Leased i e js next (execute_sync-IsBlocked i j e v leased (omega arith)).1 soon

    -- For a lock and for syncs that keep their contracts: once instance `i` has completed a sync
    -- without errors that it began at the time `now w`, and whatever executions of whatever
    -- instances follow, an execution of any instance that is over before `now w` plus the interval
    -- runs no sync.
    pub cooldown :
        (i : ℕ) (w : W) (n : ℕ) (js : List ℕ) (j : ℕ)
        → (execute_sync (instance_at i) w).0 ≡ completed n
        → let v = (run_all js (execute_sync (instance_at i) w).1).1 in
          now (execute_sync (instance_at j) v).1 < now w + pos_part interval
          → IsBlocked (execute_sync (instance_at j) v).0
    cooldown i w n js j h soon =
        let first = (execute_sync (instance_at i) w).1 in
        let v = (run_all js first).1 in
        let (e, far, holds) = execute_sync-Holds i w n h in
        let clock1 = run_all_clock js first in
        let clock2 = execute_sync_clock j v in
        let leased = run_all-Leased i e js first (holds (omega arith)) (omega arith) in
        (execute_sync-IsBlocked i j e v leased (omega arith)).0
