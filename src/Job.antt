-- ===== src/Job.antt =====
-- internal/job/sync_scheduler.go. A sync, a lock and a wait change the world; the scheduler's own
-- goroutine is the list of what its `select` receives. What the scheduler logs last is its outcome.
pub mod Cooldown
pub mod Loop
pub mod Lifecycle
pub mod Interleaving
use search_engine_service.Base.{
  ℕ, String, List, [], ◌∷◌, Option, none, some, Bool, true, false, if◌then◌else◌,
}
use search_engine_service.Base.Effects.{Error, Result, ok, err, Eff, pure, ◌>>=◌, ◌>>◌}
use search_engine_service.Domain.Content.{Duration}
use search_engine_service.Service.Sync.{SyncResult, count_results}
use search_engine_service.Locker.{DistributedLocker}

pub record SyncConfig : Type 0 where
  pub interval : Duration
  pub timeout : Duration
  pub on_startup : Bool

-- `sync timeout` is `SyncAll` in a context that expires after `timeout`.
pub record SyncScheduler (W : Type 0) : Type 0 where
  pub sync : Duration → Eff W (List SyncResult)
  pub interval : Duration
  pub timeout : Duration
  pub locker : DistributedLocker W

unfoldable pub new_sync_scheduler :
    {W : Type 0}
    → (Duration → Eff W (List SyncResult))
    → SyncConfig
    → DistributedLocker W
    → SyncScheduler W
new_sync_scheduler sync cfg locker = record {
  sync = sync;
  interval = cfg.interval;
  timeout = cfg.timeout;
  locker = locker;
}

abbrev pub lock_key : String
lock_key = "sync:scheduler:lock"

-- The ways in which `executeSync` ends, with what it logs.
pub data SyncOutcome : Type 0 where
  lock_error : Error → SyncOutcome
  skipped : SyncOutcome
  failed : ℕ → ℕ → Result (Unit {0}) → SyncOutcome
  completed : ℕ → SyncOutcome

-- `hasError`.
unfoldable pub has_error : List SyncResult → Bool
has_error [] = false
has_error (r ∷ rs) = let rest = has_error rs in elim r.error [ none ↦ rest | some e ↦ true ]

-- What the loop's `select` receives.
pub data SchedulerEvent : Type 0 where
  tick stopped : SchedulerEvent

module _ {W : Type 0} (s : SyncScheduler W) where
  -- The lock is released after an error, and kept until it expires otherwise.
  unfoldable pub handle_results : List SyncResult → Eff W SyncOutcome
  unfolding has_error count_results
  handle_results results =
      let (synced, errors) = count_results results in
      if has_error results
      then (do released ← s.locker.release lock_key; pure (failed synced errors released))
      else pure (completed synced)

  unfoldable pub after_acquire : Result Bool → Eff W SyncOutcome
  unfolding handle_results
  after_acquire (err e) = pure (lock_error e)
  after_acquire (ok false) = pure skipped
  after_acquire (ok true) = do results ← s.sync s.timeout; handle_results results

  unfoldable pub execute_sync : Eff W SyncOutcome
  unfolding after_acquire
  execute_sync = do acquired ← s.locker.acquire lock_key s.interval; after_acquire acquired

  unfoldable pub loop : List SchedulerEvent → Eff W (List SyncOutcome)
  unfolding execute_sync
  loop [] = pure []
  loop (stopped ∷ events) = pure []
  loop (tick ∷ events) = do
    outcome ← execute_sync
    outcomes ← loop events
    pure (outcome ∷ outcomes)

  -- The scheduler's goroutine, up to the last of the given events.
  unfoldable pub run : Bool → List SchedulerEvent → Eff W (List SyncOutcome)
  unfolding loop
  run true events = do outcome ← execute_sync; outcomes ← loop events; pure (outcome ∷ outcomes)
  run false events = loop events
