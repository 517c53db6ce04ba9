-- ===== src/Tests/LifecycleTests.antt =====
-- internal/job/sync_scheduler.go: one scheduler that is started, syncs once and is stopped.
use search_engine_service.Base.{ℕ, suc, ◌≡◌, ◌≢◌, refl, [], ◌∷◌, none, true}
use search_engine_service.Base.Int.{pos}
use search_engine_service.Base.Effects.{ok}
use search_engine_service.Service.Sync.{SyncResult}
use search_engine_service.Job.{SyncScheduler}
use search_engine_service.Job.Lifecycle.{
  absent, executing, returned, Lifecycle, not_started, Step, start, sync_first, executed, done,
  stop_called, stop_over, Reach, here, next,
}
use search_engine_service.Job.Lifecycle.Stopping.{stopped-quiet, Stop-Ends, Ends}

abbrev result : SyncResult
result = record { provider = "a"; count = 3; duration = pos 0; error = none }

-- The world counts the syncs; nobody else takes the lock.
abbrev counting : SyncScheduler ℕ
counting = record {
  sync = λ t n. (result ∷ [], suc n);
  interval = pos 5;
  timeout = pos 3;
  locker = record { acquire = λ key ttl n. (ok true, n); release = λ key n. (ok tt, n) };
}

abbrev in_sync : (l : Lifecycle ℕ) × Reach counting true (not_started 0) l
in_sync = (_, next (next here (start refl)) (sync_first refl))

executing_not_absent : executing ≢ absent
executing_not_absent e = cc

abbrev cancelled_in_sync : (l : Lifecycle ℕ) × Reach counting true (not_started 0) l
cancelled_in_sync = (_, next in_sync.1 (stop_called executing_not_absent refl))

abbrev after_stop : (l : Lifecycle ℕ) × Reach counting true (not_started 0) l
after_stop = (
  _,
  next (next (next cancelled_in_sync.1 (executed refl)) (done refl refl)) (stop_over refl refl),
)

stopped-quiet_example :
    (after_stop.0.routine ≡ returned)
    × (after_stop.0.waiting ≡ 0)
    × ((m : Lifecycle ℕ) → ¬ Step counting true after_stop.0 m)
stopped-quiet_example = stopped-quiet counting true after_stop.1 refl

Stop-Ends_example : Ends counting true cancelled_in_sync.0
Stop-Ends_example = Stop-Ends counting true cancelled_in_sync.1 refl
