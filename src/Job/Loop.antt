-- ===== src/Job/Loop.antt =====
-- internal/job/sync_scheduler.go, `run`: which executions the scheduler's goroutine makes, and when
-- an execution releases the lock.
use search_engine_service.Base.{
  ℕ, zero, suc, ◌+◌, ◌≡◌, refl, List, [], ◌∷◌, true, false, arith, none, some, if◌then◌else◌, ◌==◌,
  nat_eq,
}
use search_engine_service.Service.Sync.{SyncResult, count_results}
use search_engine_service.Base.Effects.{Eff, pure, ◌>>=◌}
use search_engine_service.Job.{
  SyncScheduler, SchedulerEvent, tick, stopped, SyncOutcome, failed, completed, has_error, lock_key,
  handle_results, execute_sync,
}

-- The ticks before the first stop.
abbrev pub ticks : List SchedulerEvent → ℕ
ticks [] = 0
ticks (stopped ∷ events) = 0
ticks (tick ∷ events) = suc (ticks events)

-- The total of the counts of the results without an error, and the number of those with one.
abbrev pub synced_total : List SyncResult → ℕ
synced_total [] = 0
synced_total (r ∷ rs) = elim r.error [ none ↦ r.count + synced_total rs | some e ↦ synced_total rs ]

abbrev pub error_total : List SyncResult → ℕ
error_total [] = 0
error_total (r ∷ rs) = elim r.error [ none ↦ error_total rs | some e ↦ suc (error_total rs) ]

has_error_total :
    (rs : List SyncResult) → has_error rs ≡ (if error_total rs == 0 then false else true)
unfolding has_error
has_error_total [] = refl
has_error_total (r ∷ rs) = ground (arith, has_error_total rs)

pub count_results_lem :
    (rs : List SyncResult) → count_results rs ≡ (synced_total rs, error_total rs)
unfolding count_results
count_results_lem [] = refl
count_results_lem (r ∷ rs) = ground (arith, count_results_lem rs)

module _ {W : Type 0} (s : SyncScheduler W) where
  -- The outcome of an execution before those that follow it.
  abbrev led_by : W → List SyncOutcome × W → List SyncOutcome × W
  led_by w out = ((execute_sync s w).0 ∷ out.0, out.1)

  -- A number of executions, one after the other, each in the world that the last one has left.
  pub executions : ℕ → Eff W (List SyncOutcome)
  executions zero = pure []
  executions (suc n) = do
    outcome ← execute_sync s
    outcomes ← executions n
    pure (outcome ∷ outcomes)

  -- After a sync the lock is kept, and nothing more is done, if no provider failed; if one failed,
  -- the lock is released at once. The outcome reports the contents of the providers that succeeded
  -- and the number of those that failed.
  pub handle_results_lem :
      (rs : List SyncResult) (w : W)
      → handle_results s rs w ≡ (
          if error_total rs == 0 then (completed (synced_total rs), w) else (
            failed (synced_total rs) (error_total rs) (s.locker.release lock_key w).0,
            (s.locker.release lock_key w).1,
          ))
  unfolding handle_results
  handle_results_lem rs w = ground (arith, has_error_total rs, count_results_lem rs)
