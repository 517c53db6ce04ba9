-- ===== src/Job/Lifecycle/History.antt =====
-- internal/job/sync_scheduler.go: the steps of the scheduler's goroutine against the loop of `run`.
use search_engine_service.Base.{ℕ, zero, suc, ◌≡◌, List, [], ◌∷◌, ◌++◌, Bool, true, ◌⊎◌}
use search_engine_service.Job.{SyncScheduler, SyncOutcome, SchedulerEvent, tick, execute_sync, run}
use search_engine_service.Job.Lifecycle.{
  Routine, absent, entered, executing, selecting, returned, Lifecycle,
}

abbrev pub ticks_of : ℕ → List SchedulerEvent
ticks_of zero = []
ticks_of (suc n) = tick ∷ ticks_of n

module _ {W : Type 0} (s : SyncScheduler W) where
  -- One more execution after those that have been.
  abbrev once_more : List SyncOutcome × W → List SyncOutcome × W
  once_more out = (out.0 ++ (execute_sync s out.1).0 ∷ [], (execute_sync s out.1).1)

  -- The outcomes, and the world that the executions have left.
  abbrev pub log : Lifecycle W → List SyncOutcome × W
  log l = (l.outcomes, l.world)

  module _ (on_startup : Bool) (w : W) where
    abbrev pub Ran : List SyncOutcome × W → Type 0
    Ran out = (n : ℕ) × (out ≡ run s on_startup (ticks_of n) w)

    abbrev pub Untouched : List SyncOutcome × W → Type 0
    Untouched out = out ≡ ([], w)

    -- What has been executed at each point of the goroutine.
    abbrev pub HistoryAt : Routine → List SyncOutcome × W → Type 0
    HistoryAt absent out = Untouched out
    HistoryAt (entered b) out = (b ≡ on_startup) × Untouched out
    HistoryAt executing out = ((on_startup ≡ true) × Untouched out) ⊎ Ran out
    HistoryAt selecting out = Ran out
    HistoryAt returned out = Ran out
