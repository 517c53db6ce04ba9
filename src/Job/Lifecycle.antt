-- ===== src/Job/Lifecycle.antt =====
-- internal/job/sync_scheduler.go, `Start`, `Stop` and `run` as one step relation: the scheduler's
-- goroutine, the caller of `Stop`, the context and the wait group between them. `main` calls `Start`
-- once, and `Stop` after it; a `Stop` before it, which would call a nil function, is no step.
pub mod Stopping
pub mod History
use search_engine_service.Base.{ℕ, ◌+◌, ◌-◌, ◌≡◌, ◌≢◌, List, [], ◌∷◌, ◌++◌, Bool, true, false}
use search_engine_service.Job.{SyncScheduler, SyncOutcome, execute_sync}

-- Where the goroutine stands: not started; in `run`, told whether to sync at once; in
-- `executeSync`; in `select`; at its end.
pub data Routine : Type 0 where
  absent : Routine
  entered : Bool → Routine
  executing selecting returned : Routine

-- Where the call of `Stop` stands: not made; past `cancel`, in `wg.Wait`; over.
pub data StopCall : Type 0 where
  not_called awaiting stopped : StopCall

pub record Lifecycle (W : Type 0) : Type 0 where
  pub routine : Routine
  pub stop : StopCall
  pub cancelled : Bool
  pub waiting : ℕ
  pub outcomes : List SyncOutcome
  pub world : W

abbrev pub not_started : {W : Type 0} → W → Lifecycle W
not_started w = record {
  routine = absent;
  stop = not_called;
  cancelled = false;
  waiting = 0;
  outcomes = [];
  world = w;
}

module _ {W : Type 0} (s : SyncScheduler W) (on_startup : Bool) where
  -- A tick and a cancelled context can both be ready: then `select` takes either.
  pub data Step (l : Lifecycle W) : Lifecycle W → Type 0 where
    start :
        l.routine ≡ absent
        → Step l
            (record l { routine = entered on_startup; waiting = l.waiting + 1; cancelled = false })
    sync_first : l.routine ≡ entered true → Step l (record l { routine = executing })
    sync_later : l.routine ≡ entered false → Step l (record l { routine = selecting })
    executed :
        l.routine ≡ executing
        → Step l (record l {
          routine = selecting;
          outcomes = l.outcomes ++ (execute_sync s l.world).0 ∷ [];
          world = (execute_sync s l.world).1;
        })
    ticked : l.routine ≡ selecting → Step l (record l { routine = executing })
    done :
        l.routine ≡ selecting
        → l.cancelled ≡ true
        → Step l (record l { routine = returned; waiting = l.waiting - 1 })
    stop_called :
        l.routine ≢ absent
        → l.stop ≡ not_called
        → Step l (record l { cancelled = true; stop = awaiting })
    stop_over : l.stop ≡ awaiting → l.waiting ≡ 0 → Step l (record l { stop = stopped })

  pub data Reach (l : Lifecycle W) : Lifecycle W → Type 0 where
    here : Reach l l
    next : {m n : Lifecycle W} → Reach l m → Step m n → Reach l n
