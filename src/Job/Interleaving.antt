-- ===== src/Job/Interleaving.antt =====
-- internal/job/sync_scheduler.go, `executeSync`, in many instances at once: between the calls of one
-- execution the others make theirs. The order is a list of the instances, each named when it makes
-- its next call; an instance whose execution is over begins the next one.
pub mod Exclusion
use search_engine_service.Base.{
  ℕ, ◌≡◌, refl, sym, ap, ◌∙◌, List, [], ◌∷◌, Option, none, some, Bool, true, false, Bool-cases, inl,
  inr, if◌then◌else◌, ◌==◌, nat_eq,
}
use search_engine_service.Base.Effects.{Result, ok, err, Eff, pure, ◌>>=◌}
use search_engine_service.Service.Sync.{SyncResult, count_results}
use search_engine_service.Job.{
  SyncScheduler, lock_key, SyncOutcome, lock_error, skipped, failed, completed, has_error,
  handle_results, after_acquire, execute_sync,
}

-- Where an execution stands: before its first call, with the outcome of the one before; between the
-- acquisition, with the time at which that was called, and the end of `SyncAll`; and between that
-- and the release.
pub data Phase : Type 0 where
  waiting : Option SyncOutcome → Phase
  syncing : ℕ → Phase
  releasing : List SyncResult → Phase

unfoldable pub after_acquired : ℕ → Result Bool → Phase
after_acquired t (err e) = waiting (some (lock_error e))
after_acquired t (ok false) = waiting (some skipped)
after_acquired t (ok true) = syncing t

unfoldable pub after_sync : List SyncResult → Phase
unfolding has_error count_results
after_sync rs =
    if has_error rs then releasing rs else waiting (some (completed (count_results rs).0))

unfoldable pub after_release : List SyncResult → Result (Unit {0}) → Phase
unfolding count_results
after_release rs released =
    let (synced, errors) = count_results rs in waiting (some (failed synced errors released))

module _ {W : Type 0} (now : W → ℕ) where
  -- The next call of an execution.
  unfoldable pub advance : SyncScheduler W → Phase → Eff W Phase
  unfolding after_acquired after_sync after_release
  advance s (waiting o) w =
      (do acquired ← s.locker.acquire lock_key s.interval; pure (after_acquired (now w) acquired)) w
  advance s (syncing t) w = (do results ← s.sync s.timeout; pure (after_sync results)) w
  advance s (releasing rs) w =
      (do released ← s.locker.release lock_key; pure (after_release rs released)) w

  -- The next call of an execution that has begun.
  abbrev settle : SyncScheduler W → Phase → Eff W Phase
  settle s (waiting o) = pure (waiting o)
  settle s (syncing t) = advance s (syncing t)
  settle s (releasing rs) = advance s (releasing rs)

  abbrev ends : Eff W SyncOutcome → Eff W Phase
  ends m = do o ← m; pure (waiting (some o))

  settle-after_sync :
      (s : SyncScheduler W) (rs : List SyncResult) (w : W)
      → settle s (after_sync rs) w ≡ ends (handle_results s rs) w
  unfolding after_sync handle_results advance
  settle-after_sync s rs w = elim (Bool-cases (has_error rs)) [
    | inl bad ↦ rw bad
    | inr good ↦ rw good
  ]

  settled-after_acquired :
      (s : SyncScheduler W) (t : ℕ) (r : Result Bool) (w : W)
      → (settle s (after_acquired t r) >>= settle s) w ≡ ends (after_acquire s r) w
  unfolding after_acquired after_acquire advance
  settled-after_acquired s t (err e) w = refl
  settled-after_acquired s t (ok false) w = refl
  settled-after_acquired s t (ok true) w =
      let (results, v) = s.sync s.timeout w in settle-after_sync s results v

  -- An execution whose calls are all its own is `executeSync`.
  pub advance-execute_sync :
      (s : SyncScheduler W) (o : Option SyncOutcome) (w : W)
      → (advance s (waiting o) >>= λ p. settle s p >>= settle s) w ≡ ends (execute_sync s) w
  unfolding advance execute_sync
  advance-execute_sync s o w =
      let (acquired, v) = s.locker.acquire lock_key s.interval w in
      settled-after_acquired s (now w) acquired v

-- All instances, and what they share.
pub record Instances (W : Type 0) : Type 0 where
  pub phases : ℕ → Phase
  pub world : W

module _ {W : Type 0} (now : W → ℕ) (schedulers : ℕ → SyncScheduler W) where
  unfoldable pub step : ℕ → Instances W → Instances W
  unfolding advance
  step i s =
      let (p, w) = advance now (schedulers i) (s.phases i) s.world in
      record { phases = λ j. if j == i then p else s.phases j; world = w }

  unfoldable pub run_steps : List ℕ → Instances W → Instances W
  unfolding step
  run_steps [] s = s
  run_steps (i ∷ is) s = run_steps is (step i s)

-- No instance has begun.
abbrev pub at_rest : {W : Type 0} → W → Instances W
at_rest w = record { phases = λ i. waiting none; world = w }
