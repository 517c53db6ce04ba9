-- ===== src/Job/Lifecycle/Stopping.antt =====
-- internal/job/sync_scheduler.go: what is left of the scheduler when `Stop` is over, and that it
-- comes to its end.
use search_engine_service.Base.{
  ℕ, ◌+◌, ◌≤◌, ◌≡◌, refl, ◌∙◌, ap, [], ◌∷◌, Bool, true, false, length, length-append, arith,
}
use search_engine_service.Job.{SyncScheduler, execute_sync}
use search_engine_service.Job.Lifecycle.{
  Routine, absent, entered, executing, selecting, returned, StopCall, not_called, awaiting, stopped,
  Lifecycle, not_started, Step, start, sync_first, sync_later, executed, ticked, done, stop_called,
  stop_over, Reach, here, next,
}

-- The goroutines that the wait group counts.
abbrev live : Routine → ℕ
live absent = 0
live returned = 0
live (entered b) = 1
live executing = 1
live selecting = 1

abbrev is_called : StopCall → Bool
is_called not_called = false
is_called awaiting = true
is_called stopped = true

pub record IsConsistent {W : Type 0} (l : Lifecycle W) : Type 0 where
  pub counted : l.waiting ≡ live l.routine
  pub cancelled_by_stop : l.cancelled ≡ is_called l.stop
  pub returned_cancelled : l.routine ≡ returned → l.cancelled ≡ true
  pub stopped_returned : l.stop ≡ stopped → l.routine ≡ returned
  pub absent_uncalled : l.routine ≡ absent → l.stop ≡ not_called

module _ {W : Type 0} (s : SyncScheduler W) (on_startup : Bool) where
  not_started-IsConsistent : (w : W) → IsConsistent (not_started w)
  not_started-IsConsistent w = record {
    counted = refl;
    cancelled_by_stop = refl;
    returned_cancelled = λ e. cc;
    stopped_returned = λ e. cc;
    absent_uncalled = λ e. refl;
  }

  Step-IsConsistent : {l m : Lifecycle W} → Step s on_startup l m → IsConsistent l → IsConsistent m
  Step-IsConsistent (start e) c = ground arith
  Step-IsConsistent (sync_first e) c = ground arith
  Step-IsConsistent (sync_later e) c = ground arith
  Step-IsConsistent (executed e) c = ground arith
  Step-IsConsistent (ticked e) c = ground arith
  Step-IsConsistent (done e h) c = ground arith
  Step-IsConsistent (stop_called e h) c = ground arith
  Step-IsConsistent (stop_over e h) c = ground arith

  Reach-IsConsistent :
      {w : W} {l : Lifecycle W} → Reach s on_startup (not_started w) l → IsConsistent l
  Reach-IsConsistent {w} here = not_started-IsConsistent w
  Reach-IsConsistent (next r st) = Step-IsConsistent st (Reach-IsConsistent r)

  no_step :
      {l m : Lifecycle W}
      → l.stop ≡ stopped
      → l.routine ≡ returned
      → l.waiting ≡ 0
      → ¬ Step s on_startup l m
  no_step p q z (start e) = cc
  no_step p q z (sync_first e) = cc
  no_step p q z (sync_later e) = cc
  no_step p q z (executed e) = cc
  no_step p q z (ticked e) = cc
  no_step p q z (done e h) = cc
  no_step p q z (stop_called e h) = cc
  no_step p q z (stop_over e h) = cc

  -- In every state that the scheduler can come to from its start, if `Stop` is over, the goroutine
  -- has returned, none is counted, and no step is possible any more: no sync runs and none begins.
  pub stopped-quiet :
      {w : W} {l : Lifecycle W}
      → Reach s on_startup (not_started w) l
      → l.stop ≡ stopped
      → (l.routine ≡ returned) × (l.waiting ≡ 0) × ((m : Lifecycle W) → ¬ Step s on_startup l m)
  stopped-quiet {l = l} r e =
      let c = Reach-IsConsistent r in
      let over = c.stopped_returned e in
      let none_left : l.waiting ≡ 0 = c.counted ∙ ap live over in
      (over, none_left, λ m st. no_step e over none_left st)

  -- A state in which `Stop` is over, with at most one more sync, and a way to it.
  abbrev pub Ends : Lifecycle W → Type 0
  Ends l =
      (m : Lifecycle W) × Reach s on_startup l m
      × (m.stop ≡ stopped)
      × (length m.outcomes ≤ length l.outcomes + 1)

  end_selecting :
      (l m : Lifecycle W)
      → Reach s on_startup l m
      → m.routine ≡ selecting
      → m.stop ≡ awaiting
      → IsConsistent m
      → length m.outcomes ≤ length l.outcomes + 1
      → Ends l
  end_selecting l m r at wait c few =
      (_, next (next r (done at (ground arith))) (stop_over wait (ground arith)), refl, few)

  end_executing :
      (l m : Lifecycle W)
      → Reach s on_startup l m
      → m.routine ≡ executing
      → m.stop ≡ awaiting
      → IsConsistent m
      → m.outcomes ≡ l.outcomes
      → Ends l
  end_executing l m r at wait c same =
      let st = executed at in
      end_selecting l _ (next r st) refl wait (Step-IsConsistent st c)
        (omega (arith, length-append m.outcomes ((execute_sync s m.world).0 ∷ []), ap length same))

  routine-Ends :
      (l : Lifecycle W) (at : Routine)
      → l.routine ≡ at
      → l.stop ≡ awaiting
      → IsConsistent l
      → Ends l
  routine-Ends l absent e wait c = cc (c.absent_uncalled e)
  routine-Ends l (entered true) e wait c =
      let st = sync_first e in
      end_executing l _ (next here st) refl wait (Step-IsConsistent st c) refl
  routine-Ends l (entered false) e wait c =
      let st = sync_later e in
      end_selecting l _ (next here st) refl wait (Step-IsConsistent st c) (omega arith)
  routine-Ends l executing e wait c = end_executing l l here e wait c refl
  routine-Ends l selecting e wait c = end_selecting l l here e wait c (omega arith)
  routine-Ends l returned e wait c =
      (_, next here (stop_over wait (ground arith)), refl, omega arith)

  -- A call of `Stop` is never stuck: from every state that the scheduler can come to in which
  -- `Stop` waits, there are steps to its end, with at most one more sync on the way.
  pub Stop-Ends :
      {w : W} {l : Lifecycle W} → Reach s on_startup (not_started w) l → l.stop ≡ awaiting → Ends l
  Stop-Ends {l = l} r wait = routine-Ends l l.routine refl wait (Reach-IsConsistent r)
