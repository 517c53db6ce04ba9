-- ===== src/Service/Sync/Progress.antt =====
-- internal/app/service/sync_service.go, `SyncAll`: the turns of the goroutines, and the waiting at
-- the end.
use search_engine_service.Base.{
  ℕ, zero, suc, ◌-◌, ◌≤◌, ◌<◌, ◌≡◌, refl, ap, ◌∙◌, List, [], ◌∷◌, map, length, arith, ltb, ◌==◌,
  nat_eq, if◌then◌else◌,
}
use search_engine_service.Domain.Ports.{Provider}
use search_engine_service.Service.Sync.{
  SyncService, Task, ready, started, fetched, stored, done, finish, result_of, advance_at,
  run_schedule, wait, sync_all,
}
use search_engine_service.Service.Sync.Outcomes.{calls_left, advance-calls_left}

-- The turns of goroutine `j`.
abbrev pub turns : ℕ → List ℕ → ℕ
turns j [] = 0
turns j (i ∷ is) = let rest = turns j is in if i == j then suc rest else rest

module _ {F W : Type 0} (svc : SyncService F W) where
  -- The calls that goroutine `j` has left.
  abbrev left_at : ℕ → List (Task F) → ℕ
  left_at j [] = 0
  left_at zero (t ∷ ts) = calls_left svc t
  left_at (suc j) (t ∷ ts) = left_at j ts

  length-advance_at :
      (i : ℕ) (ps : List (Provider F W)) (ts : List (Task F)) (w : W)
      → length (advance_at svc i ps ts w).0 ≡ length ts
  unfolding advance_at
  length-advance_at i [] ts w = refl
  length-advance_at i (p ∷ ps) [] w = refl
  length-advance_at zero (p ∷ ps) (t ∷ ts) w = refl
  length-advance_at (suc i) (p ∷ ps) (t ∷ ts) w = ap suc (length-advance_at i ps ts w)

  left_at-advance_at :
      (i j : ℕ) (ps : List (Provider F W)) (ts : List (Task F)) (w : W)
      → length ts ≤ length ps
      → left_at j (advance_at svc i ps ts w).0 ≡ (if i == j then left_at j ts - 1 else left_at j ts)
  unfolding advance_at
  left_at-advance_at i j [] [] w h = ground arith
  left_at-advance_at i j [] (t ∷ ts) w h = absurd (omega arith)
  left_at-advance_at i j (p ∷ ps) [] w h = ground arith
  left_at-advance_at zero zero (p ∷ ps) (t ∷ ts) w h = advance-calls_left svc p t w
  left_at-advance_at zero (suc j) (p ∷ ps) (t ∷ ts) w h = ground arith
  left_at-advance_at (suc i) zero (p ∷ ps) (t ∷ ts) w h = ground arith
  left_at-advance_at (suc i) (suc j) (p ∷ ps) (t ∷ ts) w h =
      let rest = left_at-advance_at i j ps ts w (omega arith) in ground arith

  left_at-run_schedule :
      (j : ℕ) (is : List ℕ) (ts : List (Task F)) (w : W)
      → length ts ≤ length svc.providers
      → left_at j (run_schedule svc is ts w).0 ≡ left_at j ts - turns j is
  unfolding run_schedule
  left_at-run_schedule j [] ts w h = omega arith
  left_at-run_schedule j (i ∷ is) ts w h =
      let next = advance_at svc i svc.providers ts w in
      let same = length-advance_at i svc.providers ts w in
      let now = left_at-advance_at i j svc.providers ts w h in
      let later = left_at-run_schedule j is next.0 next.1 (omega arith) in later ∙ ground arith

  length-run_schedule :
      (is : List ℕ) (ts : List (Task F)) (w : W) → length (run_schedule svc is ts w).0 ≡ length ts
  unfolding run_schedule
  length-run_schedule [] ts w = refl
  length-run_schedule (i ∷ is) ts w =
      let next = advance_at svc i svc.providers ts w in
      length-run_schedule is next.0 next.1 ∙ length-advance_at i svc.providers ts w

  finish_idle :
      (p : Provider F W) (t : Task F) (w : W) → calls_left svc t ≡ 0 → finish svc p t w ≡ (t, w)
  unfolding finish
  finish_idle p (done r) w e = refl
  finish_idle p ready w e = absurd (omega arith)
  finish_idle p (started start) w e = absurd (omega arith)
  finish_idle p (fetched start r) w e = absurd (omega arith)
  finish_idle p (stored start n x) w e = absurd (omega arith)

  wait_idle :
      (ps : List (Provider F W)) (ts : List (Task F)) (w : W)
      → length ts ≤ length ps
      → ((j : ℕ) → left_at j ts ≡ 0)
      → wait svc ps ts w ≡ (ts, w)
  unfolding wait
  wait_idle [] [] w h e = refl
  wait_idle [] (t ∷ ts) w h e = absurd (omega arith)
  wait_idle (p ∷ ps) [] w h e = refl
  wait_idle (p ∷ ps) (t ∷ ts) w h e =
      let first = finish_idle p t w (e zero) in
      ap (λ (out : Task F × W). (out.0 ∷ (wait svc ps ts out.1).0, (wait svc ps ts out.1).1)) first
      ∙ ap (λ (out : List (Task F) × W). (t ∷ out.0, out.1))
          (wait_idle ps ts w (omega arith) (λ j. e (suc j)))

  abbrev ready_for : Provider F W → Task F
  ready_for p = ready

  abbrev pub all_ready : List (Task F)
  all_ready = map ready_for svc.providers

  left_at-all_ready :
      (j : ℕ) (ps : List (Provider F W))
      → left_at j (map ready_for ps) ≡ (if ltb j (length ps) then 4 else 0)
  left_at-all_ready j [] = ground arith
  left_at-all_ready zero (p ∷ ps) = ground arith
  left_at-all_ready (suc j) (p ∷ ps) = let rest = left_at-all_ready j ps in ground arith

  length-all_ready : (ps : List (Provider F W)) → length (map ready_for ps) ≡ length ps
  length-all_ready [] = refl
  length-all_ready (p ∷ ps) = ap suc (length-all_ready ps)

  -- After a schedule in which every provider's goroutine has at least four turns, `SyncAll` has
  -- nothing to wait for: its results and its world are those of the schedule alone.
  pub sync_all-run_schedule :
      (schedule : List ℕ) (w : W)
      → ((j : ℕ) → j < length svc.providers → 4 ≤ turns j schedule)
      → sync_all svc schedule w ≡ (
        map (result_of svc) (run_schedule svc schedule all_ready w).0,
        (run_schedule svc schedule all_ready w).1,
      )
  unfolding sync_all
  sync_all-run_schedule schedule w fair =
      let out = run_schedule svc schedule all_ready w in
      let size = length-all_ready svc.providers in
      let kept = length-run_schedule schedule all_ready w in
      let none_left : (j : ℕ) → left_at j out.0 ≡ 0 = λ j.
        let left = left_at-run_schedule j schedule all_ready w (omega arith) in
        let start = left_at-all_ready j svc.providers in let enough = fair j in ground arith in
      ap (λ (o : List (Task F) × W). (map (result_of svc) o.0, o.1))
        (wait_idle svc.providers out.0 out.1 (omega arith) none_left)
