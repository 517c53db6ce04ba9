-- ===== src/Service/Sync/Isolation/AnyOrder.antt =====
-- internal/app/service/sync_service.go, `SyncAll`: whatever order the calls of its goroutines fall in,
-- each ends as if its provider had been synchronised alone.
use search_engine_service.Base.{
  ℕ, zero, suc, ◌≡◌, ◌≢◌, refl, sym, ap, ◌∙◌, subst, String, List, [], ◌∷◌, map, All, arith, Empty,
}
use search_engine_service.Domain.Ports.{Provider}
use search_engine_service.Service.Sync.{
  SyncService, SyncResult, Task, ready, advance, finish, result_of, advance_at, run_schedule, wait,
  sync_all, sync_provider,
}
use search_engine_service.Service.Sync.Outcomes.{calls_left, wait-AllOver}
use search_engine_service.Service.Sync.Isolation.{FetchIsLocal, StoreIsLocal, SameReport}
use search_engine_service.Service.Sync.Isolation.Steps.{advance-spares}
use search_engine_service.Service.Sync.Isolation.Alone.{
  Same-calls_left, Same-SameReport, alone, alone-calls_left, alone-finish, At, At-advance, At-later,
  ready-At,
}

module _ {F W V : Type 0} (view : W → String → V) (svc : SyncService F W)
    (h : StoreIsLocal view svc) where
  abbrev AllAt : W → List (Provider F W) → List (Task F) → W → Type 0
  AllAt o [] [] w = Unit
  AllAt o [] (t ∷ ts) w = Empty
  AllAt o (p ∷ ps) [] w = Empty
  AllAt o (p ∷ ps) (t ∷ ts) w = At view svc h o p t w × AllAt o ps ts w

  abbrev pub AllDistinct : List (Provider F W) → Type 0
  AllDistinct [] = Unit
  AllDistinct (p ∷ ps) = All (λ (q : Provider F W). p.name ≢ q.name) ps × AllDistinct ps

  -- What is no provider's of a list stays.
  abbrev Spares : List (Provider F W) → W → W → Type 0
  Spares ps v w = (n : String) → All (λ (p : Provider F W). n ≢ p.name) ps → view w n ≡ view v n

  AllAt-later :
      (o : W) (q : Provider F W) (ps : List (Provider F W)) (ts : List (Task F)) (v w : W)
      → All (λ (p : Provider F W). q.name ≢ p.name) ps
      → Spares (q ∷ []) v w
      → AllAt o ps ts v
      → AllAt o ps ts w
  AllAt-later o q [] [] v w apart spares a = tt
  AllAt-later o q [] (t ∷ ts) v w apart spares a = a
  AllAt-later o q (p ∷ ps) [] v w apart spares a = a
  AllAt-later o q (p ∷ ps) (t ∷ ts) v w apart spares a = (
    At-later view svc h o p t v w (spares p.name (λ e. apart.0 (sym e), tt)) a.0,
    AllAt-later o q ps ts v w apart.1 spares a.1,
  )

  abbrev pub Fetches : List (Provider F W) → Type 0
  Fetches = All (FetchIsLocal view)

  abbrev StepOf : W → List (Provider F W) → W → List (Task F) × W → Type 0
  StepOf o ps w out = AllAt o ps out.0 out.1 × Spares ps w out.1

  advance_at-StepOf :
      (o : W) (i : ℕ) (ps : List (Provider F W)) (ts : List (Task F)) (w : W)
      → Fetches ps
      → AllDistinct ps
      → AllAt o ps ts w
      → StepOf o ps w (advance_at svc i ps ts w)
  unfolding advance_at
  advance_at-StepOf o i [] ts w fs ds a = (a, λ n other. refl)
  advance_at-StepOf o i (p ∷ ps) [] w fs ds a = absurd (elim a [ ])
  advance_at-StepOf o zero (p ∷ ps) (t ∷ ts) w fs ds a =
      let spares =
        λ (n : String) (other : n ≢ p.name). advance-spares view svc h p t w n fs.0 a.0.2 other in
      (
        (
          At-advance view svc h o p t w fs.0 a.0,
          AllAt-later o p ps ts w _ ds.0 (λ n other. spares n other.0) a.1,
        ),
        λ n other. spares n other.0,
      )
  advance_at-StepOf o (suc i) (p ∷ ps) (t ∷ ts) w fs ds a =
      let (later, spares) = advance_at-StepOf o i ps ts w fs.1 ds.1 a.1 in
      ((At-later view svc h o p t w _ (spares p.name ds.0) a.0, later), λ n other. spares n other.1)

  run_schedule-AllAt :
      (o : W) (schedule : List ℕ) (ts : List (Task F)) (w : W)
      → Fetches svc.providers
      → AllDistinct svc.providers
      → AllAt o svc.providers ts w
      → AllAt o svc.providers (run_schedule svc schedule ts w).0 (run_schedule svc schedule ts w).1
  unfolding run_schedule
  run_schedule-AllAt o [] ts w fs ds a = a
  run_schedule-AllAt o (i ∷ is) ts w fs ds a =
      run_schedule-AllAt o is _ _ fs ds (advance_at-StepOf o i svc.providers ts w fs ds a).0

  abbrev OneStep : W → Provider F W → W → Task F × W → Type 0
  OneStep o p w out = At view svc h o p out.0 out.1 × Spares (p ∷ []) w out.1

  advance-OneStep :
      (o : W) (p : Provider F W) (w : W) (out : Task F × W)
      → FetchIsLocal view p
      → OneStep o p w out
      → OneStep o p w (advance svc p out.0 out.1)
  advance-OneStep o p w out fc (a, spares) = (
    At-advance view svc h o p out.0 out.1 fc a,
    λ n other. advance-spares view svc h p out.0 out.1 n fc a.2 other.0 ∙ spares n other,
  )

  finish-OneStep :
      (o : W) (p : Provider F W) (t : Task F) (w : W)
      → FetchIsLocal view p
      → At view svc h o p t w
      → OneStep o p w (finish svc p t w)
  unfolding finish
  finish-OneStep o p t w fc a =
      let step = λ (out : Task F × W) (s : OneStep o p w out). advance-OneStep o p w out fc s in
      step _ (step _ (step _ (step (t, w) (a, λ n other. refl))))

  wait-StepOf :
      (o : W) (ps : List (Provider F W)) (ts : List (Task F)) (w : W)
      → Fetches ps
      → AllDistinct ps
      → AllAt o ps ts w
      → StepOf o ps w (wait svc ps ts w)
  unfolding wait
  wait-StepOf o [] [] w fs ds a = (tt, λ n other. refl)
  wait-StepOf o [] (t ∷ ts) w fs ds a = absurd (elim a [ ])
  wait-StepOf o (p ∷ ps) [] w fs ds a = absurd (elim a [ ])
  wait-StepOf o (p ∷ ps) (t ∷ ts) w fs ds a =
      let (mine, first) = finish-OneStep o p t w fs.0 a.0 in
      let (t', v) = finish svc p t w in
      let (rest, later) =
        wait-StepOf o ps ts v fs.1 ds.1 (AllAt-later o p ps ts w v ds.0 first a.1) in
      (
        (At-later view svc h o p t' v _ (later p.name ds.0) mine, rest),
        λ n other. later n other.1 ∙ first n (other.0, tt),
      )

  -- A result, and what the world holds of its provider, as after a synchronisation of the provider
  -- alone.
  abbrev pub AsAlone : W → Provider F W → SyncResult → W → Type 0
  AsAlone o p r w =
      SameReport r (sync_provider svc p o).0
      × (view w p.name ≡ view (sync_provider svc p o).1 p.name)

  At-AsAlone :
      (o : W) (p : Provider F W) (t : Task F) (w : W)
      → calls_left svc t ≡ 0
      → At view svc h o p t w
      → AsAlone o p (result_of svc t) w
  unfolding sync_provider
  At-AsAlone o p t w over (k, (same, e), own) =
      let ended : alone view svc h p k o ≡ finish svc p ready o =
        alone-finish view svc h p k o
          (omega (arith, alone-calls_left view svc h p k o, Same-calls_left svc t _ same)) in
      (
        subst (λ u. SameReport (result_of svc t) (result_of svc u.0)) ended
            (Same-SameReport svc t _ same),
        e ∙ ap (λ (u : Task F × W). view u.1 p.name) ended,
      )

  abbrev pub AllAsAlone : W → List (Provider F W) → List SyncResult → W → Type 0
  AllAsAlone o [] [] w = Unit
  AllAsAlone o [] (r ∷ rs) w = Empty
  AllAsAlone o (p ∷ ps) [] w = Empty
  AllAsAlone o (p ∷ ps) (r ∷ rs) w = AsAlone o p r w × AllAsAlone o ps rs w

  AllAt-AllAsAlone :
      (o : W) (ps : List (Provider F W)) (ts : List (Task F)) (w : W)
      → All (λ (t : Task F). calls_left svc t ≡ 0) ts
      → AllAt o ps ts w
      → AllAsAlone o ps (map (result_of svc) ts) w
  AllAt-AllAsAlone o [] [] w over a = tt
  AllAt-AllAsAlone o [] (t ∷ ts) w over a = a
  AllAt-AllAsAlone o (p ∷ ps) [] w over a = a
  AllAt-AllAsAlone o (p ∷ ps) (t ∷ ts) w over a =
      (At-AsAlone o p t w over.0 a.0, AllAt-AllAsAlone o ps ts w over.1 a.1)

  ready-AllAt : (ps : List (Provider F W)) (w : W) → AllAt w ps (map (λ p. ready) ps) w
  ready-AllAt [] w = tt
  ready-AllAt (p ∷ ps) w = (ready-At view svc h w p, ready-AllAt ps w)

  -- For providers of different names, where each fetches its own contents, a fetch or a bulk write
  -- reads and changes only what there is of its provider, and what is held of a provider leaves out
  -- the scores, which may depend on the time of the fetch: whatever order the goroutines' calls fall
  -- in, each result of `SyncAll` has the provider, the count and the error that a synchronisation of
  -- that provider alone would have given in the world that `SyncAll` started in, and what there is of
  -- the provider at the end is what that synchronisation would have left.
  pub sync_all-AllAsAlone :
      (schedule : List ℕ) (w : W)
      → Fetches svc.providers
      → AllDistinct svc.providers
      → AllAsAlone w svc.providers (sync_all svc schedule w).0 (sync_all svc schedule w).1
  unfolding sync_all
  sync_all-AllAsAlone schedule w fs ds =
      let (ts, v) = run_schedule svc schedule (map (λ p. ready) svc.providers) w in
      let a = run_schedule-AllAt w schedule _ w fs ds (ready-AllAt svc.providers w) in
      AllAt-AllAsAlone w svc.providers _ _ (wait-AllOver svc svc.providers ts v)
        (wait-StepOf w svc.providers ts v fs ds a).0
