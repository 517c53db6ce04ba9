-- ===== src/Service/Sync/Storing/Concurrent.antt =====
-- internal/app/service/sync_service.go, `SyncAll`: its goroutines in any order, and the store.
use search_engine_service.Base.{
  ℕ, zero, suc, ◌≡◌, ◌≢◌, sym, subst, List, [], ◌∷◌, map, arith, none, All,
}
use search_engine_service.Domain.Content.{Content}
use search_engine_service.Domain.Ports.{Provider}
use search_engine_service.Service.Sync.{
  SyncService, Task, ready, started, fetched, stored, done, advance, finish, result_of, advance_at,
  run_schedule, wait, sync_all,
}
use search_engine_service.Service.Sync.Outcomes.{calls_left, wait-AllOver}
use search_engine_service.Service.Sync.Storing.{
  FetchContract, StoreContract, AllDelivered, AllDistinct, Kept, AllKept, Spares, Kept-later,
  advance-Kept, advance-Spares, Delivered,
}

module _ {F W : Type 0} (Stored : W → Content F → Type 0) (svc : SyncService F W)
    (h : StoreContract Stored svc) where
  abbrev Fetches : List (Provider F W) → Type 0
  Fetches = All (FetchContract Stored)

  -- A content of a provider is of none that has another name.
  not_among :
      (c : Content F) (p : Provider F W) (ps : List (Provider F W))
      → c.provider_id ≡ p.name
      → All (λ (q : Provider F W). p.name ≢ q.name) ps
      → All (λ (q : Provider F W). c.provider_id ≢ q.name) ps
  not_among c p ps e apart = subst (λ x. All (λ (q : Provider F W). x ≢ q.name) ps) (sym e) apart

  -- What one provider has done is kept by a step of others.
  Spares-Kept :
      (p : Provider F W) (ps : List (Provider F W)) (t : Task F) (w w' : W)
      → FetchContract Stored p
      → All (λ (q : Provider F W). p.name ≢ q.name) ps
      → Spares Stored ps w w'
      → Kept Stored p t w
      → Kept Stored p t w'
  Spares-Kept p ps t w w' fc apart spares =
      Kept-later Stored p t w w' fc (λ c e held. spares c (not_among c p ps e apart) held)

  -- What the others have done is kept by a step of one provider.
  Spares-AllKept :
      (q : Provider F W) (ps : List (Provider F W)) (ts : List (Task F)) (w w' : W)
      → Fetches ps
      → All (λ (p : Provider F W). q.name ≢ p.name) ps
      → Spares Stored (q ∷ []) w w'
      → AllKept Stored ps ts w
      → AllKept Stored ps ts w'
  Spares-AllKept q [] [] w w' fs apart spares k = tt
  Spares-AllKept q [] (t ∷ ts) w w' fs apart spares k = k
  Spares-AllKept q (p ∷ ps) [] w w' fs apart spares k = k
  Spares-AllKept q (p ∷ ps) (t ∷ ts) w w' fs apart spares k = (
    Spares-Kept p (q ∷ []) t w w' fs.0 (λ e. apart.0 (sym e), tt) spares k.0,
    Spares-AllKept q ps ts w w' fs.1 apart.1 spares k.1,
  )

  -- A step is kept to what it may change.
  abbrev StepOf : List (Provider F W) → W → List (Task F) × W → Type 0
  StepOf ps w out = AllKept Stored ps out.0 out.1 × Spares Stored ps w out.1

  advance_at-StepOf :
      (i : ℕ) (ps : List (Provider F W)) (ts : List (Task F)) (w : W)
      → Fetches ps
      → AllDistinct Stored ps
      → AllKept Stored ps ts w
      → StepOf ps w (advance_at svc i ps ts w)
  unfolding advance_at
  advance_at-StepOf i [] ts w fs ds k = (k, λ c other held. held)
  advance_at-StepOf i (p ∷ ps) [] w fs ds k = absurd (elim k [ ])
  advance_at-StepOf zero (p ∷ ps) (t ∷ ts) w fs ds k =
      let spares = advance-Spares Stored svc h p t w fs.0 k.0 in
      (
        (advance-Kept Stored svc h p t w fs.0 k.0, Spares-AllKept p ps ts w _ fs.1 ds.0 spares k.1),
        λ c other held. spares c (other.0, tt) held,
      )
  advance_at-StepOf (suc i) (p ∷ ps) (t ∷ ts) w fs ds k =
      let (later, spares) = advance_at-StepOf i ps ts w fs.1 ds.1 k.1 in
      ((Spares-Kept p ps t w _ fs.0 ds.0 spares k.0, later), λ c other held. spares c other.1 held)

  run_schedule-AllKept :
      (schedule : List ℕ) (ts : List (Task F)) (w : W)
      → Fetches svc.providers
      → AllDistinct Stored svc.providers
      → AllKept Stored svc.providers ts w
      → AllKept Stored svc.providers
          (run_schedule svc schedule ts w).0
          (run_schedule svc schedule ts w).1
  unfolding run_schedule
  run_schedule-AllKept [] ts w fs ds k = k
  run_schedule-AllKept (i ∷ is) ts w fs ds k =
      run_schedule-AllKept is _ _ fs ds (advance_at-StepOf i svc.providers ts w fs ds k).0

  -- One task, as a list of one.
  abbrev OneStep : Provider F W → W → Task F × W → Type 0
  OneStep p w out = Kept Stored p out.0 out.1 × Spares Stored (p ∷ []) w out.1

  advance-OneStep :
      (p : Provider F W) (w : W) (out : Task F × W)
      → FetchContract Stored p
      → OneStep p w out
      → OneStep p w (advance svc p out.0 out.1)
  advance-OneStep p w out fc (k, spares) = (
    advance-Kept Stored svc h p out.0 out.1 fc k,
    λ c other held. advance-Spares Stored svc h p out.0 out.1 fc k c other (spares c other held),
  )

  finish-OneStep :
      (p : Provider F W) (t : Task F) (w : W)
      → FetchContract Stored p
      → Kept Stored p t w
      → OneStep p w (finish svc p t w)
  unfolding finish
  finish-OneStep p t w fc k =
      let step = λ (out : Task F × W) (s : OneStep p w out). advance-OneStep p w out fc s in
      step _ (step _ (step _ (step (t, w) (k, λ c other held. held))))

  wait-StepOf :
      (ps : List (Provider F W)) (ts : List (Task F)) (w : W)
      → Fetches ps
      → AllDistinct Stored ps
      → AllKept Stored ps ts w
      → StepOf ps w (wait svc ps ts w)
  unfolding wait
  wait-StepOf [] [] w fs ds k = (tt, λ c other held. held)
  wait-StepOf [] (t ∷ ts) w fs ds k = absurd (elim k [ ])
  wait-StepOf (p ∷ ps) [] w fs ds k = absurd (elim k [ ])
  wait-StepOf (p ∷ ps) (t ∷ ts) w fs ds k =
      let (mine, first) = finish-OneStep p t w fs.0 k.0 in
      let (t', w1) = finish svc p t w in
      let (rest, later) =
        wait-StepOf ps ts w1 fs.1 ds.1 (Spares-AllKept p ps ts w w1 fs.1 ds.0 first k.1) in
      (
        (Spares-Kept p ps t' w1 _ fs.0 ds.0 later mine, rest),
        λ c other held. later c other.1 (first c (other.0, tt) held),
      )

  result-Delivered :
      (p : Provider F W) (t : Task F) (w : W)
      → calls_left svc t ≡ 0
      → Kept Stored p t w
      → (result_of svc t).error ≡ none
      → Delivered Stored p (result_of svc t).count w
  result-Delivered p ready w over k e = absurd (omega arith)
  result-Delivered p (started start) w over k e = absurd (omega arith)
  result-Delivered p (fetched start r) w over k e = absurd (omega arith)
  result-Delivered p (stored start n x) w over k e = absurd (omega arith)
  result-Delivered p (done r) w over k e = k e

  results-AllDelivered :
      (ps : List (Provider F W)) (ts : List (Task F)) (w : W)
      → All (λ (t : Task F). calls_left svc t ≡ 0) ts
      → AllKept Stored ps ts w
      → AllDelivered Stored ps (map (result_of svc) ts) w
  results-AllDelivered [] [] w over k = tt
  results-AllDelivered [] (t ∷ ts) w over k = k
  results-AllDelivered (p ∷ ps) [] w over k = k
  results-AllDelivered (p ∷ ps) (t ∷ ts) w over k =
      (result-Delivered p t w over.0 k.0, results-AllDelivered ps ts w over.1 k.1)

  ready-AllKept : (ps : List (Provider F W)) (w : W) → AllKept Stored ps (map (λ p. ready) ps) w
  ready-AllKept [] w = tt
  ready-AllKept (p ∷ ps) w = (tt, ready-AllKept ps w)

  -- For providers of different names whose contents carry their names, and a repository that keeps
  -- what it is given: whatever order the goroutines' calls fall in, each result of `SyncAll` that
  -- has no error tells the number of the contents of a fetch of its provider, and each of these
  -- contents that is the only one of its key in the fetch is in the store at the end.
  pub sync_all-AllDelivered :
      (schedule : List ℕ) (w : W)
      → Fetches svc.providers
      → AllDistinct Stored svc.providers
      → AllDelivered Stored svc.providers (sync_all svc schedule w).0 (sync_all svc schedule w).1
  unfolding sync_all
  sync_all-AllDelivered schedule w fs ds =
      let (ts, v) = run_schedule svc schedule (map (λ p. ready) svc.providers) w in
      let k = run_schedule-AllKept schedule _ w fs ds (ready-AllKept svc.providers w) in
      results-AllDelivered svc.providers _ _ (wait-AllOver svc svc.providers ts v)
        (wait-StepOf svc.providers ts v fs ds k).0
