-- ===== src/Service/Sync/Outcomes.antt =====
-- internal/app/service/sync_service.go: what the results of a synchronisation say, in whatever order
-- the goroutines' calls fall.
use search_engine_service.Base.{
  ℕ, zero, suc, ◌-◌, ◌≤◌, ◌≡◌, refl, List, [], ◌∷◌, map, Option, none, some, length, string_eq, All,
  Empty, arith,
}
use search_engine_service.Base.Effects.{Error, Result, ok, err}
use search_engine_service.Domain.Content.{Content, Time}
use search_engine_service.Domain.Ports.{Provider}
use search_engine_service.Service.Sync.{
  SyncService, SyncResult, Task, ready, started, fetched, stored, done, store, after_store,
  after_fetch, advance, finish, result_of, advance_at, run_schedule, wait, sync_all,
}

module _ {F W : Type 0} (svc : SyncService F W) where
  -- A count and an error that the calls for a provider account for: its fetch failed; it fetched
  -- nothing; it fetched contents that could not be stored; it stored all that it fetched.
  pub data Reports (p : Provider F W) : ℕ → Option Error → Type 0 where
    fetch_failed : (w : W) {e : Error} → (p.fetch w).0 ≡ err e → Reports p 0 (some e)
    nothing_fetched : (w : W) → (p.fetch w).0 ≡ ok [] → Reports p 0 none
    store_failed :
        (w v : W) {cs : List (Content F)} {e : Error}
        → (p.fetch w).0 ≡ ok cs
        → (svc.repo.bulk_upsert cs v).0 ≡ err e
        → Reports p 0 (some e)
    all_stored :
        (w v : W) {cs updated : List (Content F)}
        → (p.fetch w).0 ≡ ok cs
        → (svc.repo.bulk_upsert cs v).0 ≡ ok updated
        → Reports p (length cs) none

  abbrev pub IsOutcome : Provider F W → SyncResult → Type 0
  IsOutcome p r = (r.provider ≡ p.name) × Reports p r.count r.error

  -- What a goroutine knows at each point.
  abbrev Knows : Provider F W → Task F → Type 0
  Knows p ready = Unit
  Knows p (started start) = Unit
  Knows p (fetched start r) = (w : W) × ((p.fetch w).0 ≡ r)
  Knows p (stored start n e) = Reports p n e
  Knows p (done r) = IsOutcome p r

  after_store-Knows :
      (p : Provider F W) (start : Time) (cs : List (Content F)) (w v : W)
      (r : Result (List (Content F)))
      → (p.fetch w).0 ≡ ok cs
      → (svc.repo.bulk_upsert cs v).0 ≡ r
      → Knows p (after_store start cs r)
  unfolding after_store
  after_store-Knows p start cs w v (ok updated) e h = all_stored w v e h
  after_store-Knows p start cs w v (err x) e h = store_failed w v e h

  after_fetch-Knows :
      (p : Provider F W) (start : Time) (r : Result (List (Content F))) (w v : W)
      → (p.fetch w).0 ≡ r
      → Knows p (after_fetch svc start r v).0
  unfolding after_fetch store
  after_fetch-Knows p start (ok []) w v e = nothing_fetched w e
  after_fetch-Knows p start (ok (c ∷ cs)) w v e = after_store-Knows p start (c ∷ cs) w v _ e refl
  after_fetch-Knows p start (err x) w v e = fetch_failed w e

  advance-Knows :
      (p : Provider F W) (t : Task F) (w : W) → Knows p t → Knows p (advance svc p t w).0
  unfolding advance
  advance-Knows p ready w k = tt
  advance-Knows p (started start) w k = (w, refl)
  advance-Knows p (fetched start r) w k = after_fetch-Knows p start r k.0 w k.1
  advance-Knows p (stored start n e) w k = (refl, k)
  advance-Knows p (done r) w k = k

  -- The calls that are left.
  abbrev pub calls_left : Task F → ℕ
  calls_left ready = 4
  calls_left (started start) = 3
  calls_left (fetched start r) = 2
  calls_left (stored start n e) = 1
  calls_left (done r) = 0

  after_fetch-calls_left :
      (start : Time) (r : Result (List (Content F))) (v : W)
      → calls_left (after_fetch svc start r v).0 ≡ 1
  unfolding after_fetch store after_store
  after_fetch-calls_left start (ok []) v = refl
  after_fetch-calls_left start (ok (c ∷ cs)) v = ground arith
  after_fetch-calls_left start (err x) v = refl

  pub advance-calls_left :
      (p : Provider F W) (t : Task F) (w : W) → calls_left (advance svc p t w).0 ≡ calls_left t - 1
  unfolding advance
  advance-calls_left p ready w = refl
  advance-calls_left p (started start) w = refl
  advance-calls_left p (fetched start r) w = after_fetch-calls_left start r w
  advance-calls_left p (stored start n e) w = refl
  advance-calls_left p (done r) w = refl

  result-IsOutcome :
      (p : Provider F W) (t : Task F) → calls_left t ≡ 0 → Knows p t → IsOutcome p (result_of svc t)
  result-IsOutcome p ready e k = absurd (omega arith)
  result-IsOutcome p (started start) e k = absurd (omega arith)
  result-IsOutcome p (fetched start r) e k = absurd (omega arith)
  result-IsOutcome p (stored start n x) e k = absurd (omega arith)
  result-IsOutcome p (done r) e k = k

  four_left : (t : Task F) → calls_left t ≤ 4
  four_left ready = omega arith
  four_left (started start) = omega arith
  four_left (fetched start r) = omega arith
  four_left (stored start n e) = omega arith
  four_left (done r) = omega arith

  pub finish-calls_left :
      (p : Provider F W) (t : Task F) (w : W) → calls_left (finish svc p t w).0 ≡ 0
  unfolding finish
  finish-calls_left p t w = omega (arith, four_left t, advance-calls_left)

  pub wait-AllOver :
      (ps : List (Provider F W)) (ts : List (Task F)) (w : W)
      → All (λ (t : Task F). calls_left t ≡ 0) (wait svc ps ts w).0
  unfolding wait
  wait-AllOver [] ts w = tt
  wait-AllOver (p ∷ ps) [] w = tt
  wait-AllOver (p ∷ ps) (t ∷ ts) w = (finish-calls_left p t w, wait-AllOver ps ts _)

  finish-IsOutcome :
      (p : Provider F W) (t : Task F) (w : W)
      → Knows p t
      → IsOutcome p (result_of svc (finish svc p t w).0)
  unfolding finish
  finish-IsOutcome p t w k =
      result-IsOutcome p _ (finish-calls_left p t w)
        (advance-Knows p _ _ (advance-Knows p _ _ (advance-Knows p _ _ (advance-Knows p t w k))))

  abbrev Know : List (Provider F W) → List (Task F) → Type 0
  Know [] [] = Unit
  Know [] (t ∷ ts) = Empty
  Know (p ∷ ps) [] = Empty
  Know (p ∷ ps) (t ∷ ts) = Knows p t × Know ps ts

  abbrev pub Outcomes : List (Provider F W) → List SyncResult → Type 0
  Outcomes [] [] = Unit
  Outcomes [] (r ∷ rs) = Empty
  Outcomes (p ∷ ps) [] = Empty
  Outcomes (p ∷ ps) (r ∷ rs) = IsOutcome p r × Outcomes ps rs

  advance_at-Know :
      (i : ℕ) (ps : List (Provider F W)) (ts : List (Task F)) (w : W)
      → Know ps ts
      → Know ps (advance_at svc i ps ts w).0
  unfolding advance_at
  advance_at-Know i [] ts w k = k
  advance_at-Know i (p ∷ ps) [] w k = elim k [ ]
  advance_at-Know zero (p ∷ ps) (t ∷ ts) w k = (advance-Knows p t w k.0, k.1)
  advance_at-Know (suc i) (p ∷ ps) (t ∷ ts) w k = (k.0, advance_at-Know i ps ts w k.1)

  run_schedule-Know :
      (is : List ℕ) (ts : List (Task F)) (w : W)
      → Know svc.providers ts
      → Know svc.providers (run_schedule svc is ts w).0
  unfolding run_schedule
  run_schedule-Know [] ts w k = k
  run_schedule-Know (i ∷ is) ts w k =
      run_schedule-Know is _ _ (advance_at-Know i svc.providers ts w k)

  ready-Know : (ps : List (Provider F W)) → Know ps (map (λ p. ready) ps)
  ready-Know [] = tt
  ready-Know (p ∷ ps) = (tt, ready-Know ps)

  wait-Outcomes :
      (ps : List (Provider F W)) (ts : List (Task F)) (w : W)
      → Know ps ts
      → Outcomes ps (map (result_of svc) (wait svc ps ts w).0)
  unfolding wait
  wait-Outcomes [] [] w k = tt
  wait-Outcomes [] (t ∷ ts) w k = elim k [ ]
  wait-Outcomes (p ∷ ps) [] w k = elim k [ ]
  wait-Outcomes (p ∷ ps) (t ∷ ts) w k = (finish-IsOutcome p t w k.0, wait-Outcomes ps ts _ k.1)

  -- Whatever order the goroutines' calls fall in, `SyncAll` ends with one result for each provider,
  -- in the order of the providers: it bears the provider's name, and its count and its error are
  -- those of a fetch of that provider and of a store of what was fetched.
  pub sync_all-Outcomes :
      (schedule : List ℕ) (w : W) → Outcomes svc.providers (sync_all svc schedule w).0
  unfolding sync_all
  sync_all-Outcomes schedule w =
      wait-Outcomes svc.providers _ _ (run_schedule-Know schedule _ w (ready-Know svc.providers))
