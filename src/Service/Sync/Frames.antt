-- ===== src/Service/Sync/Frames.antt =====
-- internal/app/service/sync_service.go, `SyncAll`: what its calls keep to, the whole keeps to.
use search_engine_service.Base.{ℕ, zero, suc, List, [], ◌∷◌, map, All}
use search_engine_service.Base.Effects.{Result, ok, err}
use search_engine_service.Base.Frames.{IsFrame, Moves}
use search_engine_service.Domain.Content.{Content, Time}
use search_engine_service.Domain.Ports.{Provider}
use search_engine_service.Service.Sync.{
  SyncService, Task, ready, started, fetched, stored, done, store, after_fetch, advance, finish,
  advance_at, run_schedule, wait, sync_all,
}

module _ {F W : Type 0} (R : W → W → Type 0) (frame : IsFrame R) (svc : SyncService F W)
    (upsert_moves : (cs : List (Content F)) → Moves R (svc.repo.bulk_upsert cs))
    (clock_moves : Moves R svc.clock) where
  abbrev FetchMoves : Provider F W → Type 0
  FetchMoves p = Moves R p.fetch

  after_fetch-Moves :
      (start : Time) (r : Result (List (Content F))) → Moves R (after_fetch svc start r)
  unfolding after_fetch store
  after_fetch-Moves start (ok []) w = frame.idle w
  after_fetch-Moves start (ok (c ∷ cs)) w = upsert_moves (c ∷ cs) w
  after_fetch-Moves start (err e) w = frame.idle w

  advance-Moves : (p : Provider F W) (t : Task F) → FetchMoves p → Moves R (advance svc p t)
  unfolding advance
  advance-Moves p ready f w = clock_moves w
  advance-Moves p (started start) f w = f w
  advance-Moves p (fetched start r) f w = after_fetch-Moves start r w
  advance-Moves p (stored start n e) f w = clock_moves w
  advance-Moves p (done r) f w = frame.idle w

  finish-Moves : (p : Provider F W) (t : Task F) → FetchMoves p → Moves R (finish svc p t)
  unfolding finish
  finish-Moves p t f w =
      let (t1, w1) = advance svc p t w in
      let (t2, w2) = advance svc p t1 w1 in
      let (t3, w3) = advance svc p t2 w2 in
      let first = frame.joins w w1 w2 (advance-Moves p t f w) (advance-Moves p t1 f w1) in
      let last = frame.joins w2 w3 _ (advance-Moves p t2 f w2) (advance-Moves p t3 f w3) in
      frame.joins w w2 _ first last

  advance_at-Moves :
      (i : ℕ) (ps : List (Provider F W)) (ts : List (Task F))
      → All FetchMoves ps
      → Moves R (advance_at svc i ps ts)
  unfolding advance_at
  advance_at-Moves i [] ts fs w = frame.idle w
  advance_at-Moves i (p ∷ ps) [] fs w = frame.idle w
  advance_at-Moves zero (p ∷ ps) (t ∷ ts) fs w = advance-Moves p t fs.0 w
  advance_at-Moves (suc i) (p ∷ ps) (t ∷ ts) fs w = advance_at-Moves i ps ts fs.1 w

  run_schedule-Moves :
      (schedule : List ℕ) (ts : List (Task F))
      → All FetchMoves svc.providers
      → Moves R (run_schedule svc schedule ts)
  unfolding run_schedule
  run_schedule-Moves [] ts fs w = frame.idle w
  run_schedule-Moves (i ∷ is) ts fs w =
      let (us, v) = advance_at svc i svc.providers ts w in
      frame.joins w v _ (advance_at-Moves i svc.providers ts fs w) (run_schedule-Moves is us fs v)

  wait-Moves :
      (ps : List (Provider F W)) (ts : List (Task F)) → All FetchMoves ps → Moves R (wait svc ps ts)
  unfolding wait
  wait-Moves [] ts fs w = frame.idle w
  wait-Moves (p ∷ ps) [] fs w = frame.idle w
  wait-Moves (p ∷ ps) (t ∷ ts) fs w =
      frame.joins w _ _ (finish-Moves p t fs.0 w) (wait-Moves ps ts fs.1 (finish svc p t w).1)

  pub sync_all-Moves :
      (schedule : List ℕ) → All FetchMoves svc.providers → Moves R (sync_all svc schedule)
  unfolding sync_all
  sync_all-Moves schedule fs w =
      let (ts, v) = run_schedule svc schedule (map (λ p. ready) svc.providers) w in
      frame.joins w v _ (run_schedule-Moves schedule _ fs w) (wait-Moves svc.providers ts fs v)
