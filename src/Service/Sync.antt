-- ===== src/Service/Sync.antt =====
-- internal/app/service/sync_service.go. `SyncAll` starts a goroutine for each provider; what the
-- others do between two of its calls is a schedule, the list of the goroutines in the order in
-- which they make their next call. `clock` is `time.Now`.
pub mod Outcomes
pub mod Schedules
pub mod Progress
pub mod Storing
pub mod Isolation
pub mod Frames
use search_engine_service.Base.{
  ℕ, zero, suc, String, List, [], ◌∷◌, map, Option, none, some, Bool, if◌then◌else◌, ltb, length,
  ◌==◌, string_eq, get_elem?, set, ◌+◌,
}
use search_engine_service.Base.Int.{ℤ, pos}
use search_engine_service.Base.Effects.{Error, Result, ok, err, Eff, pure, ◌>>=◌}
use search_engine_service.Domain.Content.{Content, Time, Duration, since}
use search_engine_service.Domain.Ports.{ContentRepository, Provider}

pub record SyncService (F W : Type 0) : Type 0 where
  pub repo : ContentRepository F W
  pub providers : List (Provider F W)
  pub clock : Eff W Time

unfoldable pub new_sync_service :
    {F W : Type 0} → ContentRepository F W → List (Provider F W) → Eff W Time → SyncService F W
new_sync_service repo providers clock = record { repo = repo; providers = providers; clock = clock }

pub record SyncResult : Type 0 where
  pub provider : String
  pub count : ℕ
  pub duration : Duration
  pub error : Option Error

-- The zero value, which `make` fills the results with.
abbrev pub empty_sync_result : SyncResult
empty_sync_result = record { provider = ""; count = 0; duration = pos 0; error = none }

-- Where a goroutine stands in `syncProvider`: before its first call, after `time.Now`, after
-- `Fetch`, after `BulkUpsert`, and at the end.
pub data Task (F : Type 0) : Type 0 where
  ready : Task F
  started : Time → Task F
  fetched : Time → Result (List (Content F)) → Task F
  stored : Time → ℕ → Option Error → Task F
  done : SyncResult → Task F

-- The task after `BulkUpsert` of `contents`.
unfoldable pub after_store :
    {F : Type 0} → Time → List (Content F) → Result (List (Content F)) → Task F
after_store start contents (ok updated) = stored start (length contents) none
after_store start contents (err e) = stored start 0 (some e)

module _ {F W : Type 0} (svc : SyncService F W) where
  -- `if len(contents) > 0 { repo.BulkUpsert }`.
  unfoldable pub store : Time → List (Content F) → Eff W (Task F)
  unfolding after_store
  store start [] = pure (stored start 0 none)
  store start (c ∷ cs) = do
    out ← svc.repo.bulk_upsert (c ∷ cs)
    pure (after_store start (c ∷ cs) out)

  -- A failed fetch skips the database.
  unfoldable pub after_fetch : Time → Result (List (Content F)) → Eff W (Task F)
  unfolding store
  after_fetch start (ok contents) = store start contents
  after_fetch start (err e) = pure (stored start 0 (some e))

  -- The next call of a goroutine.
  unfoldable pub advance : Provider F W → Task F → Eff W (Task F)
  unfolding after_fetch since
  advance p ready = do start ← svc.clock; pure (started start)
  advance p (started start) = do contents ← p.fetch; pure (fetched start contents)
  advance p (fetched start contents) = after_fetch start contents
  advance p (stored start count error) = do
    stop ← svc.clock
    pure (
        done
          (record { provider = p.name; count = count; duration = since stop start; error = error }))
  advance p (done r) = pure (done r)

  -- As many calls as `syncProvider` ever makes.
  unfoldable pub finish : Provider F W → Task F → Eff W (Task F)
  unfolding advance
  finish p t = do t1 ← advance p t; t2 ← advance p t1; t3 ← advance p t2; advance p t3

  abbrev pub result_of : Task F → SyncResult
  result_of ready = empty_sync_result
  result_of (started t) = empty_sync_result
  result_of (fetched t c) = empty_sync_result
  result_of (stored t n e) = empty_sync_result
  result_of (done r) = r

  unfoldable pub sync_provider : Provider F W → Eff W SyncResult
  unfolding finish
  sync_provider p = do t ← finish p ready; pure (result_of t)

  -- Goroutine `i` makes its next call.
  unfoldable pub advance_at : ℕ → List (Provider F W) → List (Task F) → Eff W (List (Task F))
  unfolding advance
  advance_at i [] ts = pure ts
  advance_at i (p ∷ ps) [] = pure []
  advance_at zero (p ∷ ps) (t ∷ ts) = do t' ← advance p t; pure (t' ∷ ts)
  advance_at (suc i) (p ∷ ps) (t ∷ ts) = do ts' ← advance_at i ps ts; pure (t ∷ ts')

  unfoldable pub run_schedule : List ℕ → List (Task F) → Eff W (List (Task F))
  unfolding advance_at
  run_schedule [] ts = pure ts
  run_schedule (i ∷ is) ts = do ts' ← advance_at i svc.providers ts; run_schedule is ts'

  -- `wg.Wait`: those that the schedule leaves unfinished run to their end.
  unfoldable pub wait : List (Provider F W) → List (Task F) → Eff W (List (Task F))
  unfolding finish
  wait [] ts = pure []
  wait (p ∷ ps) [] = pure []
  wait (p ∷ ps) (t ∷ ts) = do t' ← finish p t; ts' ← wait ps ts; pure (t' ∷ ts')

  unfoldable pub sync_all : List ℕ → Eff W (List SyncResult)
  unfolding run_schedule wait
  sync_all schedule = do
    ts ← run_schedule schedule (map (λ p. ready) svc.providers)
    ts' ← wait svc.providers ts
    pure (map result_of ts')

  -- The loop of `SyncProvider`. The result comes with its own error; none is a provider not found.
  unfoldable pub find_and_sync : String → List (Provider F W) → Eff W (Option SyncResult)
  unfolding sync_provider
  find_and_sync name [] = pure none
  find_and_sync name (p ∷ ps) =
      let rest = find_and_sync name ps in
      if p.name == name then (do result ← sync_provider p; pure (some result)) else rest

  unfoldable pub sync_provider_named : String → Eff W (Option SyncResult)
  unfolding find_and_sync
  sync_provider_named name = find_and_sync name svc.providers

  unfoldable pub get_provider_names : List String
  get_provider_names = map (λ p. p.name) svc.providers

-- The summary that `SyncAll` and the scheduler log: the contents synchronised and the failures.
unfoldable pub count_results : List SyncResult → ℕ × ℕ
count_results [] = (0, 0)
count_results (r ∷ rs) =
    let (synced, errors) = count_results rs in
    elim r.error [ none ↦ (r.count + synced, errors) | some e ↦ (synced, suc errors) ]
