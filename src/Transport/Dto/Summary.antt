-- ===== src/Transport/Dto/Summary.antt =====
-- internal/transport/httpserver/dto/response.go, `FromSyncResults`: what the summary adds up.
use search_engine_service.Base.{◌+◌, ◌≡◌, refl, ap, ◌∙◌, List, [], ◌∷◌, map, length, arith}
use search_engine_service.Service.Sync.{SyncResult, count_results}
use search_engine_service.Job.Loop.{synced_total, error_total, count_results_lem}
use search_engine_service.Transport.Dto.{
  Printing, SyncSummary, SyncResultResponse, add_to_summary, summarise, from_sync_result,
  from_sync_results,
}

module _ (print : Printing) where
  -- The summary `t` is `s` with the results `rs` added.
  abbrev IsSum : SyncSummary → List SyncResult → SyncSummary → Type 0
  IsSum s rs t =
      (t.total_synced ≡ s.total_synced + synced_total rs)
      × (t.providers_fail ≡ s.providers_fail + error_total rs)
      × (t.providers_ok + t.providers_fail ≡ s.providers_ok + s.providers_fail + length rs)

  summarise-IsSum : (s : SyncSummary) (rs : List SyncResult) → IsSum s rs (summarise print s rs)
  unfolding summarise add_to_summary
  summarise-IsSum s [] = (omega arith, omega arith, omega arith)
  summarise-IsSum s (r ∷ rs) = ground (arith, summarise-IsSum (add_to_summary print s r) rs)

  names_kept :
      (rs : List SyncResult)
      → map (λ (x : SyncResultResponse). x.provider) (map (from_sync_result print) rs)
        ≡ map (λ (r : SyncResult). r.provider) rs
  unfolding from_sync_result
  names_kept [] = refl
  names_kept (r ∷ rs) = ap (λ names. r.provider ∷ names) (names_kept rs)

  -- The answer to a synchronisation lists the providers of the results in their order; its summary
  -- has the numbers that the service and the scheduler log for the same results, and every provider
  -- is counted once, as a success or as a failure.
  pub from_sync_results_lem :
      (rs : List SyncResult)
      → let answer = from_sync_results print rs in
        (map (λ (x : SyncResultResponse). x.provider) answer.results
          ≡ map (λ (r : SyncResult). r.provider) rs)
        × (count_results rs ≡ (answer.summary.total_synced, answer.summary.providers_fail))
        × (answer.summary.providers_ok + answer.summary.providers_fail ≡ length rs)
  unfolding from_sync_results
  from_sync_results_lem rs =
      let (synced, failed, all) =
        summarise-IsSum (record { total_synced = 0; providers_ok = 0; providers_fail = 0 }) rs in
      (names_kept rs, count_results_lem rs ∙ ground arith, omega arith)
