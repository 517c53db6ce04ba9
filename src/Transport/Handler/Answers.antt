-- ===== src/Transport/Handler/Answers.antt =====
-- internal/transport/httpserver/handler: the status of every answer.
use search_engine_service.Base.{
  ℕ, ◌≡◌, refl, inl, inr, String, Option, none, some, arith, ◌==◌, string_eq, if◌then◌else◌,
  Bool-cases,
}
use search_engine_service.Base.Effects.{Error, Result, ok, err}
use search_engine_service.Domain.Search.{SearchResult}
use search_engine_service.Service.Search
use search_engine_service.Service.Search.{Json, SearchService}
use search_engine_service.Service.Sync
use search_engine_service.Service.Sync.{SyncService, SyncResult}
use search_engine_service.Service.Sync.Schedules.{ByName, sync_provider_named-ByName}
use search_engine_service.Transport.Dto.{SearchRequest, to_search_params, Printing}
use search_engine_service.Transport.Handler.{
  answer_search, search_valid, search, answer_sync, sync_provider,
}

module _ {F W : Type 0} (print : Printing) (codec : Json (SearchResult F)) (svc : SearchService F W)
    (validator : SearchRequest → Result (Unit {0})) where
  -- How a search is answered: a request that cannot be parsed or is not valid gets a 400 and
  -- reaches nothing; a valid one runs the search of its parameters, and gets a 200 or a 500.
  pub data SearchAnswered (w : W) : Result SearchRequest → ℕ × W → Type 0 where
    not_parsed : {e : Error} → SearchAnswered w (err e) (400, w)
    not_valid :
        {req : SearchRequest} {e : Error}
        → validator req ≡ err e
        → SearchAnswered w (ok req) (400, w)
    searched :
        {req : SearchRequest} {valid : Unit {0}} {r : SearchResult F}
        → validator req ≡ ok valid
        → (Search.search codec svc (to_search_params req) w).0 ≡ ok r
        → SearchAnswered w (ok req) (200, (Search.search codec svc (to_search_params req) w).1)
    search_failed :
        {req : SearchRequest} {valid : Unit {0}} {e : Error}
        → validator req ≡ ok valid
        → (Search.search codec svc (to_search_params req) w).0 ≡ err e
        → SearchAnswered w (ok req) (500, (Search.search codec svc (to_search_params req) w).1)

  searched-SearchAnswered :
      (req : SearchRequest) (valid : Unit {0}) (w : W) (out : Result (SearchResult F))
      → validator req ≡ ok valid
      → (Search.search codec svc (to_search_params req) w).0 ≡ out
      → SearchAnswered w (ok req) (
        (answer_search print codec svc out).status,
        (Search.search codec svc (to_search_params req) w).1,
      )
  unfolding answer_search
  searched-SearchAnswered req valid w (ok r) v e = searched v e
  searched-SearchAnswered req valid w (err x) v e = search_failed v e

  valid-SearchAnswered :
      (req : SearchRequest) (w : W) (checked : Result (Unit {0}))
      → validator req ≡ checked
      → SearchAnswered w (ok req) (
        (search_valid print codec svc req checked w).0.status,
        (search_valid print codec svc req checked w).1,
      )
  unfolding search_valid
  valid-SearchAnswered req w (ok valid) v = searched-SearchAnswered req valid w _ v refl
  valid-SearchAnswered req w (err e) v = not_valid v

  -- Every search request is answered in one of four ways: it cannot be parsed or is not valid, gets
  -- a 400 and changes nothing; or the search of its own parameters runs, and the status is 200
  -- if it succeeds and 500 if it fails.
  pub search-SearchAnswered :
      (parsed : Result SearchRequest) (w : W)
      → SearchAnswered w parsed (
        (search print codec svc validator parsed w).0.status,
        (search print codec svc validator parsed w).1,
      )
  unfolding search
  search-SearchAnswered (ok req) w = valid-SearchAnswered req w (validator req) refl
  search-SearchAnswered (err e) w = not_parsed

module _ {F W : Type 0} (print : Printing) (svc : SyncService F W) where
  -- The status of a result: 404 for none, 500 for one with an error, and else 200.
  abbrev pub sync_status : Option SyncResult → ℕ
  sync_status none = 404
  sync_status (some r) = elim r.error [ none ↦ 200 | some e ↦ 500 ]

  answer_sync-status :
      (found : Option SyncResult) → (answer_sync print svc found).status ≡ sync_status found
  unfolding answer_sync
  answer_sync-status none = refl
  answer_sync-status (some r) = ground arith

  -- A synchronisation by name gets a 400 for an empty name and does nothing then; else it runs the
  -- synchronisation of the first provider of that name and has a 404 if there is none, a 500 if the
  -- result has an error, and a 200 if it has none.
  pub sync_provider_lem :
      (name : String) (w : W)
      → let ran = Sync.sync_provider_named svc name w in
        ((sync_provider print svc name w).0.status
          ≡ (if name == "" then 400 else sync_status ran.0))
        × ((sync_provider print svc name w).1 ≡ (if name == "" then w else ran.1))
        × ByName svc name w svc.providers ran
  unfolding sync_provider
  sync_provider_lem name w =
      let ran = Sync.sync_provider_named svc name w in
      let by_name = sync_provider_named-ByName svc name w in
      elim (Bool-cases (name == "")) [
        | inl empty ↦ rw empty (refl, refl, by_name)
        | inr given ↦ rw given (answer_sync-status ran.0, refl, by_name)
      ]
