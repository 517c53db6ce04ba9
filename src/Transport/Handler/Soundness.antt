-- ===== src/Transport/Handler/Soundness.antt =====
-- internal/transport/httpserver/handler/search_handler.go with the service and its cache behind it:
-- what the body of an answer shows.
use search_engine_service.Base.{String, ◌≡◌, refl, sym, ◌≤◌, ◌⊎◌, inl, inr, subst, arith}
use search_engine_service.Base.Effects.{Result, ok, err}
use search_engine_service.Domain.Search.{SearchParams, SearchResult}
use search_engine_service.Domain.Ports.{Bytes}
use search_engine_service.Service.Search
use search_engine_service.Service.Search.{Json, SearchService}
use search_engine_service.Service.CacheKey.{HasPlainFields}
use search_engine_service.Service.Search.Answers.{
  CacheContract?, RepositoryContract, IsFaithful, IsSound, Answers, search-IsSound,
}
use search_engine_service.Transport.Dto.{
  SearchRequest, to_search_params, Printing, from_search_result,
}
use search_engine_service.Transport.Dto.Requests.{IsValidRequest, to_search_params_lem}
use search_engine_service.Transport.Handler.{
  Answer, json, contents_body, answer_search, search_valid, search,
}

module _ {F W : Type 0} (print : Printing) (Stored : W → String → Bytes → Type 0)
    (IsAnswer : SearchParams → SearchResult F → Type 0) (codec : Json (SearchResult F))
    (faithful : IsFaithful codec) (svc : SearchService F W) where
  -- The body shows a right answer to the parameters, or the status is an error.
  abbrev pub Shows : SearchParams → Answer F → Type 0
  Shows p a =
      ((r : SearchResult F) × IsAnswer p r
        × (a ≡ json (contents_body (from_search_result print r))))
      ⊎ (400 ≤ a.status)

  -- What a request that could not be parsed, or that was, is to be shown.
  abbrev pub ShowsRequest : Result SearchRequest → Answer F → Type 0
  ShowsRequest (ok req) a = Shows (to_search_params req) a
  ShowsRequest (err e) a = a.status ≡ 400

  answer_search-Shows :
      (p : SearchParams) (out : Result (SearchResult F))
      → Answers Stored IsAnswer codec faithful p out
      → Shows p (answer_search print codec svc out)
  unfolding answer_search
  answer_search-Shows p (ok r) h = inl (r, h, refl)
  answer_search-Shows p (err e) h = inr (omega arith)

  module _ (cache : CacheContract? Stored svc.cache)
      (repo : RepositoryContract Stored IsAnswer svc.repo) where
    search_valid-Shows :
        (req : SearchRequest) (checked : Result (Unit {0})) (w : W)
        → (checked ≡ ok tt → IsValidRequest req)
        → IsSound Stored IsAnswer codec w
        → Shows (to_search_params req) (search_valid print codec svc req checked w).0
          × IsSound Stored IsAnswer codec (search_valid print codec svc req checked w).1
    unfolding search_valid
    search_valid-Shows req (err e) w valid s = (inr (omega arith), s)
    search_valid-Shows req (ok tt) w valid s =
        let p = to_search_params req in
        let (same, _, plain) = to_search_params_lem req (valid refl) in
        let (right, s') =
          search-IsSound Stored IsAnswer codec faithful svc p w cache repo
            (subst HasPlainFields (sym same) plain) s in
        (
          answer_search-Shows p _ (
              subst (λ q. Answers Stored IsAnswer codec faithful q (Search.search codec svc p w).0)
                same right),
          s',
        )

    -- For a validator that passes only requests which obey their tags, and for a repository, a
    -- cache and an encoder that keep their contracts: from a sound cache, every answer of the search
    -- handler either has an error status or shows a right answer to the parameters of its own
    -- request, whether it came from the cache or not, and the cache is sound afterwards.
    pub search-Shows :
        (validator : SearchRequest → Result (Unit {0})) (parsed : Result SearchRequest) (w : W)
        → ((req : SearchRequest) → validator req ≡ ok tt → IsValidRequest req)
        → IsSound Stored IsAnswer codec w
        → ShowsRequest parsed (search print codec svc validator parsed w).0
          × IsSound Stored IsAnswer codec (search print codec svc validator parsed w).1
    unfolding search
    search-Shows validator (ok req) w strict s =
        search_valid-Shows req (validator req) w (strict req) s
    search-Shows validator (err e) w strict s = (refl, s)
