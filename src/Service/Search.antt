-- ===== src/Service/Search.antt =====
-- internal/app/service/search_service.go. The logger's calls change nothing that is modelled.
-- `encoding/json` of a result is the argument `json`.
pub mod Answers
pub mod Failures
use search_engine_service.Base.{String, List, Option, none, some}
use search_engine_service.Base.Int.{ℤ}
use search_engine_service.Base.Effects.{Result, ok, err, Eff, pure, ◌>>=◌, ◌>>◌}
use search_engine_service.Domain.Content.{Content, Duration}
use search_engine_service.Domain.Search.{SearchParams, SearchResult, validate, empty_search_params}
use search_engine_service.Domain.Ports.{Bytes, ContentRepository, Cache}
use search_engine_service.Service.CacheKey.{build_search_cache_key}

-- `json.Marshal` and `json.Unmarshal` at one type.
pub record Json (A : Type 0) : Type 0 where
  pub marshal : A → Result Bytes
  pub unmarshal : Bytes → Result A

pub record SearchService (F W : Type 0) : Type 0 where
  pub repo : ContentRepository F W
  pub cache : Option (Cache W)
  pub cache_ttl : Duration

unfoldable pub new_search_service :
    {F W : Type 0} → ContentRepository F W → Option (Cache W) → Duration → SearchService F W
new_search_service repo cache ttl = record { repo = repo; cache = cache; cache_ttl = ttl }

abbrev to_option {ℓ} : {A : Type ℓ} → Result A → Option A
to_option (ok a) = some a
to_option (err e) = none

module _ {F : Type 0} (json : Json (SearchResult F)) where
  -- What the answer of the cache is good for: a hit that can be decoded.
  unfoldable pub decode_hit : Result (Option Bytes) → Option (SearchResult F)
  decode_hit (ok (some found)) = to_option (json.unmarshal found)
  decode_hit (ok none) = none
  decode_hit (err e) = none

module _ {F W : Type 0} (json : Json (SearchResult F)) where
  -- The first half of `Search`.
  unfoldable pub read_cache : Option (Cache W) → SearchParams → Eff W (Option (SearchResult F))
  unfolding decode_hit
  read_cache none params = pure none
  read_cache (some cache) params = do
    got ← cache.get (build_search_cache_key params)
    pure (decode_hit json got)

  set_marshalled : Cache W → Duration → SearchParams → Result Bytes → Eff W (Unit {0})
  set_marshalled cache ttl params (ok bytes) = do
    _ ← cache.set (build_search_cache_key params) bytes ttl
    pure tt
  set_marshalled cache ttl params (err e) = pure tt

  -- The second half: an error of the cache, or of the encoder, does not fail the request.
  unfoldable pub write_cache :
      Option (Cache W) → Duration → SearchParams → SearchResult F → Eff W (Unit {0})
  unfolding set_marshalled
  write_cache none ttl params result = pure tt
  write_cache (some cache) ttl params result = set_marshalled cache ttl params (json.marshal result)

  keep_result :
      SearchService F W → SearchParams → Result (SearchResult F) → Eff W (Result (SearchResult F))
  unfolding write_cache
  keep_result svc params (err e) = pure (err e)
  keep_result svc params (ok result) = do
    write_cache svc.cache svc.cache_ttl params result
    pure (ok result)

  -- `s.repo.Search`, and what follows it.
  unfoldable pub query_repo : SearchService F W → SearchParams → Eff W (Result (SearchResult F))
  unfolding keep_result
  query_repo svc params = do found ← svc.repo.search params; keep_result svc params found

  on_miss :
      SearchService F W → SearchParams → Option (SearchResult F) → Eff W (Result (SearchResult F))
  unfolding query_repo
  on_miss svc params none = query_repo svc params
  on_miss svc params (some result) = pure (ok result)

  unfoldable pub search : SearchService F W → SearchParams → Eff W (Result (SearchResult F))
  unfolding read_cache on_miss
  search svc given = do
    let params = validate given
    hit ← read_cache svc.cache params
    on_miss svc params hit

module _ {F W : Type 0} where
  unfoldable pub get_by_id : SearchService F W → String → Eff W (Result (Option (Content F)))
  get_by_id svc id = svc.repo.get_by_id id

  unfoldable pub count : SearchService F W → Eff W (Result ℤ)
  count svc = svc.repo.count empty_search_params
