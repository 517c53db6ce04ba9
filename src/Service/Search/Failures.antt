-- ===== src/Service/Search/Failures.antt =====
-- internal/app/service/search_service.go, `Search`: when a search fails, and what a second one costs.
use search_engine_service.Base.{◌≡◌, refl, ap, ◌∙◌, ◌↔◌, String, Option, none, some}
use search_engine_service.Base.Effects.{Error, Result, ok, err}
use search_engine_service.Domain.Content.{Duration}
use search_engine_service.Domain.Search.{SearchParams, SearchResult, validate}
use search_engine_service.Domain.Ports.{Bytes, ContentRepository, Cache}
use search_engine_service.Service.CacheKey.{build_search_cache_key}
use search_engine_service.Service.Search.{
  Json, SearchService, decode_hit, read_cache, write_cache, query_repo, set_marshalled, keep_result,
  on_miss, search, to_option,
}

module _ {F W : Type 0} (json : Json (SearchResult F)) where
  keep_result-err_iff :
      (svc : SearchService F W) (p : SearchParams) (found : Result (SearchResult F)) (w : W)
      (e : Error)
      → ((keep_result json svc p found w).0 ≡ err e) ↔ (found ≡ err e)
  unfolding keep_result
  keep_result-err_iff svc p (ok r) w e = (λ h. cc, λ h. cc)
  keep_result-err_iff svc p (err x) w e = (λ h. h, λ h. h)

  abbrev pub Misses : SearchService F W → SearchParams → W → Type 0
  Misses svc p w = (read_cache json svc.cache p w).0 ≡ none

  on_miss-err_iff :
      (svc : SearchService F W) (p : SearchParams) (hit : Option (SearchResult F)) (w : W)
      (e : Error)
      → ((on_miss json svc p hit w).0 ≡ err e) ↔ ((hit ≡ none) × ((svc.repo.search p w).0 ≡ err e))
  unfolding on_miss query_repo
  on_miss-err_iff svc p none w e =
      let same = keep_result-err_iff svc p (svc.repo.search p w).0 (svc.repo.search p w).1 e in
      (λ h. (refl, same.0 h), λ h. same.1 h.1)
  on_miss-err_iff svc p (some r) w e = (λ h. cc, λ h. cc)

  -- A search fails exactly if the cache has no usable entry and the repository's search, in the
  -- world that the cache was read in, fails, and then with the repository's own error: no failure
  -- of the cache, of the encoder or of the decoder fails a search.
  pub search-err_iff :
      (svc : SearchService F W) (given : SearchParams) (w : W) (e : Error)
      → ((search json svc given w).0 ≡ err e) ↔ (
          Misses svc (validate given) w
          × ((svc.repo.search (validate given) (read_cache json svc.cache (validate given) w).1).0
              ≡ err e))
  unfolding search
  search-err_iff svc given w e = on_miss-err_iff svc (validate given) _ _ e

  -- A cache that holds on to what it is given: after a `Set` that succeeds, `Get` returns the
  -- value, and a `Get` changes nothing.
  pub record Remembers (cache : Cache W) : Type 0 where
    pub get-set :
        (k : String) (v : Bytes) (ttl : Duration) (w : W)
        → (cache.set k v ttl w).0 ≡ ok tt
        → (cache.get k (cache.set k v ttl w).1).0 ≡ ok (some v)
    pub get_idle : (k : String) (w : W) → (cache.get k w).1 ≡ w

  module _ (repo : ContentRepository F W) (cache : Cache W) (ttl : Duration)
      (m : Remembers cache) where
    abbrev svc : SearchService F W
    svc = record { repo = repo; cache = some cache; cache_ttl = ttl }

    search_hit :
        (given : SearchParams) (w : W) (r : SearchResult F)
        → (read_cache json (some cache) (validate given) w).0 ≡ some r
        → search json svc given w ≡ (ok r, w)
    unfolding search on_miss read_cache
    search_hit given w r h =
        ap
          (λ o.
            on_miss json svc (validate given) o (read_cache json svc.cache (validate given) w).1)
          h
        ∙ ap (λ v. (ok r, v)) (m.get_idle (build_search_cache_key (validate given)) w)

    search_miss :
        (given : SearchParams) (w : W) (r : SearchResult F)
        → (cache.get (build_search_cache_key (validate given)) w).0 ≡ ok none
        → (repo.search (validate given) w).0 ≡ ok r
        → search json svc given w ≡ (
          ok r,
          (write_cache json
              (some cache)
              ttl
              (validate given)
              r
              (repo.search (validate given) w).1).1,
        )
    unfolding search on_miss read_cache query_repo keep_result
    search_miss given w r miss found =
        ap
          (λ o.
            on_miss json svc (validate given) (decode_hit json o)
              (cache.get (build_search_cache_key (validate given)) w).1)
          miss
        ∙ ap (query_repo json svc (validate given))
            (m.get_idle (build_search_cache_key (validate given)) w)
        ∙ ap (λ o. keep_result json svc (validate given) o (repo.search (validate given) w).1) found

    read_back :
        (p : SearchParams) (r : SearchResult F) (b : Bytes) (w : W)
        → json.marshal r ≡ ok b
        → json.unmarshal b ≡ ok r
        → (cache.set (build_search_cache_key p) b ttl w).0 ≡ ok tt
        → (read_cache json (some cache) p (write_cache json (some cache) ttl p r w).1).0 ≡ some r
    unfolding read_cache write_cache set_marshalled decode_hit
    read_back p r b w e d stored =
        rw e (ap (decode_hit json) (m.get-set _ b ttl w stored) ∙ ap to_option d)

    -- With a cache that remembers, whose `Get` changes nothing, and a result that the encoder gives
    -- back: a second search for the same parameters, after one that missed, found the result and
    -- stored it, returns the same result and leaves the world as the first one left it.
    pub search_twice :
        (given : SearchParams) (w : W) (r : SearchResult F) (b : Bytes)
        → json.marshal r ≡ ok b
        → json.unmarshal b ≡ ok r
        → (cache.get (build_search_cache_key (validate given)) w).0 ≡ ok none
        → (repo.search (validate given) w).0 ≡ ok r
        → (cache.set
            (build_search_cache_key (validate given))
            b
            ttl
            (repo.search (validate given) w).1).0
          ≡ ok tt
        → ((search json svc given w).0 ≡ ok r)
          × (search json svc given (search json svc given w).1
              ≡ (ok r, (search json svc given w).1))
    search_twice given w r b e d miss found stored =
        rw (search_miss given w r miss found)
          (refl, search_hit given _ r (read_back (validate given) r b _ e d stored))
