-- ===== src/Service/Search/Answers.antt =====
-- internal/app/service/search_service.go, `Search`: which results the cache-aside search returns, for
-- any repository and any cache. `Stored w k b` says that the cache holds `b` under `k` in the world
-- `w`, and `Answer p r` that `r` is a right answer to the parameters `p`.
use search_engine_service.Base.{
  ◌≡◌, refl, sym, ap, ◌∙◌, subst, ◌⊎◌, inl, inr, String, Option, none, some, arith,
}
use search_engine_service.Base.Effects.{Result, ok, err}
use search_engine_service.Domain.Content.{Duration}
use search_engine_service.Domain.Search.{SearchParams, SearchResult, validate}
use search_engine_service.Domain.Ports.{Bytes, ContentRepository, Cache}
use search_engine_service.Service.CacheKey.{
  build_search_cache_key, build_search_cache_key-injective, HasPlainFields,
}
use search_engine_service.Service.Search.{
  Json, SearchService, decode_hit, read_cache, write_cache, query_repo, set_marshalled, keep_result,
  on_miss, search, to_option,
}

-- What a cache promises: it returns what it holds, and it comes to hold only what is set. It may
-- fail, and it may forget.
pub record CacheContract {W : Type 0} (Stored : W → String → Bytes → Type 0) (cache : Cache W)
    : Type 0 where
  pub get_found : (k : String) (w : W) (b : Bytes) → (cache.get k w).0 ≡ ok (some b) → Stored w k b
  pub get_keeps :
      (k : String) (w : W) (j : String) (b : Bytes) → Stored (cache.get k w).1 j b → Stored w j b
  pub set_keeps :
      (k : String) (v : Bytes) (ttl : Duration) (w : W) (j : String) (b : Bytes)
      → Stored (cache.set k v ttl w).1 j b
      → ((j ≡ k) × (b ≡ v)) ⊎ Stored w j b

-- What the repository promises: its results are answers, and a search puts nothing in the cache.
pub record RepositoryContract {F W : Type 0} (Stored : W → String → Bytes → Type 0)
    (Answer : SearchParams → SearchResult F → Type 0) (repo : ContentRepository F W) : Type 0 where
  pub search_answers :
      (p : SearchParams) (w : W) (r : SearchResult F) → (repo.search p w).0 ≡ ok r → Answer p r
  pub search_keeps :
      (p : SearchParams) (w : W) (k : String) (b : Bytes)
      → Stored (repo.search p w).1 k b
      → Stored w k b

-- Decoding what was encoded gives it back.
abbrev pub IsFaithful : {F : Type 0} → Json (SearchResult F) → Type 0
IsFaithful {F} json =
    (r r' : SearchResult F) (b : Bytes) → json.marshal r ≡ ok b → json.unmarshal b ≡ ok r' → r' ≡ r

abbrev pub CacheContract? : {W : Type 0} → (W → String → Bytes → Type 0) → Option (Cache W) → Type 0
CacheContract? Stored none = Unit
CacheContract? Stored (some cache) = CacheContract Stored cache

module _ {F W : Type 0} (Stored : W → String → Bytes → Type 0)
    (Answer : SearchParams → SearchResult F → Type 0) (json : Json (SearchResult F)) where
  -- What the cache holds under the key of some parameters decodes to an answer to them.
  pub record IsSound (w : W) : Type 0 where
    pub sound :
        (p : SearchParams) (b : Bytes) (r : SearchResult F)
        → HasPlainFields p
        → Stored w (build_search_cache_key p) b
        → json.unmarshal b ≡ ok r
        → Answer p r

  module _ (faithful : IsFaithful json) where
    decode_hit_sound :
        (p : SearchParams) (cache : Cache W) (w : W) (got : Result (Option Bytes))
        (r : SearchResult F)
        → HasPlainFields p
        → CacheContract Stored cache
        → IsSound w
        → (cache.get (build_search_cache_key p) w).0 ≡ got
        → decode_hit json got ≡ some r
        → Answer p r
    unfolding decode_hit
    decode_hit_sound p cache w (ok (some b)) r plain c s e h = decoded (json.unmarshal b) refl h
      where
        decoded :
            (u : Result (SearchResult F)) → json.unmarshal b ≡ u → to_option u ≡ some r → Answer p r
        decoded (ok r') e' h' = s.sound p b r plain (c.get_found _ w b e) (e' ∙ ground arith)
        decoded (err x) e' h' = cc
    decode_hit_sound p cache w (ok none) r plain c s e h = cc
    decode_hit_sound p cache w (err x) r plain c s e h = cc

    set_marshalled-IsSound :
        (cache : Cache W) (ttl : Duration) (p : SearchParams) (r : SearchResult F) (w : W)
        (m : Result Bytes)
        → CacheContract Stored cache
        → HasPlainFields p
        → Answer p r
        → json.marshal r ≡ m
        → IsSound w
        → IsSound (set_marshalled json cache ttl p m w).1
    unfolding set_marshalled
    set_marshalled-IsSound cache ttl p r w (ok v) c plain good e s = record {
      sound = λ q b r' plain' held decoded. elim (c.set_keeps _ v ttl w _ b held) [
        | inl (same_key, same_value) ↦
            let same = build_search_cache_key-injective q p plain' plain same_key in
            let result = faithful r r' v e (ap json.unmarshal (sym same_value) ∙ decoded) in
            subst (λ x. Answer x r') (sym same) (subst (Answer p) (sym result) good)
        | inr before ↦ s.sound q b r' plain' before decoded
      ];
    }
    set_marshalled-IsSound cache ttl p r w (err x) c plain good e s = s

    write_cache-IsSound :
        (cache : Option (Cache W)) (ttl : Duration) (p : SearchParams) (r : SearchResult F) (w : W)
        → CacheContract? Stored cache
        → HasPlainFields p
        → Answer p r
        → IsSound w
        → IsSound (write_cache json cache ttl p r w).1
    unfolding write_cache
    write_cache-IsSound none ttl p r w c plain good s = s
    write_cache-IsSound (some cache) ttl p r w c plain good s =
        set_marshalled-IsSound cache ttl p r w (json.marshal r) c plain good refl s

    -- A result that is returned is an answer, and the cache is sound afterwards.
    abbrev IsRight : SearchParams → Result (SearchResult F) × W → Type 0
    IsRight p out = ((r : SearchResult F) → out.0 ≡ ok r → Answer p r) × IsSound out.1

    keep_result-IsRight :
        (svc : SearchService F W) (p : SearchParams) (found : Result (SearchResult F)) (w : W)
        → CacheContract? Stored svc.cache
        → HasPlainFields p
        → ((r : SearchResult F) → found ≡ ok r → Answer p r)
        → IsSound w
        → IsRight p (keep_result json svc p found w)
    unfolding keep_result
    keep_result-IsRight svc p (ok r) w c plain good s = (
      λ r' e. good r' e,
      write_cache-IsSound svc.cache svc.cache_ttl p r w c plain (good r refl) s,
    )
    keep_result-IsRight svc p (err x) w c plain good s = (λ r e. cc, s)

    on_miss-IsRight :
        (svc : SearchService F W) (p : SearchParams) (hit : Option (SearchResult F)) (w : W)
        → CacheContract? Stored svc.cache
        → RepositoryContract Stored Answer svc.repo
        → HasPlainFields p
        → ((r : SearchResult F) → hit ≡ some r → Answer p r)
        → IsSound w
        → IsRight p (on_miss json svc p hit w)
    unfolding on_miss query_repo
    on_miss-IsRight svc p (some r) w c repo plain good s = (λ r' e. good r' (ground arith), s)
    on_miss-IsRight svc p none w c repo plain good s =
        keep_result-IsRight svc p (svc.repo.search p w).0 (svc.repo.search p w).1 c plain
          (repo.search_answers p w)
          (record {
            sound = λ q b r plain' held. s.sound q b r plain' (repo.search_keeps p w _ b held);
          })

    read_cache-IsSound :
        (cache : Option (Cache W)) (p : SearchParams) (w : W)
        → CacheContract? Stored cache
        → HasPlainFields p
        → IsSound w
        → ((r : SearchResult F) → (read_cache json cache p w).0 ≡ some r → Answer p r)
          × IsSound (read_cache json cache p w).1
    unfolding read_cache
    read_cache-IsSound none p w c plain s = (λ r e. cc, s)
    read_cache-IsSound (some cache) p w c plain s = (
      λ r e. decode_hit_sound p cache w _ r plain c s refl e,
      record { sound = λ q b r plain' held. s.sound q b r plain' (c.get_keeps _ w _ b held) },
    )

    -- A result that is returned is an answer; an error says nothing.
    abbrev pub Answers : SearchParams → Result (SearchResult F) → Type 0
    Answers p (ok r) = Answer p r
    Answers p (err e) = Unit

    IsRight-Answers :
        (p : SearchParams) (out : Result (SearchResult F))
        → ((r : SearchResult F) → out ≡ ok r → Answer p r)
        → Answers p out
    IsRight-Answers p (ok r) right = right r refl
    IsRight-Answers p (err e) right = tt

    -- For every repository and every cache that keep their contracts, an encoder that loses
    -- nothing, and corrected parameters whose filter and order have no colon: from a sound cache
    -- the search returns only answers to the corrected parameters, on a hit and on a miss, and
    -- leaves the cache sound for all parameters, whatever the cache fails at or forgets.
    pub search-IsSound :
        (svc : SearchService F W) (given : SearchParams) (w : W)
        → CacheContract? Stored svc.cache
        → RepositoryContract Stored Answer svc.repo
        → HasPlainFields (validate given)
        → IsSound w
        → Answers (validate given) (search json svc given w).0 × IsSound (search json svc given w).1
    unfolding search
    search-IsSound svc given w c repo plain s =
        let p = validate given in
        let (good, s') = read_cache-IsSound svc.cache p w c plain s in
        let (right, s'') = on_miss-IsRight svc p _ _ c repo plain good s' in
        (IsRight-Answers p _ right, s'')
