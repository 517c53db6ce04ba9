-- ===== src/App/Contract.antt =====
-- cmd/api/main.go: what the parts that are put together rely on, and what they keep of it.
use search_engine_service.Base.{
  ◌≡◌, ◌≢◌, refl, subst, ◌⊎◌, inl, inr, String, List, Option, none, some, Bool-cases,
}
use search_engine_service.Base.Int.{ℤ}
use search_engine_service.Base.Float.{Float}
use search_engine_service.Base.Effects.{Result, ok, err, Eff, pure, on_ok}
use search_engine_service.Config.{Config}
use search_engine_service.Domain.Search.{SearchParams, SearchResult, validate}
use search_engine_service.Domain.Ports.{Bytes}
use search_engine_service.Infra.Postgres.{Condition, Statement, build_search_query, page_query}
use search_engine_service.Infra.Postgres.Models.{ContentModel}
use search_engine_service.Infra.Postgres.Repository
use search_engine_service.Infra.Postgres.Repository.{as_repository, to_search_result}
use search_engine_service.Infra.Postgres.Rows.{FindContract, IsPage, search-IsPage}
use search_engine_service.Infra.Redis.{new_cache}
use search_engine_service.Infra.Redis.Contract.{KeepsValues, Stored, as_cache-CacheContract}
use search_engine_service.Service.Search.{Json}
use search_engine_service.Service.Search.Answers.{CacheContract?, RepositoryContract, IsFaithful}
use search_engine_service.Transport.Dto.{SearchRequest}
use search_engine_service.Transport.Dto.Requests.{IsValidRequest}
use search_engine_service.Validator
use search_engine_service.Validator.{FieldError, as_result}
use search_engine_service.App.{Platform, cache_of}

-- What PostgreSQL, Redis, the validator and the encoder document, as far as a search relies on it:
-- `Held w k b` says that Redis holds `b` under `k`.
pub record PlatformContract {F W V H X D P C : Type 0}
    (Satisfies : Condition → ContentModel F → Type 0) (Held : W → String → Bytes → Type 0)
    (codec : Json (SearchResult F)) (p : Platform F W V H X D P C) : Type 0 where
  pub finds : (db : D) → FindContract Satisfies (p.gorm db)
  pub count_keeps :
      (db : D) (q : Statement) (w : W) (k : String) (b : Bytes)
      → Held ((p.gorm db).count q w).1 k b
      → Held w k b
  pub find_keeps :
      (db : D) (q : Statement) (w : W) (k : String) (b : Bytes)
      → Held ((p.gorm db).find q w).1 k b
      → Held w k b
  pub redis_keeps : (c : C) → KeepsValues Held (p.redis c)
  pub strict : (req : SearchRequest) → p.struct req ≡ none → IsValidRequest req
  pub faithful : IsFaithful codec

Option-cases {ℓ} : {A : Type ℓ} (o : Option A) → (o ≡ none) ⊎ ((a : A) × (o ≡ some a))
Option-cases none = inl refl
Option-cases (some a) = inr (a, refl)

-- A step that only makes a value leaves the world as it is.
on_ok_idle :
    {W A B : Type 0} (text : String) (r : Result A) (k : A → Result B) (w : W)
    → (on_ok text r (λ a. pure (k a)) w).1 ≡ w
on_ok_idle text (ok a) k w = refl
on_ok_idle text (err e) k w = refl

-- A page of the parameters.
abbrev pub IsAnswer : {F : Type 0} → SearchParams → SearchResult F → Type 0
IsAnswer params = IsPage (validate params)

-- What the cache of a configuration holds.
abbrev pub InCache :
    {F W V H X D P C : Type 0}
    → (W → String → Bytes → Type 0)
    → Platform F W V H X D P C
    → Config F
    → C
    → W
    → String
    → Bytes
    → Type 0
InCache Held p cfg c = Stored Held (new_cache (p.redis c) cfg.cache.key_prefix)

module _ {F W V H X D P C : Type 0} ⦃f : Float F⦄ (Satisfies : Condition → ContentModel F → Type 0)
    (Held : W → String → Bytes → Type 0) (codec : Json (SearchResult F))
    (p : Platform F W V H X D P C) where
  invalid :
      (req : SearchRequest) (errors : List FieldError)
      → p.struct req ≡ some errors
      → as_result (Validator.validate p.struct req) ≢ ok tt
  unfolding Validator.validate
  invalid req errors found = rw (as_result, found) (λ e. cc)

  module _ (h : PlatformContract Satisfies Held codec p) where
    count-keeps :
        (db : D) (k : String) (b : Bytes) (q : SearchParams) (counted : Result ℤ) (w : W)
        → let find_page : ℤ → Eff W (Result (SearchResult F)) = λ total v.
          let (found, u) = (p.gorm db).find (page_query q) v in
          on_ok "searching contents" found (λ ms. pure (to_search_result q total ms)) u in
          Held (on_ok "counting contents" counted find_page w).1 k b → Held w k b
    count-keeps db k b q (ok total) w held =
        let (found, u) = (p.gorm db).find (page_query q) w in
        h.find_keeps db (page_query q) w k b (
          subst (λ v. Held v k b)
            (on_ok_idle "searching contents" found (to_search_result q total) u) held)
    count-keeps db k b q (err e) w held = held

    search-keeps :
        (db : D) (k : String) (b : Bytes) (params : SearchParams) (w : W)
        → Held (Repository.search (p.gorm db) params w).1 k b
        → Held w k b
    unfolding Repository.search
    search-keeps db k b params w held =
        let q = validate params in
        let (counted, v) = (p.gorm db).count (build_search_query q) w in
        h.count_keeps db (build_search_query q) w k b (count-keeps db k b q counted v held)

    pub as_repository-RepositoryContract :
        (cfg : Config F) (db : D) (c : C)
        → RepositoryContract (InCache Held p cfg c) IsAnswer (as_repository (p.gorm db))
    unfolding as_repository
    as_repository-RepositoryContract cfg db c = record {
      search_answers =
          λ params w r e. search-IsPage Satisfies (p.gorm db) (h.finds db) params w r e;
      search_keeps = λ params w k b held. search-keeps db _ b params w held;
    }

    pub cache_of-CacheContract? :
        (cfg : Config F) (c : C) → CacheContract? (InCache Held p cfg c) (cache_of p cfg c)
    unfolding cache_of
    cache_of-CacheContract? cfg c = elim (Bool-cases cfg.cache.enabled) [
      | inl on ↦ rw on (as_cache-CacheContract Held _ (h.redis_keeps c))
      | inr off ↦ rw off tt
    ]

    pub struct-none :
        (req : SearchRequest)
        → as_result (Validator.validate p.struct req) ≡ ok tt
        → p.struct req ≡ none
    struct-none req passed = elim (Option-cases (p.struct req)) [
      | inl no_error ↦ no_error
      | inr (errors, found) ↦ absurd (invalid req errors found passed)
    ]
