-- ===== src/Tests/SearchTests.antt =====
-- internal/app/service/search_service.go with a cache in memory and an encoder of empty pages.
use search_engine_service.Base.{
  ℕ, zero, suc, ◌≡◌, refl, sym, ap, subst, ◌∙◌, ◌↔◌, ◌⊎◌, String, List, [], ◌∷◌, none, some, arith,
  ==_iff, string_eq,
}
use search_engine_service.Base.Int.{ℤ, pos, negsuc}
use search_engine_service.Base.Effects.{plain, Result, ok, err}
use search_engine_service.Base.Decimal.{format_ℤ}
use search_engine_service.Base.Dict.{lookup, insert, lookup-insert}
use search_engine_service.Domain.Content.{Content}
use search_engine_service.Domain.Search.{SearchParams, SearchResult, validate}
use search_engine_service.Domain.Ports.{Bytes, ContentRepository, Cache}
use search_engine_service.Service.CacheKey.{
  build_search_cache_key, build_search_cache_key-injective, HasPlainFields,
}
use search_engine_service.Service.Search.{Json, SearchService, search}
use search_engine_service.Service.Search.Answers.{
  CacheContract, RepositoryContract, IsFaithful, IsSound, Answers, search-IsSound,
}
use search_engine_service.Service.Search.Failures.{Misses, Remembers, search-err_iff, search_twice}
use search_engine_service.Tests.Fakes.{toy, asked}

asked-HasPlainFields : HasPlainFields asked
asked-HasPlainFields = record {
  type = ground arith;
  sort_by = ground arith;
  sort_order = ground arith;
}

-- The key of a search says what is searched for.
build_search_cache_key_test :
    build_search_cache_key asked ≡ "search:go: a:b:video:2:1:relevance:asc"
unfolding build_search_cache_key format_ℤ
build_search_cache_key_test = refl

build_search_cache_key_example : validate asked ≡ asked
unfolding validate
build_search_cache_key_example =
    build_search_cache_key-injective (validate asked) asked asked-HasPlainFields
      asked-HasPlainFields refl

abbrev pub Memory : Type 0
Memory = List (String × Bytes)

abbrev memory : Cache Memory
memory = record {
  get = λ k w. (ok (lookup k w), w);
  set = λ k v ttl w. (ok tt, insert k v w);
  delete = λ k w. (ok tt, w);
  clear = λ w. (ok tt, []);
}

abbrev pub Held : Memory → String → Bytes → Type 0
Held w k b = lookup k w ≡ some b

insert-Held :
    (k j : String) (v b : Bytes) (w : Memory)
    → Held (insert k v w) j b
    → ((j ≡ k) × (b ≡ v)) ⊎ Held w j b
insert-Held k j v b w h = ground (arith, lookup-insert k j v w, ==_iff k j)

pub memory-CacheContract : CacheContract Held memory
memory-CacheContract = record {
  get_found = λ k w b e. ground arith;
  get_keeps = λ k w j b held. held;
  set_keeps = λ k v ttl w j b held. insert-Held k j v b w held;
}

lookup-insert_same : (k : String) (v : Bytes) (w : Memory) → lookup k (insert k v w) ≡ some v
lookup-insert_same k v w = ground (arith, lookup-insert k k v w, ==_iff k k)

abbrev tag : ℤ → ℕ
tag (pos n) = 0
tag (negsuc n) = 1

abbrev digits : ℤ → ℕ
digits (pos n) = n
digits (negsuc n) = n

abbrev decoded : ℕ → ℕ → ℤ
decoded zero n = pos n
decoded (suc m) n = negsuc n

decoded_lem : (z : ℤ) → decoded (tag z) (digits z) ≡ z
decoded_lem (pos n) = refl
decoded_lem (negsuc n) = refl

abbrev page_of : List (Content ℤ) → ℤ → ℤ → ℤ → ℤ → SearchResult ℤ
page_of contents total page page_size total_pages = record {
  contents = contents;
  total = total;
  page = page;
  page_size = page_size;
  total_pages = total_pages;
}

abbrev marshal_page : List (Content ℤ) → ℤ → ℤ → ℤ → ℤ → Result Bytes
marshal_page [] t p s n =
    ok (tag t ∷ digits t ∷ tag p ∷ digits p ∷ tag s ∷ digits s ∷ tag n ∷ digits n ∷ [])
marshal_page (c ∷ cs) t p s n = err (plain "not empty")

abbrev unmarshal_page : Bytes → Result (SearchResult ℤ)
unmarshal_page (a ∷ b ∷ c ∷ d ∷ e ∷ f ∷ g ∷ h ∷ []) =
    ok (page_of [] (decoded a b) (decoded c d) (decoded e f) (decoded g h))
unmarshal_page other = err (plain "no page")

abbrev pub codec : Json (SearchResult ℤ)
codec = record {
  marshal = λ r. marshal_page r.contents r.total r.page r.page_size r.total_pages;
  unmarshal = unmarshal_page;
}

memory-Remembers : Remembers codec memory
memory-Remembers = record {
  get-set = λ k v ttl w done. ap ok (lookup-insert_same k v w);
  get_idle = λ k w. refl;
}

round_trip :
    (cs : List (Content ℤ)) (t p s n : ℤ) (b : Bytes)
    → marshal_page cs t p s n ≡ ok b
    → unmarshal_page b ≡ ok (page_of cs t p s n)
round_trip [] t p s n b e =
    let bytes : tag t ∷ digits t ∷ tag p ∷ digits p ∷ tag s ∷ digits s ∷ tag n ∷ digits n ∷ [] ≡ b =
      ground arith in
    subst (λ x. unmarshal_page x ≡ ok (page_of [] t p s n)) bytes
      (λ i. ok (page_of [] (decoded_lem t i) (decoded_lem p i) (decoded_lem s i) (decoded_lem n i)))
round_trip (c ∷ cs) t p s n b e = cc

ok-injective : (a b : SearchResult ℤ) → ok a ≡ ok b → a ≡ b
ok-injective a b e = ground arith

pub codec-IsFaithful : IsFaithful codec
codec-IsFaithful r r' b e d =
    ok-injective r' r (sym d ∙ round_trip r.contents r.total r.page r.page_size r.total_pages b e)

-- Every search finds nothing, on the page that was asked for.
abbrev nothing_for : SearchParams → SearchResult ℤ
nothing_for p = page_of [] (pos 0) p.page p.page_size (pos 0)

abbrev pub repo : ContentRepository ℤ Memory
repo = record {
  search = λ p w. (ok (nothing_for p), w);
  get_by_id = λ id w. (ok none, w);
  get_by_provider_and_external_id = λ p e w. (ok none, w);
  upsert = λ c w. (ok c, w);
  bulk_upsert = λ cs w. (ok cs, w);
  delete = λ id w. (ok tt, w);
  count = λ p w. (ok (pos 0), w);
}

abbrev pub Answer : SearchParams → SearchResult ℤ → Type 0
Answer p r = r ≡ nothing_for p

pub repo-RepositoryContract : RepositoryContract Held Answer repo
repo-RepositoryContract = record {
  search_answers = λ p w r e. sym (ok-injective _ r e);
  search_keeps = λ p w k b held. held;
}

abbrev pub svc : SearchService ℤ Memory
svc = record { repo = repo; cache = some memory; cache_ttl = pos 60 }

pub empty-IsSound : IsSound Held Answer codec []
unfolding lookup
empty-IsSound = record { sound = λ p b r plain held d. cc }

search-IsSound_example :
    Answers Held Answer codec codec-IsFaithful asked (search codec svc asked []).0
    × IsSound Held Answer codec (search codec svc asked []).1
unfolding validate
search-IsSound_example =
    search-IsSound Held Answer codec codec-IsFaithful svc asked [] memory-CacheContract
      repo-RepositoryContract asked-HasPlainFields empty-IsSound

abbrev failing : SearchService ℤ Memory
failing = record svc { repo = record repo { search = λ p w. (err (plain "down"), w) } }

search-err_example :
    ((search codec failing asked []).0 ≡ err (plain "down"))
    ↔ (Misses codec failing asked [] × ((failing.repo.search asked []).0 ≡ err (plain "down")))
unfolding validate
search-err_example = search-err_iff codec failing asked [] (plain "down")

search_twice_example :
    ((search codec svc asked []).0 ≡ ok (nothing_for asked))
    × (search codec svc asked (search codec svc asked []).1
        ≡ (ok (nothing_for asked), (search codec svc asked []).1))
unfolding validate lookup
search_twice_example =
    search_twice codec repo memory (pos 60) memory-Remembers asked [] (nothing_for asked)
      (0 ∷ 0 ∷ 0 ∷ 2 ∷ 0 ∷ 1 ∷ 0 ∷ 0 ∷ []) refl refl refl refl refl
