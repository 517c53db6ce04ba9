-- ===== src/Tests/TransportTests.antt =====
-- internal/transport/httpserver with the search of the other tests, and a validator in words of tests.
use search_engine_service.Base.{
  ◌≡◌, refl, ◌⊎◌, inl, inr, String, List, [], ◌∷◌, none, some, Bool, true, false, ◌&&◌, ◌||◌, In,
  arith, ◌==◌, string_eq, ==_iff, if◌then◌else◌, zero, suc,
}
use search_engine_service.Base.Int.{ℤ, pos, negsuc, leb_ℤ, ◌≤ℤ◌}
use search_engine_service.Base.Effects.{plain, Result, ok, err}
use search_engine_service.Domain.Search.{validate}
use search_engine_service.Domain.Search.Bounds.{IsCorrected}
use search_engine_service.Service.CacheKey.{HasPlainFields}
use search_engine_service.Service.Search.Answers.{IsSound}
use search_engine_service.Service.Sync.{SyncResult}
use search_engine_service.Transport.Dto.{SearchRequest, Printing, to_search_params}
use search_engine_service.Transport.Dto.Requests.{
  IsTyped, to_search_params-IsTyped, types, sort_fields, sort_orders, IsValidRequest,
  to_search_params_lem,
}
use search_engine_service.Transport.Handler.{search}
use search_engine_service.Transport.Handler.Answers.{SearchAnswered, search-SearchAnswered}
use search_engine_service.Transport.Handler.Soundness.{ShowsRequest, search-Shows}
use search_engine_service.Tests.SearchTests.{
  Held, codec, codec-IsFaithful, Answer, svc, memory-CacheContract, repo-RepositoryContract,
  empty-IsSound,
}

abbrev pub plainly : Printing
plainly = record { rfc3339 = λ t. "t"; duration = λ d. "d" }

abbrev pub request : SearchRequest
request = record {
  query = "go: x";
  type = "video";
  sort_by = "";
  sort_order = "";
  page = pos 0;
  page_size = pos 100;
}

unfoldable pub one_of : String → List String → Bool
one_of s [] = false
one_of s (x ∷ xs) = let rest = one_of s xs in s == x || rest

one_of-In : (s : String) (xs : List String) → one_of s xs ≡ true → In s xs
unfolding one_of
one_of-In s [] h = cc
one_of-In s (x ∷ xs) h = ground (arith, ==_iff s x, one_of-In s xs)

abbrev pub tests : SearchRequest → Bool
tests r =
    one_of r.type types
    && (one_of r.sort_by sort_fields
        && (one_of r.sort_order sort_orders
            && (leb_ℤ (pos 0) r.page
                && (leb_ℤ (pos 0) r.page_size && leb_ℤ r.page_size (pos 100)))))

abbrev validator : SearchRequest → Result (Unit {0})
validator r = if tests r then ok tt else err (plain "invalid")

and_lem : (a b : Bool) → (a && b) ≡ true → (a ≡ true) × (b ≡ true)
and_lem true b h = (refl, h)
and_lem false b h = cc

zero_or_more : (z : ℤ) → leb_ℤ (pos 0) z ≡ true → (z ≡ pos 0) ⊎ (pos 1 ≤ℤ z)
zero_or_more (pos zero) h = inl refl
zero_or_more (pos (suc n)) h = inr (omega arith)
zero_or_more (negsuc n) h = absurd (ground arith)

size_range :
    (z : ℤ)
    → (leb_ℤ (pos 0) z ≡ true) × (leb_ℤ z (pos 100) ≡ true)
    → (z ≡ pos 0) ⊎ ((pos 1 ≤ℤ z) × (z ≤ℤ pos 100))
size_range (pos zero) h = inl refl
size_range (pos (suc n)) h = inr (omega arith, ground arith)
size_range (negsuc n) h = absurd (ground arith)

pub tests-IsValidRequest : (r : SearchRequest) → tests r ≡ true → IsValidRequest r
tests-IsValidRequest r h =
    let (type, h1) = and_lem (one_of r.type types) _ h in
    let (sort_by, h2) = and_lem (one_of r.sort_by sort_fields) _ h1 in
    let (sort_order, h3) = and_lem (one_of r.sort_order sort_orders) _ h2 in
    let (page, h4) = and_lem (leb_ℤ (pos 0) r.page) _ h3 in
    record {
      type = one_of-In r.type types type;
      sort_by = one_of-In r.sort_by sort_fields sort_by;
      sort_order = one_of-In r.sort_order sort_orders sort_order;
      page = zero_or_more r.page page;
      page_size = size_range r.page_size (and_lem _ _ h4);
    }

accepted : (b : Bool) → (if b then ok tt else err (plain "invalid")) ≡ ok (tt {0}) → b ≡ true
accepted true h = refl
accepted false h = cc

strict : (r : SearchRequest) → validator r ≡ ok tt → IsValidRequest r
strict r h = tests-IsValidRequest r (accepted (tests r) h)

search-Shows_example :
    ShowsRequest plainly Held Answer codec codec-IsFaithful svc
      (ok request)
      (search plainly codec svc validator (ok request) []).0
    × IsSound Held Answer codec (search plainly codec svc validator (ok request) []).1
search-Shows_example =
    search-Shows plainly Held Answer codec codec-IsFaithful svc memory-CacheContract
      repo-RepositoryContract validator (ok request) [] strict empty-IsSound

search-SearchAnswered_example :
    SearchAnswered plainly codec svc validator [] (ok (record request { type = "song" })) (400, [])
unfolding search one_of
search-SearchAnswered_example =
    search-SearchAnswered plainly codec svc validator (ok (record request { type = "song" })) []

to_search_params_example :
    (validate (to_search_params request) ≡ to_search_params request)
    × IsCorrected (to_search_params request)
    × HasPlainFields (to_search_params request)
unfolding one_of
to_search_params_example = to_search_params_lem request (tests-IsValidRequest request refl)

to_search_params-IsTyped_example :
    IsTyped (to_search_params request) × IsTyped (validate (to_search_params request))
unfolding one_of
to_search_params-IsTyped_example =
    to_search_params-IsTyped request (tests-IsValidRequest request refl)

abbrev results : List SyncResult
results =
    record { provider = "a"; count = 3; duration = pos 1; error = none }
    ∷ record { provider = "b"; count = 0; duration = pos 1; error = some (plain "down") }
    ∷ []
