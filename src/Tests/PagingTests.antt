-- ===== src/Tests/PagingTests.antt =====
-- The pages of a search over a table in memory that keeps the filter by type and the window.
use search_engine_service.Base.{
  ◌≤◌, ◌^◌, ◌≡◌, refl, ap, sym, List, length, drop, Option, none, some, arith, string_eq,
}
use search_engine_service.Base.Int.{ℤ, pos, negsuc}
use search_engine_service.Base.Effects.{ok}
use search_engine_service.Domain.Search.Bounds.{IsNear}
use search_engine_service.Infra.Postgres.Models.{from_domain}
use search_engine_service.Infra.Postgres.{Condition, Ordering, Gorm, build_search_query}
use search_engine_service.Infra.Postgres.Paging.{Answers}
use search_engine_service.Infra.Postgres.Paging.Partition.{AllPages, search-AllPages}
use search_engine_service.Tests.Fakes.{toy, asked}
use search_engine_service.Tests.PostgresTests.{Row, keep, cap, table, rows}

abbrev skip : Option ℤ → List Row → List Row
skip none ms = ms
skip (some (pos n)) ms = drop n ms
skip (some (negsuc n)) ms = ms

abbrev paged : Gorm ℤ (List Row)
paged = record table { find = λ q w. (ok (cap q.limit (skip q.offset (keep q.conditions w))), w) }

abbrev Arranged : List Row → List Condition → Option Ordering → List Row → Type 0
Arranged w cs o ms = ms ≡ keep cs w

paged-Answers : Answers Arranged paged
paged-Answers = record {
  counts = λ q w o ms e e' there. ap (λ ns. ok (pos (length ns))) (sym there);
  finds = λ q w n m e e'. (keep q.conditions w, refl, rw (e, e'));
  count_keeps = λ q w cs o ms. (λ a. a, λ a. a);
  find_keeps = λ q w cs o ms. (λ a. a, λ a. a);
}

asked-IsNear : IsNear asked
asked-IsNear = (
  record {
    page = omega arith;
    size_min = omega arith;
    size_max = omega arith;
    sort_by = λ e. cc;
    sort_order = λ e. cc;
  },
  omega arith,
)

abbrev found : List Row
found = keep (build_search_query asked).conditions rows

found_few : length found ≤ 2 ^ 55
unfolding keep build_search_query from_domain
found_few = omega arith

search-AllPages_example : AllPages Arranged paged paged-Answers asked rows found 4
search-AllPages_example =
    search-AllPages Arranged paged paged-Answers asked rows found 4 asked-IsNear
      (refl, λ ns there. there) found_few (omega arith)
