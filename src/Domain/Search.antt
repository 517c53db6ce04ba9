-- ===== src/Domain/Search.antt =====
-- internal/domain/search.go. A method that corrects its receiver returns the new record; a division
-- by zero is a panic, the `none` of `new_search_result`.
pub mod Bounds
pub mod Pages
use search_engine_service.Base.{String, List, Option, none, some, ◌==◌, string_eq, if◌then◌else◌}
use search_engine_service.Base.Int.{ℤ, pos, ltb_ℤ, int_eq, add64, sub64, mul64, quot64, rem64}
use search_engine_service.Domain.Content.{ContentType, Content}

abbrev pub SortOrder : Type 0
SortOrder = String

abbrev pub sort_order_asc : SortOrder
sort_order_asc = "asc"

abbrev pub sort_order_desc : SortOrder
sort_order_desc = "desc"

abbrev pub SortField : Type 0
SortField = String

abbrev pub sort_field_relevance : SortField
sort_field_relevance = "relevance"

abbrev pub sort_field_score : SortField
sort_field_score = "score"

abbrev pub sort_field_published_at : SortField
sort_field_published_at = "published_at"

pub record SearchParams : Type 0 where
  pub query : String
  pub type : ContentType
  pub sort_by : SortField
  pub sort_order : SortOrder
  pub page : ℤ
  pub page_size : ℤ

-- `SearchParams{}`.
abbrev pub empty_search_params : SearchParams
empty_search_params = record {
  query = "";
  type = "";
  sort_by = "";
  sort_order = "";
  page = pos 0;
  page_size = pos 0;
}

unfoldable pub default_search_params : SearchParams
default_search_params = record {
  query = "";
  type = "";
  sort_by = sort_field_score;
  sort_order = sort_order_desc;
  page = pos 1;
  page_size = pos 5;
}

-- The two tests of the page size, in their order.
unfoldable pub correct_page_size : ℤ → ℤ
correct_page_size n =
    let n' = if ltb_ℤ n (pos 1) then pos 20 else n in if ltb_ℤ (pos 100) n' then pos 100 else n'

unfoldable pub validate : SearchParams → SearchParams
unfolding correct_page_size
validate p = record p {
  page = if ltb_ℤ p.page (pos 1) then pos 1 else p.page;
  page_size = correct_page_size p.page_size;
  sort_by = if p.sort_by == "" then sort_field_score else p.sort_by;
  sort_order = if p.sort_order == "" then sort_order_desc else p.sort_order;
}

unfoldable pub offset : SearchParams → ℤ
offset p = mul64 (sub64 p.page (pos 1)) p.page_size

unfoldable pub limit : SearchParams → ℤ
limit p = p.page_size

pub record SearchResult (F : Type 0) : Type 0 where
  pub contents : List (Content F)
  pub total : ℤ
  pub page : ℤ
  pub page_size : ℤ
  pub total_pages : ℤ

-- The number of pages, for a page size that is not zero.
unfoldable pub count_pages : ℤ → ℤ → ℤ
unfolding quot64 rem64
count_pages total page_size =
    let pages = quot64 total page_size in
    if ltb_ℤ (pos 0) (rem64 total page_size) then add64 pages (pos 1) else pages

-- The result with its fields, for a page size that is not zero.
abbrev pub filled_result : {F : Type 0} → List (Content F) → ℤ → SearchParams → SearchResult F
filled_result contents total params = record {
  contents = contents;
  total = total;
  page = params.page;
  page_size = params.page_size;
  total_pages = count_pages total params.page_size;
}

unfoldable pub new_search_result :
    {F : Type 0} → List (Content F) → ℤ → SearchParams → Option (SearchResult F)
unfolding count_pages
new_search_result contents total params =
    if params.page_size == pos 0 then none else some (filled_result contents total params)
