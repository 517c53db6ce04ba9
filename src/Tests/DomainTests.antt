-- ===== src/Tests/DomainTests.antt =====
-- internal/domain/search.go on concrete parameters.
use search_engine_service.Base.{ℕ, ◌+◌, ◌/◌, ◌≤◌, ◌<◌, ◌≡◌, refl, ◌↔◌, [], ◌∷◌, some, arith}
use search_engine_service.Base.Int.{pos}
use search_engine_service.Domain.Search.{
  validate, offset, limit, new_search_result, sort_field_score, sort_order_desc,
}
use search_engine_service.Domain.Search.Bounds.{
  IsCorrected, validate_lem, offset-limit_iff, validate-IsCorrected,
}
use search_engine_service.Domain.Search.Pages.{IsPageCount, new_search_result_lem}
use search_engine_service.Tests.Fakes.{asked, raw, content_of}

validate_test : validate raw ≡ record raw {
  page = pos 1;
  page_size = pos 100;
  sort_by = sort_field_score;
  sort_order = sort_order_desc;
}
unfolding validate
validate_test = refl

asked_corrected : validate asked ≡ asked
unfolding validate
asked_corrected = refl

validate_example :
    IsCorrected (validate raw)
    × ((validate raw ≡ raw) ↔ IsCorrected raw)
    × ((validate raw).query ≡ "go")
    × ((validate raw).type ≡ "")
unfolding validate
validate_example = validate_lem raw

asked-IsCorrected : IsCorrected asked
unfolding validate
asked-IsCorrected = validate-IsCorrected asked

-- Row 1 is on page 2 of pages of one row.
offset-limit_example :
    (first size : ℕ) × (offset asked ≡ pos first)
    × (limit asked ≡ pos size)
    × (((first ≤ 1) × (1 < first + size)) ↔ (pos 2 ≡ pos (1 / size + 1)))
offset-limit_example = offset-limit_iff asked 1 (asked-IsCorrected, omega arith)

new_search_result_example :
    (n : ℕ) × (new_search_result (content_of "a" "video" ∷ []) (pos 7) asked
      ≡ some (record {
        contents = content_of "a" "video" ∷ [];
        total = pos 7;
        page = pos 2;
        page_size = pos 1;
        total_pages = pos n;
      }))
    × IsPageCount 7 1 n
new_search_result_example =
    new_search_result_lem (content_of "a" "video" ∷ []) 7 asked asked-IsCorrected (omega arith)
