-- ===== src/Domain/Search/Pages.antt =====
-- internal/domain/search.go, `NewSearchResult`: the number of pages of a result.
use native.Mathlib.Nat.{div-add-mod', mod-lt}
use search_engine_service.Base.{
  ℕ, suc, ◌+◌, ◌*◌, ◌/◌, ◌%◌, ◌^◌, ◌≤◌, ◌<◌, ◌≡◌, List, some, arith, ap, ◌∙◌, Bool-cases, inl, inr,
  subst, sym,
}
use search_engine_service.Base.Int.{ltb_ℤ, pos, pos_part, int_eq, add64_pos, suc_of_pos}
use search_engine_service.Domain.Content.{Content}
use search_engine_service.Domain.Search.{SearchParams, count_pages, new_search_result}
use search_engine_service.Domain.Search.Bounds.{IsCorrected}

-- `n` pages of `size` rows are enough for `total` rows, and one page fewer is not.
abbrev pub IsPageCount : ℕ → ℕ → ℕ → Type 0
IsPageCount total size n = (total ≤ n * size) × (n * size < total + size)

count_up : (total s : ℕ) → 0 < total % suc s → IsPageCount total (suc s) (total / suc s + 1)
count_up total s more =
    let whole = div-add-mod' total (suc s) in
    let part : total % suc s < suc s = mod-lt total (omega arith) in grind arith

count_small : (total s : ℕ) → 0 < total % suc s → total < 2 ^ 63 → total / suc s + 1 < 2 ^ 63
count_small total s more h =
    let whole = div-add-mod' total (suc s) in
    let least : total / suc s ≤ total / suc s * suc s = grind arith in omega arith

count_exact : (total s : ℕ) → total % suc s ≡ 0 → IsPageCount total (suc s) (total / suc s)
count_exact total s exact = let whole = div-add-mod' total (suc s) in (omega arith, omega arith)

pub count_pages_lem :
    (total s : ℕ)
    → total < 2 ^ 63
    → (n : ℕ) × (count_pages (pos total) (pos (suc s)) ≡ pos n) × IsPageCount total (suc s) n
unfolding count_pages
count_pages_lem total s h = elim (Bool-cases (ltb_ℤ (pos 0) (pos (total % suc s)))) [
  | inl more ↦ (
    total / suc s + 1,
    rw more (add64_pos (total / suc s) 1 (count_small total s (ground arith) h)),
    count_up total s (ground arith),
  )
  | inr exact ↦ (total / suc s, rw exact, count_exact total s (ground arith))
]

-- For corrected parameters and a count of matches in the range of `int`, `NewSearchResult` does not panic,
-- keeps the contents, the total, the page and the page size, and its number of pages is the least
-- one that has room for all matches.
pub new_search_result_lem :
    {F : Type 0} (contents : List (Content F)) (total : ℕ) (p : SearchParams)
    → IsCorrected p
    → total < 2 ^ 63
    → (n : ℕ) × (new_search_result contents (pos total) p
        ≡ some (record {
          contents = contents;
          total = pos total;
          page = p.page;
          page_size = p.page_size;
          total_pages = pos n;
        }))
      × IsPageCount total (pos_part p.page_size) n
unfolding new_search_result
new_search_result_lem contents total p c h =
    let (s, size) = suc_of_pos p.page_size c.size_min in
    let (n, pages, least) = count_pages_lem total s h in
    let pages' : count_pages (pos total) p.page_size ≡ pos n =
      ap (count_pages (pos total)) size ∙ pages in
    (n, ground arith, subst (λ z. IsPageCount total (pos_part z) n) (sym size) least)
