-- ===== src/Domain/Search/Bounds.antt =====
-- internal/domain/search.go, `Validate` and `Offset`: the range that a correction puts the
-- parameters in, and the rows that a page of them shows.
use mathlib.Core.Bool.{false≢true}
use mathlib.Core.Path.{ap₂}
use native.Mathlib.Nat.{mul-le-mul, div-eq_of_lt-le, div-mul-le_self, lt-div-mul-add}
use search_engine_service.Base.{
  ℕ, suc, ◌+◌, ◌*◌, ◌/◌, ◌^◌, ◌≤◌, ◌<◌, ◌≡◌, refl, ◌≢◌, ◌↔◌, String, arith, ==_iff, ◌==◌, string_eq,
  if◌then◌else◌, Bool-cases, inl, inr, ap, sym, ◌∙◌, subst,
}
use search_engine_service.Base.Int.{
  pos, ◌≤ℤ◌, ◌-ℤ◌, ◌*ℤ◌, sub64, mul64, wrap64_of_IsInt64, suc_of_pos,
}
use search_engine_service.Domain.Search.{
  sort_field_score, sort_order_desc, SearchParams, validate, offset, limit,
}

-- What `Validate` leaves: a page, a page size of 1 to 100, a sort field and a sort direction.
pub record IsCorrected (p : SearchParams) : Type 0 where
  pub page : pos 1 ≤ℤ p.page
  pub size_min : pos 1 ≤ℤ p.page_size
  pub size_max : p.page_size ≤ℤ pos 100
  pub sort_by : p.sort_by ≢ ""
  pub sort_order : p.sort_order ≢ ""

-- A default in place of an empty text leaves no empty text.
pub or_default-ne : (s d : String) → d ≢ "" → (if s == "" then d else s) ≢ ""
or_default-ne s d h = elim (Bool-cases (s == "")) [
  | inl missing ↦ rw missing h
  | inr given ↦ rw given (λ e. false≢true (sym given ∙ (==_iff s "").1 e))
]

pub score-ne : sort_field_score ≢ ""
score-ne e = false≢true ((==_iff sort_field_score "").1 e)

pub desc-ne : sort_order_desc ≢ ""
desc-ne e = false≢true ((==_iff sort_order_desc "").1 e)

pub validate-IsCorrected : (p : SearchParams) → IsCorrected (validate p)
unfolding validate
validate-IsCorrected p = record {
  page = ground arith;
  size_min = ground arith;
  size_max = ground arith;
  sort_by = or_default-ne p.sort_by sort_field_score score-ne;
  sort_order = or_default-ne p.sort_order sort_order_desc desc-ne;
}

pub validate-of_IsCorrected : (p : SearchParams) → IsCorrected p → validate p ≡ p
unfolding validate
validate-of_IsCorrected p h = ground (arith, ==_iff p.sort_by "", ==_iff p.sort_order "")

-- The correction always ends in the range, leaves alone exactly the parameters that are in it, and
-- changes neither the query nor the type filter.
pub validate_lem :
    (p : SearchParams)
    → IsCorrected (validate p)
      × ((validate p ≡ p) ↔ IsCorrected p)
      × ((validate p).query ≡ p.query)
      × ((validate p).type ≡ p.type)
unfolding validate
validate_lem p = (
  validate-IsCorrected p,
  (λ e. subst IsCorrected e (validate-IsCorrected p), validate-of_IsCorrected p),
  refl,
  refl,
)

-- Parameters that are corrected and whose page is far from the end of `int`.
abbrev pub IsNear : SearchParams → Type 0
IsNear p = IsCorrected p × (p.page ≤ℤ pos (2 ^ 56))

le_mul : (n s : ℕ) → n ≤ 2 ^ 56 → s ≤ 100 → n * s ≤ 2 ^ 56 * 100
le_mul n s hn hs = mul-le-mul hn hs

pub page_start :
    (n s : ℕ) → n ≤ 2 ^ 56 → s ≤ 100 → mul64 (sub64 (pos (suc n)) (pos 1)) (pos s) ≡ pos (n * s)
page_start n s hn hs =
    let previous : pos (suc n) -ℤ pos 1 ≡ pos n = ground arith in
    let product : pos n *ℤ pos s ≡ pos (n * s) = ground arith in
    let small : n * s ≤ 2 ^ 56 * 100 = le_mul n s hn hs in
    rw (previous, wrap64_of_IsInt64 (pos n) (omega arith), product)
      (wrap64_of_IsInt64 (pos (n * s)) (omega arith))

abbrev IsWindow : SearchParams → ℕ → Type 0
IsWindow p i =
    (first size : ℕ) × (offset p ≡ pos first)
    × (limit p ≡ pos size)
    × (((first ≤ i) × (i < first + size)) ↔ (p.page ≡ pos (i / size + 1)))

row_page_iff :
    (n s i : ℕ) → 0 < s → ((n * s ≤ i) × (i < n * s + s)) ↔ (pos (suc n) ≡ pos (i / s + 1))
row_page_iff n s i h = (
  λ r.
      let same : i / s ≡ n = div-eq_of_lt-le s r.0 (grind arith) in
      let next : suc n ≡ i / s + 1 = omega arith in ap pos next,
  λ e. let same : n ≡ i / s = ground arith in rw same (div-mul-le_self i s, lt-div-mul-add h),
)

-- For corrected parameters whose page is at most 2⁵⁶, `Offset` and `Limit` cut out a window of the
-- ordered matches that has row `i` in it exactly if the page is the one that the row belongs to.
pub offset-limit_iff : (p : SearchParams) (i : ℕ) → IsNear p → IsWindow p i
unfolding offset limit
offset-limit_iff p i (c, near) =
    let (n, page) = suc_of_pos p.page c.page in
    let (s, size) = suc_of_pos p.page_size c.size_min in
    (
      n * suc s,
      suc s,
      ap₂ (λ a b. mul64 (sub64 a (pos 1)) b) page size
          ∙ (page_start n (suc s) (omega (arith, subst (λ z. z ≤ℤ pos (2 ^ 56)) page near))
              (omega (arith, subst (λ z. z ≤ℤ pos 100) size c.size_max))),
      size,
      subst (λ z. ((n * suc s ≤ i) × (i < n * suc s + suc s)) ↔ (z ≡ pos (i / suc s + 1)))
          (sym page) (row_page_iff n (suc s) i (omega arith)),
    )
