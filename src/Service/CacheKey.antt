-- ===== src/Service/CacheKey.antt =====
-- internal/app/service/search_service.go, `buildSearchCacheKey`.
use Prim.Native.Char.{code}
use mathlib.Core.Path.{ap₂}
use text.Mathlib.TextLemmas.{nil≢cons, nil-append, cons-append, cons-eq-cons, append_cancel_left}
use search_engine_service.Base.{◌≡◌, ◌≢◌, suc, subst, refl, sym, ap, ◌∙◌, String, ◌<>◌, arith}
use search_engine_service.Base.Int.{ℤ, pos, negsuc}
use search_engine_service.Base.Decimal.{format_ℤ, IsDigits, format_ℕ-IsDigits, format_ℤ-injective}
use search_engine_service.Domain.Search.{SearchParams}

-- One `:%s` of the format.
infixl 60 ◌then_field◌
abbrev ◌then_field◌ : String → String → String
key then_field s = key <> (":" <> s)

unfoldable pub build_search_cache_key : SearchParams → String
build_search_cache_key p =
    "search"
    then_field p.query
    then_field p.type
    then_field format_ℤ p.page
    then_field format_ℤ p.page_size
    then_field p.sort_by
    then_field p.sort_order

-- No character is a colon.
abbrev pub NoColon : String → Type 0
NoColon String.[] = Unit
NoColon (String.◌∷◌ c s) = (code c ≢ 58) × NoColon s

colon-append : (s : String) → ":" <> s ≡ String.◌∷◌ ":" s
colon-append s = cons-append ":" "" s ∙ ap (String.◌∷◌ ":") (nil-append s)

dash-append : (s : String) → "-" <> s ≡ String.◌∷◌ "-" s
dash-append s = cons-append "-" "" s ∙ ap (String.◌∷◌ "-") (nil-append s)

dash_code : code "-" ≢ 58
dash_code e = absurd (omega arith)

IsDigits-NoColon : (s : String) → IsDigits s → NoColon s
IsDigits-NoColon String.[] h = tt
IsDigits-NoColon (String.◌∷◌ c s) h = (omega arith, IsDigits-NoColon s h.2)

format_ℤ-NoColon : (z : ℤ) → NoColon (format_ℤ z)
unfolding format_ℤ
format_ℤ-NoColon (pos n) = IsDigits-NoColon _ (format_ℕ-IsDigits n)
format_ℤ-NoColon (negsuc n) =
    subst NoColon (sym (dash-append _)) (dash_code, IsDigits-NoColon _ (format_ℕ-IsDigits (suc n)))

-- A text in which a colon stands is not free of colons.
ne-colon_inside : (b s t : String) → NoColon s → s ≢ b <> (":" <> t)
ne-colon_inside String.[] String.[] t h e = nil≢cons (e ∙ nil-append _ ∙ colon-append t)
ne-colon_inside String.[] (String.◌∷◌ d s) t h e =
    h.0 (ap code (cons-eq-cons.0 (e ∙ nil-append _ ∙ colon-append t)).0)
ne-colon_inside (String.◌∷◌ c b) String.[] t h e = nil≢cons (e ∙ cons-append c b _)
ne-colon_inside (String.◌∷◌ c b) (String.◌∷◌ d s) t h e =
    ne-colon_inside b s t h.1 (cons-eq-cons.0 (e ∙ cons-append c b _)).1

-- The last field of a key, if it has no colon, is what stands behind the last colon.
last_field :
    (a b s t : String) → NoColon s → NoColon t → a then_field s ≡ b then_field t → (a ≡ b) × (s ≡ t)
last_field String.[] String.[] s t hs ht e =
    let same : ":" <> s ≡ ":" <> t = sym (nil-append _) ∙ e ∙ nil-append _ in
    (refl, append_cancel_left ":" _ _ same)
last_field String.[] (String.◌∷◌ c b) s t hs ht e =
    let same = sym (colon-append s) ∙ sym (nil-append _) ∙ e ∙ cons-append c b _ in
    absurd (ne-colon_inside b s t hs (cons-eq-cons.0 same).1)
last_field (String.◌∷◌ c a) String.[] s t hs ht e =
    let same = sym (colon-append t) ∙ sym (nil-append _) ∙ sym e ∙ cons-append c a _ in
    absurd (ne-colon_inside a t s ht (cons-eq-cons.0 same).1)
last_field (String.◌∷◌ c a) (String.◌∷◌ d b) s t hs ht e =
    let (heads, tails) = cons-eq-cons.0 (sym (cons-append c a _) ∙ e ∙ cons-append d b _) in
    let (front, last) = last_field a b s t hs ht tails in (ap₂ String.◌∷◌ heads front, last)

-- The texts of the filters and of the order contain no colon. The query may contain any.
pub record HasPlainFields (p : SearchParams) : Type 0 where
  pub type : NoColon p.type
  pub sort_by : NoColon p.sort_by
  pub sort_order : NoColon p.sort_order

-- Parameters whose type filter, sort field and sort order have no colon get the same cache key only
-- if they are the same, whatever their queries contain.
pub build_search_cache_key-injective :
    (p q : SearchParams)
    → HasPlainFields p
    → HasPlainFields q
    → build_search_cache_key p ≡ build_search_cache_key q
    → p ≡ q
unfolding build_search_cache_key
build_search_cache_key-injective p q hp hq e =
    let (e5, sort_order) = last_field _ _ _ _ hp.sort_order hq.sort_order e in
    let (e4, sort_by) = last_field _ _ _ _ hp.sort_by hq.sort_by e5 in
    let (e3, size) =
      last_field _ _ _ _ (format_ℤ-NoColon p.page_size) (format_ℤ-NoColon q.page_size) e4 in
    let (e2, page) = last_field _ _ _ _ (format_ℤ-NoColon p.page) (format_ℤ-NoColon q.page) e3 in
    let (e1, type) = last_field _ _ _ _ hp.type hq.type e2 in
    let query = append_cancel_left ":" _ _ (append_cancel_left "search" _ _ e1) in
    λ i. record {
      query = query i;
      type = type i;
      sort_by = sort_by i;
      sort_order = sort_order i;
      page = format_ℤ-injective p.page q.page page i;
      page_size = format_ℤ-injective p.page_size q.page_size size i;
    }
