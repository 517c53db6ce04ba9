-- ===== src/Infra/Postgres/Paging.antt =====
-- internal/infra/postgres/repository.go, `Search`, over a database that answers: the rows of one page.
pub mod Partition
use search_engine_service.Base.{
  ℕ, zero, suc, ◌+◌, ◌*◌, ◌^◌, ◌≡◌, ◌≤◌, ◌<◌, ◌↔◌, refl, String, sym, ap, ◌∙◌, subst, List, [], ◌∷◌,
  ◌++◌, map, length, take, drop, take-append-drop, take_of_length-le, Option, none, some, arith,
}
use search_engine_service.Base.Int.{ℤ, pos, pos_part, ◌≤ℤ◌, suc_of_pos, mul64, sub64}
use search_engine_service.Base.Effects.{Error, Result, ok, err, Eff, pure, ◌>>=◌, on_ok}
use search_engine_service.Domain.Content.{Content}
use search_engine_service.Domain.Search.{
  SearchParams, SearchResult, validate, offset, limit, new_search_result, filled_result,
  count_pages,
}
use search_engine_service.Domain.Search.Bounds.{
  IsCorrected, IsNear, validate-of_IsCorrected, page_start,
}
use search_engine_service.Domain.Search.Pages.{new_search_result_lem, IsPageCount}
use search_engine_service.Infra.Postgres.Models.{ContentModel, to_domain}
use search_engine_service.Infra.Postgres.{
  Condition, Ordering, Statement, Gorm, build_search_query, apply_ordering, page_query, windowed,
  with_condition,
}
use search_engine_service.Infra.Postgres.Repository.{search, to_search_result}
use search_engine_service.Infra.Postgres.Statements.{
  apply_ordering-conditions, apply_ordering-order,
}

-- What PostgreSQL and GORM document of a database that answers every statement, where
-- `Arranged w cs o ms` says that `ms` are the rows that meet the conditions `cs`, in an order that `o`
-- allows: `Count` counts them, and any arrangement has their number; `Find` with `OFFSET n LIMIT m`
-- gives the `m` rows after the first `n` of one arrangement, which need not be that of another
-- statement if rows tie; and reading changes no row.
pub record Answers {F W : Type 0}
    (Arranged : W → List Condition → Option Ordering → List (ContentModel F) → Type 0)
    (db : Gorm F W) : Type 0 where
  pub counts :
      (q : Statement) (w : W) (o : Option Ordering) (ms : List (ContentModel F))
      → q.offset ≡ none
      → q.limit ≡ none
      → Arranged w q.conditions o ms
      → (db.count q w).0 ≡ ok (pos (length ms))
  pub finds :
      (q : Statement) (w : W) (n m : ℕ)
      → q.offset ≡ some (pos n)
      → q.limit ≡ some (pos (suc m))
      → (ms : List (ContentModel F)) × Arranged w q.conditions q.order ms
        × ((db.find q w).0 ≡ ok (take (suc m) (drop n ms)))
  pub count_keeps :
      (q : Statement) (w : W) (cs : List Condition) (o : Option Ordering)
      (ms : List (ContentModel F))
      → Arranged (db.count q w).1 cs o ms ↔ Arranged w cs o ms
  pub find_keeps :
      (q : Statement) (w : W) (cs : List Condition) (o : Option Ordering)
      (ms : List (ContentModel F))
      → Arranged (db.find q w).1 cs o ms ↔ Arranged w cs o ms

-- The parameters with another page.
abbrev pub at_page : SearchParams → ℕ → SearchParams
at_page p n = record p { page = pos n }

pub at_page-IsCorrected :
    (p : SearchParams) (n : ℕ) → IsCorrected p → IsCorrected (at_page p (suc n))
at_page-IsCorrected p n c = record {
  page = omega arith;
  size_min = c.size_min;
  size_max = c.size_max;
  sort_by = c.sort_by;
  sort_order = c.sort_order;
}

count_statement :
    (p : SearchParams)
    → ((build_search_query p).offset ≡ none) × ((build_search_query p).limit ≡ none)
unfolding build_search_query with_condition
count_statement p = (ground arith, ground arith)

world-on_ok :
    {W A B : Type 0} (text : String) (r : Result A) (f : A → Result B) (w : W)
    → (on_ok text r (λ a. pure (f a)) w).1 ≡ w
world-on_ok text (ok a) f w = refl
world-on_ok text (err e) f w = refl

module _ {F W : Type 0}
    (Arranged : W → List Condition → Option Ordering → List (ContentModel F) → Type 0)
    (db : Gorm F W) (h : Answers Arranged db) where
  -- The matches of a search, in an order that it allows.
  abbrev pub AreMatches : SearchParams → W → List (ContentModel F) → Type 0
  AreMatches p w ms = Arranged w (build_search_query p).conditions (page_query p).order ms

  -- The order of the search leaves one arrangement of its matches: no two of them tie.
  abbrev pub AreOrdered : SearchParams → W → List (ContentModel F) → Type 0
  AreOrdered p w ms =
      AreMatches p w ms × ((ns : List (ContentModel F)) → AreMatches p w ns → ns ≡ ms)

  -- Two worlds with the same rows.
  abbrev pub SameRows : W → W → Type 0
  SameRows v w =
      (cs : List Condition) (o : Option Ordering) (ms : List (ContentModel F))
      → Arranged v cs o ms ↔ Arranged w cs o ms

  pub SameRows-trans : (u v w : W) → SameRows u v → SameRows v w → SameRows u w
  SameRows-trans u v w e e' cs o ms =
      (λ a. (e' cs o ms).0 ((e cs o ms).0 a), λ a. (e cs o ms).1 ((e' cs o ms).1 a))

  pub AreOrdered-kept :
      (p : SearchParams) (v w : W) (ms : List (ContentModel F))
      → SameRows v w
      → AreOrdered p w ms
      → AreOrdered p v ms
  AreOrdered-kept p v w ms e (there, only) = ((e _ _ ms).1 there, λ ns a. only ns ((e _ _ ns).0 a))

  -- A corrected page is the one of a number, with a positive size.
  abbrev pub window : List (ContentModel F) → ℕ → ℕ → List (ContentModel F)
  window ms n s = take (suc s) (drop (n * suc s) ms)

  find-window :
      (p : SearchParams) (w : W) (ms : List (ContentModel F)) (n s : ℕ)
      → AreOrdered p w ms
      → p.page ≡ pos (suc n)
      → p.page_size ≡ pos (suc s)
      → n ≤ 2 ^ 56
      → suc s ≤ 100
      → (db.find (page_query p) w).0 ≡ ok (window ms n s)
  unfolding page_query offset limit
  find-window p w ms n s (there, only) page size near small =
      let (conditions, first, last) = apply_ordering-conditions (windowed p) p in
      let start : mul64 (sub64 p.page (pos 1)) p.page_size ≡ pos (n * suc s) =
        rw (page, size) (page_start n (suc s) near small) in
      let (ns, arranged, found) =
        h.finds (page_query p) w (n * suc s) s (first ∙ ap some start) (last ∙ ap some size) in
      found
      ∙ ap (λ xs. ok (window xs n s))
          (only ns (subst (λ cs. Arranged w cs (page_query p).order ns) conditions arranged))

  pub AreOrdered-at_page :
      (p : SearchParams) (k : ℕ) (w : W) (ms : List (ContentModel F))
      → AreOrdered p w ms
      → AreOrdered (at_page p k) w ms
  unfolding build_search_query page_query apply_ordering
  AreOrdered-at_page p k w ms =
      subst
        (λ o.
          Arranged w (build_search_query p).conditions o ms
          × ((ns : List (ContentModel F))
              → Arranged w (build_search_query p).conditions o ns
              → ns ≡ ms))
        (sym (apply_ordering-order (windowed (at_page p k)) (windowed p) p))

  counted :
      (p : SearchParams) (w : W) (ms : List (ContentModel F))
      → AreMatches p w ms
      → (db.count (build_search_query p) w).0 ≡ ok (pos (length ms))
  counted p w ms there =
      let (first, last) = count_statement p in
      h.counts (build_search_query p) w (page_query p).order ms first last there

  -- The result that shows page `n + 1`.
  abbrev pub shown : SearchParams → List (ContentModel F) → ℕ → ℕ → SearchResult F
  shown p ms n s = filled_result (map to_domain (window ms n s)) (pos (length ms)) p

  to_search_result-shown :
      (p : SearchParams) (ms : List (ContentModel F)) (n s : ℕ)
      → p.page_size ≡ pos (suc s)
      → to_search_result p (pos (length ms)) (window ms n s) ≡ ok (shown p ms n s)
  unfolding to_search_result new_search_result
  to_search_result-shown p ms n s size = ground arith

  pub search-shown :
      (p : SearchParams) (w : W) (ms : List (ContentModel F)) (n s : ℕ)
      → AreOrdered p w ms
      → IsCorrected p
      → p.page ≡ pos (suc n)
      → p.page_size ≡ pos (suc s)
      → n ≤ 2 ^ 56
      → (search db p w).0 ≡ ok (shown p ms n s)
  unfolding search
  search-shown p w ms n s ordered c page size near =
      let small : suc s ≤ 100 = omega (arith, subst (λ z. z ≤ℤ pos 100) size c.size_max) in
      let v = (db.count (build_search_query p) w).1 in
      let kept = AreOrdered-kept p v w ms (h.count_keeps _ w) ordered in
      let found = find-window p v ms n s kept page size near small in
      rw (validate-of_IsCorrected p c, counted p w ms ordered.0, found)
        (to_search_result-shown p ms n s size)

  pub search-SameRows :
      (p : SearchParams) (w : W) (ms : List (ContentModel F))
      → AreMatches p w ms
      → IsCorrected p
      → SameRows (search db p w).1 w
  unfolding search
  search-SameRows p w ms there c =
      let v = (db.count (build_search_query p) w).1 in
      let out = db.find (page_query p) v in
      rw (validate-of_IsCorrected p c, counted p w ms there)
        (subst (λ u. SameRows u w) (sym (world-on_ok _ out.0 _ out.1))
          (SameRows-trans out.1 v w (h.find_keeps (page_query p) v) (h.count_keeps _ w)))
