-- ===== src/Infra/Postgres/Rows.antt =====
-- internal/infra/postgres/repository.go, `Search`: how a search ends, and the rows of its page.
use search_engine_service.Base.{
  ℕ, suc, ◌≡◌, ◌≢◌, ◌≤◌, refl, sym, ap, ◌∙◌, subst, inl, inr, String, List, [], ◌∷◌, map, length,
  length-map, some, All, In, arith, ==_iff, ◌==◌, string_eq, Bool-cases,
}
use search_engine_service.Base.Int.{ℤ, pos, pos_part, ◌≤ℤ◌, int_eq, suc_of_pos}
use search_engine_service.Base.Effects.{Error, wrapped, Result, ok, err, pure, on_ok}
use search_engine_service.Domain.Content.{Content}
use search_engine_service.Domain.Search.{
  SearchParams, SearchResult, validate, limit, new_search_result, filled_result,
}
use search_engine_service.Domain.Search.Bounds.{IsCorrected, validate-IsCorrected}
use search_engine_service.Infra.Postgres.Models.{ContentModel, to_domain}
use search_engine_service.Infra.Postgres.{
  Condition, Statement, Gorm, type_sql, build_search_query, page_query, windowed, with_condition,
}
use search_engine_service.Infra.Postgres.Repository.{search, to_search_result}
use search_engine_service.Infra.Postgres.Statements.{apply_ordering-conditions}

module _ {F W : Type 0} (db : Gorm F W) where
  -- The ways in which a search ends: one of its two statements fails, or both succeed and the result
  -- is the page of the rows that the second one found with the total that the first one counted.
  pub data Ends (p : SearchParams) (w : W) : Result (SearchResult F) → Type 0 where
    count_failed :
        {x : Error}
        → (db.count (build_search_query p) w).0 ≡ err x
        → Ends p w (err (wrapped "counting contents" x))
    find_failed :
        (v : W) {x : Error}
        → (db.find (page_query p) v).0 ≡ err x
        → Ends p w (err (wrapped "searching contents" x))
    page_found :
        (v : W) {total : ℤ} {models : List (ContentModel F)} {r : SearchResult F}
        → (db.count (build_search_query p) w).0 ≡ ok total
        → (db.find (page_query p) v).0 ≡ ok models
        → new_search_result (map to_domain models) total p ≡ some r
        → Ends p w (ok r)

  new_search_result_total :
      (p : SearchParams) (contents : List (Content F)) (total : ℤ)
      → IsCorrected p
      → (r : SearchResult F) × (new_search_result contents total p ≡ some r)
  unfolding new_search_result
  new_search_result_total p contents total c = elim (Bool-cases (p.page_size == pos 0)) [
    | inl zero_size ↦
        let same = (==_iff p.page_size (pos 0)).0 zero_size in
        absurd (omega (arith, subst (λ z. pos 1 ≤ℤ z) same c.size_min))
    | inr size ↦ (filled_result contents total p, rw size)
  ]

  found-Ends :
      (p : SearchParams) (w v : W) (total : ℤ) (found : Result (List (ContentModel F)))
      → IsCorrected p
      → (db.count (build_search_query p) w).0 ≡ ok total
      → (db.find (page_query p) v).0 ≡ found
      → Ends p w
          (on_ok "searching contents" found
            (λ models. pure (to_search_result p total models))
            (db.find (page_query p) v).1).0
  unfolding to_search_result
  found-Ends p w v total (err x) c e h = find_failed v h
  found-Ends p w v total (ok models) c e h =
      let (r, good) = new_search_result_total p (map to_domain models) total c in
      rw (good, to_search_result) (page_found v e h good)

  counted-Ends :
      (p : SearchParams) (w v : W) (counted : Result ℤ)
      → IsCorrected p
      → (db.count (build_search_query p) w).0 ≡ counted
      → Ends p w
          (on_ok "counting contents" counted
            (λ total u.
              on_ok "searching contents"
                (db.find (page_query p) u).0
                (λ models. pure (to_search_result p total models))
                (db.find (page_query p) u).1)
            v).0
  counted-Ends p w v (err x) c e = count_failed e
  counted-Ends p w v (ok total) c e = found-Ends p w v total _ c e refl

  -- A search of the repository, for any parameters, ends with the wrapped error of one of its two
  -- statements or with the page that they found; it never panics.
  pub search-Ends : (given : SearchParams) (w : W) → Ends (validate given) w (search db given w).0
  unfolding search
  search-Ends given w = counted-Ends (validate given) w _ _ (validate-IsCorrected given) refl

filled_of :
    {F : Type 0} (cs : List (Content F)) (total : ℤ) (p : SearchParams) (r : SearchResult F)
    → new_search_result cs total p ≡ some r
    → filled_result cs total p ≡ r
unfolding new_search_result
filled_of cs total p r e = ground arith

-- `Satisfies c m` says that the row `m` meets the condition `c`. What PostgreSQL and GORM document:
-- a row that is found meets every condition, no more rows are found than the limit, and a row meets
-- `type = ?` if its type is the argument.
pub record FindContract {F W : Type 0} (Satisfies : Condition → ContentModel F → Type 0)
    (db : Gorm F W) : Type 0 where
  pub find_satisfies :
      (q : Statement) (w : W) (ms : List (ContentModel F)) (c : Condition)
      → (db.find q w).0 ≡ ok ms
      → In c q.conditions
      → All (Satisfies c) ms
  pub find_limits :
      (q : Statement) (w : W) (ms : List (ContentModel F)) (n : ℕ)
      → (db.find q w).0 ≡ ok ms
      → q.limit ≡ some (pos n)
      → length ms ≤ n
  pub type_condition :
      (t : String) (m : ContentModel F)
      → Satisfies (record { sql = type_sql; args = t ∷ [] }) m
      → m.type ≡ t

-- The page of some corrected parameters.
pub record IsPage {F : Type 0} (p : SearchParams) (r : SearchResult F) : Type 0 where
  pub page : r.page ≡ p.page
  pub page_size : r.page_size ≡ p.page_size
  pub at_most_hundred : r.page_size ≤ℤ pos 100
  pub fits : length r.contents ≤ pos_part r.page_size
  pub types : p.type ≢ "" → All (λ (c : Content F). c.type ≡ p.type) r.contents

module _ {F W : Type 0} (Satisfies : Condition → ContentModel F → Type 0) (db : Gorm F W)
    (h : FindContract Satisfies db) where
  type-In :
      (p : SearchParams)
      → p.type ≢ ""
      → In (record { sql = type_sql; args = p.type ∷ [] }) (build_search_query p).conditions
  unfolding build_search_query with_condition
  type-In p given = elim (Bool-cases (p.type == "")) [
    | inl missing ↦ absurd (given ((==_iff p.type "").0 missing))
    | inr present ↦ elim (Bool-cases (p.query == "")) [
      | inl no_query ↦ rw (present, no_query) (inl refl)
      | inr query ↦ rw (present, query) (inr (inl refl))
    ]
  ]

  types_found :
      (t : String) (ms : List (ContentModel F))
      → All (Satisfies (record { sql = type_sql; args = t ∷ [] })) ms
      → All (λ (c : Content F). c.type ≡ t) (map to_domain ms)
  unfolding to_domain
  types_found t [] s = tt
  types_found t (m ∷ ms) s = (h.type_condition t m s.0, types_found t ms s.1)

  found-IsPage :
      (p : SearchParams) (v : W) (total : ℤ) (ms : List (ContentModel F))
      → IsCorrected p
      → (db.find (page_query p) v).0 ≡ ok ms
      → IsPage p (filled_result (map to_domain ms) total p)
  unfolding page_query limit
  found-IsPage p v total ms c found =
      let (s, size) = suc_of_pos p.page_size c.size_min in
      let (conditions, _, window) = apply_ordering-conditions (windowed p) p in
      let few = h.find_limits (page_query p) v ms (suc s) found (window ∙ ap some size) in
      record {
        page = refl;
        page_size = refl;
        at_most_hundred = c.size_max;
        fits =
            subst (λ z. length (map (to_domain {F = F}) ms) ≤ pos_part z) (sym size)
              (omega (arith, length-map (to_domain {F = F}) ms));
        types = λ given. types_found p.type ms (
            h.find_satisfies (page_query p) v ms _ found
              (subst (In _) (sym conditions) (type-In p given)));
      }

  IsPage-of_Ends :
      (p : SearchParams) (w : W) (r : SearchResult F) (out : Result (SearchResult F))
      → IsCorrected p
      → Ends db p w out
      → out ≡ ok r
      → IsPage p r
  IsPage-of_Ends p w r out c (count_failed e) same = cc
  IsPage-of_Ends p w r out c (find_failed v e) same = cc
  IsPage-of_Ends p w r out c (page_found v {total} {models} {r = r'} counted found made) same =
      let filled : filled_result (map to_domain models) total p ≡ r' =
        filled_of _ total p r' made in
      let r'-r : r' ≡ r = ground arith in
      subst (IsPage p) (filled ∙ r'-r) (found-IsPage p v total models c found)

  -- Over a database that keeps what it documents: a search that succeeds returns a page of the
  -- corrected parameters, of at most as many contents as its page size, which is at most 100, and
  -- if a type is asked for, all its contents are of that type.
  pub search-IsPage :
      (given : SearchParams) (w : W) (r : SearchResult F)
      → (search db given w).0 ≡ ok r
      → IsPage (validate given) r
  search-IsPage given w r e =
      IsPage-of_Ends (validate given) w r _ (validate-IsCorrected given) (search-Ends db given w) e
