-- ===== src/Infra/Postgres/Paging/Partition.antt =====
-- internal/infra/postgres/repository.go, `Search`: the pages of a search together.
use mathlib.Core.List.{map-append}
use search_engine_service.Base.{
  ℕ, zero, suc, ◌+◌, ◌*◌, ◌^◌, ◌≡◌, ◌≤◌, ◌<◌, refl, sym, ap, ◌∙◌, subst, List, [], ◌++◌, map,
  length, take, drop, take-append-drop, take_of_length-le, Option, arith,
}
use search_engine_service.Base.Int.{pos, ◌≤ℤ◌, suc_of_pos}
use search_engine_service.Base.Effects.{Result, ok, err, Eff, pure, ◌>>=◌}
use search_engine_service.Domain.Content.{Content}
use search_engine_service.Domain.Search.{SearchParams, SearchResult, count_pages}
use search_engine_service.Domain.Search.Bounds.{IsCorrected, IsNear}
use search_engine_service.Domain.Search.Pages.{count_pages_lem}
use search_engine_service.Infra.Postgres.Models.{ContentModel, to_domain}
use search_engine_service.Infra.Postgres.{Condition, Ordering, Gorm}
use search_engine_service.Infra.Postgres.Repository.{search}
use search_engine_service.Infra.Postgres.Paging.{
  Answers, at_page, at_page-IsCorrected, AreOrdered, AreOrdered-kept, AreOrdered-at_page, SameRows,
  SameRows-trans, shown, search-shown, search-SameRows,
}

windows-map :
    {A B : Type 0} (f : A → B) (n m : ℕ) (xs : List A)
    → map f (take n xs) ++ map f (take m (drop n xs)) ≡ map f (take (n + m) xs)
windows-map f n m xs =
    sym (map-append f (take n xs) (take m (drop n xs))) ∙ ap (map f) (take-append-drop n m xs)

-- No more pages than rows.
pages_few : (total s n : ℕ) → n * suc s < total + suc s → n ≤ total
pages_few total s zero h = omega arith
pages_few total s (suc m) h =
    let one_more : suc m * suc s ≡ m * suc s + suc s = grind arith in
    let least : m ≤ m * suc s = grind arith in omega arith

enough_more : (total s n extra : ℕ) → total ≤ n * suc s → total ≤ (n + extra) * suc s
enough_more total s n extra h =
    let apart : (n + extra) * suc s ≡ n * suc s + extra * suc s = grind arith in omega arith

module _ {F W : Type 0}
    (Arranged : W → List Condition → Option Ordering → List (ContentModel F) → Type 0)
    (db : Gorm F W) (h : Answers Arranged db) where
  -- The contents of the pages, one after the other.
  abbrev joined : Result (List (Content F)) → Result (SearchResult F) → Result (List (Content F))
  joined (err e) r = err e
  joined (ok cs) (err e) = err e
  joined (ok cs) (ok r) = ok (cs ++ r.contents)

  -- A client that asks for page 1, page 2 and so on to page `n`.
  pub read_pages : SearchParams → ℕ → Eff W (Result (List (Content F)))
  read_pages p zero = pure (ok [])
  read_pages p (suc n) = do
    before ← read_pages p n
    r ← search db (at_page p (suc n))
    pure (joined before r)

  -- The first `n` pages are the first rows.
  abbrev FirstPages : ℕ → ℕ → List (ContentModel F) → W → Result (List (Content F)) × W → Type 0
  FirstPages n s ms w out =
      (out.0 ≡ ok (map to_domain (take (n * suc s) ms))) × SameRows Arranged db h out.1 w

  read_pages-FirstPages :
      (p : SearchParams) (n s : ℕ) (ms : List (ContentModel F)) (w : W)
      → AreOrdered Arranged db h p w ms
      → IsCorrected p
      → p.page_size ≡ pos (suc s)
      → n ≤ 2 ^ 56
      → FirstPages n s ms w (read_pages p n w)
  unfolding read_pages
  read_pages-FirstPages p zero s ms w ordered c size near =
      let e : zero * suc s ≡ 0 = omega arith in rw e (refl, λ cs o ns. (λ a. a, λ a. a))
  read_pages-FirstPages p (suc n) s ms w ordered c size near =
      let (before, kept) = read_pages-FirstPages p n s ms w ordered c size (omega arith) in
      let one_more : n * suc s + suc s ≡ suc n * suc s = grind arith in
      let v = (read_pages p n w).1 in
      let q = at_page p (suc n) in
      let c' = at_page-IsCorrected p n c in
      let ordered' =
        AreOrdered-at_page Arranged db h p (suc n) v ms
          (AreOrdered-kept Arranged db h p v w ms kept ordered) in
      let next = search-shown Arranged db h q v ms n s ordered' c' refl size (omega arith) in
      (
        rw (before, next)
            (ap ok (
              windows-map to_domain (n * suc s) (suc s) ms
              ∙ ap (λ k. map to_domain (take k ms)) one_more)),
        SameRows-trans Arranged db h (search db q v).1 v w
            (search-SameRows Arranged db h q v ms ordered'.0 c') kept,
      )

  read_pages-all :
      (p : SearchParams) (m s : ℕ) (ms : List (ContentModel F)) (w : W)
      → AreOrdered Arranged db h p w ms
      → IsCorrected p
      → p.page_size ≡ pos (suc s)
      → m ≤ 2 ^ 56
      → length ms ≤ m * suc s
      → (read_pages p m w).0 ≡ ok (map to_domain ms)
  read_pages-all p m s ms w ordered c size near enough =
      (read_pages-FirstPages p m s ms w ordered c size near).0
      ∙ ap (λ xs. ok (map to_domain xs)) (take_of_length-le (m * suc s) _ enough)

  -- What a search of some parameters shows tells how to read all its matches.
  abbrev pub AllPages : SearchParams → W → List (ContentModel F) → ℕ → Type 0
  AllPages p w ms extra =
      (n : ℕ) × (r : SearchResult F) × ((search db p w).0 ≡ ok r)
      × (r.total_pages ≡ pos n)
      × (r.total ≡ pos (length ms))
      × ((read_pages p (n + extra) (search db p w).1).0 ≡ ok (map to_domain ms))

  -- For corrected parameters whose page is at most 2⁵⁶, over a database that answers, and for at most
  -- 2⁵⁵ matches of which no two tie in the order of the search: a search succeeds and tells their
  -- number and a number of pages, and whoever reads from the first page on that many pages, or up to
  -- 2⁵⁵ more, receives all the matches in their order, each of them once and nothing else.
  pub search-AllPages :
      (p : SearchParams) (w : W) (ms : List (ContentModel F)) (extra : ℕ)
      → IsNear p
      → AreOrdered Arranged db h p w ms
      → length ms ≤ 2 ^ 55
      → extra ≤ 2 ^ 55
      → AllPages p w ms extra
  search-AllPages p w ms extra (c, near) ordered few more =
      let (n', page) = suc_of_pos p.page c.page in
      let (s, size) = suc_of_pos p.page_size c.size_min in
      let total = length ms in
      let (n, pages, enough) = count_pages_lem total s (omega arith) in
      let first =
        search-shown Arranged db h p w ms n' s ordered c page size
          (omega (arith, subst (λ z. z ≤ℤ pos (2 ^ 56)) page near)) in
      let later = search-SameRows Arranged db h p w ms ordered.0 c in
      let all =
        read_pages-all p (n + extra) s ms (search db p w).1
          (AreOrdered-kept Arranged db h p (search db p w).1 w ms later ordered) c size
          (omega (arith, pages_few total s n enough.1)) (enough_more total s n extra enough.0) in
      (
        n,
        shown Arranged db h p ms n' s,
        first,
        ap (count_pages (pos total)) size ∙ pages,
        refl,
        all,
      )
