-- ===== src/Tests/PostgresTests.antt =====
-- internal/infra/postgres over a table in memory: the filter by type and the limit are kept, the
-- words of the query and the order are not looked at.
use search_engine_service.Base.{
  ℕ, ◌≡◌, ◌≤◌, refl, sym, String, List, [], ◌∷◌, ◌++◌, map, Option, none, some, Bool, true, false,
  ◌&&◌, All, All-take, In, take, length, length-take-le, arith, ==_iff, ◌==◌, string_eq,
  if◌then◌else◌, subst, inl, inr, Bool-cases,
}
use search_engine_service.Base.Int.{ℤ, pos, negsuc}
use search_engine_service.Base.Effects.{record_not_found, Result, ok, err}
use search_engine_service.Domain.Search.{SearchResult, validate}
use search_engine_service.Infra.Postgres.Models.{ContentModel, from_domain}
use search_engine_service.Infra.Postgres.{Condition, Gorm, type_sql, page_query}
use search_engine_service.Infra.Postgres.Repository.{search}
use search_engine_service.Infra.Postgres.Statements.{IsOwnCondition, IsOwnOrder, page_query_own}
use search_engine_service.Infra.Postgres.Rows.{
  Ends, search-Ends, FindContract, IsPage, search-IsPage,
}
use search_engine_service.Tests.Fakes.{toy, asked, raw, content_of}

abbrev pub Row : Type 0
Row = ContentModel ℤ

abbrev first_is : String → List String → Bool
first_is t [] = false
first_is t (a ∷ args) = t == a

abbrev test : Condition → Row → Bool
test c m = if c.sql == type_sql then first_is m.type c.args else true

unfoldable meets : List Condition → Row → Bool
meets [] m = true
meets (c ∷ cs) m = test c m && meets cs m

unfoldable pub keep : List Condition → List Row → List Row
unfolding meets
keep cs [] = []
keep cs (m ∷ ms) = let rest = keep cs ms in if meets cs m then m ∷ rest else rest

abbrev pub cap : Option ℤ → List Row → List Row
cap none ms = ms
cap (some (pos n)) ms = take n ms
cap (some (negsuc n)) ms = ms

abbrev pub Satisfies : Condition → Row → Type 0
Satisfies c m = test c m ≡ true

meets-In :
    (c : Condition) (cs : List Condition) (m : Row) → In c cs → meets cs m ≡ true → Satisfies c m
unfolding meets
meets-In c [] m i h = elim i [ ]
meets-In c (d ∷ cs) m (inl e) h = subst (λ x. test x m ≡ true) (sym e) (ground arith)
meets-In c (d ∷ cs) m (inr later) h = meets-In c cs m later (ground arith)

keep-Satisfies :
    (c : Condition) (cs : List Condition) (ms : List Row) → In c cs → All (Satisfies c) (keep cs ms)
unfolding keep
keep-Satisfies c cs [] i = tt
keep-Satisfies c cs (m ∷ ms) i = elim (Bool-cases (meets cs m)) [
  | inl met ↦ rw met (meets-In c cs m i met, keep-Satisfies c cs ms i)
  | inr unmet ↦ rw unmet (keep-Satisfies c cs ms i)
]

cap-Satisfies :
    (c : Condition) (l : Option ℤ) (ms : List Row)
    → All (Satisfies c) ms
    → All (Satisfies c) (cap l ms)
cap-Satisfies c none ms h = h
cap-Satisfies c (some (pos n)) ms h = All-take _ n ms h
cap-Satisfies c (some (negsuc n)) ms h = h

abbrev head_or_missing : List Row → Result Row
head_or_missing [] = err record_not_found
head_or_missing (m ∷ ms) = ok m

abbrev pub table : Gorm ℤ (List Row)
table = record {
  count = λ q w. (ok (pos (length (keep q.conditions w))), w);
  find = λ q w. (ok (cap q.limit (keep q.conditions w)), w);
  first = λ q w. (head_or_missing w, w);
  create = λ rule m w. (ok m, m ∷ w);
  create_in_batches = λ rule ms n w. (ok ms, ms ++ w);
  delete = λ q w. (ok tt, []);
  now = λ w. (pos 99, w);
}

ok-injective : (a b : List Row) → ok a ≡ ok b → a ≡ b
ok-injective a b e = ground arith

length-cap : (l : Option ℤ) (n : ℕ) (ms : List Row) → l ≡ some (pos n) → length (cap l ms) ≤ n
length-cap l n ms e = rw e (length-take-le n ms)

pub table-FindContract : FindContract Satisfies table
table-FindContract = record {
  find_satisfies = λ q w ms c found i.
      subst (All (Satisfies c)) (ok-injective _ ms found)
        (cap-Satisfies c q.limit _ (keep-Satisfies c q.conditions w i));
  find_limits = λ q w ms n found window.
      subst (λ rows. length rows ≤ n) (ok-injective _ ms found)
        (length-cap q.limit n (keep q.conditions w) window);
  type_condition = λ t m h. (==_iff m.type t).0 h;
}

abbrev pub rows : List Row
rows =
    map (λ t. from_domain (content_of t "article")) ("a" ∷ [])
    ++ map (λ t. from_domain (content_of t "video")) ("b" ∷ "c" ∷ "d" ∷ [])

abbrev page : SearchResult ℤ
page = record {
  contents = content_of "b" "video" ∷ [];
  total = pos 3;
  page = pos 2;
  page_size = pos 1;
  total_pages = pos 3;
}

found_page : (search table asked rows).0 ≡ ok page
unfolding search keep from_domain validate
found_page = refl

search-Ends_example : Ends table (validate raw) rows (search table raw rows).0
search-Ends_example = search-Ends table raw rows

search-IsPage_example : IsPage (validate asked) page
search-IsPage_example = search-IsPage Satisfies table table-FindContract asked rows page found_page

page_query_example :
    All (IsOwnCondition asked) (page_query asked).conditions
    × IsOwnOrder asked (page_query asked).order
page_query_example = page_query_own asked
