-- ===== src/Infra/Postgres.antt =====
-- internal/infra/postgres: the table's model and the conversions (models.go), and the repository
-- (repository.go). GORM over PostgreSQL is the parameter `db`; a statement is what the code has built
-- of it: conditions and orders by their SQL text, with the arguments that are bound to its marks.
pub mod Models
pub mod Repository
pub mod Statements
pub mod Rows
pub mod Paging
pub mod Writes
pub mod Conflicts
pub mod Upserts
pub mod Connection
pub mod Migrations
use search_engine_service.Base.{
  ℕ, String, ◌<>◌, List, [], ◌∷◌, ◌++◌, map, Option, none, some, Bool, true, false, if◌then◌else◌,
  ◌==◌, string_eq,
}
use search_engine_service.Base.Int.{ℤ, pos}
use search_engine_service.Base.Effects.{
  Error, panicked, wrapped, Result, ok, err, Eff, pure, ◌>>=◌, on_ok, is_record_not_found,
}
use search_engine_service.Domain.Content.{Content, Time}
use search_engine_service.Domain.Search.{
  SearchParams, SearchResult, validate, offset, limit, new_search_result, sort_order_asc,
  sort_field_relevance, sort_field_score, sort_field_published_at,
}
use search_engine_service.Domain.Ports.{ContentRepository}
use Models.{ContentModel, to_domain, from_domain, from_domain_slice}

-- `Where(sql, args...)`.
pub record Condition : Type 0 where
  pub sql : String
  pub args : List String

-- `Order(sql)`, and `Clauses(clause.OrderBy{Expression: gorm.Expr(sql, args...)})`.
pub data Ordering : Type 0 where
  column : String → Ordering
  expression : String → List String → Ordering

pub record Statement : Type 0 where
  pub conditions : List Condition
  pub order : Option Ordering
  pub offset : Option ℤ
  pub limit : Option ℤ

-- `clause.OnConflict`: the columns of the conflict, and those that are then assigned.
pub record OnConflict : Type 0 where
  pub columns : List String
  pub assigned : List String

-- A write returns the rows with the fields that the database has generated.
pub record Gorm (F W : Type 0) : Type 0 where
  pub count : Statement → Eff W (Result ℤ)
  pub find : Statement → Eff W (Result (List (ContentModel F)))
  pub first : Statement → Eff W (Result (ContentModel F))
  pub create : OnConflict → ContentModel F → Eff W (Result (ContentModel F))
  pub create_in_batches :
      OnConflict → List (ContentModel F) → ℕ → Eff W (Result (List (ContentModel F)))
  pub delete : Statement → Eff W (Result (Unit {0}))
  pub now : Eff W Time

abbrev pub no_statement : Statement
no_statement = record { conditions = []; order = none; offset = none; limit = none }

unfoldable pub with_condition : Statement → String → List String → Statement
with_condition q sql args = record q {
  conditions = q.conditions ++ record { sql = sql; args = args } ∷ [];
}

abbrev pub fts_sql : String
fts_sql = "search_vector @@ websearch_to_tsquery('english', ?)"

abbrev pub type_sql : String
type_sql = "type = ?"

abbrev pub rank_sql : String
rank_sql = "(ts_rank(search_vector, websearch_to_tsquery('english', ?)) * log_score_cached) "

unfoldable pub build_search_query : SearchParams → Statement
unfolding with_condition
build_search_query params =
    let by_query =
      if params.query == ""
      then no_statement
      else with_condition no_statement fts_sql (params.query ∷ []) in
    if params.type == "" then by_query else with_condition by_query type_sql (params.type ∷ [])

abbrev order_by : Statement → Ordering → Statement
order_by q o = record q { order = some o }

abbrev pub direction_of : SearchParams → String
direction_of params = if params.sort_order == sort_order_asc then "ASC" else "DESC"

unfoldable pub apply_ordering : Statement → SearchParams → Statement
apply_ordering query params =
    let direction = direction_of params in
    if params.sort_by == sort_field_relevance
    then if params.query == ""
      then order_by query (column ("score " <> direction))
      else order_by query (expression (rank_sql <> direction) (params.query ∷ []))
    else if params.sort_by == sort_field_score
    then order_by query (column ("score " <> direction))
    else if params.sort_by == sort_field_published_at
    then order_by query (column ("published_at " <> direction))
    else order_by query (column ("score " <> direction))

-- The statement of the second half of `Search`, before it is ordered.
abbrev pub windowed : SearchParams → Statement
windowed params = record (build_search_query params) {
  offset = some (offset params);
  limit = some (limit params);
}

unfoldable pub page_query : SearchParams → Statement
unfolding build_search_query apply_ordering offset limit
page_query params = apply_ordering (windowed params) params
