-- ===== src/Infra/Postgres/Statements.antt =====
-- internal/infra/postgres/repository.go, `buildSearchQuery` and `applyOrdering`: the SQL text of a
-- search, and where what a user sends stands in it.
use search_engine_service.Base.{
  ◌≡◌, refl, ◌⊎◌, inl, inr, String, ◌<>◌, List, [], ◌∷◌, Option, none, some, In, All, ◌==◌,
  string_eq, if_ind, ap, subst, sym, Bool-cases, arith,
}
use search_engine_service.Domain.Search.{
  SearchParams, sort_order_asc, sort_field_relevance, sort_field_score, sort_field_published_at,
}
use search_engine_service.Infra.Postgres.{
  Condition, Ordering, column, expression, Statement, fts_sql, type_sql, rank_sql, direction_of,
  build_search_query, apply_ordering, with_condition, page_query, windowed,
}

-- A condition on the words of the query, or on the type.
abbrev pub IsOwnCondition : SearchParams → Condition → Type 0
IsOwnCondition p c =
    ((c.sql ≡ fts_sql) × (c.args ≡ p.query ∷ [])) ⊎ ((c.sql ≡ type_sql) × (c.args ≡ p.type ∷ []))

abbrev pub score_orders : List String
score_orders = "score ASC" ∷ "score DESC" ∷ "published_at ASC" ∷ "published_at DESC" ∷ []

abbrev pub rank_orders : List String
rank_orders = (rank_sql <> "ASC") ∷ (rank_sql <> "DESC") ∷ []

-- An order by one of six texts; the rank's mark is bound to the query.
abbrev pub IsOwnOrder : SearchParams → Option Ordering → Type 0
IsOwnOrder p none = ⊥
IsOwnOrder p (some (column sql)) = In sql score_orders
IsOwnOrder p (some (expression sql args)) = In sql rank_orders × (args ≡ p.query ∷ [])

abbrev IsDirection : String → Type 0
IsDirection d = (d ≡ "ASC") ⊎ (d ≡ "DESC")

direction_of-IsDirection : (p : SearchParams) → IsDirection (direction_of p)
direction_of-IsDirection p =
    if_ind IsDirection (p.sort_order == sort_order_asc) "ASC" "DESC" (inl refl) (inr refl)

by_score : (d : String) → IsDirection d → In ("score " <> d) score_orders
by_score d (inl e) = inl (ap (λ t. "score " <> t) e)
by_score d (inr e) = inr (inl (ap (λ t. "score " <> t) e))

by_date : (d : String) → IsDirection d → In ("published_at " <> d) score_orders
by_date d (inl e) = inr (inr (inl (ap (λ t. "published_at " <> t) e)))
by_date d (inr e) = inr (inr (inr (inl (ap (λ t. "published_at " <> t) e))))

by_rank : (d : String) → IsDirection d → In (rank_sql <> d) rank_orders
by_rank d (inl e) = inl (ap (λ t. rank_sql <> t) e)
by_rank d (inr e) = inr (inl (ap (λ t. rank_sql <> t) e))

apply_ordering-IsOwnOrder :
    (q : Statement) (p : SearchParams) → IsOwnOrder p (apply_ordering q p).order
unfolding apply_ordering
apply_ordering-IsOwnOrder q p =
    let d = direction_of-IsDirection p in
    let P = λ (s : Statement). IsOwnOrder p s.order in
    if_ind P (p.sort_by == sort_field_relevance) _ _
      (if_ind P (p.query == "") _ _ (by_score _ d) (by_rank _ d, refl))
      (if_ind P (p.sort_by == sort_field_score) _ _ (by_score _ d)
        (if_ind P (p.sort_by == sort_field_published_at) _ _ (by_date _ d) (by_score _ d)))

pub apply_ordering-conditions :
    (q : Statement) (p : SearchParams)
    → ((apply_ordering q p).conditions ≡ q.conditions)
      × ((apply_ordering q p).offset ≡ q.offset)
      × ((apply_ordering q p).limit ≡ q.limit)
unfolding apply_ordering
apply_ordering-conditions q p =
    let P = λ (s : Statement).
      (s.conditions ≡ q.conditions) × (s.offset ≡ q.offset) × (s.limit ≡ q.limit) in
    if_ind P (p.sort_by == sort_field_relevance) _ _
      (if_ind P (p.query == "") _ _ (refl, refl, refl) (refl, refl, refl))
      (if_ind P (p.sort_by == sort_field_score) _ _ (refl, refl, refl)
        (if_ind P (p.sort_by == sort_field_published_at) _ _ (refl, refl, refl) (refl, refl, refl)))

-- Neither the page nor its size changes the order.
pub apply_ordering-order :
    (q q' : Statement) (p : SearchParams) → (apply_ordering q p).order ≡ (apply_ordering q' p).order
unfolding apply_ordering
apply_ordering-order q q' p = ground arith

pub build_search_query-IsOwn :
    (p : SearchParams) → All (IsOwnCondition p) (build_search_query p).conditions
unfolding build_search_query with_condition
build_search_query-IsOwn p = elim (Bool-cases (p.query == "")) [
  | inl no_query ↦ elim (Bool-cases (p.type == "")) [
    | inl no_type ↦ rw (no_query, no_type) tt
    | inr type ↦ rw (no_query, type) (inr (refl, refl), tt)
  ]
  | inr query ↦ elim (Bool-cases (p.type == "")) [
    | inl no_type ↦ rw (query, no_type) (inl (refl, refl), tt)
    | inr type ↦ rw (query, type) (inl (refl, refl), (inr (refl, refl), tt))
  ]
]

-- For all parameters, whatever texts they hold: every condition of a search is one of the two that
-- the program writes, its order is one of the six that the program writes, and the texts of the
-- user stand in it as bound arguments only.
pub page_query_own :
    (p : SearchParams)
    → All (IsOwnCondition p) (page_query p).conditions × IsOwnOrder p (page_query p).order
unfolding page_query
page_query_own p = (
  subst (All (IsOwnCondition p)) (sym (apply_ordering-conditions (windowed p) p).0)
      (build_search_query-IsOwn p),
  apply_ordering-IsOwnOrder (windowed p) p,
)
