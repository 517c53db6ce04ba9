-- ===== src/Transport/Dto/Requests.antt =====
-- internal/transport/httpserver/dto/request.go: what a request that passes the validator becomes.
use mathlib.Core.Bool.{false≢true}
use search_engine_service.Base.{
  ◌≡◌, ◌≢◌, ◌⊎◌, String, List, [], ◌∷◌, In, All, All-In, arith, ◌==◌, string_eq, ==_iff, if_ind,
  refl, sym, ◌∙◌, subst, inl, inr, Bool-cases, if◌then◌else◌,
}
use search_engine_service.Base.Int.{pos, ◌≤ℤ◌}
use search_engine_service.Domain.Search.{
  SearchParams, sort_field_relevance, sort_field_score, sort_field_published_at, sort_order_asc,
  sort_order_desc, validate,
}
use search_engine_service.Domain.Content.{content_type_video, content_type_article}
use search_engine_service.Domain.Search.Bounds.{
  IsCorrected, validate-of_IsCorrected, or_default-ne, score-ne, desc-ne,
}
use search_engine_service.Service.CacheKey.{NoColon, HasPlainFields}
use search_engine_service.Transport.Dto.{SearchRequest, sort_by_of, to_search_params}

-- What each `oneof` lists, and the empty text that `omitempty` lets pass.
abbrev pub types : List String
types = "" ∷ "video" ∷ "article" ∷ []

abbrev pub sort_fields : List String
sort_fields = "" ∷ "relevance" ∷ "score" ∷ "published_at" ∷ []

abbrev pub sort_orders : List String
sort_orders = "" ∷ "asc" ∷ "desc" ∷ []

-- The `validate` tags of the request; `omitempty` lets the zero values pass.
pub record IsValidRequest (r : SearchRequest) : Type 0 where
  pub type : In r.type types
  pub sort_by : In r.sort_by sort_fields
  pub sort_order : In r.sort_order sort_orders
  pub page : (r.page ≡ pos 0) ⊎ (pos 1 ≤ℤ r.page)
  pub page_size : (r.page_size ≡ pos 0) ⊎ ((pos 1 ≤ℤ r.page_size) × (r.page_size ≤ℤ pos 100))

relevance-ne : sort_field_relevance ≢ ""
relevance-ne e = false≢true ((==_iff sort_field_relevance "").1 e)

types-NoColon : All NoColon types
types-NoColon = ground arith

sort_fields-NoColon : All NoColon sort_fields
sort_fields-NoColon = ground arith

sort_orders-NoColon : All NoColon sort_orders
sort_orders-NoColon = ground arith

to_search_params-HasPlainFields :
    (r : SearchRequest) → IsValidRequest r → HasPlainFields (to_search_params r)
unfolding to_search_params sort_by_of
to_search_params-HasPlainFields r v =
    let relevance = sort_fields-NoColon.1.0 in
    let score = sort_fields-NoColon.1.1.0 in
    let desc = sort_orders-NoColon.1.1.0 in
    record {
      type = All-In NoColon types types-NoColon v.type;
      sort_by =
          if_ind NoColon (r.sort_by == "") _ _ (if_ind NoColon (r.query == "") _ _ score relevance)
            (All-In NoColon sort_fields sort_fields-NoColon v.sort_by);
      sort_order =
          if_ind NoColon (r.sort_order == "") _ _ desc
            (All-In NoColon sort_orders sort_orders-NoColon v.sort_order);
    }

to_search_params-IsCorrected :
    (r : SearchRequest) → IsValidRequest r → IsCorrected (to_search_params r)
unfolding to_search_params sort_by_of
to_search_params-IsCorrected r v = record {
  page = ground arith;
  size_min = ground arith;
  size_max = let valid = v.page_size in ground arith;
  sort_by =
      or_default-ne r.sort_by _ (if_ind (λ s. s ≢ "") (r.query == "") _ _ score-ne relevance-ne);
  sort_order = or_default-ne r.sort_order sort_order_desc desc-ne;
}

-- A request that obeys its validation tags becomes parameters that `Validate` leaves as they are,
-- and whose type filter, sort field and sort order have no colon, so that the cache key tells them
-- apart from all other such parameters.
pub to_search_params_lem :
    (r : SearchRequest)
    → IsValidRequest r
    → (validate (to_search_params r) ≡ to_search_params r)
      × IsCorrected (to_search_params r)
      × HasPlainFields (to_search_params r)
to_search_params_lem r v = (
  validate-of_IsCorrected _ (to_search_params-IsCorrected r v),
  to_search_params-IsCorrected r v,
  to_search_params-HasPlainFields r v,
)

-- Parameters whose texts are those that the domain declares; no type is no filter.
pub record IsTyped (p : SearchParams) : Type 0 where
  pub type : In p.type ("" ∷ content_type_video ∷ content_type_article ∷ [])
  pub sort_by :
      In p.sort_by (sort_field_relevance ∷ sort_field_score ∷ sort_field_published_at ∷ [])
  pub sort_order : In p.sort_order (sort_order_asc ∷ sort_order_desc ∷ [])

-- What a default stands in for is not empty.
or_default-In :
    (s d : String) (xs : List String) → In s ("" ∷ xs) → In d xs → In (if s == "" then d else s) xs
or_default-In s d xs given default = elim (Bool-cases (s == "")) [
  | inl missing ↦ rw missing default
  | inr present ↦ elim given [
    | inl empty ↦ absurd (false≢true (sym present ∙ (==_iff s "").1 empty))
    | inr one ↦ rw present one
  ]
]

-- A request that obeys its validation tags becomes parameters of the domain's own types: no filter
-- or one of the two content types, one of the three sort fields, and one of the two directions. So are
-- those that `Validate` makes of them.
pub to_search_params-IsTyped :
    (r : SearchRequest)
    → IsValidRequest r
    → IsTyped (to_search_params r) × IsTyped (validate (to_search_params r))
unfolding to_search_params sort_by_of
to_search_params-IsTyped r v =
    let fields = sort_field_relevance ∷ sort_field_score ∷ sort_field_published_at ∷ [] in
    let orders = sort_order_asc ∷ sort_order_desc ∷ [] in
    let default = if_ind (λ s. In s fields) (r.query == "") _ _ (inr (inl refl)) (inl refl) in
    let typed : IsTyped (to_search_params r) = record {
      type = v.type;
      sort_by = or_default-In r.sort_by _ fields v.sort_by default;
      sort_order = or_default-In r.sort_order sort_order_desc orders v.sort_order (inr (inl refl));
    } in
    (
      typed,
      subst IsTyped (sym (validate-of_IsCorrected _ (to_search_params-IsCorrected r v))) typed,
    )
