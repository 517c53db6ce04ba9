-- ===== src/Infra/Postgres/Repository.antt =====
-- internal/infra/postgres/repository.go: the methods of the repository.
use search_engine_service.Base.{String, List, [], ◌∷◌, map, Option, none, some, if◌then◌else◌}
use search_engine_service.Base.Int.{ℤ}
use search_engine_service.Base.Float.{Float}
use search_engine_service.Base.Effects.{
  panicked, wrapped, Result, ok, err, Eff, pure, ◌>>=◌, on_ok, is_record_not_found,
}
use search_engine_service.Domain.Content.{Content, Time}
use search_engine_service.Domain.Search.{SearchParams, SearchResult, validate, new_search_result}
use search_engine_service.Domain.Ports.{ContentRepository}
use search_engine_service.Infra.Postgres.Models.{
  ContentModel, to_domain, from_domain, from_domain_slice,
}
use search_engine_service.Infra.Postgres.{
  Gorm, OnConflict, no_statement, with_condition, build_search_query, page_query,
}

abbrev pub conflict_rule : OnConflict
conflict_rule = record {
  columns = "provider_id" ∷ "external_id" ∷ [];
  assigned =
      "title" ∷ "type" ∷ "tags" ∷ "views" ∷ "likes" ∷ "duration" ∷ "reading_time" ∷ "reactions"
      ∷ "comments" ∷ "score" ∷ "published_at" ∷ "updated_at" ∷ [];
}

abbrev pub id_sql : String
id_sql = "id = ?"

abbrev pub provider_sql : String
provider_sql = "provider_id = ? AND external_id = ?"

module _ {F : Type 0} where
  -- A page size of zero is a panic of `NewSearchResult`.
  unfoldable pub to_search_result :
      SearchParams → ℤ → List (ContentModel F) → Result (SearchResult F)
  unfolding to_domain new_search_result
  to_search_result params total models =
      elim (new_search_result (map to_domain models) total params) [
        | none ↦ err panicked
        | some r ↦ ok r
      ]

  -- A record that is not found is no error.
  unfoldable pub of_first : String → Result (ContentModel F) → Result (Option (Content F))
  unfolding is_record_not_found to_domain
  of_first text (ok model) = ok (some (to_domain model))
  of_first text (err e) = if is_record_not_found e then ok none else err (wrapped text e)

  -- The fields that the database generates are copied back into the domain object.
  unfoldable pub fill_in : Content F → ContentModel F → Content F
  fill_in c m = record c { id = m.id; created_at = m.created_at; updated_at = m.updated_at }

  unfoldable pub fill_in_all : List (Content F) → List (ContentModel F) → List (Content F)
  unfolding fill_in
  fill_in_all [] ms = []
  fill_in_all (c ∷ cs) [] = c ∷ cs
  fill_in_all (c ∷ cs) (m ∷ ms) = fill_in c m ∷ fill_in_all cs ms

  unfoldable pub stamp : Time → ContentModel F → ContentModel F
  stamp now m = record m { updated_at = now }

module _ {F W : Type 0} (db : Gorm F W) where
  unfoldable pub search : SearchParams → Eff W (Result (SearchResult F))
  unfolding to_search_result build_search_query page_query
  search given = do
    let params = validate given
    counted ← db.count (build_search_query params)
    on_ok "counting contents" counted λ total. do
      found ← db.find (page_query params)
      on_ok "searching contents" found λ models. pure (to_search_result params total models)

  unfoldable pub get_by_id : String → Eff W (Result (Option (Content F)))
  unfolding of_first with_condition
  get_by_id id = do
    found ← db.first (with_condition no_statement id_sql (id ∷ []))
    pure (of_first "getting content by id" found)

  unfoldable pub get_by_provider_and_external_id :
      String → String → Eff W (Result (Option (Content F)))
  unfolding of_first with_condition
  get_by_provider_and_external_id provider_id external_id = do
    found ← db.first (with_condition no_statement provider_sql (provider_id ∷ external_id ∷ []))
    pure (of_first "getting content by provider and external id" found)

  unfoldable pub delete : String → Eff W (Result (Unit {0}))
  unfolding with_condition
  delete id = do
    deleted ← db.delete (with_condition no_statement id_sql (id ∷ []))
    on_ok "deleting content" deleted λ done. pure (ok tt)

  unfoldable pub count : SearchParams → Eff W (Result ℤ)
  unfolding build_search_query
  count params = do
    counted ← db.count (build_search_query params)
    on_ok "counting contents" counted λ total. pure (ok total)

module _ {F W : Type 0} ⦃f : Float F⦄ (db : Gorm F W) where
  unfoldable pub upsert : Content F → Eff W (Result (Content F))
  unfolding stamp from_domain fill_in
  upsert content = do
    now ← db.now
    created ← db.create conflict_rule (stamp now (from_domain content))
    on_ok "upserting content" created λ model. pure (ok (fill_in content model))

  unfoldable pub bulk_upsert_some : List (Content F) → Eff W (Result (List (Content F)))
  unfolding stamp from_domain_slice fill_in_all
  bulk_upsert_some contents = do
    now ← db.now
    created ← db.create_in_batches conflict_rule (map (stamp now) (from_domain_slice contents)) 100
    on_ok "bulk upserting contents" created λ models. pure (ok (fill_in_all contents models))

  unfoldable pub bulk_upsert : List (Content F) → Eff W (Result (List (Content F)))
  unfolding bulk_upsert_some
  bulk_upsert [] = pure (ok [])
  bulk_upsert (c ∷ cs) = bulk_upsert_some (c ∷ cs)

  -- The port that the services are given.
  unfoldable pub as_repository : ContentRepository F W
  unfolding search get_by_id get_by_provider_and_external_id upsert bulk_upsert delete count
  as_repository = record {
    search = search db;
    get_by_id = get_by_id db;
    get_by_provider_and_external_id = get_by_provider_and_external_id db;
    upsert = upsert;
    bulk_upsert = bulk_upsert;
    delete = delete db;
    count = count db;
  }
