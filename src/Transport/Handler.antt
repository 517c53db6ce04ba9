-- ===== src/Transport/Handler.antt =====
-- internal/transport/httpserver/handler: the handlers of the API. Fiber's parsing of the request and
-- the validator are arguments; an answer is its status and its body.
pub mod Answers
pub mod Soundness
use search_engine_service.Base.{ℕ, String, List, Option, none, some, ◌==◌, string_eq, if◌then◌else◌}
use search_engine_service.Base.Int.{ℤ, pos}
use search_engine_service.Base.Effects.{Error, error_text, Result, ok, err, Eff, pure, ◌>>=◌}
use search_engine_service.Domain.Content.{Content}
use search_engine_service.Domain.Search.{SearchResult}
use search_engine_service.Service.Search
use search_engine_service.Service.Search.{Json, SearchService}
use search_engine_service.Service.Sync
use search_engine_service.Service.Sync.{SyncService, SyncResult}
use search_engine_service.Transport.Dto.{
  SearchRequest, to_search_params, Printing, ContentResponse, SearchResponse, SyncResultResponse,
  SyncResponse, ErrorResponse, from_domain_content, from_search_result, from_sync_results,
}

pub data Body (F : Type 0) : Type 0 where
  contents_body : SearchResponse F → Body F
  content_body : ContentResponse F → Body F
  sync_body : SyncResponse → Body F
  sync_result_body : SyncResultResponse → Body F
  providers_body : List String → Body F
  dashboard_body : ℤ → Body F
  redirect_body : String → Body F
  error_body : ErrorResponse → Option Error → Body F

pub record Answer (F : Type 0) : Type 0 where
  pub status : ℕ
  pub body : Body F

abbrev pub json : {F : Type 0} → Body F → Answer F
json body = record { status = 200; body = body }

-- `c.Status(status).JSON(dto.ErrorResponse{...})`, with its details.
abbrev pub failure : {F : Type 0} → ℕ → String → String → Option Error → Answer F
failure status error code details = record {
  status = status;
  body = error_body (record { error = error; code = code }) details;
}

module _ {F W : Type 0} (print : Printing) (codec : Json (SearchResult F))
    (svc : SearchService F W) where
  unfoldable pub answer_search : Result (SearchResult F) → Answer F
  unfolding from_search_result
  answer_search (ok result) = json (contents_body (from_search_result print result))
  answer_search (err e) = failure 500 "search failed" "INTERNAL_ERROR" none

  -- `parsed` is what `QueryParser` made of the request, `validator` the validator's answer.
  unfoldable pub search_valid : SearchRequest → Result (Unit {0}) → Eff W (Answer F)
  unfolding answer_search
  search_valid req (err e) = pure (failure 400 "validation failed" "VALIDATION_ERROR" (some e))
  search_valid req (ok valid) = do
    result ← Search.search codec svc (to_search_params req)
    pure (answer_search result)

  unfoldable pub search :
      (SearchRequest → Result (Unit {0})) → Result SearchRequest → Eff W (Answer F)
  unfolding search_valid
  search validator (err e) = pure (failure 400 "invalid query parameters" "INVALID_PARAMS" none)
  search validator (ok req) = search_valid req (validator req)

  unfoldable pub answer_content : Result (Option (Content F)) → Answer F
  answer_content (err e) = failure 500 "failed to get content" "INTERNAL_ERROR" none
  answer_content (ok none) = failure 404 "content not found" "NOT_FOUND" none
  answer_content (ok (some c)) = json (content_body (from_domain_content print c))

  unfoldable pub get_by_id : String → Eff W (Answer F)
  unfolding answer_content
  get_by_id id =
      if id == ""
      then pure (failure 400 "id is required" "MISSING_ID" none)
      else (do content ← Search.get_by_id svc id; pure (answer_content content))

  -- The count is 0 beside an error.
  unfoldable pub count_or_zero : Result ℤ → ℤ
  count_or_zero (ok n) = n
  count_or_zero (err e) = pos 0

  unfoldable pub render_dashboard : Eff W (Answer F)
  unfolding count_or_zero
  render_dashboard = do count ← Search.count svc; pure (json (dashboard_body (count_or_zero count)))

module _ {F W : Type 0} (print : Printing) (svc : SyncService F W) where
  unfoldable pub sync_all : List ℕ → Eff W (Answer F)
  sync_all schedule = do
    results ← Sync.sync_all svc schedule
    pure (json (sync_body (from_sync_results print results)))

  -- A result's own error comes first; no result is an unknown provider.
  unfoldable pub answer_sync : Option SyncResult → Answer F
  answer_sync none = failure 404 "provider not found" "PROVIDER_NOT_FOUND" none
  answer_sync (some r) = elim r.error [
    | some e ↦ failure 500 (error_text e) "SYNC_FAILED" none
    | none ↦ json (
        sync_result_body (record {
          provider = r.provider;
          count = r.count;
          duration = print.duration r.duration;
          error = "";
        }))
  ]

  unfoldable pub sync_provider : String → Eff W (Answer F)
  unfolding answer_sync
  sync_provider name =
      if name == ""
      then pure (failure 400 "provider name is required" "MISSING_PROVIDER" none)
      else (do result ← Sync.sync_provider_named svc name; pure (answer_sync result))

  unfoldable pub get_providers : Eff W (Answer F)
  get_providers = pure (json (providers_body (Sync.get_provider_names svc)))
