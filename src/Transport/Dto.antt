-- ===== src/Transport/Dto.antt =====
-- internal/transport/httpserver/dto: the request of a search (request.go) and the bodies of the
-- answers (response.go). The printing of times and durations is the argument `print`.
pub mod Requests
pub mod Summary
use search_engine_service.Base.{
  ℕ, ◌+◌, String, List, [], ◌∷◌, map, Option, none, some, ◌==◌, string_eq, if◌then◌else◌,
}
use search_engine_service.Base.Int.{ℤ, pos, ltb_ℤ}
use search_engine_service.Base.Effects.{Error, error_text}
use search_engine_service.Domain.Content.{Content, Time, Duration}
use search_engine_service.Domain.Search.{
  SearchParams, SearchResult, default_search_params, sort_field_relevance,
}
use search_engine_service.Service.Sync.{SyncResult}

pub record SearchRequest : Type 0 where
  pub query : String
  pub type : String
  pub sort_by : String
  pub sort_order : String
  pub page : ℤ
  pub page_size : ℤ

-- A sort field that is asked for, or relevance for a query, or the default.
unfoldable pub sort_by_of : SearchRequest → String → String
sort_by_of r default =
    if r.sort_by == "" then (if r.query == "" then default else sort_field_relevance) else r.sort_by

unfoldable pub to_search_params : SearchRequest → SearchParams
unfolding sort_by_of default_search_params
to_search_params r =
    let params = default_search_params in
    record params {
      query = r.query;
      type = r.type;
      sort_by = sort_by_of r params.sort_by;
      sort_order = if r.sort_order == "" then params.sort_order else r.sort_order;
      page = if ltb_ℤ (pos 0) r.page then r.page else params.page;
      page_size = if ltb_ℤ (pos 0) r.page_size then r.page_size else params.page_size;
    }

-- `t.Format(time.RFC3339)` and `d.String()`.
pub record Printing : Type 0 where
  pub rfc3339 : Time → String
  pub duration : Duration → String

pub record ContentResponse (F : Type 0) : Type 0 where
  pub id : String
  pub provider_id : String
  pub external_id : String
  pub title : String
  pub type : String
  pub tags : List String
  pub views : ℤ
  pub likes : ℤ
  pub duration : String
  pub reading_time : ℤ
  pub reactions : ℤ
  pub comments : ℤ
  pub score : F
  pub published_at : String
  pub created_at : String
  pub updated_at : String

pub record PaginationMeta : Type 0 where
  pub total : ℤ
  pub page : ℤ
  pub page_size : ℤ
  pub total_pages : ℤ

pub record SearchResponse (F : Type 0) : Type 0 where
  pub contents : List (ContentResponse F)
  pub pagination : PaginationMeta

pub record SyncResultResponse : Type 0 where
  pub provider : String
  pub count : ℕ
  pub duration : String
  pub error : String

pub record SyncSummary : Type 0 where
  pub total_synced : ℕ
  pub providers_ok : ℕ
  pub providers_fail : ℕ

pub record SyncResponse : Type 0 where
  pub results : List SyncResultResponse
  pub summary : SyncSummary

pub record ErrorResponse : Type 0 where
  pub error : String
  pub code : String

module _ (print : Printing) where
  unfoldable pub from_domain_content : {F : Type 0} → Content F → ContentResponse F
  from_domain_content c = record {
    id = c.id;
    provider_id = c.provider_id;
    external_id = c.external_id;
    title = c.title;
    type = c.type;
    tags = c.tags;
    views = c.views;
    likes = c.likes;
    duration = c.duration;
    reading_time = c.reading_time;
    reactions = c.reactions;
    comments = c.comments;
    score = c.score;
    published_at = print.rfc3339 c.published_at;
    created_at = print.rfc3339 c.created_at;
    updated_at = print.rfc3339 c.updated_at;
  }

  unfoldable pub from_search_result : {F : Type 0} → SearchResult F → SearchResponse F
  unfolding from_domain_content
  from_search_result result = record {
    contents = map from_domain_content result.contents;
    pagination = record {
      total = result.total;
      page = result.page;
      page_size = result.page_size;
      total_pages = result.total_pages;
    };
  }

  -- The message of a result: empty if there is no error.
  unfoldable pub message_of : Option Error → String
  message_of none = ""
  message_of (some e) = error_text e

  unfoldable pub from_sync_result : SyncResult → SyncResultResponse
  unfolding message_of
  from_sync_result r = record {
    provider = r.provider;
    count = r.count;
    duration = print.duration r.duration;
    error = message_of r.error;
  }

  -- What one result adds to the summary.
  unfoldable pub add_to_summary : SyncSummary → SyncResult → SyncSummary
  add_to_summary s r = elim r.error [
    | none ↦ record s { total_synced = s.total_synced + r.count; providers_ok = s.providers_ok + 1 }
    | some e ↦ record s { providers_fail = s.providers_fail + 1 }
  ]

  -- The loop of `FromSyncResults`, over the summary so far.
  unfoldable pub summarise : SyncSummary → List SyncResult → SyncSummary
  unfolding add_to_summary
  summarise s [] = s
  summarise s (r ∷ rs) = summarise (add_to_summary s r) rs

  abbrev pub empty_summary : SyncSummary
  empty_summary = record { total_synced = 0; providers_ok = 0; providers_fail = 0 }

  unfoldable pub from_sync_results : List SyncResult → SyncResponse
  unfolding summarise from_sync_result
  from_sync_results results = record {
    results = map from_sync_result results;
    summary = summarise empty_summary results;
  }
