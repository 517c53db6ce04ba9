-- ===== src/Infra/Provider/ProviderA.antt =====
-- internal/infra/provider/provider_a: the JSON provider (types.go, client.go).
use search_engine_service.Base.{String, List, map}
use search_engine_service.Base.Int.{ℤ, pos}
use search_engine_service.Base.Float.{Float}
use search_engine_service.Base.Effects.{Result, ok, Eff, pure, ◌>>=◌, on_ok}
use search_engine_service.Domain.Content.{Content}
use search_engine_service.Domain.Ports.{Provider}
use search_engine_service.Infra.Provider.{
  Backend, HttpResponse, zero_time, time_or_zero, request, health_check, score_all,
}

pub record Metrics : Type 0 where
  pub views : ℤ
  pub likes : ℤ
  pub duration : String

pub record ContentItem : Type 0 where
  pub id : String
  pub title : String
  pub type : String
  pub metrics : Metrics
  pub published_at : String
  pub tags : List String

pub record Pagination : Type 0 where
  pub total : ℤ
  pub page : ℤ
  pub per_page : ℤ

pub record Response : Type 0 where
  pub contents : List ContentItem
  pub pagination : Pagination

abbrev pub name : String
name = "provider_a"

abbrev pub endpoint : String
endpoint = "/api/contents"

-- The layout `time.RFC3339`.
abbrev pub layout : String
layout = "2006-01-02T15:04:05Z07:00"

module _ {F W : Type 0} ⦃f : Float F⦄ (b : Backend W Response) where
  unfoldable pub to_domain : ContentItem → String → Content F
  to_domain c provider_id = record {
    id = "";
    provider_id = provider_id;
    external_id = c.id;
    title = c.title;
    type = c.type;
    tags = c.tags;
    views = c.metrics.views;
    likes = c.metrics.likes;
    duration = c.metrics.duration;
    reading_time = pos 0;
    reactions = pos 0;
    comments = pos 0;
    score = f.of_int (pos 0);
    published_at = time_or_zero (b.parse_time layout c.published_at);
    created_at = zero_time;
    updated_at = zero_time;
  }

  unfoldable pub read_response : Result (HttpResponse Response) → Eff W (Result (List (Content F)))
  unfolding to_domain score_all
  read_response resp = on_ok "fetching from provider_a" resp λ r. do
    contents ← score_all b.now (map (λ item. to_domain item name) r.result.contents)
    pure (ok contents)

  unfoldable pub fetch : Eff W (Result (List (Content F)))
  unfolding read_response request
  fetch = do resp ← b.execute (request b name endpoint); read_response resp

  unfoldable pub as_provider : Provider F W
  unfolding fetch health_check
  as_provider = record { name = name; fetch = fetch; health_check = health_check b }
