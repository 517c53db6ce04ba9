-- ===== src/Infra/Provider/ProviderB.antt =====
-- internal/infra/provider/provider_b: the XML provider (types.go, client.go). `encoding/xml` of a feed
-- is the argument `unmarshal`.
use search_engine_service.Base.{String, List, map, ◌==◌, string_eq, if◌then◌else◌}
use search_engine_service.Base.Int.{ℤ, pos}
use search_engine_service.Base.Float.{Float}
use search_engine_service.Base.Effects.{Result, ok, Eff, pure, ◌>>=◌, on_ok}
use search_engine_service.Domain.Content.{Content}
use search_engine_service.Domain.Ports.{Bytes, Provider}
use search_engine_service.Infra.Provider.{
  Backend, HttpResponse, zero_time, time_or_zero, request, health_status, score_all,
}

pub record Stats : Type 0 where
  pub views : ℤ
  pub likes : ℤ
  pub duration : String
  pub reading_time : ℤ
  pub reactions : ℤ
  pub comments : ℤ

pub record Categories : Type 0 where
  pub category : List String

pub record Item : Type 0 where
  pub id : String
  pub headline : String
  pub type : String
  pub stats : Stats
  pub publication_date : String
  pub categories : Categories

pub record Items : Type 0 where
  pub items : List Item

pub record Meta : Type 0 where
  pub total_count : ℤ
  pub current_page : ℤ
  pub items_per_page : ℤ

pub record Feed : Type 0 where
  pub items : Items
  pub meta : Meta

abbrev pub name : String
name = "provider_b"

abbrev pub endpoint : String
endpoint = "/feed"

abbrev pub layout : String
layout = "2006-01-02"

-- `HealthCheck`, with the tests of the other client.
unfoldable pub health_check : {W : Type 0} → Backend W (Unit {0}) → Eff W (Result (Unit {0}))
unfolding health_status
health_check b = do r ← b.get "/health"; pure (health_status r)

module _ {F W : Type 0} ⦃f : Float F⦄ (b : Backend W (Unit {0})) where
  -- The fields that every type has.
  unfoldable pub base_content : Item → String → Content F
  base_content i provider_id = record {
    id = "";
    provider_id = provider_id;
    external_id = i.id;
    title = i.headline;
    type = i.type;
    tags = i.categories.category;
    views = pos 0;
    likes = pos 0;
    duration = "";
    reading_time = pos 0;
    reactions = pos 0;
    comments = pos 0;
    score = f.of_int (pos 0);
    published_at = time_or_zero (b.parse_time layout i.publication_date);
    created_at = zero_time;
    updated_at = zero_time;
  }

  unfoldable pub to_domain : Item → String → Content F
  unfolding base_content
  to_domain i provider_id =
      let content = base_content i provider_id in
      if i.type == "video"
      then record content {
        views = i.stats.views;
        likes = i.stats.likes;
        duration = i.stats.duration;
      }
      else if i.type == "article"
      then record content {
        reading_time = i.stats.reading_time;
        reactions = i.stats.reactions;
        comments = i.stats.comments;
      }
      else content

  module _ (unmarshal : Bytes → Result Feed) where
    unfoldable pub read_response :
        Result (HttpResponse (Unit {0})) → Eff W (Result (List (Content F)))
    unfolding to_domain score_all
    read_response resp = on_ok "fetching from provider_b" resp λ r.
        on_ok "parsing provider_b XML" (unmarshal r.body) λ feed. do
          contents ← score_all b.now (map (λ item. to_domain item name) feed.items.items)
          pure (ok contents)

    unfoldable pub fetch : Eff W (Result (List (Content F)))
    unfolding read_response request
    fetch = do resp ← b.execute (request b name endpoint); read_response resp

    unfoldable pub as_provider : Provider F W
    unfolding fetch health_check
    as_provider = record { name = name; fetch = fetch; health_check = health_check b }
