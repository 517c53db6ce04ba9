-- ===== src/Infra/Postgres/Models.antt =====
-- internal/infra/postgres/models.go.
use search_engine_service.Base.{String, List, map}
use search_engine_service.Base.Int.{ℤ, pos}
use search_engine_service.Base.Float.{Float}
use search_engine_service.Domain.Content.{Content, Time}

pub record ContentModel (F : Type 0) : Type 0 where
  pub id : String
  pub provider_id : String
  pub external_id : String
  pub title : String
  pub type : String
  pub tags : List String
  pub views : ℤ
  pub likes : ℤ
  pub duration : String
  pub reading_time : ℤ
  pub reactions : ℤ
  pub comments : ℤ
  pub score : F
  pub log_score_cached : F
  pub published_at : Time
  pub created_at : Time
  pub updated_at : Time

unfoldable pub table_name : String
table_name = "contents"

unfoldable pub to_domain : {F : Type 0} → ContentModel F → Content F
to_domain m = record {
  id = m.id;
  provider_id = m.provider_id;
  external_id = m.external_id;
  title = m.title;
  type = m.type;
  tags = m.tags;
  views = m.views;
  likes = m.likes;
  duration = m.duration;
  reading_time = m.reading_time;
  reactions = m.reactions;
  comments = m.comments;
  score = m.score;
  published_at = m.published_at;
  created_at = m.created_at;
  updated_at = m.updated_at;
}

module _ {F : Type 0} ⦃f : Float F⦄ where
  -- The cached score is left at the zero value.
  unfoldable pub from_domain : Content F → ContentModel F
  from_domain c = record {
    id = c.id;
    provider_id = c.provider_id;
    external_id = c.external_id;
    title = c.title;
    type = c.type;
    tags = c.tags;
    views = c.views;
    likes = c.likes;
    duration = c.duration;
    reading_time = c.reading_time;
    reactions = c.reactions;
    comments = c.comments;
    score = c.score;
    log_score_cached = f.of_int (pos 0);
    published_at = c.published_at;
    created_at = c.created_at;
    updated_at = c.updated_at;
  }

  unfoldable pub from_domain_slice : List (Content F) → List (ContentModel F)
  unfolding from_domain
  from_domain_slice contents = map from_domain contents
