-- ===== src/Domain/Scoring.antt =====
-- internal/domain/scoring.go. A `*Content` that may be nil is an `Option`.
pub mod Ieee
pub mod Monotone
use search_engine_service.Base.{Option, none, some, ◌==◌, string_eq, if◌then◌else◌}
use search_engine_service.Base.Int.{ℤ, pos, leb_ℤ, int_eq}
use search_engine_service.Base.Float.{Float}
use search_engine_service.Domain.Content.{
  ContentType, content_type_video, content_type_article, Time, Content, days_since_published,
}

module _ {F : Type 0} ⦃f : Float F⦄ where
  unfoldable pub content_type_coefficient : ContentType → F
  content_type_coefficient t =
      if t == content_type_video
      then f.decimal 15 1
      else if t == content_type_article
      then f.decimal 10 1
      else f.decimal 10 1

  unfoldable pub calculate_base_score : Content F → F
  calculate_base_score c =
      if c.type == content_type_video
      then f.add (f.div (f.of_int c.views) (f.of_int (pos 1000)))
          (f.div (f.of_int c.likes) (f.of_int (pos 100)))
      else if c.type == content_type_article
      then f.add (f.of_int c.reading_time) (f.div (f.of_int c.reactions) (f.of_int (pos 50)))
      else f.of_int (pos 0)

  -- The bonus of an age in whole days.
  unfoldable pub recency_of_days : ℤ → F
  recency_of_days days =
      if leb_ℤ days (pos 7)
      then f.of_int (pos 5)
      else if leb_ℤ days (pos 30)
      then f.of_int (pos 3)
      else if leb_ℤ days (pos 90)
      then f.of_int (pos 1)
      else f.of_int (pos 0)

  unfoldable pub calculate_recency_score : Time → Content F → F
  unfolding recency_of_days
  calculate_recency_score now c = recency_of_days (days_since_published now c)

  unfoldable pub calculate_engagement_score : Content F → F
  calculate_engagement_score c =
      if c.type == content_type_video
      then if c.views == pos 0
        then f.of_int (pos 0)
        else f.mul (f.div (f.of_int c.likes) (f.of_int c.views)) (f.of_int (pos 10))
      else if c.type == content_type_article
      then if c.reading_time == pos 0
        then f.of_int (pos 0)
        else f.mul (f.div (f.of_int c.reactions) (f.of_int c.reading_time)) (f.of_int (pos 5))
      else f.of_int (pos 0)

  unfoldable pub round_to2_decimals : F → F
  round_to2_decimals value =
      f.div (f.of_int (f.to_int (f.add (f.mul value (f.of_int (pos 100))) (f.decimal 5 1))))
        (f.of_int (pos 100))

  unfoldable pub calculate_score : Time → Option (Content F) → F
  calculate_score now none = f.of_int (pos 0)
  calculate_score now (some c) =
      let base_score = calculate_base_score c in
      let type_coeff = content_type_coefficient c.type in
      let recency_score = calculate_recency_score now c in
      let engagement_score = calculate_engagement_score c in
      let final_score =
        f.add (f.add (f.mul base_score type_coeff) recency_score) engagement_score in
      round_to2_decimals final_score
