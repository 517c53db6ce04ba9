-- ===== src/Domain/Content.antt =====
-- internal/domain/content.go. `ContentType` is a Go string with two named values. A `time.Time` is
-- the number of nanoseconds since the Unix epoch; the current time is an argument.
use search_engine_service.Base.{
  ◌^◌, ◌-◌, String, List, [], Bool, not, ◌||◌, ◌==◌, string_eq, if◌then◌else◌,
}
use search_engine_service.Base.Int.{ℤ, pos, negsuc, ◌-ℤ◌, ltb_ℤ, int_eq, quot64, rem64}
use search_engine_service.Base.Float.{Float}

abbrev pub ContentType : Type 0
ContentType = String

abbrev pub content_type_video : ContentType
content_type_video = "video"

abbrev pub content_type_article : ContentType
content_type_article = "article"

abbrev pub Time : Type 0
Time = ℤ

-- `time.Duration`, in nanoseconds.
abbrev pub Duration : Type 0
Duration = ℤ

pub record Content (F : Type 0) : Type 0 where
  pub id : String
  pub provider_id : String
  pub external_id : String
  pub title : String
  pub type : ContentType
  pub tags : List String
  pub views : ℤ
  pub likes : ℤ
  pub duration : String
  pub reading_time : ℤ
  pub reactions : ℤ
  pub comments : ℤ
  pub score : F
  pub published_at : Time
  pub created_at : Time
  pub updated_at : Time

-- `now.Sub(t)`: a difference outside of the range of a duration is cut to its nearest end.
unfoldable pub since : Time → Time → Duration
since now t =
    let d = now -ℤ t in
    if ltb_ℤ (pos (2 ^ 63 - 1)) d
    then pos (2 ^ 63 - 1)
    else if ltb_ℤ d (negsuc (2 ^ 63 - 1))
    then negsuc (2 ^ 63 - 1)
    else d

-- One hour, in nanoseconds.
abbrev pub hour : ℤ
hour = pos 3_600_000_000_000

module _ {F : Type 0} ⦃f : Float F⦄ where
  pub new_content : Time → String → String → String → ContentType → Content F
  new_content now provider_id external_id title type = record {
    id = "";
    provider_id = provider_id;
    external_id = external_id;
    title = title;
    type = type;
    tags = [];
    views = pos 0;
    likes = pos 0;
    duration = "";
    reading_time = pos 0;
    reactions = pos 0;
    comments = pos 0;
    score = f.of_int (pos 0);
    published_at = now;
    created_at = now;
    updated_at = now;
  }

  unfoldable pub is_video : Content F → Bool
  is_video c = c.type == content_type_video

  unfoldable pub is_article : Content F → Bool
  is_article c = c.type == content_type_article

  unfoldable pub engagement_rate : Content F → F
  unfolding is_video
  engagement_rate c =
      if not (is_video c) || c.views == pos 0
      then f.of_int (pos 0)
      else f.div (f.of_int c.likes) (f.of_int c.views)

  -- `Duration.Hours` of the standard library.
  unfoldable pub hours : Duration → F
  unfolding quot64 rem64
  hours d = f.add (f.of_int (quot64 d hour)) (f.div (f.of_int (rem64 d hour)) (f.of_int hour))

  unfoldable pub days_since_published : Time → Content F → ℤ
  unfolding since hours
  days_since_published now c =
      let days = f.div (hours (since now c.published_at)) (f.of_int (pos 24)) in
      if f.lt days (f.of_int (pos 0)) then pos 0 else f.to_int days
