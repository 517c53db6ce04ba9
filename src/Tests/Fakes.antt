-- ===== src/Tests/Fakes.antt =====
-- Values that the tests share: whole numbers for the floating-point ones, and some contents.
use search_engine_service.Base.{String, []}
use search_engine_service.Base.Int.{ℤ, pos, ◌+ℤ◌, ◌*ℤ◌, ltb_ℤ, leb_ℤ, quot64}
use search_engine_service.Base.Float.{Float}
use search_engine_service.Domain.Content.{Content}
use search_engine_service.Domain.Search.{SearchParams}

instance abbrev pub toy : Float ℤ
toy = record {
  of_int = λ z. z;
  decimal = λ m k. pos m;
  add = λ a b. a +ℤ b;
  mul = λ a b. a *ℤ b;
  div = λ a b. quot64 a b;
  lt = ltb_ℤ;
  le = leb_ℤ;
  to_int = λ z. z;
}

abbrev pub content_of : String → String → Content ℤ
content_of title type = record {
  id = "";
  provider_id = "provider_a";
  external_id = title;
  title = title;
  type = type;
  tags = [];
  views = pos 2000;
  likes = pos 300;
  duration = "10:00";
  reading_time = pos 0;
  reactions = pos 0;
  comments = pos 0;
  score = pos 1;
  published_at = pos 0;
  created_at = pos 0;
  updated_at = pos 0;
}

-- The second page of one video each, for a query with colons in it.
abbrev pub asked : SearchParams
asked = record {
  query = "go: a:b";
  type = "video";
  sort_by = "relevance";
  sort_order = "asc";
  page = pos 2;
  page_size = pos 1;
}

-- Parameters that `Validate` changes in every field that it corrects.
abbrev pub raw : SearchParams
raw = record {
  query = "go";
  type = "";
  sort_by = "";
  sort_order = "";
  page = pos 0;
  page_size = pos 500;
}
