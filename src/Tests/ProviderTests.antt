-- ===== src/Tests/ProviderTests.antt =====
-- internal/infra/provider over a network with one answer.
use search_engine_service.Base.{ℕ, suc, ◌≡◌, refl, List, [], ◌∷◌, map}
use search_engine_service.Base.Int.{ℤ, pos}
use search_engine_service.Base.Effects.{plain, Result, ok, err}
use search_engine_service.Domain.Content.{Content}
use search_engine_service.Domain.Ports.{Bytes}
use search_engine_service.Infra.Provider.{Backend, HttpResponse}
use search_engine_service.Infra.Provider.Fetching.{
  IsBreaker, IsGoodResponse, AllScored, converted, fetch_a_lem, fetch_b_lem,
}
use search_engine_service.Infra.Provider.ProviderA
use search_engine_service.Infra.Provider.ProviderB
use search_engine_service.Tests.Fakes.{toy}

-- Every request gets the one answer, and takes one unit of time.
abbrev network : {A : Type 0} → HttpResponse A → Backend ℕ A
network r = record {
  get = λ path w. (ok r, suc w);
  execute = λ m. m;
  now = λ w. (pos w, w);
  parse_time = λ layout text. ok (pos 0);
}

network-IsBreaker : {A : Type 0} (r : HttpResponse A) → IsBreaker (network r)
network-IsBreaker r m w out e = (w, e)

abbrev pub item : ProviderA.ContentItem
item = record {
  id = "v1";
  title = "Go";
  type = "video";
  metrics = record { views = pos 2000; likes = pos 300; duration = "10:00" };
  published_at = "2024-01-01T00:00:00Z";
  tags = "go" ∷ [];
}

abbrev pub response : HttpResponse ProviderA.Response
response = record {
  status_code = 200;
  result = record {
    contents = item ∷ [];
    pagination = record { total = pos 1; page = pos 1; per_page = pos 10 };
  };
  body = [];
}

abbrev fetched_a : List (Content ℤ)
fetched_a = elim (ProviderA.fetch (network response) 5).0 [ ok cs ↦ cs | err e ↦ [] ]

fetch_a_example :
    (r : HttpResponse ProviderA.Response) × IsGoodResponse (network response) "/api/contents" r
    × AllScored
        (map (λ i. ProviderA.to_domain (network response) i "provider_a") r.result.contents)
        fetched_a
unfolding ProviderA.fetch
fetch_a_example = fetch_a_lem (network response) 5 fetched_a (network-IsBreaker response) refl

abbrev pub feed : ProviderB.Feed
feed = record {
  items = record {
    items =
        record {
          id = "a1";
          headline = "Types";
          type = "article";
          stats = record {
            views = pos 0;
            likes = pos 0;
            duration = "";
            reading_time = pos 8;
            reactions = pos 100;
            comments = pos 4;
          };
          publication_date = "2024-01-01";
          categories = record { category = "types" ∷ [] };
        }
        ∷ [];
  };
  meta = record { total_count = pos 1; current_page = pos 1; items_per_page = pos 10 };
}

abbrev pub feed_response : HttpResponse (Unit {0})
feed_response = record { status_code = 200; result = tt; body = 60 ∷ [] }

abbrev pub unmarshal : Bytes → Result ProviderB.Feed
unmarshal [] = err (plain "EOF")
unmarshal (b ∷ bytes) = ok feed

abbrev fetched_b : List (Content ℤ)
fetched_b = elim (ProviderB.fetch (network feed_response) unmarshal 5).0 [ ok cs ↦ cs | err e ↦ [] ]

fetch_b_example :
    (r : HttpResponse (Unit {0})) × (found : ProviderB.Feed) × IsGoodResponse
      (network feed_response)
      "/feed"
      r
    × (unmarshal r.body ≡ ok found)
    × AllScored (converted (network feed_response) unmarshal found) fetched_b
unfolding ProviderB.fetch
fetch_b_example =
    fetch_b_lem (network feed_response) unmarshal 5 fetched_b (network-IsBreaker feed_response) refl
