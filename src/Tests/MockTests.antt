-- ===== src/Tests/MockTests.antt =====
-- The clients over the servers of mock, with a network that counts the requests.
use search_engine_service.Base.{
  ℕ, suc, ◌≡◌, refl, String, List, [], ◌∷◌, map, none, some, ◌&&◌, ◌==◌, string_eq, nat_eq,
  if◌then◌else◌,
}
use search_engine_service.Base.Int.{ℤ, pos}
use search_engine_service.Base.Effects.{ok}
use search_engine_service.Domain.Content.{Time}
use search_engine_service.Domain.Ports.{Bytes}
use search_engine_service.Infra.Provider.{Backend}
use search_engine_service.Infra.Provider.ProviderA
use search_engine_service.Infra.Provider.ProviderB
use search_engine_service.Mock.Recording.{Call, header_of, status_of, body_of}
use search_engine_service.Mock.ServerA
use search_engine_service.Mock.Clients.{
  Decoder, Reaches, serve_a, serve_b, IsServed, as_provider-IsServed,
}
use search_engine_service.Tests.Fakes.{toy}
use search_engine_service.Tests.ProviderTests.{response, feed, unmarshal}

abbrev connected : {A : Type 0} → (Time → String → List Call) → Decoder A → Backend ℕ A
connected serve decode = record {
  get = λ url w. (
    ok (record {
      status_code = status_of (serve (pos w) url);
      result =
          decode (status_of (serve (pos w) url)) (header_of "Content-Type" (serve (pos w) url))
            (body_of (serve (pos w) url));
      body = body_of (serve (pos w) url);
    }),
    suc w,
  );
  execute = λ m. m;
  now = λ w. (pos w, w);
  parse_time = λ layout text. ok (pos 0);
}

connected-Reaches :
    {A : Type 0} (serve : Time → String → List Call) (decode : Decoder A)
    → Reaches serve decode (connected serve decode)
connected-Reaches serve decode = record { gets = λ url w. (pos w, refl); closed = λ m w. (w, refl) }

abbrev file : Bytes
file = 60 ∷ 62 ∷ []

abbrev json : Bytes → ProviderA.Response
json bytes = response.result

-- Nothing is decoded but a body of status 200 that is said to be JSON.
abbrev decode : Decoder ProviderA.Response
decode n none bytes = record response.result { contents = [] }
decode n (some c) bytes =
    if n == 200 && c == "application/json"
    then json bytes
    else record response.result { contents = [] }

abbrev a : Backend ℕ ProviderA.Response
a = connected (serve_a file) decode

abbrev b : Backend ℕ (Unit {0})
b = connected (serve_b file) (λ n c bytes. tt)

latency_test : ServerA.latency (pos 1_700_000_000_000_000_149) ≡ pos 99_000_000
unfolding ServerA.latency
latency_test = refl

as_provider-IsServed_example :
    IsServed {F = ℤ}
      (ProviderA.as_provider a)
      (map (λ i. ProviderA.to_domain a i "provider_a") response.result.contents)
      5
    × IsServed {F = ℤ}
        (ProviderB.as_provider b unmarshal)
        (map (λ i. ProviderB.to_domain b i "provider_b") feed.items.items)
        5
as_provider-IsServed_example =
    as_provider-IsServed {F = ℤ} file decode json a file unmarshal feed b 5 (λ bytes. refl)
      (connected-Reaches (serve_a file) decode) (connected-Reaches (serve_b file) (λ n c bytes. tt))
      refl
