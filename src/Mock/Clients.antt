-- ===== src/Mock/Clients.antt =====
-- internal/infra/provider against mock: each client over the server that stands in for its provider.
use mathlib.Core.List.{append-nil}
use search_engine_service.Base.{
  ℕ, Option, some, ◌≡◌, refl, ap, ◌∙◌, String, List, map, subst, arith,
}
use search_engine_service.Base.Float.{Float}
use search_engine_service.Base.Effects.{Result, ok, Eff}
use search_engine_service.Domain.Content.{Content, Time}
use search_engine_service.Domain.Ports.{Bytes, Provider}
use search_engine_service.Infra.Provider.{
  Backend, HttpResponse, request, check_status, health_check, health_status, score_all,
}
use search_engine_service.Infra.Provider.Fetching.{AllScored, score_all-AllScored}
use search_engine_service.Infra.Provider.ProviderA
use search_engine_service.Infra.Provider.ProviderB
use search_engine_service.Mock.ServerA
use search_engine_service.Mock.ServerB
use search_engine_service.Mock.Recording.{Call, machine, status_of, header_of, body_of, get}

-- What Resty makes of a response where the request sets a result: of the status, of the content type
-- that the server sets, if it does, and of the body.
abbrev pub Decoder : Type 0 → Type 0
Decoder A = ℕ → Option String → Bytes → A

-- A network that brings the requests of a client to a server and its responses back, decoded, and a
-- circuit breaker that is closed: it returns what the call returns in some world.
pub record Reaches {W A : Type 0} (serve : Time → String → List Call) (decode : Decoder A)
    (b : Backend W A) : Type 0 where
  pub gets :
      (url : String) (w : W)
      → (t : Time) × ((b.get url w).0
          ≡ ok (record {
            status_code = status_of (serve t url);
            result =
                decode
                  (status_of (serve t url))
                  (header_of "Content-Type" (serve t url))
                  (body_of (serve t url));
            body = body_of (serve t url);
          }))
  pub closed :
      (m : Eff W (Result (HttpResponse A))) (w : W) → (v : W) × ((b.execute m w).0 ≡ (m v).0)

abbrev pub serve_a : Bytes → Time → String → List Call
serve_a file t = get (ServerA.routes (machine t) file)

abbrev pub serve_b : Bytes → Time → String → List Call
serve_b file t = get (ServerB.routes (machine t) file)

-- A response with status 200.
abbrev IsGood : List Call → String → Bytes → Type 0
IsGood calls content_type file =
    (status_of calls ≡ 200)
    × (header_of "Content-Type" calls ≡ some content_type)
    × (body_of calls ≡ file)

served_a :
    (file : Bytes) (t : Time)
    → IsGood (serve_a file t ProviderA.endpoint) "application/json" file
      × (status_of (serve_a file t "/health") ≡ 200)
unfolding get ServerA.contents ServerA.health
served_a file t = ((refl, refl, append-nil file), refl)

served_b :
    (file : Bytes) (t : Time)
    → IsGood (serve_b file t ProviderB.endpoint) "application/xml; charset=utf-8" file
      × (status_of (serve_b file t "/health") ≡ 200)
unfolding get ServerB.contents ServerB.health
served_b file t = ((refl, refl, append-nil file), refl)

check_status-good :
    {A : Type 0} (name : String) (r : HttpResponse A)
    → r.status_code ≡ 200
    → check_status name (ok r) ≡ ok r
unfolding check_status
check_status-good name r good = ground arith

health_status-good :
    {A : Type 0} (r : HttpResponse A) → r.status_code ≡ 200 → health_status (ok r) ≡ ok tt
unfolding health_status
health_status-good r good = ground arith

module _ {W A : Type 0} (serve : Time → String → List Call) (decode : Decoder A) (b : Backend W A)
    (h : Reaches serve decode b) where
  -- A response of the server with a status that is no error reaches the client whole.
  abbrev pub Delivered : String → String → W → String → Bytes → Type 0
  Delivered name url w content_type file =
      (r : HttpResponse A) × ((b.execute (request b name url) w).0 ≡ ok r)
      × (r.result ≡ decode 200 (some content_type) file)
      × (r.body ≡ file)

  pub requested :
      (name url : String) (w : W) (content_type : String) (file : Bytes)
      → ((t : Time) → IsGood (serve t url) content_type file)
      → Delivered name url w content_type file
  unfolding request
  requested name url w content_type file good =
      let (v, run) = h.closed (request b name url) w in
      let (t, got) = h.gets url v in
      let (status, type, body) = good t in
      (
        _,
        run ∙ ap (check_status name) got ∙ check_status-good name _ status,
        rw (status, type, body) refl,
        body,
      )

  pub healthy :
      (w : W)
      → ((t : Time) → status_of (serve t "/health") ≡ 200)
      → health_status (b.get "/health" w).0 ≡ ok tt
  healthy w good =
      let (t, got) = h.gets "/health" w in ap health_status got ∙ health_status-good _ (good t)

module _ {F W : Type 0} ⦃f : Float F⦄ where
  -- A fetch succeeds with these contents, each with its score.
  abbrev Fetches : Eff W (Result (List (Content F))) → List (Content F) → W → Type 0
  Fetches fetch unscored w = (cs : List (Content F)) × ((fetch w).0 ≡ ok cs) × AllScored unscored cs

  fetch_a-mock :
      (file : Bytes) (decode : Decoder ProviderA.Response) (json : Bytes → ProviderA.Response)
      (b : Backend W ProviderA.Response) (w : W)
      → decode 200 (some "application/json") file ≡ json file
      → Reaches (serve_a file) decode b
      → Fetches
          (ProviderA.fetch b)
          (map (λ item. ProviderA.to_domain b item ProviderA.name) (json file).contents)
          w
  unfolding ProviderA.fetch ProviderA.read_response
  fetch_a-mock file decode json b w reads h =
      let (r, got, same, _) =
        requested (serve_a file) decode b h ProviderA.name ProviderA.endpoint w "application/json"
          file (λ t. (served_a file t).0) in
      let v = (b.execute (request b ProviderA.name ProviderA.endpoint) w).1 in
      let unscored = λ (x : ProviderA.Response).
        map (λ item. ProviderA.to_domain {F = F} b item ProviderA.name) x.contents in
      (
        (score_all b.now (unscored r.result) v).0,
        ap (λ resp. (ProviderA.read_response {F = F} b resp v).0) got,
        subst (λ x. AllScored (unscored x) (score_all b.now (unscored r.result) v).0) (same ∙ reads)
            (score_all-AllScored b.now (unscored r.result) v),
      )

  fetch_b-mock :
      (file : Bytes) (unmarshal : Bytes → Result ProviderB.Feed) (feed : ProviderB.Feed)
      (b : Backend W (Unit {0})) (w : W)
      → Reaches (serve_b file) (λ n c bytes. tt) b
      → unmarshal file ≡ ok feed
      → Fetches
          (ProviderB.fetch b unmarshal)
          (map (λ item. ProviderB.to_domain b item ProviderB.name) feed.items.items)
          w
  unfolding ProviderB.fetch ProviderB.read_response
  fetch_b-mock file unmarshal feed b w h decoded =
      let (r, got, _, same) =
        requested (serve_b file) (λ n c bytes. tt) b h ProviderB.name ProviderB.endpoint w
          "application/xml; charset=utf-8" file (λ t. (served_b file t).0) in
      let v = (b.execute (request b ProviderB.name ProviderB.endpoint) w).1 in
      let unscored =
        map (λ item. ProviderB.to_domain {F = F} b item ProviderB.name) feed.items.items in
      let found : unmarshal r.body ≡ ok feed = ap unmarshal same ∙ decoded in
      (
        (score_all b.now unscored v).0,
        ap (λ resp. (ProviderB.read_response {F = F} b unmarshal resp v).0) got ∙ rw found,
        score_all-AllScored b.now unscored v,
      )

  -- A provider that answers: its fetch succeeds with these contents, each with its score, and its
  -- health check succeeds.
  abbrev pub IsServed : Provider F W → List (Content F) → W → Type 0
  IsServed p unscored w = Fetches p.fetch unscored w × ((p.health_check w).0 ≡ ok tt)

  -- Where a network reaches the two servers, the circuit breakers are closed, and the HTTP client
  -- decodes a body of status 200 whose content type is that of JSON: the paths that the clients ask
  -- for are paths that the servers serve, with the content type that client A needs. A fetch of either client succeeds, with all
  -- the items of the file that its server embeds, in their order, converted under the name of the
  -- provider and each with its calculated score, if the file of provider B is a feed, and a health
  -- check of either client succeeds.
  pub as_provider-IsServed :
      (file_a : Bytes) (decode : Decoder ProviderA.Response) (json : Bytes → ProviderA.Response)
      (a : Backend W ProviderA.Response) (file_b : Bytes)
      (unmarshal : Bytes → Result ProviderB.Feed) (feed : ProviderB.Feed) (b : Backend W (Unit {0}))
      (w : W)
      → ((bytes : Bytes) → decode 200 (some "application/json") bytes ≡ json bytes)
      → Reaches (serve_a file_a) decode a
      → Reaches (serve_b file_b) (λ n c bytes. tt) b
      → unmarshal file_b ≡ ok feed
      → IsServed
          (ProviderA.as_provider a)
          (map (λ item. ProviderA.to_domain a item ProviderA.name) (json file_a).contents)
          w
        × IsServed
            (ProviderB.as_provider b unmarshal)
            (map (λ item. ProviderB.to_domain b item ProviderB.name) feed.items.items)
            w
  unfolding ProviderA.as_provider ProviderB.as_provider health_check ProviderB.health_check
  as_provider-IsServed file_a decode json a file_b unmarshal feed b w reads ha hb decoded = (
    (
      fetch_a-mock file_a decode json a w (reads file_a) ha,
      healthy (serve_a file_a) decode a ha w (λ t. (served_a file_a t).1),
    ),
    (
      fetch_b-mock file_b unmarshal feed b w hb decoded,
      healthy (serve_b file_b) (λ n c bytes. tt) b hb w (λ t. (served_b file_b t).1),
    ),
  )
