-- ===== src/Infra/Provider/Owning.antt =====
-- internal/infra/provider: what the synchronisation relies on of the two clients. `Stored w c` says that
-- the store holds the content in the world `w`.
use search_engine_service.Base.{
  ◌≡◌, refl, ap, ◌∙◌, String, List, [], ◌∷◌, map, All, arith, string_eq,
}
use search_engine_service.Base.Float.{Float}
use search_engine_service.Base.Effects.{Result, ok, err, Eff, on_ok}
use search_engine_service.Domain.Content.{Content, Time}
use search_engine_service.Domain.Ports.{Bytes}
use search_engine_service.Service.Sync.Storing.{FetchContract}
use search_engine_service.Infra.Provider.{Backend, HttpResponse, request, score_all}
use search_engine_service.Infra.Provider.Fetching.{AllScored, read_a, read_b, converted}
use search_engine_service.Infra.Provider.ProviderA
use search_engine_service.Infra.Provider.ProviderB

module _ {F W : Type 0} (Stored : W → Content F → Type 0) where
  -- The store is as it was for each content, at least.
  abbrev pub Keeps : W → W → Type 0
  Keeps w w' = (c : Content F) → Stored w c → Stored w' c

  -- What a network promises: its requests, its breaker and its clock leave the store alone.
  pub record BackendContract {A : Type 0} (b : Backend W A) : Type 0 where
    pub get_keeps : (url : String) (w : W) → Keeps w (b.get url w).1
    pub execute_keeps :
        (m : Eff W (Result (HttpResponse A)))
        → ((w : W) → Keeps w (m w).1)
        → (w : W) → Keeps w (b.execute m w).1
    pub now_keeps : (w : W) → Keeps w (b.now w).1

  module _ ⦃f : Float F⦄ where
    -- The contents of a fetch carry the name that their conversion gave them.
    AllScored-own :
        (name : String) (cs cs' : List (Content F))
        → All (λ (c : Content F). c.provider_id ≡ name) cs
        → AllScored cs cs'
        → All (λ (c : Content F). c.provider_id ≡ name) cs'
    AllScored-own name [] [] own scored = tt
    AllScored-own name [] (c' ∷ cs') own scored = elim scored [ ]
    AllScored-own name (c ∷ cs) [] own scored = elim scored [ ]
    AllScored-own name (c ∷ cs) (c' ∷ cs') own ((t, e), later) =
        (ap (λ (d : Content F). d.provider_id) e ∙ own.0, AllScored-own name cs cs' own.1 later)

    score_all-Keeps :
        (now : Eff W Time)
        → ((w : W) → Keeps w (now w).1)
        → (cs : List (Content F)) (w : W) → Keeps w (score_all now cs w).1
    unfolding score_all
    score_all-Keeps now idle [] w c held = held
    score_all-Keeps now idle (d ∷ cs) w c held =
        score_all-Keeps now idle cs (now w).1 c (idle w c held)

    request-Keeps :
        {A : Type 0} (b : Backend W A) (name endpoint : String) (w : W)
        → BackendContract b
        → Keeps w (request b name endpoint w).1
    unfolding request
    request-Keeps b name endpoint w h = h.get_keeps endpoint w

    items_a-own :
        (b : Backend W ProviderA.Response) (items : List ProviderA.ContentItem)
        → All
            (λ (c : Content F). c.provider_id ≡ ProviderA.name)
            (map (λ item. ProviderA.to_domain b item ProviderA.name) items)
    unfolding ProviderA.to_domain
    items_a-own b [] = tt
    items_a-own b (item ∷ items) = (refl, items_a-own b items)

    read_a-Keeps :
        (b : Backend W ProviderA.Response) (resp : Result (HttpResponse ProviderA.Response)) (w : W)
        → BackendContract b
        → Keeps w (ProviderA.read_response {F = F} b resp w).1
    unfolding ProviderA.read_response
    read_a-Keeps b (ok r) w h =
        score_all-Keeps b.now h.now_keeps
          (map (λ item. ProviderA.to_domain b item ProviderA.name) r.result.contents) w
    read_a-Keeps b (err e) w h = λ c held. held

    -- The client of provider A.
    pub provider_a-FetchContract :
        (b : Backend W ProviderA.Response)
        → BackendContract b
        → FetchContract Stored (ProviderA.as_provider {F = F} b)
    unfolding ProviderA.as_provider ProviderA.fetch
    provider_a-FetchContract b h = record {
      own = λ w cs e.
          let (r, got, scored) = read_a b _ _ cs e in
          AllScored-own ProviderA.name _ cs (items_a-own b r.result.contents) scored;
      fetch_keeps = λ w c held.
          let ask = request b ProviderA.name ProviderA.endpoint in
          let (resp, v) = b.execute ask w in
          read_a-Keeps b resp v h c (
            h.execute_keeps ask (λ u. request-Keeps b ProviderA.name ProviderA.endpoint u h) w c
              held);
    }

    module _ (b : Backend W (Unit {0})) (unmarshal : Bytes → Result ProviderB.Feed) where
      item_b-own :
          (item : ProviderB.Item)
          → (ProviderB.to_domain {F = F} b item ProviderB.name).provider_id ≡ ProviderB.name
      unfolding ProviderB.to_domain ProviderB.base_content
      item_b-own item = ground arith

      items_b-own :
          (items : List ProviderB.Item)
          → All
              (λ (c : Content F). c.provider_id ≡ ProviderB.name)
              (map (λ item. ProviderB.to_domain b item ProviderB.name) items)
      items_b-own [] = tt
      items_b-own (item ∷ items) = (item_b-own item, items_b-own items)

      read_feed-Keeps :
          (decoded : Result ProviderB.Feed) (w : W)
          → BackendContract b
          → Keeps w
              (on_ok "parsing provider_b XML" decoded
                (λ feed v.
                  let (cs, u) = score_all {F = F} b.now (converted b unmarshal feed) v in
                  (ok cs, u))
                w).1
      read_feed-Keeps (ok feed) w h =
          score_all-Keeps b.now h.now_keeps (converted b unmarshal feed) w
      read_feed-Keeps (err e) w h = λ c held. held

      read_b-Keeps :
          (resp : Result (HttpResponse (Unit {0}))) (w : W)
          → BackendContract b
          → Keeps w (ProviderB.read_response {F = F} b unmarshal resp w).1
      unfolding ProviderB.read_response
      read_b-Keeps (ok r) w h = read_feed-Keeps (unmarshal r.body) w h
      read_b-Keeps (err e) w h = λ c held. held

      -- The client of provider B.
      pub provider_b-FetchContract :
          BackendContract b → FetchContract Stored (ProviderB.as_provider {F = F} b unmarshal)
      unfolding ProviderB.as_provider ProviderB.fetch
      provider_b-FetchContract h = record {
        own = λ w cs e.
            let (r, feed, got, decoded, scored) = read_b b unmarshal _ _ cs e in
            AllScored-own ProviderB.name _ cs (items_b-own feed.items.items) scored;
        fetch_keeps = λ w c held.
            let ask = request b ProviderB.name ProviderB.endpoint in
            let (resp, v) = b.execute ask w in
            read_b-Keeps resp v h c (
              h.execute_keeps ask (λ u. request-Keeps b ProviderB.name ProviderB.endpoint u h) w c
                held);
      }
