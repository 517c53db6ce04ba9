-- ===== src/Infra/Provider/Frames.antt =====
-- internal/infra/provider: what the network and the clock keep to, a fetch keeps to.
use search_engine_service.Base.{String, List, [], ◌∷◌, map}
use search_engine_service.Base.Float.{Float}
use search_engine_service.Base.Effects.{Result, Eff}
use search_engine_service.Base.Frames.{IsFrame, Moves, Moves-bind, Moves-on_ok}
use search_engine_service.Domain.Content.{Content, Time}
use search_engine_service.Domain.Ports.{Bytes}
use search_engine_service.Infra.Provider.{Backend, HttpResponse, request, score_all}
use search_engine_service.Infra.Provider.ProviderA
use search_engine_service.Infra.Provider.ProviderB

module _ {W : Type 0} (R : W → W → Type 0) where
  -- A circuit breaker does what it is given to do, or nothing.
  pub record BackendMoves {A : Type 0} (b : Backend W A) : Type 0 where
    pub get_moves : (url : String) → Moves R (b.get url)
    pub execute_moves : (m : Eff W (Result (HttpResponse A))) → Moves R m → Moves R (b.execute m)
    pub now_moves : Moves R b.now

  module _ (frame : IsFrame R) where
    request-Moves :
        {A : Type 0} (b : Backend W A) (name endpoint : String)
        → BackendMoves b
        → Moves R (request b name endpoint)
    unfolding request
    request-Moves b name endpoint h w = h.get_moves endpoint w

    module _ (F : Type 0) ⦃f : Float F⦄ where
      score_all-Moves :
          (now : Eff W Time) (cs : List (Content F)) → Moves R now → Moves R (score_all now cs)
      unfolding score_all
      score_all-Moves now [] idle w = frame.idle w
      score_all-Moves now (c ∷ cs) idle w =
          frame.joins w _ _ (idle w) (score_all-Moves now cs idle (now w).1)

      pub fetch_a-Moves :
          (b : Backend W ProviderA.Response)
          → BackendMoves b
          → Moves R (ProviderA.as_provider {F = F} b).fetch
      unfolding ProviderA.as_provider ProviderA.fetch ProviderA.read_response
      fetch_a-Moves b h =
          let ask = request b ProviderA.name ProviderA.endpoint in
          Moves-bind R frame (b.execute ask) (ProviderA.read_response b)
            (h.execute_moves ask (request-Moves b ProviderA.name ProviderA.endpoint h))
            (λ resp. Moves-on_ok R frame "fetching from provider_a" resp _ (λ r.
              score_all-Moves b.now
                (map (λ item. ProviderA.to_domain b item ProviderA.name) r.result.contents)
                h.now_moves))

      pub fetch_b-Moves :
          (b : Backend W (Unit {0})) (unmarshal : Bytes → Result ProviderB.Feed)
          → BackendMoves b
          → Moves R (ProviderB.as_provider {F = F} b unmarshal).fetch
      unfolding ProviderB.as_provider ProviderB.fetch ProviderB.read_response
      fetch_b-Moves b unmarshal h =
          let ask = request b ProviderB.name ProviderB.endpoint in
          Moves-bind R frame (b.execute ask) (ProviderB.read_response b unmarshal)
            (h.execute_moves ask (request-Moves b ProviderB.name ProviderB.endpoint h))
            (λ resp. Moves-on_ok R frame "fetching from provider_b" resp _ (λ r.
              Moves-on_ok R frame "parsing provider_b XML" (unmarshal r.body) _ (λ feed.
                score_all-Moves b.now
                  (map (λ item. ProviderB.to_domain b item ProviderB.name) feed.items.items)
                  h.now_moves)))
