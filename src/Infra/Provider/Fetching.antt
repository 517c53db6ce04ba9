-- ===== src/Infra/Provider/Fetching.antt =====
-- internal/infra/provider: what a fetch of either client returns.
use search_engine_service.Base.{
  ◌≡◌, ◌≤◌, refl, String, List, [], ◌∷◌, map, Empty, arith, some, subst,
}
use search_engine_service.Base.Float.{Float}
use search_engine_service.Base.Effects.{Result, ok, err, Eff, on_ok}
use search_engine_service.Domain.Content.{Content, Time}
use search_engine_service.Domain.Scoring.{calculate_score}
use search_engine_service.Domain.Ports.{Bytes}
use search_engine_service.Infra.Provider.{Backend, HttpResponse, check_status, request, score_all}
use search_engine_service.Infra.Provider.ProviderA
use search_engine_service.Infra.Provider.ProviderB

-- What gobreaker documents: a success that `Execute` returns is one of the request that it was given.
abbrev pub IsBreaker : {W A : Type 0} → Backend W A → Type 0
IsBreaker {W} {A} b =
    (m : Eff W (Result (HttpResponse A))) (w : W) (r : HttpResponse A)
    → (b.execute m w).0 ≡ ok r
    → (v : W) × ((m v).0 ≡ ok r)

-- A response of the endpoint with a status that is no error.
abbrev pub IsGoodResponse : {W A : Type 0} → Backend W A → String → HttpResponse A → Type 0
IsGoodResponse {W} b endpoint r = (v : W) × ((b.get endpoint v).0 ≡ ok r) × (r.status_code ≤ 399)

-- The same contents in the same order, each with its score at some time.
abbrev pub AllScored : {F : Type 0} ⦃f : Float F⦄ → List (Content F) → List (Content F) → Type 0
AllScored [] [] = Unit
AllScored [] (c' ∷ cs') = Empty
AllScored (c ∷ cs) [] = Empty
AllScored (c ∷ cs) (c' ∷ cs') =
    ((t : Time) × (c' ≡ record c { score = calculate_score t (some c) })) × AllScored cs cs'

check_status-ok :
    {A : Type 0} (name : String) (out : Result (HttpResponse A)) (r : HttpResponse A)
    → check_status name out ≡ ok r
    → (out ≡ ok r) × (r.status_code ≤ 399)
unfolding check_status
check_status-ok name (ok x) r e = ground arith
check_status-ok name (err x) r e = cc

module _ {W A : Type 0} (b : Backend W A) (breaker : IsBreaker b) where
  request-IsGoodResponse :
      (name endpoint : String) (w : W) (r : HttpResponse A)
      → (b.execute (request b name endpoint) w).0 ≡ ok r
      → IsGoodResponse b endpoint r
  unfolding request
  request-IsGoodResponse name endpoint w r e =
      let (v, ran) = breaker (request b name endpoint) w r e in
      let (got, good) = check_status-ok name (b.get endpoint v).0 r ran in (v, got, good)

module _ {F W : Type 0} ⦃f : Float F⦄ where
  pub score_all-AllScored :
      (now : Eff W Time) (cs : List (Content F)) (w : W) → AllScored cs (score_all now cs w).0
  unfolding score_all
  score_all-AllScored now [] w = tt
  score_all-AllScored now (c ∷ cs) w = (((now w).0, refl), score_all-AllScored now cs (now w).1)

  pub read_a :
      (b : Backend W ProviderA.Response) (resp : Result (HttpResponse ProviderA.Response)) (w : W)
      (cs : List (Content F))
      → (ProviderA.read_response b resp w).0 ≡ ok cs
      → (r : HttpResponse ProviderA.Response) × (resp ≡ ok r)
        × AllScored (map (λ item. ProviderA.to_domain b item ProviderA.name) r.result.contents) cs
  unfolding ProviderA.read_response
  read_a b (ok r) w cs e =
      let same : (score_all b.now
            (map (λ item. ProviderA.to_domain b item ProviderA.name) r.result.contents) w).0
          ≡ cs =
        ground arith in
      (r, refl, subst (AllScored _) same (score_all-AllScored b.now _ w))
  read_a b (err x) w cs e = cc

  -- A fetch of provider A that succeeds returns the items of a response of its endpoint whose status
  -- is no error: all of them, in their order, converted under the name of the provider, each with
  -- its calculated score.
  pub fetch_a_lem :
      (b : Backend W ProviderA.Response) (w : W) (cs : List (Content F))
      → IsBreaker b
      → (ProviderA.fetch b w).0 ≡ ok cs
      → (r : HttpResponse ProviderA.Response) × IsGoodResponse b ProviderA.endpoint r
        × AllScored (map (λ item. ProviderA.to_domain b item ProviderA.name) r.result.contents) cs
  unfolding ProviderA.fetch
  fetch_a_lem b w cs breaker e =
      let (r, got, scored) = read_a b _ _ cs e in
      (r, request-IsGoodResponse b breaker ProviderA.name ProviderA.endpoint w r got, scored)

  module _ (b : Backend W (Unit {0})) (unmarshal : Bytes → Result ProviderB.Feed) where
    abbrev pub converted : ProviderB.Feed → List (Content F)
    converted feed = map (λ item. ProviderB.to_domain b item ProviderB.name) feed.items.items

    read_feed :
        (decoded : Result ProviderB.Feed) (w : W) (cs : List (Content F))
        → (on_ok "parsing provider_b XML" decoded
            (λ feed v.
              (ok (score_all b.now (converted feed) v).0, (score_all b.now (converted feed) v).1))
            w).0
          ≡ ok cs
        → (feed : ProviderB.Feed) × (decoded ≡ ok feed) × AllScored (converted feed) cs
    read_feed (ok feed) w cs e =
        let same : (score_all b.now (converted feed) w).0 ≡ cs = ground arith in
        (feed, refl, subst (AllScored _) same (score_all-AllScored b.now _ w))
    read_feed (err x) w cs e = cc

    pub read_b :
        (resp : Result (HttpResponse (Unit {0}))) (w : W) (cs : List (Content F))
        → (ProviderB.read_response b unmarshal resp w).0 ≡ ok cs
        → (r : HttpResponse (Unit {0})) × (feed : ProviderB.Feed) × (resp ≡ ok r)
          × (unmarshal r.body ≡ ok feed)
          × AllScored (converted feed) cs
    unfolding ProviderB.read_response
    read_b (ok r) w cs e =
        let (feed, decoded, scored) = read_feed (unmarshal r.body) w cs e in
        (r, feed, refl, decoded, scored)
    read_b (err x) w cs e = cc

    -- A fetch of provider B that succeeds returns the items of the feed that the body of a response
    -- decodes to, whose status is no error: all of them, in their order, converted under the name of
    -- the provider, each with its calculated score.
    pub fetch_b_lem :
        (w : W) (cs : List (Content F))
        → IsBreaker b
        → (ProviderB.fetch b unmarshal w).0 ≡ ok cs
        → (r : HttpResponse (Unit {0})) × (feed : ProviderB.Feed) × IsGoodResponse b
            ProviderB.endpoint r
          × (unmarshal r.body ≡ ok feed)
          × AllScored (converted feed) cs
    unfolding ProviderB.fetch
    fetch_b_lem w cs breaker e =
        let (r, feed, got, decoded, scored) = read_b _ _ cs e in
        (
          r,
          feed,
          request-IsGoodResponse b breaker ProviderB.name ProviderB.endpoint w r got,
          decoded,
          scored,
        )
