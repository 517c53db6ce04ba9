-- ===== src/App/Answering.antt =====
-- cmd/api/main.go with all that it puts together: what the API answers to a search.
use search_engine_service.Base.{◌≡◌, refl, String, [], ◌∷◌, Option, some}
use search_engine_service.Base.Float.{Float}
use search_engine_service.Base.Effects.{Eff}
use search_engine_service.Config.{Config}
use search_engine_service.Domain.Search.{SearchResult}
use search_engine_service.Domain.Ports.{Bytes}
use search_engine_service.Logger.Building
use search_engine_service.Infra.Postgres.{Condition}
use search_engine_service.Infra.Postgres.Models.{ContentModel}
use search_engine_service.Service.Search.{Json}
use search_engine_service.Service.Search.Answers.{IsSound}
use search_engine_service.Transport.Dto.{Printing}
use search_engine_service.Transport.Handler.Soundness.{ShowsRequest, search-Shows}
use search_engine_service.Transport.Handler
use search_engine_service.Transport.Handler.{Answer}
use search_engine_service.Transport.Middleware.{
  Ended, Logged, around, log_request, recover, finish, request_entry,
}
use search_engine_service.Transport.Router.{
  Request, Fiber, Server, new_server, route, search_contents, call, handle, serve,
}
use search_engine_service.App.{Platform, running, App, redis_options, assemble, boot}
use search_engine_service.App.Assembled.{boot_ind}
use search_engine_service.App.Contract.{
  PlatformContract, IsAnswer, InCache, as_repository-RepositoryContract, cache_of-CacheContract?,
  struct-none,
}

-- A request that is routed to the search, and that other middleware only passes on.
serve-search_contents :
    {F W : Type 0} (print : Printing) (codec : Json (SearchResult F)) (fiber : Fiber F W)
    (server : Server F W) (req : Request) (param : String) (w : W)
    → fiber.find server.routes req ≡ route search_contents param
    → ((handler : Eff W (Ended F)) → fiber.middleware req handler ≡ handler)
    → let (a, v) = Handler.search print codec server.search_svc server.validator req.parsed w in
      serve print codec fiber server req w ≡ ((some a, request_entry a.status ∷ []), v)
unfolding serve handle call around log_request recover finish
serve-search_contents print codec fiber server req param w routed passes =
    rw (passes _, routed) refl

module _ {F W V H X D P C : Type 0} ⦃f : Float F⦄ (Satisfies : Condition → ContentModel F → Type 0)
    (Held : W → String → Bytes → Type 0) (codec : Json (SearchResult F))
    (p : Platform F W V H X D P C) (h : PlatformContract Satisfies Held codec p) (print : Printing)
    (fiber : Fiber F W) where
  -- The answer that the server gives shows a page of the request's parameters or has an error
  -- status, and the cache is sound afterwards.
  abbrev pub AnswersSearch : App F W H X D C → Request → Logged (Option (Answer F)) × W → Type 0
  AnswersSearch a req out =
      ((answer : Answer F) × (out.0.0 ≡ some answer)
        × ShowsRequest print (InCache Held p a.config a.redis) IsAnswer codec h.faithful
            a.search_svc req.parsed answer)
      × IsSound (InCache Held p a.config a.redis) IsAnswer codec out.1

  assemble-AnswersSearch :
      (cfg : Config F) (log : Building.Logger H X) (db : D) (c : C) (req : Request) (param : String)
      (w : W)
      → let a = assemble p cfg log db c in
        fiber.find a.server.routes req ≡ route search_contents param
        → ((handler : Eff W (Ended F)) → fiber.middleware req handler ≡ handler)
        → IsSound (InCache Held p cfg c) IsAnswer codec w
        → AnswersSearch a req (serve print codec fiber a.server req w)
  unfolding assemble new_server
  assemble-AnswersSearch cfg log db c req param w routed passes sound =
      let a = assemble p cfg log db c in
      let (shown, sound') =
        search-Shows print (InCache Held p cfg c) IsAnswer codec h.faithful a.search_svc
          (cache_of-CacheContract? Satisfies Held codec p h cfg c)
          (as_repository-RepositoryContract Satisfies Held codec p h cfg db c) a.server.validator
          req.parsed w (λ r passed. h.strict r (struct-none Satisfies Held codec p h r passed))
          sound in
      rw (serve-search_contents print codec fiber a.server req param w routed passes)
        ((_, refl, shown), sound')

  -- Over a database, a Redis, a validator and an encoder that keep what they document, and for
  -- an application that the start has brought up: in every world in which the cache is sound, a
  -- request that is routed to the search, and that the middleware of other packages only passes
  -- on, gets an answer; it shows a page of the request's parameters or has an error status, and
  -- the cache is sound afterwards.
  pub boot-AnswersSearch :
      (w : W) (a : App F W H X D C) (req : Request) (param : String) (v : W)
      → (boot p w).0 ≡ running a
      → fiber.find a.server.routes req ≡ route search_contents param
      → ((handler : Eff W (Ended F)) → fiber.middleware req handler ≡ handler)
      → IsSound (InCache Held p a.config a.redis) IsAnswer codec v
      → AnswersSearch a req (serve print codec fiber a.server req v)
  unfolding assemble
  boot-AnswersSearch w a req param v up =
      boot_ind p
        (λ b.
          fiber.find b.server.routes req ≡ route search_contents param
          → ((handler : Eff W (Ended F)) → fiber.middleware req handler ≡ handler)
          → IsSound (InCache Held p b.config b.redis) IsAnswer codec v
          → AnswersSearch b req (serve print codec fiber b.server req v))
        a
        (λ cfg log db.
          assemble-AnswersSearch cfg log db (p.new_redis (redis_options p cfg)) req param v)
        w up
