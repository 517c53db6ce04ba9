-- ===== src/Transport/Router.antt =====
-- internal/transport/httpserver/router.go. Fiber is a parameter: how it finds the route of a request,
-- and what the middleware of other packages (CORS, compression, static files) does around a handler.
use search_engine_service.Base.{ℕ, String, ◌<>◌, List, [], ◌∷◌, Option, Bool}
use search_engine_service.Base.Int.{ℤ}
use search_engine_service.Base.Decimal.{format_ℤ}
use search_engine_service.Base.Effects.{Error, Result, Eff, pure, ◌>>=◌}
use search_engine_service.Domain.Search.{SearchResult}
use search_engine_service.Infra.Postgres.Connection.{Driver}
use search_engine_service.Service.Search.{Json, SearchService}
use search_engine_service.Service.Sync.{SyncService}
use search_engine_service.Transport.Dto.{SearchRequest, Printing}
use search_engine_service.Transport.Handler
use search_engine_service.Transport.Handler.{Answer, redirect_body}
use search_engine_service.Transport.Middleware.{
  HandlerError, Ended, answered, refused, Logged, around, HealthCheckConfig, new_health_check,
}

pub record ServerConfig : Type 0 where
  pub port : ℤ
  pub body_limit : ℤ
  pub debug : Bool

pub data Endpoint : Type 0 where
  dashboard to_dashboard search_contents get_content sync_all sync_provider get_providers : Endpoint

pub record Route : Type 0 where
  pub method : String
  pub path : String
  pub endpoint : Endpoint

abbrev pub v1 : String
v1 = "/api/v1"

unfoldable pub register_routes : List Route
register_routes =
    record { method = "GET"; path = "/dashboard"; endpoint = dashboard }
    ∷ record { method = "GET"; path = "/"; endpoint = to_dashboard }
    ∷ record { method = "GET"; path = v1 <> "/contents" <> "/"; endpoint = search_contents }
    ∷ record { method = "GET"; path = v1 <> "/contents" <> "/:id"; endpoint = get_content }
    ∷ record { method = "POST"; path = v1 <> "/admin" <> "/sync"; endpoint = sync_all }
    ∷ record {
      method = "POST";
      path = v1 <> "/admin" <> "/sync/:provider";
      endpoint = sync_provider;
    }
    ∷ record { method = "GET"; path = v1 <> "/admin" <> "/providers"; endpoint = get_providers }
    ∷ []

-- A request: `parsed` is what `QueryParser` makes of it; `schedule` is the order in which the
-- goroutines of a synchronisation come to make their calls.
pub record Request : Type 0 where
  pub method : String
  pub path : String
  pub parsed : Result SearchRequest
  pub schedule : List ℕ

-- The first route of a request, with the parameter of its path, or Fiber's own error.
pub data Found : Type 0 where
  route : Endpoint → String → Found
  no_route : HandlerError → Found

pub record Fiber (F W : Type 0) : Type 0 where
  pub find : List Route → Request → Found
  pub middleware : Request → Eff W (Ended F) → Eff W (Ended F)

pub record Server (F W : Type 0) : Type 0 where
  pub search_svc : SearchService F W
  pub sync_svc : SyncService F W
  pub validator : SearchRequest → Result (Unit {0})
  pub routes : List Route
  pub app_name : String
  pub body_limit : ℤ
  pub reload : Bool
  pub health : HealthCheckConfig W

-- The probes of `health` answer before any route is looked for.
unfoldable pub new_server :
    {F W D P : Type 0}
    → Driver W D P
    → ServerConfig
    → SearchService F W
    → SyncService F W
    → Option D
    → (SearchRequest → Result (Unit {0}))
    → Server F W
unfolding register_routes new_health_check
new_server driver cfg search_svc sync_svc db validator = record {
  search_svc = search_svc;
  sync_svc = sync_svc;
  validator = validator;
  routes = register_routes;
  app_name = "search-engine-service";
  body_limit = cfg.body_limit;
  reload = cfg.debug;
  health = new_health_check driver db;
}

-- `Start`: `listen` is Fiber's, of an address.
unfoldable pub start : {W : Type 0} → (String → Eff W (Option Error)) → ℤ → Eff W (Option Error)
unfolding format_ℤ
start listen port = listen (":" <> format_ℤ port)

-- `Shutdown`: `stop` is Fiber's.
unfoldable pub shutdown : {W : Type 0} → Eff W (Option Error) → Eff W (Option Error)
shutdown stop = stop

module _ {F W : Type 0} (print : Printing) (codec : Json (SearchResult F)) (fiber : Fiber F W)
    (server : Server F W) where
  -- The handler of an endpoint; `param` is the parameter of the path.
  unfoldable pub call : Endpoint → String → Request → Eff W (Answer F)
  call dashboard param req = Handler.render_dashboard print codec server.search_svc
  call to_dashboard param req = pure (record { status = 302; body = redirect_body "/dashboard" })
  call search_contents param req =
      Handler.search print codec server.search_svc server.validator req.parsed
  call get_content param req = Handler.get_by_id print codec server.search_svc param
  call sync_all param req = Handler.sync_all print server.sync_svc req.schedule
  call sync_provider param req = Handler.sync_provider print server.sync_svc param
  call get_providers param req = Handler.get_providers print server.sync_svc

  unfoldable pub handle : Request → Found → Eff W (Ended F)
  unfolding call
  handle req (route endpoint param) = do a ← call endpoint param req; pure (answered a)
  handle req (no_route e) = pure (refused 200 e)

  -- A request that the outermost middleware (the health check, then request ids) passes on: Recover
  -- and Logger stand around the middleware of other packages and the handler.
  unfoldable pub serve : Request → Eff W (Logged (Option (Answer F)))
  unfolding handle around
  serve req = do
    ended ← fiber.middleware req (handle req (fiber.find server.routes req))
    pure (around ended)
