-- ===== src/App.antt =====
-- cmd/api/main.go. What is not of this repository is the parameter `Platform`.
pub mod Boot
pub mod Assembled
pub mod Contract
pub mod Answering
pub mod Syncing
pub mod Quiet
pub mod Cooldown
pub mod Exclusion
use search_engine_service.Base.{ℕ, ◌*◌, String, ◌<>◌, List, Option, none, some, Bool, if◌then◌else◌}
use search_engine_service.Base.Int.{ℤ, pos}
use search_engine_service.Base.Decimal.{format_ℤ}
use search_engine_service.Base.Float.{Float}
use search_engine_service.Base.Effects.{Error, error_text, Result, ok, err, Eff, pure, ◌>>=◌}
use search_engine_service.Domain.Content.{Time, Duration}
use search_engine_service.Domain.Ports.{ContentRepository, Cache}
use search_engine_service.Config.{Config, Viper, load}
use search_engine_service.Logger
use search_engine_service.Logger.Building
use search_engine_service.Logger.Building.{Surroundings}
use search_engine_service.Infra.Postgres.{Gorm}
use search_engine_service.Infra.Postgres.Repository.{as_repository}
use search_engine_service.Infra.Postgres.Connection
use search_engine_service.Infra.Postgres.Connection.{Driver, new_connection}
use search_engine_service.Infra.Postgres.Migrations.{Gormigrate, run}
use search_engine_service.Infra.Provider.Registry.{Network, new_providers}
use search_engine_service.Infra.Redis.{RedisClient, new_cache, as_cache}
use search_engine_service.Service.Search.{SearchService, new_search_service}
use search_engine_service.Service.Sync.{SyncService, new_sync_service, sync_all}
use search_engine_service.Job.{SyncScheduler, new_sync_scheduler}
use search_engine_service.Locker.{Redsync, RedisLocker, as_locker}
use search_engine_service.Transport.Dto.{SearchRequest}
use search_engine_service.Transport.Router.{Server, ServerConfig, new_server}
use search_engine_service.Validator.{Validate, validate, as_result}

-- `redis.Options`.
pub record RedisOptions : Type 0 where
  pub addr : String
  pub password : String
  pub db : ℤ

-- `D` is a database of GORM, `P` its pool, `C` a Redis client, `V` an object of Viper, `H` a file
-- and `X` what is behind a field of a log line.
pub record Platform (F W V H X D P C : Type 0) : Type 0 where
  pub viper : Viper F W V
  pub surroundings : Surroundings F W H
  pub driver : Driver W D P
  pub gorm : D → Gorm F W
  pub gormigrate : D → Gormigrate W
  pub network : Network W
  pub new_redis : RedisOptions → C
  pub ping_redis : C → Eff W (Result (Unit {0}))
  pub redis : C → RedisClient W
  pub close_redis : C → Eff W (Result (Unit {0}))
  pub flush_log : Building.Logger H X → Eff W (Result (Unit {0}))
  pub clock : Eff W Time
  pub struct : Validate SearchRequest

-- How the start ends: by a panic, by `log.Fatal`, or with a server and a scheduler that run.
pub data Booted (A : Type 0) : Type 0 where
  panics fatal : String → Booted A
  running : A → Booted A

-- What `main` has made when it starts the scheduler and the server.
pub record App (F W H X D C : Type 0) : Type 0 where
  pub config : Config F
  pub log : Building.Logger H X
  pub db : D
  pub redis : C
  pub search_svc : SearchService F W
  pub sync_svc : SyncService F W
  pub server : Server F W

module _ {F W V H X D P C : Type 0} ⦃f : Float F⦄ (p : Platform F W V H X D P C) where
  unfoldable pub logger_config : Config F → Logger.Config
  logger_config cfg = record {
    level = cfg.logger.level;
    format = cfg.logger.format;
    output = cfg.logger.output;
  }

  unfoldable pub sentry_config : Config F → Logger.SentryConfig F
  sentry_config cfg = record {
    enabled = cfg.sentry.enabled;
    dsn = cfg.sentry.dsn;
    environment = cfg.sentry.environment;
    sample_rate = cfg.sentry.sample_rate;
  }

  unfoldable pub database_config : Config F → Connection.Config
  database_config cfg = record {
    host = cfg.database.host;
    port = cfg.database.port;
    name = cfg.database.name;
    user = cfg.database.user;
    password = cfg.database.password;
    ssl_mode = cfg.database.ssl_mode;
    max_open_conns = cfg.database.max_open_conns;
    max_idle_conns = cfg.database.max_idle_conns;
    max_lifetime = cfg.database.max_lifetime;
  }

  unfoldable pub redis_options : Config F → RedisOptions
  unfolding format_ℤ
  redis_options cfg = record {
    addr = cfg.redis.host <> ":" <> format_ℤ cfg.redis.port;
    password = cfg.redis.password;
    db = cfg.redis.db;
  }

  -- The cache is optional.
  unfoldable pub cache_of : Config F → C → Option (Cache W)
  unfolding new_cache as_cache
  cache_of cfg c =
      if cfg.cache.enabled
      then some (as_cache (new_cache (p.redis c) cfg.cache.key_prefix))
      else none

  unfoldable pub server_config : Config F → ServerConfig
  server_config cfg = record {
    port = cfg.app.port;
    body_limit = pos (1024 * 1024);
    debug = cfg.app.debug;
  }

  -- The services and the server over what is connected.
  unfoldable pub assemble : Config F → Building.Logger H X → D → C → App F W H X D C
  unfolding as_repository new_providers cache_of new_search_service new_sync_service new_server
      server_config validate
  assemble cfg log db c =
      let repo = as_repository (p.gorm db) in
      let search_svc = new_search_service repo (cache_of cfg c) cfg.cache.search_ttl in
      let sync_svc = new_sync_service repo (new_providers p.network cfg.provider) p.clock in
      record {
        config = cfg;
        log = log;
        db = db;
        redis = c;
        search_svc = search_svc;
        sync_svc = sync_svc;
        server =
            new_server p.driver (server_config cfg) search_svc sync_svc (some db)
              (λ req. as_result (validate p.struct req));
      }

  unfoldable pub with_redis :
      Config F → Building.Logger H X → D → C → Result (Unit {0}) → Booted (App F W H X D C)
  unfolding assemble
  with_redis cfg log db c (err e) = fatal "failed to connect to Redis"
  with_redis cfg log db c (ok alive) = running (assemble cfg log db c)

  unfoldable pub with_tables :
      Config F → Building.Logger H X → D → Result (Unit {0}) → Eff W (Booted (App F W H X D C))
  unfolding redis_options with_redis
  with_tables cfg log db (err e) = pure (fatal "failed to run migrations")
  with_tables cfg log db (ok done) = do
    let c = p.new_redis (redis_options cfg)
    pinged ← p.ping_redis c
    pure (with_redis cfg log db c pinged)

  unfoldable pub with_database :
      Config F → Building.Logger H X → Result D → Eff W (Booted (App F W H X D C))
  unfolding run with_tables
  with_database cfg log (err e) = pure (fatal "failed to connect to database")
  with_database cfg log (ok db) = do
    migrated ← run (p.gormigrate db)
    with_tables cfg log db migrated

  unfoldable pub with_logger :
      Config F → Result (Building.Logger H X) → Eff W (Booted (App F W H X D C))
  unfolding new_connection database_config with_database
  with_logger cfg (err e) = pure (panics ("failed to initialize logger: " <> error_text e))
  with_logger cfg (ok log) = do
    opened ← new_connection p.driver (database_config cfg)
    with_database cfg log opened

  unfoldable pub with_config : Result (Config F) → Eff W (Booted (App F W H X D C))
  unfolding Building.new logger_config sentry_config with_logger
  with_config (err e) = pure (panics ("failed to load config: " <> error_text e))
  with_config (ok cfg) = do
    log ← Building.new p.surroundings (logger_config cfg) (sentry_config cfg)
    with_logger cfg log

  -- `main`, up to the start of the scheduler.
  unfoldable pub boot : Eff W (Booted (App F W H X D C))
  unfolding load with_config
  boot = do loaded ← load p.viper ""; with_config loaded

  -- `sync_all` for the scheduler, in the locker's world; `pick` is the order of its goroutines.
  unfoldable pub scheduler :
      {M : Type 0}
      → Redsync W M
      → (Duration → W → List ℕ)
      → App F W H X D C
      → SyncScheduler (RedisLocker W M)
  unfolding new_sync_scheduler as_locker sync_all
  scheduler rs pick a =
      new_sync_scheduler
        (λ timeout l.
          let (results, w) = sync_all a.sync_svc (pick timeout l.world) l.world in
          (results, record l { world = w }))
        (record {
          interval = a.config.sync.interval;
          timeout = a.config.sync.timeout;
          on_startup = a.config.sync.on_startup;
        })
        (as_locker rs)

  -- The end of `main`, by what `Start` of the server returns: the deferred calls, or `log.Fatal`,
  -- which makes none of them.
  unfoldable pub close_down : App F W H X D C → Option Error → Eff W (Option String)
  unfolding Building.sync Connection.close
  close_down a (some e) = pure (some "server error")
  close_down a none = do
    _ ← p.close_redis a.redis
    _ ← Connection.close p.driver a.db
    _ ← Building.sync p.surroundings p.flush_log a.log
    pure none

-- What the goroutine does on a signal: `Stop` of the scheduler, then `ShutdownWithContext`.
unfoldable pub on_signal :
    {W : Type 0} → Eff W (Unit {0}) → (Duration → Eff W (Option Error)) → Eff W (Option Error)
on_signal stop shutdown = do _ ← stop; shutdown (pos 10_000_000_000)
