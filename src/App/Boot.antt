-- ===== src/App/Boot.antt =====
-- cmd/api/main.go: the ways in which the start ends.
use search_engine_service.Base.{◌≡◌, refl, ◌<>◌}
use search_engine_service.Base.Float.{Float}
use search_engine_service.Base.Effects.{Error, error_text, Result, ok, err}
use search_engine_service.Config.{Config, load}
use search_engine_service.Logger.Building
use search_engine_service.Infra.Postgres.Connection.{new_connection}
use search_engine_service.Infra.Postgres.Migrations.{run}
use search_engine_service.App.{
  Platform, Booted, panics, fatal, running, App, logger_config, sentry_config, database_config,
  redis_options, assemble, with_redis, with_tables, with_database, with_logger, with_config, boot,
}

module _ {F W V H X D P C : Type 0} ⦃f : Float F⦄ (p : Platform F W V H X D P C) where
  -- The first step of the start that fails decides how it ends, in the world that this step leaves;
  -- `log` says which logger the settings give, `db` which database, and so on.
  pub data BootEnds (w : W) : Booted (App F W H X D C) × W → Type 0 where
    no_config :
        {e : Error} {w1 : W}
        → load p.viper "" w ≡ (err e, w1)
        → BootEnds w (panics ("failed to load config: " <> error_text e), w1)
    no_logger :
        {cfg : Config F} {e : Error} {w1 w2 : W}
        → load p.viper "" w ≡ (ok cfg, w1)
        → Building.new {X = X} p.surroundings (logger_config p cfg) (sentry_config p cfg) w1
          ≡ (err e, w2)
        → BootEnds w (panics ("failed to initialize logger: " <> error_text e), w2)
    no_database :
        {cfg : Config F} {log : Building.Logger H X} {e : Error} {w1 w2 w3 : W}
        → load p.viper "" w ≡ (ok cfg, w1)
        → Building.new p.surroundings (logger_config p cfg) (sentry_config p cfg) w1 ≡ (ok log, w2)
        → new_connection p.driver (database_config p cfg) w2 ≡ (err e, w3)
        → BootEnds w (fatal "failed to connect to database", w3)
    no_tables :
        {cfg : Config F} {log : Building.Logger H X} {db : D} {e : Error} {w1 w2 w3 w4 : W}
        → load p.viper "" w ≡ (ok cfg, w1)
        → Building.new p.surroundings (logger_config p cfg) (sentry_config p cfg) w1 ≡ (ok log, w2)
        → new_connection p.driver (database_config p cfg) w2 ≡ (ok db, w3)
        → run (p.gormigrate db) w3 ≡ (err e, w4)
        → BootEnds w (fatal "failed to run migrations", w4)
    no_redis :
        {cfg : Config F} {log : Building.Logger H X} {db : D} {e : Error} {w1 w2 w3 w4 w5 : W}
        → load p.viper "" w ≡ (ok cfg, w1)
        → Building.new p.surroundings (logger_config p cfg) (sentry_config p cfg) w1 ≡ (ok log, w2)
        → new_connection p.driver (database_config p cfg) w2 ≡ (ok db, w3)
        → run (p.gormigrate db) w3 ≡ (ok tt, w4)
        → p.ping_redis (p.new_redis (redis_options p cfg)) w4 ≡ (err e, w5)
        → BootEnds w (fatal "failed to connect to Redis", w5)
    all_up :
        {cfg : Config F} {log : Building.Logger H X} {db : D} {w1 w2 w3 w4 w5 : W}
        → load p.viper "" w ≡ (ok cfg, w1)
        → Building.new p.surroundings (logger_config p cfg) (sentry_config p cfg) w1 ≡ (ok log, w2)
        → new_connection p.driver (database_config p cfg) w2 ≡ (ok db, w3)
        → run (p.gormigrate db) w3 ≡ (ok tt, w4)
        → p.ping_redis (p.new_redis (redis_options p cfg)) w4 ≡ (ok tt, w5)
        → BootEnds w (running (assemble p cfg log db (p.new_redis (redis_options p cfg))), w5)

  module _ {w w1 : W} {cfg : Config F} (loaded : load p.viper "" w ≡ (ok cfg, w1)) where
    module _ {w2 : W} {log : Building.Logger H X}
        (logs : Building.new p.surroundings (logger_config p cfg) (sentry_config p cfg) w1
          ≡ (ok log, w2)) where
      module _ {w3 : W} {db : D}
          (connected : new_connection p.driver (database_config p cfg) w2 ≡ (ok db, w3)) where
        redis-BootEnds :
            {w4 : W} (pinged : Result (Unit {0})) (w5 : W)
            → run (p.gormigrate db) w3 ≡ (ok tt, w4)
            → p.ping_redis (p.new_redis (redis_options p cfg)) w4 ≡ (pinged, w5)
            → BootEnds w (with_redis p cfg log db (p.new_redis (redis_options p cfg)) pinged, w5)
        unfolding with_redis
        redis-BootEnds (err e) w5 ran e5 = no_redis loaded logs connected ran e5
        redis-BootEnds (ok tt) w5 ran e5 = all_up loaded logs connected ran e5

        tables-BootEnds :
            (ran : Result (Unit {0})) (w4 : W)
            → run (p.gormigrate db) w3 ≡ (ran, w4)
            → BootEnds w (with_tables p cfg log db ran w4)
        unfolding with_tables
        tables-BootEnds (err e) w4 e4 = no_tables loaded logs connected e4
        tables-BootEnds (ok tt) w4 e4 = redis-BootEnds _ _ e4 refl

      database-BootEnds :
          (opened : Result D) (w3 : W)
          → new_connection p.driver (database_config p cfg) w2 ≡ (opened, w3)
          → BootEnds w (with_database p cfg log opened w3)
      unfolding with_database
      database-BootEnds (err e) w3 e3 = no_database loaded logs e3
      database-BootEnds (ok db) w3 e3 = tables-BootEnds e3 _ _ refl

    logger-BootEnds :
        (made : Result (Building.Logger H X)) (w2 : W)
        → Building.new p.surroundings (logger_config p cfg) (sentry_config p cfg) w1 ≡ (made, w2)
        → BootEnds w (with_logger p cfg made w2)
    unfolding with_logger
    logger-BootEnds (err e) w2 e2 = no_logger loaded e2
    logger-BootEnds (ok log) w2 e2 = database-BootEnds e2 _ _ refl

  config-BootEnds :
      (w : W) (loaded : Result (Config F)) (w1 : W)
      → load p.viper "" w ≡ (loaded, w1)
      → BootEnds w (with_config p loaded w1)
  unfolding with_config
  config-BootEnds w (err e) w1 e1 = no_config e1
  config-BootEnds w (ok cfg) w1 e1 = logger-BootEnds e1 _ _ refl

  -- The start ends as its first step that fails has it: by a panic without a configuration or a
  -- logger, by `log.Fatal` without a database, its tables or Redis, and no step after it is made;
  -- if none fails, the services and the server stand on the configuration, the database and the
  -- Redis client of these steps.
  pub boot-BootEnds : (w : W) → BootEnds w (boot p w)
  unfolding boot
  boot-BootEnds w = config-BootEnds w _ _ refl
