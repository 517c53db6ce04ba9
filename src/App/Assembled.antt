-- ===== src/App/Assembled.antt =====
-- cmd/api/main.go: what an application that runs is made of.
use search_engine_service.Base.{◌≡◌, subst, arith}
use search_engine_service.Base.Float.{Float}
use search_engine_service.Base.Effects.{Result, ok, err}
use search_engine_service.Config.{Config, load}
use search_engine_service.Logger.Building
use search_engine_service.App.{
  Platform, running, App, redis_options, assemble, with_redis, with_tables, with_database,
  with_logger, with_config, boot,
}

module _ {F W V H X D P C : Type 0} ⦃f : Float F⦄ (p : Platform F W V H X D P C) where
  -- A predicate that holds of what main puts together, of any settings, logger and database.
  module _ (Q : App F W H X D C → Type 0) (a : App F W H X D C)
      (assembled : (cfg : Config F) (log : Building.Logger H X) (db : D)
        → Q (assemble p cfg log db (p.new_redis (redis_options p cfg)))) where
    redis_ind :
        (cfg : Config F) (log : Building.Logger H X) (db : D) (pinged : Result (Unit {0}))
        → with_redis p cfg log db (p.new_redis (redis_options p cfg)) pinged ≡ running a
        → Q a
    unfolding with_redis
    redis_ind cfg log db (err e) is = cc
    redis_ind cfg log db (ok alive) is =
        let made : assemble p cfg log db (p.new_redis (redis_options p cfg)) ≡ a = ground arith in
        subst Q made (assembled cfg log db)

    tables_ind :
        (cfg : Config F) (log : Building.Logger H X) (db : D) (ran : Result (Unit {0})) (w : W)
        → (with_tables p cfg log db ran w).0 ≡ running a
        → Q a
    unfolding with_tables
    tables_ind cfg log db (err e) w is = cc
    tables_ind cfg log db (ok done) w is = redis_ind cfg log db _ is

    database_ind :
        (cfg : Config F) (log : Building.Logger H X) (opened : Result D) (w : W)
        → (with_database p cfg log opened w).0 ≡ running a
        → Q a
    unfolding with_database
    database_ind cfg log (err e) w is = cc
    database_ind cfg log (ok db) w is = tables_ind cfg log db _ _ is

    logger_ind :
        (cfg : Config F) (made : Result (Building.Logger H X)) (w : W)
        → (with_logger p cfg made w).0 ≡ running a
        → Q a
    unfolding with_logger
    logger_ind cfg (err e) w is = cc
    logger_ind cfg (ok log) w is = database_ind cfg log _ _ is

    config_ind : (loaded : Result (Config F)) (w : W) → (with_config p loaded w).0 ≡ running a → Q a
    unfolding with_config
    config_ind (err e) w is = cc
    config_ind (ok cfg) w is = logger_ind cfg _ _ is

    -- The predicate holds of an application that the start has brought up.
    pub boot_ind : (w : W) → (boot p w).0 ≡ running a → Q a
    unfolding boot
    boot_ind w is = let (loaded, v) = load p.viper "" w in config_ind loaded v is
