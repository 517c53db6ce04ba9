-- ===== src/Infra/Postgres/Connection.antt =====
-- internal/infra/postgres/connection.go. The driver of GORM and `database/sql` is a parameter: `D` is
-- its database, `P` its connection pool. The logger only adds a log line and GORM's own logging.
use search_engine_service.Base.{String, ◌<>◌}
use search_engine_service.Base.Int.{ℤ}
use search_engine_service.Base.Decimal.{format_ℤ}
use search_engine_service.Base.Effects.{Result, ok, err, Eff, pure, ◌>>=◌, on_ok}
use search_engine_service.Domain.Content.{Duration}

pub record Config : Type 0 where
  pub host : String
  pub port : ℤ
  pub name : String
  pub user : String
  pub password : String
  pub ssl_mode : String
  pub max_open_conns : ℤ
  pub max_idle_conns : ℤ
  pub max_lifetime : Duration

unfoldable pub dsn : Config → String
unfolding format_ℤ
dsn c =
    "host="
    <> c.host
    <> " port="
    <> format_ℤ c.port
    <> " user="
    <> c.user
    <> " password="
    <> c.password
    <> " dbname="
    <> c.name
    <> " sslmode="
    <> c.ssl_mode

pub record Driver (W D P : Type 0) : Type 0 where
  pub open_db : String → Eff W (Result D)
  pub sql_db : D → Eff W (Result P)
  pub set_max_open_conns : ℤ → P → Eff W (Unit {0})
  pub set_max_idle_conns : ℤ → P → Eff W (Unit {0})
  pub set_conn_max_lifetime : Duration → P → Eff W (Unit {0})
  pub ping : P → Eff W (Result (Unit {0}))
  pub close : P → Eff W (Result (Unit {0}))

module _ {W D P : Type 0} (driver : Driver W D P) where
  unfoldable pub configure : Config → P → Eff W (Unit {0})
  configure cfg pool = do
    _ ← driver.set_max_open_conns cfg.max_open_conns pool
    _ ← driver.set_max_idle_conns cfg.max_idle_conns pool
    driver.set_conn_max_lifetime cfg.max_lifetime pool

  unfoldable pub new_connection : Config → Eff W (Result D)
  unfolding dsn configure
  new_connection cfg = do
    opened ← driver.open_db (dsn cfg)
    on_ok "opening database connection" opened λ db. do
      found ← driver.sql_db db
      on_ok "getting underlying sql.DB" found λ pool. do
        _ ← configure cfg pool
        pinged ← driver.ping pool
        on_ok "pinging database" pinged λ alive. pure (ok db)

  -- An error of the pool is returned as it is.
  unfoldable pub on_pool : Result P → (P → Eff W (Result (Unit {0}))) → Eff W (Result (Unit {0}))
  on_pool (ok pool) use_pool = use_pool pool
  on_pool (err e) use_pool = pure (err e)

  unfoldable pub close : D → Eff W (Result (Unit {0}))
  unfolding on_pool
  close db = do found ← driver.sql_db db; on_pool found driver.close

  unfoldable pub health_check : D → Eff W (Result (Unit {0}))
  unfolding on_pool
  health_check db = do found ← driver.sql_db db; on_pool found driver.ping
