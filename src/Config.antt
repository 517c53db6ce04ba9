-- ===== src/Config.antt =====
-- internal/config/config.go. Viper is a parameter: its object is a value that each call changes. The
-- `mapstructure` tags are the keys of `set_defaults`.
use search_engine_service.Base.{
  ℕ, String, ◌<>◌, List, [], ◌∷◌, Bool, true, false, if◌then◌else◌, ◌==◌, string_eq, Option, none,
  some,
}
use search_engine_service.Base.Int.{ℤ, pos}
use search_engine_service.Base.Decimal.{format_ℤ}
use search_engine_service.Base.Effects.{Error, wrapped, Result, ok, err, Eff, pure, ◌>>=◌, on_ok}
use search_engine_service.Domain.Content.{Duration}

pub record AppConfig : Type 0 where
  pub name : String
  pub env : String
  pub port : ℤ
  pub debug : Bool

pub record DatabaseConfig : Type 0 where
  pub host : String
  pub port : ℤ
  pub name : String
  pub user : String
  pub password : String
  pub ssl_mode : String
  pub max_open_conns : ℤ
  pub max_idle_conns : ℤ
  pub max_lifetime : Duration

-- `DSN`: no value is quoted.
unfoldable pub dsn : DatabaseConfig → String
unfolding format_ℤ
dsn c =
    "host="
    <> c.host
    <> " port="
    <> format_ℤ c.port
    <> " user="
    <> c.user
    <> " password="
    <> c.password
    <> " dbname="
    <> c.name
    <> " sslmode="
    <> c.ssl_mode

pub record RetryConfig : Type 0 where
  pub max_attempts : ℤ
  pub wait_time : Duration
  pub max_wait_time : Duration

pub record CbConfig (F : Type 0) : Type 0 where
  pub max_requests : ℕ
  pub interval : Duration
  pub timeout : Duration
  pub failure_ratio : F

pub record ProviderEndpoint (F : Type 0) : Type 0 where
  pub base_url : String
  pub timeout : Duration
  pub retry : RetryConfig
  pub cb : CbConfig F

pub record ProviderConfig (F : Type 0) : Type 0 where
  pub a : ProviderEndpoint F
  pub b : ProviderEndpoint F

pub record SyncConfig : Type 0 where
  pub interval : Duration
  pub on_startup : Bool
  pub timeout : Duration
  pub batch_size : ℤ

pub record LoggerConfig : Type 0 where
  pub level : String
  pub format : String
  pub output : String

pub record SentryConfig (F : Type 0) : Type 0 where
  pub enabled : Bool
  pub dsn : String
  pub environment : String
  pub sample_rate : F

pub record RedisConfig : Type 0 where
  pub host : String
  pub port : ℤ
  pub password : String
  pub db : ℤ

pub record CacheConfig : Type 0 where
  pub enabled : Bool
  pub search_ttl : Duration
  pub key_prefix : String

pub record Config (F : Type 0) : Type 0 where
  pub app : AppConfig
  pub database : DatabaseConfig
  pub provider : ProviderConfig F
  pub sync : SyncConfig
  pub logger : LoggerConfig
  pub sentry : SentryConfig F
  pub redis : RedisConfig
  pub cache : CacheConfig

-- A default as it is written: a text (durations too), a number, a flag, or `ratio m k` for m·10⁻ᵏ.
pub data Setting : Type 0 where
  text : String → Setting
  number : ℤ → Setting
  flag : Bool → Setting
  ratio : ℕ → ℕ → Setting

-- The calls of `SetDefault`, in their order.
unfoldable pub defaults : List (String × Setting)
defaults =
    ("app.name", text "search-engine-service")
    ∷ ("app.env", text "development")
    ∷ ("app.port", number (pos 8080))
    ∷ ("app.debug", flag true)
    ∷ ("database.host", text "localhost")
    ∷ ("database.port", number (pos 5432))
    ∷ ("database.name", text "search_engine")
    ∷ ("database.user", text "app")
    ∷ ("database.password", text "secret")
    ∷ ("database.ssl_mode", text "disable")
    ∷ ("database.max_open_conns", number (pos 25))
    ∷ ("database.max_idle_conns", number (pos 5))
    ∷ ("database.max_lifetime", text "5m")
    ∷ ("provider.a.base_url", text "http://localhost:8081")
    ∷ ("provider.a.timeout", text "10s")
    ∷ ("provider.a.retry.max_attempts", number (pos 3))
    ∷ ("provider.a.retry.wait_time", text "1s")
    ∷ ("provider.a.retry.max_wait_time", text "5s")
    ∷ ("provider.a.circuit_breaker.max_requests", number (pos 3))
    ∷ ("provider.a.circuit_breaker.interval", text "60s")
    ∷ ("provider.a.circuit_breaker.timeout", text "30s")
    ∷ ("provider.a.circuit_breaker.failure_ratio", ratio 5 1)
    ∷ ("provider.b.base_url", text "http://localhost:8082")
    ∷ ("provider.b.timeout", text "10s")
    ∷ ("provider.b.retry.max_attempts", number (pos 3))
    ∷ ("provider.b.retry.wait_time", text "1s")
    ∷ ("provider.b.retry.max_wait_time", text "5s")
    ∷ ("provider.b.circuit_breaker.max_requests", number (pos 3))
    ∷ ("provider.b.circuit_breaker.interval", text "60s")
    ∷ ("provider.b.circuit_breaker.timeout", text "30s")
    ∷ ("provider.b.circuit_breaker.failure_ratio", ratio 5 1)
    ∷ ("sync.interval", text "5m")
    ∷ ("sync.on_startup", flag true)
    ∷ ("sync.timeout", text "30s")
    ∷ ("sync.batch_size", number (pos 100))
    ∷ ("logger.level", text "info")
    ∷ ("logger.format", text "console")
    ∷ ("logger.output", text "stdout")
    ∷ ("sentry.enabled", flag false)
    ∷ ("sentry.dsn", text "")
    ∷ ("sentry.environment", text "development")
    ∷ ("sentry.sample_rate", ratio 10 1)
    ∷ ("redis.host", text "localhost")
    ∷ ("redis.port", number (pos 6379))
    ∷ ("redis.password", text "")
    ∷ ("redis.db", number (pos 0))
    ∷ ("cache.enabled", flag false)
    ∷ ("cache.search_ttl", text "15m")
    ∷ ("cache.key_prefix", text "search-engine")
    ∷ []

-- A read gives its error, if any, and the object that it leaves; `is_not_found` is the assertion on
-- the type `ConfigFileNotFoundError`.
pub record Viper (F W V : Type 0) : Type 0 where
  pub new : V
  pub set_default : String → Setting → V → V
  pub set_config_file : String → V → V
  pub set_config_name : String → V → V
  pub set_config_type : String → V → V
  pub add_config_path : String → V → V
  pub read_in_config : V → Eff W (Option Error × V)
  pub is_not_found : Error → Bool
  pub set_env_prefix : String → V → V
  pub set_env_key_replacer : String → String → V → V
  pub automatic_env : V → V
  pub unmarshal : V → Eff W (Result (Config F))

module _ {F W V : Type 0} (viper : Viper F W V) where
  unfoldable pub set_all : List (String × Setting) → V → V
  set_all [] v = v
  set_all ((key, value) ∷ settings) v = set_all settings (viper.set_default key value v)

  unfoldable pub set_defaults : V → V
  unfolding set_all defaults
  set_defaults v = set_all defaults v

  -- Where the file is looked for.
  unfoldable pub locate : String → V → V
  locate config_path v =
      if config_path == ""
      then viper.add_config_path "." (
          viper.add_config_path "./config"
            (viper.set_config_type "yaml" (viper.set_config_name "config" v)))
      else viper.set_config_file config_path v

  unfoldable pub with_env : V → V
  with_env v =
      viper.automatic_env (viper.set_env_key_replacer "." "_" (viper.set_env_prefix "APP" v))

  unfoldable pub read_env : V → Eff W (Result (Config F))
  unfolding with_env
  read_env v = do
    decoded ← viper.unmarshal (with_env v)
    on_ok "unmarshaling config" decoded λ cfg. pure (ok cfg)

  -- A file that is not there is no error.
  unfoldable pub after_read : Option Error × V → Eff W (Result (Config F))
  unfolding read_env
  after_read (none, v) = read_env v
  after_read (some e, v) =
      if viper.is_not_found e then read_env v else pure (err (wrapped "reading config file" e))

  unfoldable pub load : String → Eff W (Result (Config F))
  unfolding set_defaults locate after_read
  load config_path = do
    let v = locate config_path (set_defaults viper.new)
    read ← viper.read_in_config v
    after_read read
