-- ===== src/Tests/Platforms.antt =====
-- A platform for the application: a table and a Redis in memory, settings, and providers that are down.
use search_engine_service.Base.{List, [], ◌∷◌, none, some, true, false, if◌then◌else◌}
use search_engine_service.Base.Int.{ℤ, pos}
use search_engine_service.Base.Effects.{plain, Result, ok, err, Eff}
use search_engine_service.Base.Dict.{lookup, insert}
use search_engine_service.Config.{Config, Viper, ProviderEndpoint}
use search_engine_service.Logger.Building.{
  Logger, Surroundings, json_encoder, encoder_config, stderr,
}
use search_engine_service.Infra.Postgres.{Gorm}
use search_engine_service.Infra.Provider.{Backend}
use search_engine_service.Infra.Redis.{RedisClient}
use search_engine_service.Validator.{FieldError}
use search_engine_service.App.{Platform}
use search_engine_service.Tests.Fakes.{toy}
use search_engine_service.Tests.PostgresTests.{Row, table}
use search_engine_service.Tests.RedisTests.{Memory, found_or_nil}
use search_engine_service.Tests.TransportTests.{tests}

abbrev pub endpoint : ProviderEndpoint ℤ
endpoint = record {
  base_url = "http://localhost";
  timeout = pos 10;
  retry = record { max_attempts = pos 3; wait_time = pos 1; max_wait_time = pos 5 };
  cb = record { max_requests = 3; interval = pos 60; timeout = pos 30; failure_ratio = pos 1 };
}

abbrev pub config : Config ℤ
config = record {
  app = record { name = "ses"; env = "test"; port = pos 8080; debug = true };
  database = record {
    host = "localhost";
    port = pos 5432;
    name = "db";
    user = "app";
    password = "secret";
    ssl_mode = "disable";
    max_open_conns = pos 25;
    max_idle_conns = pos 5;
    max_lifetime = pos 300;
  };
  provider = record { a = endpoint; b = endpoint };
  sync = record { interval = pos 300; on_startup = true; timeout = pos 30; batch_size = pos 100 };
  logger = record { level = "info"; format = "json"; output = "stderr" };
  sentry = record { enabled = false; dsn = ""; environment = "test"; sample_rate = pos 1 };
  redis = record { host = "localhost"; port = pos 6379; password = ""; db = pos 0 };
  cache = record { enabled = true; search_ttl = pos 900; key_prefix = "ses" };
}

abbrev pub World : Type 0
World = List Row × Memory

-- An operation of the table, and one of the memory, in the world of both.
abbrev pub in_table : {A : Type 0} → Eff (List Row) A → Eff World A
in_table m w = ((m w.0).0, ((m w.0).1, w.1))

abbrev pub in_memory : {A : Type 0} → Eff Memory A → Eff World A
in_memory m w = ((m w.1).0, (w.0, (m w.1).1))

abbrev pub gorm : Gorm ℤ World
gorm = record {
  count = λ q. in_table (table.count q);
  find = λ q. in_table (table.find q);
  first = λ q. in_table (table.first q);
  create = λ rule m. in_table (table.create rule m);
  create_in_batches = λ rule ms n. in_table (table.create_in_batches rule ms n);
  delete = λ q. in_table (table.delete q);
  now = in_table table.now;
}

abbrev pub redis : RedisClient World
redis = record {
  get = λ k. in_memory (λ m. (found_or_nil (lookup k m), m));
  set = λ k v ttl. in_memory (λ m. (ok tt, insert k v m));
  del = λ ks. in_memory (λ m. (ok tt, []));
  scan = λ pattern. in_memory (λ m. (ok [], m));
}

abbrev pub backend : {A : Type 0} → Backend World A
backend = record {
  get = λ url w. (err (plain "down"), w);
  execute = λ m. m;
  now = λ w. (pos 0, w);
  parse_time = λ layout text. err (plain "no time");
}

abbrev pub viper : Viper ℤ World (Unit {0})
viper = record {
  new = tt;
  set_default = λ k s v. v;
  set_config_file = λ s v. v;
  set_config_name = λ s v. v;
  set_config_type = λ s v. v;
  add_config_path = λ s v. v;
  read_in_config = λ v w. ((some (plain "no file"), v), w);
  is_not_found = λ e. true;
  set_env_prefix = λ s v. v;
  set_env_key_replacer = λ s t v. v;
  automatic_env = λ v. v;
  unmarshal = λ v w. (ok config, w);
}

abbrev pub surroundings : Surroundings ℤ World (Unit {0})
surroundings = record {
  init_sentry = λ cfg w. (none, w);
  flush_sentry = λ w. (tt, w);
  parse_level = λ s. ok (pos 0);
  open_file = λ s w. (ok tt, w);
}

abbrev pub failing : List FieldError
failing = record { field = "page"; tag = "min"; param = "1"; value = "-1" } ∷ []

abbrev pub TestPlatform : Type 0
TestPlatform = Platform ℤ World (Unit {0}) (Unit {0}) (Unit {0}) (Unit {0}) (Unit {0}) (Unit {0})

-- `migrated` is what the migrations return.
abbrev pub platform : Result (Unit {0}) → TestPlatform
platform migrated = record {
  viper = viper;
  surroundings = surroundings;
  driver = record {
    open_db = λ dsn w. (ok tt, w);
    sql_db = λ db w. (ok tt, w);
    set_max_open_conns = λ n pool w. (tt, w);
    set_max_idle_conns = λ n pool w. (tt, w);
    set_conn_max_lifetime = λ d pool w. (tt, w);
    ping = λ pool w. (ok tt, w);
    close = λ pool w. (ok tt, w);
  };
  gorm = λ db. gorm;
  gormigrate = λ db. record { migrate = λ ms w. (migrated, w); rollback_last = λ ms w. (ok tt, w) };
  network = record {
    connect_a = λ resty breaker. backend;
    connect_b = λ resty breaker. backend;
    unmarshal_feed = λ bytes. err (plain "no feed");
  };
  new_redis = λ options. tt;
  ping_redis = λ c w. (ok tt, w);
  redis = λ c. redis;
  close_redis = λ c w. (ok tt, w);
  flush_log = λ l w. (ok tt, w);
  clock = λ w. (pos 0, w);
  struct = λ req. if tests req then none else some failing;
}

abbrev pub log : Logger (Unit {0}) (Unit {0})
log = record {
  core = record {
    encoder = json_encoder encoder_config;
    output = stderr;
    level = pos 0;
    fields = [];
    sentry = none;
  };
  sentry_enabled = false;
}
