-- ===== src/Tests/AppTests.antt =====
-- cmd/api/main.go over a table and a Redis in memory: it starts, and answers a search.
use search_engine_service.Base.{
  ℕ, ◌≡◌, refl, String, [], Option, none, some, Bool, true, false, if◌then◌else◌,
}
use search_engine_service.Base.Int.{ℤ}
use search_engine_service.Base.Effects.{plain, Result, ok, err}
use search_engine_service.Base.Dict.{lookup}
use search_engine_service.Domain.Ports.{Bytes}
use search_engine_service.Service.Search.Answers.{IsSound}
use search_engine_service.Domain.Search.{validate}
use search_engine_service.Service.Search
use search_engine_service.Transport.Handler
use search_engine_service.Transport.Handler.{Answer}
use search_engine_service.Transport.Middleware.{thrown}
use search_engine_service.Transport.Middleware.Logging.{IsLogged, serve-IsLogged}
use search_engine_service.Transport.Dto.{to_search_params}
use search_engine_service.Transport.Router.{Request, Fiber, route, search_contents, serve}
use search_engine_service.App.{running, fatal, App, assemble, boot}
use search_engine_service.App.Boot.{BootEnds, boot-BootEnds}
use search_engine_service.App.Contract.{PlatformContract, IsAnswer, InCache}
use search_engine_service.App.Answering.{AnswersSearch, boot-AnswersSearch}
use search_engine_service.Tests.Fakes.{toy}
use search_engine_service.Tests.PostgresTests.{keep, Satisfies, table-FindContract, rows}
use search_engine_service.Tests.RedisTests.{found_or_nil-ok, insert-Held}
use search_engine_service.Tests.SearchTests.{codec, codec-IsFaithful}
use search_engine_service.Tests.TransportTests.{
  one_of, plainly, request, tests, tests-IsValidRequest,
}
use search_engine_service.Tests.Platforms.{World, platform, config, log, failing}

abbrev InRedis : World → String → Bytes → Type 0
InRedis w k b = lookup k w.1 ≡ some b

ok_if : (b : Bool) → (if b then none else some failing) ≡ none → b ≡ true
ok_if true h = refl
ok_if false h = cc

platform-PlatformContract :
    (migrated : Result (Unit {0})) → PlatformContract Satisfies InRedis codec (platform migrated)
platform-PlatformContract migrated = record {
  finds = λ db. record {
    find_satisfies = λ q w. table-FindContract.find_satisfies q w.0;
    find_limits = λ q w. table-FindContract.find_limits q w.0;
    type_condition = table-FindContract.type_condition;
  };
  count_keeps = λ db q w k b held. held;
  find_keeps = λ db q w k b held. held;
  redis_keeps = λ c. record {
    get_found = λ k w b e. found_or_nil-ok (lookup k w.1) b e;
    get_keeps = λ k w j b held. held;
    set_keeps = λ k v ttl w j b held. insert-Held k j v b w.1 held;
  };
  strict = λ req passed. tests-IsValidRequest req (ok_if (tests req) passed);
  faithful = codec-IsFaithful;
}

abbrev app : App ℤ World (Unit {0}) (Unit {0}) (Unit {0}) (Unit {0})
app = assemble (platform (ok tt)) config log tt tt

abbrev before : World
before = (rows, [])

started : (boot (platform (ok tt)) before).0 ≡ running app
unfolding boot
started = refl

abbrev fiber : Fiber ℤ World
fiber = record {
  find = λ routes req. route search_contents "";
  middleware = λ req handler. handler;
}

abbrev search_request : Request
search_request = record {
  method = "GET";
  path = "/api/v1/contents";
  parsed = ok request;
  schedule = [];
}

before-IsSound : IsSound (InCache InRedis (platform (ok tt)) config tt) IsAnswer codec before
unfolding lookup
before-IsSound = record { sound = λ p b r plain held decoded. cc }

abbrev status_of : Option (Answer ℤ) → ℕ
status_of none = 0
status_of (some a) = a.status

-- The three rows of the table that are no article make one page.
searched : status_of (serve plainly codec fiber app.server search_request before).0.0 ≡ 200
unfolding serve assemble keep one_of Handler.search Search.search lookup validate to_search_params
searched = refl

boot-AnswersSearch_example :
    AnswersSearch Satisfies InRedis codec
      (platform (ok tt))
      (platform-PlatformContract (ok tt))
      plainly
      fiber
      app
      search_request
      (serve plainly codec fiber app.server search_request before)
unfolding assemble
boot-AnswersSearch_example =
    boot-AnswersSearch Satisfies InRedis codec (platform (ok tt))
      (platform-PlatformContract (ok tt)) plainly fiber before app search_request "" before started
      refl (λ handler. refl) before-IsSound

boot-BootEnds_example :
    BootEnds (platform (err (plain "locked"))) before (fatal "failed to run migrations", before)
unfolding boot
boot-BootEnds_example = boot-BootEnds (platform (err (plain "locked"))) before

-- The handler of a request that nobody waits for panics.
abbrev panicking : Fiber ℤ World
panicking = record {
  find = λ routes req. route search_contents "";
  middleware = λ req handler w. (thrown "reset by peer", w);
}

serve-IsLogged_example : IsLogged (serve plainly codec panicking app.server search_request before).0
serve-IsLogged_example = serve-IsLogged plainly codec panicking app.server search_request before
