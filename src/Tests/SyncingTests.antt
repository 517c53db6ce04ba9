-- ===== src/Tests/SyncingTests.antt =====
-- cmd/api/main.go over a table with keys and two providers that answer: it starts, and synchronises.
use search_engine_service.Base.{ℕ, ◌≡◌, refl, List, [], ◌∷◌, some, Option, String}
use search_engine_service.Base.Int.{ℤ, pos}
use search_engine_service.Base.Effects.{Result, ok}
use search_engine_service.Domain.Content.{Content}
use search_engine_service.Infra.Postgres.{Gorm}
use search_engine_service.Infra.Postgres.Repository.{get_by_provider_and_external_id}
use search_engine_service.Infra.Provider.{Backend, HttpResponse}
use search_engine_service.Infra.Provider.ProviderA
use search_engine_service.Infra.Provider.ProviderB
use search_engine_service.Service.Sync.{sync_all}
use search_engine_service.Service.Sync.Storing.{AllDelivered}
use search_engine_service.App.{running, App, assemble, boot}
use search_engine_service.App.Syncing.{SyncContract, Findable, boot-AllDelivered}
use search_engine_service.Tests.Fakes.{toy}
use search_engine_service.Tests.Platforms.{World, TestPlatform, in_table, platform, config, log}
use search_engine_service.Tests.ProviderTests.{response, feed_response, unmarshal}
use search_engine_service.Tests.UpsertTests.{Row, find_row, keyed, Holds, keyed-UpsertContract}

abbrev keyed_gorm : Gorm ℤ World
keyed_gorm = record {
  count = λ q. in_table (keyed.count q);
  find = λ q. in_table (keyed.find q);
  first = λ q. in_table (keyed.first q);
  create = λ rule m. in_table (keyed.create rule m);
  create_in_batches = λ rule ms n. in_table (keyed.create_in_batches rule ms n);
  delete = λ q. in_table (keyed.delete q);
  now = in_table keyed.now;
}

abbrev answering : {A : Type 0} → HttpResponse A → Backend World A
answering r = record {
  get = λ url w. (ok r, w);
  execute = λ m. m;
  now = λ w. (pos 0, w);
  parse_time = λ layout text. ok (pos 0);
}

abbrev pub syncing : TestPlatform
syncing = record (platform (ok tt)) {
  gorm = λ db. keyed_gorm;
  network = record {
    connect_a = λ resty breaker. answering response;
    connect_b = λ resty breaker. answering feed_response;
    unmarshal_feed = unmarshal;
  };
}

abbrev InTable : World → Row → Type 0
InTable w row = Holds w.0 row

syncing-SyncContract : SyncContract InTable syncing
syncing-SyncContract = record {
  upserts = λ db. record {
    create_stores = λ rule ms ms' n w. keyed-UpsertContract.create_stores rule ms ms' n w.0;
    first_finds = λ p x w. keyed-UpsertContract.first_finds p x w.0;
    first_misses = λ p x w. keyed-UpsertContract.first_misses p x w.0;
    create_keeps = λ rule ms n w. keyed-UpsertContract.create_keeps rule ms n w.0;
    now_keeps = λ w row held. held;
  };
  quiet_a = λ s t. record {
    get_keeps = λ url w c held. held;
    execute_keeps = λ m keeps w. keeps w;
    now_keeps = λ w c held. held;
  };
  quiet_b = λ s t. record {
    get_keeps = λ url w c held. held;
    execute_keeps = λ m keeps w. keeps w;
    now_keeps = λ w c held. held;
  };
  quiet_clock = λ w row held. held;
}

abbrev pub app : App ℤ World (Unit {0}) (Unit {0}) (Unit {0}) (Unit {0})
app = assemble syncing config log tt tt

pub started : (boot syncing ([], [])).0 ≡ running app
unfolding boot
started = refl

-- The goroutines of both providers take turns.
abbrev pub turns : List ℕ
turns = 1 ∷ 0 ∷ 0 ∷ 1 ∷ 1 ∷ 0 ∷ []

abbrev title_of : Result (Option (Content ℤ)) → String
title_of (ok (some c)) = c.title
title_of other = ""

-- Afterwards the content of provider B is found.
found :
    title_of
      (get_by_provider_and_external_id keyed_gorm "provider_b" "a1"
        (sync_all app.sync_svc turns ([], [])).1).0
    ≡ "Types"
unfolding sync_all get_by_provider_and_external_id find_row assemble ProviderB.as_provider
    ProviderA.as_provider
found = refl

boot-AllDelivered_example :
    AllDelivered
      (Findable InTable syncing syncing-SyncContract app.db)
      app.sync_svc.providers
      (sync_all app.sync_svc turns ([], [])).0
      (sync_all app.sync_svc turns ([], [])).1
boot-AllDelivered_example =
    boot-AllDelivered InTable syncing syncing-SyncContract ([], []) app turns ([], []) started
