-- ===== src/Tests/SyncTests.antt =====
-- internal/app/service/sync_service.go with one provider that delivers and one that fails.
use search_engine_service.Base.{[], none, refl, some, suc, ℕ, ◌∷◌, ◌≡◌}
use search_engine_service.Base.Int.{ℤ, pos}
use search_engine_service.Base.Effects.{plain, ok, err}
use search_engine_service.Domain.Ports.{ContentRepository, Provider}
use search_engine_service.Service.Sync.{SyncService, sync_all}
use search_engine_service.Service.Sync.Outcomes.{IsOutcome, sync_all-Outcomes}
use search_engine_service.Tests.Fakes.{content_of}

-- The world counts the calls that were made.
abbrev storing : ContentRepository ℤ ℕ
storing = record {
  search = λ p w. (err (plain "not used"), w);
  get_by_id = λ id w. (ok none, w);
  get_by_provider_and_external_id = λ p e w. (ok none, w);
  upsert = λ c w. (ok c, suc w);
  bulk_upsert = λ cs w. (ok cs, suc w);
  delete = λ id w. (ok tt, w);
  count = λ p w. (ok (pos 0), w);
}

abbrev pub delivers : Provider ℤ ℕ
delivers = record {
  name = "provider_a";
  fetch = λ w. (ok (content_of "x" "video" ∷ content_of "y" "article" ∷ []), suc w);
  health_check = λ w. (ok tt, w);
}

abbrev pub fails : Provider ℤ ℕ
fails = record {
  name = "provider_b";
  fetch = λ w. (err (plain "down"), suc w);
  health_check = λ w. (err (plain "down"), w);
}

abbrev pub svc : SyncService ℤ ℕ
svc = record { repo = storing; providers = delivers ∷ fails ∷ []; clock = λ w. (pos w, w) }

sync_all_test :
    (sync_all svc (1 ∷ 0 ∷ 1 ∷ 5 ∷ []) 0).0
    ≡ record { provider = "provider_a"; count = 2; duration = pos 3; error = none }
      ∷ record { provider = "provider_b"; count = 0; duration = pos 3; error = some (plain "down") }
      ∷ []
unfolding sync_all
sync_all_test = refl

sync_all_example :
    IsOutcome svc delivers
      (record { provider = "provider_a"; count = 2; duration = pos 3; error = none })
    × (IsOutcome svc fails (record {
      provider = "provider_b";
      count = 0;
      duration = pos 3;
      error = some (plain "down");
    })
        × Unit {0})
unfolding sync_all
sync_all_example = sync_all-Outcomes svc (1 ∷ 0 ∷ 1 ∷ 5 ∷ []) 0
