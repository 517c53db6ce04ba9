-- ===== src/App/Syncing.antt =====
-- cmd/api/main.go with all that it puts together: what a synchronisation leaves in the database.
-- `Holds w row` says that the table holds the row in the world `w`.
use mathlib.Core.Bool.{false≢true}
use search_engine_service.Base.{ℕ, ◌≡◌, ◌≢◌, List, [], ◌∷◌, string_eq, ==_iff}
use search_engine_service.Base.Float.{Float}
use search_engine_service.Config.{Config}
use search_engine_service.Domain.Content.{Content}
use search_engine_service.Domain.Ports.{Provider}
use search_engine_service.Logger.Building
use search_engine_service.Infra.Postgres.Models.{ContentModel}
use search_engine_service.Infra.Postgres.Repository.{as_repository, get_by_provider_and_external_id}
use search_engine_service.Infra.Postgres.Conflicts.{UpsertContract}
use search_engine_service.Infra.Postgres.Upserts.{
  Finds, StoredAs, StoredAs-Finds, as_repository-StoreContract,
}
use search_engine_service.Infra.Provider.{RestySettings, BreakerSettings}
use search_engine_service.Infra.Provider.ProviderA
use search_engine_service.Infra.Provider.ProviderB
use search_engine_service.Infra.Provider.Owning.{
  BackendContract, provider_a-FetchContract, provider_b-FetchContract,
}
use search_engine_service.Infra.Provider.Registry.{new_providers, new_provider_a, new_provider_b}
use search_engine_service.Service.Sync.{SyncResult, new_sync_service, sync_all}
use search_engine_service.Service.Sync.Storing.{AllDelivered}
use search_engine_service.Service.Sync.Storing.Concurrent.{sync_all-AllDelivered}
use search_engine_service.App.{Platform, running, App, redis_options, assemble, boot}
use search_engine_service.App.Assembled.{boot_ind}

-- What PostgreSQL documents, and that the network and the clock leave the table alone.
pub record SyncContract {F W V H X D P C : Type 0} ⦃f : Float F⦄
    (Holds : W → ContentModel F → Type 0) (p : Platform F W V H X D P C) : Type 0 where
  pub upserts : (db : D) → UpsertContract Holds (p.gorm db)
  pub quiet_a :
      (s : RestySettings ProviderA.Response) (t : BreakerSettings)
      → BackendContract (StoredAs Holds) (p.network.connect_a s t)
  pub quiet_b :
      (s : RestySettings (Unit {0})) (t : BreakerSettings)
      → BackendContract (StoredAs Holds) (p.network.connect_b s t)
  pub quiet_clock : (w : W) (row : ContentModel F) → Holds w row → Holds (p.clock w).1 row

-- What is stored in one sense is stored in a weaker one.
AllDelivered-weaker :
    {F W : Type 0} (S T : W → Content F → Type 0) (ps : List (Provider F W)) (rs : List SyncResult)
    (w : W)
    → ((c : Content F) → S w c → T w c)
    → AllDelivered S ps rs w
    → AllDelivered T ps rs w
AllDelivered-weaker S T [] [] w weaker d = tt
AllDelivered-weaker S T [] (r ∷ rs) w weaker d = elim d [ ]
AllDelivered-weaker S T (p ∷ ps) [] w weaker d = elim d [ ]
AllDelivered-weaker S T (p ∷ ps) (r ∷ rs) w weaker d = (
  λ e.
      let (cs, v, got, same, there) = d.0 e in
      (cs, v, got, same, λ c i only. weaker c (there c i only)),
  AllDelivered-weaker S T ps rs w weaker d.1,
)

names-ne : ProviderA.name ≢ ProviderB.name
names-ne e = false≢true ((==_iff ProviderA.name ProviderB.name).1 e)

module _ {F W V H X D P C : Type 0} ⦃f : Float F⦄ (Holds : W → ContentModel F → Type 0)
    (p : Platform F W V H X D P C) (h : SyncContract Holds p) where
  -- The lookup of the content by its provider and external identifier finds it or fails.
  abbrev pub Findable : D → W → Content F → Type 0
  Findable db w c =
      Finds c (get_by_provider_and_external_id (p.gorm db) c.provider_id c.external_id w).0

  assemble-AllDelivered :
      (cfg : Config F) (log : Building.Logger H X) (db : D) (c : C) (schedule : List ℕ) (w : W)
      → let a = assemble p cfg log db c in
        AllDelivered
          (Findable a.db)
          a.sync_svc.providers
          (sync_all a.sync_svc schedule w).0
          (sync_all a.sync_svc schedule w).1
  unfolding assemble new_providers new_provider_a new_provider_b new_sync_service
      ProviderA.as_provider ProviderB.as_provider
  assemble-AllDelivered cfg log db c schedule w =
      let svc =
        new_sync_service (as_repository (p.gorm db)) (new_providers p.network cfg.provider)
          p.clock in
      let (rs, v) = sync_all svc schedule w in
      AllDelivered-weaker (StoredAs Holds) (Findable db) svc.providers rs v
        (λ d held. StoredAs-Finds Holds (p.gorm db) (h.upserts db) d v held)
        (sync_all-AllDelivered (StoredAs Holds) svc
          (as_repository-StoreContract Holds (p.gorm db) (h.upserts db) svc.providers p.clock
            h.quiet_clock)
          schedule w
          (
            provider_a-FetchContract (StoredAs Holds) _ (h.quiet_a _ _),
            (
              provider_b-FetchContract (StoredAs Holds) _ p.network.unmarshal_feed (h.quiet_b _ _),
              tt,
            ),
          )
          ((names-ne, tt), (tt, tt)))

  -- Over a database, a network and a clock that keep what they document, and for an application that
  -- the start has brought up: in whatever order the calls of a synchronisation of all providers
  -- fall, each result that has no error tells the number of the contents of a fetch of its provider,
  -- and a lookup of each of them that is the only one of its key in the fetch finds it afterwards,
  -- as the table keeps it, or fails with an error. The table generates the identifier and the two
  -- times of a row; a score that is a number comes back within a hundredth, the time of the
  -- publication, whose zone is dropped, within 25 hours and a microsecond, and all else as it was.
  pub boot-AllDelivered :
      (w : W) (a : App F W H X D C) (schedule : List ℕ) (v : W)
      → (boot p w).0 ≡ running a
      → AllDelivered
          (Findable a.db)
          a.sync_svc.providers
          (sync_all a.sync_svc schedule v).0
          (sync_all a.sync_svc schedule v).1
  unfolding assemble
  boot-AllDelivered w a schedule v up =
      boot_ind p
        (λ b.
          AllDelivered (Findable b.db) b.sync_svc.providers (sync_all b.sync_svc schedule v).0
            (sync_all b.sync_svc schedule v).1)
        a
        (λ cfg log db.
          assemble-AllDelivered cfg log db (p.new_redis (redis_options p cfg)) schedule v)
        w up
