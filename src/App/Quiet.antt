-- ===== src/App/Quiet.antt =====
-- cmd/api/main.go: a synchronisation leaves the lock of the scheduler alone. `Runs w i e` says that in
-- the world `w` instance `i` holds the lock until the time `e`.
use search_engine_service.Base.{ℕ, ◌≤◌, ◌<◌, ◌≡◌, List, [], ◌∷◌, map, arith}
use search_engine_service.Base.Float.{Float}
use search_engine_service.Base.Effects.{Result, ok, Eff, pure}
use search_engine_service.Base.Frames.{IsFrame, Moves, Moves-on_ok}
use search_engine_service.Config.{Config}
use search_engine_service.Domain.Content.{Content}
use search_engine_service.Logger.Building
use search_engine_service.Infra.Postgres.{OnConflict}
use search_engine_service.Infra.Postgres.Models.{ContentModel, from_domain_slice}
use search_engine_service.Infra.Postgres.Repository.{
  as_repository, bulk_upsert, bulk_upsert_some, conflict_rule, stamp, fill_in_all,
}
use search_engine_service.Infra.Provider.{RestySettings, BreakerSettings}
use search_engine_service.Infra.Provider.Frames.{BackendMoves, fetch_a-Moves, fetch_b-Moves}
use search_engine_service.Infra.Provider.ProviderA
use search_engine_service.Infra.Provider.Registry.{new_providers, new_provider_a, new_provider_b}
use search_engine_service.Service.Sync.{new_sync_service, sync_all}
use search_engine_service.Service.Sync.Frames.{sync_all-Moves}
use search_engine_service.Locker.{Redsync}
use search_engine_service.Job.Cooldown.Lockers.{RedsyncContract}
use search_engine_service.App.{Platform, running, App, redis_options, assemble, boot}
use search_engine_service.App.Assembled.{boot_ind}

-- Time does not go back, and a lock that is held is held until its time.
abbrev pub Lasts : {W : Type 0} → (W → ℕ) → (W → ℕ → ℕ → Type 0) → W → W → Type 0
Lasts now Runs v w = (now v ≤ now w) × ((j e : ℕ) → Runs v j e → now w < e → Runs w j e)

Lasts-IsFrame : {W : Type 0} (now : W → ℕ) (Runs : W → ℕ → ℕ → Type 0) → IsFrame (Lasts now Runs)
Lasts-IsFrame now Runs = record {
  idle = λ w. (omega arith, λ j e runs soon. runs);
  joins = λ u v w first next.
      (omega arith, λ j e runs soon. next.1 j e (first.1 j e runs (omega arith)) soon);
}

-- What Redsync documents, and that the database, the network and the clock leave the lock alone.
pub record CooldownContract {F W V H X D P C M : Type 0} (now : W → ℕ) (Runs : W → ℕ → ℕ → Type 0)
    (rs : ℕ → Redsync W M) (p : Platform F W V H X D P C) : Type 0 where
  pub redsync : RedsyncContract now Runs rs
  pub write_moves :
      (db : D) (rule : OnConflict) (ms : List (ContentModel F)) (n : ℕ)
      → Moves (Lasts now Runs) ((p.gorm db).create_in_batches rule ms n)
  pub now_moves : (db : D) → Moves (Lasts now Runs) (p.gorm db).now
  pub a_moves :
      (s : RestySettings ProviderA.Response) (t : BreakerSettings)
      → BackendMoves (Lasts now Runs) (p.network.connect_a s t)
  pub b_moves :
      (s : RestySettings (Unit {0})) (t : BreakerSettings)
      → BackendMoves (Lasts now Runs) (p.network.connect_b s t)
  pub clock_moves : Moves (Lasts now Runs) p.clock

module _ {F W V H X D P C M : Type 0} ⦃f : Float F⦄ (now : W → ℕ) (Runs : W → ℕ → ℕ → Type 0)
    (rs : ℕ → Redsync W M) (p : Platform F W V H X D P C) (h : CooldownContract now Runs rs p) where
  bulk_upsert_some-Moves :
      (db : D) (cs : List (Content F)) → Moves (Lasts now Runs) (bulk_upsert_some (p.gorm db) cs)
  unfolding bulk_upsert_some
  bulk_upsert_some-Moves db cs w =
      let frame = Lasts-IsFrame now Runs in
      let (time, v) = (p.gorm db).now w in
      let rows = map (stamp time) (from_domain_slice cs) in
      let (created, u) = (p.gorm db).create_in_batches conflict_rule rows 100 v in
      let fill : List (ContentModel F) → Eff W (Result (List (Content F))) =
        λ ms. pure (ok (fill_in_all cs ms)) in
      let written =
        frame.joins w v u (h.now_moves db w) (h.write_moves db conflict_rule rows 100 v) in
      frame.joins w u _ written (
        Moves-on_ok (Lasts now Runs) frame "bulk upserting contents" created fill (λ ms. frame.idle)
          u)

  bulk_upsert-Moves :
      (db : D) (cs : List (Content F)) → Moves (Lasts now Runs) (bulk_upsert (p.gorm db) cs)
  unfolding bulk_upsert
  bulk_upsert-Moves db [] w = (Lasts-IsFrame now Runs).idle w
  bulk_upsert-Moves db (c ∷ cs) w = bulk_upsert_some-Moves db (c ∷ cs) w

  sync_all-Lasts :
      (cfg : Config F) (log : Building.Logger H X) (db : D) (c : C) (schedule : List ℕ)
      → Moves (Lasts now Runs) (sync_all (assemble p cfg log db c).sync_svc schedule)
  unfolding assemble new_providers new_provider_a new_provider_b new_sync_service as_repository
  sync_all-Lasts cfg log db c schedule =
      let frame = Lasts-IsFrame now Runs in
      let svc = (assemble p cfg log db c).sync_svc in
      sync_all-Moves (Lasts now Runs) frame svc (bulk_upsert-Moves db) h.clock_moves schedule (
        fetch_a-Moves (Lasts now Runs) frame F _ (h.a_moves _ _),
        (fetch_b-Moves (Lasts now Runs) frame F _ p.network.unmarshal_feed (h.b_moves _ _), tt),
      )

  -- Whatever the order of its goroutines' calls.
  abbrev pub Quiet : App F W H X D C → Type 0
  Quiet a = (schedule : List ℕ) → Moves (Lasts now Runs) (sync_all a.sync_svc schedule)

  pub boot-Quiet : (w : W) (a : App F W H X D C) → (boot p w).0 ≡ running a → Quiet a
  boot-Quiet w a up =
      boot_ind p Quiet a
        (λ cfg log db. sync_all-Lasts cfg log db (p.new_redis (redis_options p cfg))) w up
