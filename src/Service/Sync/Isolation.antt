-- ===== src/Service/Sync/Isolation.antt =====
-- internal/app/service/sync_service.go: what a goroutine of `SyncAll` does depends on nothing that
-- the others do. `view w n` is what the world `w` holds of the provider named `n`.
pub mod Alone
pub mod AnyOrder
pub mod Steps
use search_engine_service.Base.{
  ℕ, zero, suc, ◌≡◌, ◌≢◌, refl, sym, ap, ◌∙◌, subst, String, List, [], ◌∷◌, length, Option, none,
  some, All, Empty,
}
use search_engine_service.Base.Effects.{Error, Result, ok, err, Eff}
use search_engine_service.Domain.Content.{Content, Time}
use search_engine_service.Domain.Ports.{Provider}
use search_engine_service.Service.Sync.{
  SyncService, SyncResult, Task, ready, started, fetched, stored, done, after_store, store,
  after_fetch, advance,
}
use search_engine_service.Service.Sync.Outcomes.{calls_left}

-- The error of a call, if it has one.
abbrev pub failure : {A : Type 0} → Result A → Option Error
failure (ok a) = none
failure (err e) = some e

-- The same contents in the same order, but for their scores, which depend on the time of the fetch.
abbrev pub SameContents : {F : Type 0} → List (Content F) → List (Content F) → Type 0
SameContents [] [] = Unit
SameContents [] (d ∷ ds) = Empty
SameContents (c ∷ cs) [] = Empty
SameContents (c ∷ cs) (d ∷ ds) = (c ≡ record d { score = c.score }) × SameContents cs ds

abbrev pub SameFetch : {F : Type 0} → Result (List (Content F)) → Result (List (Content F)) → Type 0
SameFetch (ok cs) (ok ds) = SameContents cs ds
SameFetch (ok cs) (err e) = Empty
SameFetch (err e) (ok ds) = Empty
SameFetch (err e) (err e') = e ≡ e'

-- A fetch reads and changes what there is of its provider only, and fetches contents of its name.
pub record FetchIsLocal {F W V : Type 0} (view : W → String → V) (p : Provider F W) : Type 0 where
  pub own :
      (w : W) (cs : List (Content F))
      → (p.fetch w).0 ≡ ok cs
      → All (λ (c : Content F). c.provider_id ≡ p.name) cs
  pub reads : (v w : W) → view v p.name ≡ view w p.name → SameFetch (p.fetch v).0 (p.fetch w).0
  pub moves :
      (v w : W)
      → view v p.name ≡ view w p.name
      → view (p.fetch v).1 p.name ≡ view (p.fetch w).1 p.name
  pub spares : (w : W) (n : String) → n ≢ p.name → view (p.fetch w).1 n ≡ view w n

-- A bulk write of contents of one provider reads and changes what there is of that provider only,
-- in the same way whatever the scores, and the clock changes nothing.
pub record StoreIsLocal {F W V : Type 0} (view : W → String → V) (svc : SyncService F W)
    : Type 0 where
  pub reads :
      (n : String) (cs ds : List (Content F)) (v w : W)
      → All (λ (c : Content F). c.provider_id ≡ n) cs
      → SameContents cs ds
      → view v n ≡ view w n
      → failure (svc.repo.bulk_upsert cs v).0 ≡ failure (svc.repo.bulk_upsert ds w).0
  pub moves :
      (n : String) (cs ds : List (Content F)) (v w : W)
      → All (λ (c : Content F). c.provider_id ≡ n) cs
      → SameContents cs ds
      → view v n ≡ view w n
      → view (svc.repo.bulk_upsert cs v).1 n ≡ view (svc.repo.bulk_upsert ds w).1 n
  pub spares :
      (n m : String) (cs : List (Content F)) (w : W)
      → All (λ (c : Content F). c.provider_id ≡ n) cs
      → m ≢ n
      → view (svc.repo.bulk_upsert cs w).1 m ≡ view w m
  pub clock_spares : (w : W) (n : String) → view (svc.clock w).1 n ≡ view w n

-- Two results that differ in their duration at most.
abbrev pub SameReport : SyncResult → SyncResult → Type 0
SameReport r s = (r.provider ≡ s.provider) × (r.count ≡ s.count) × (r.error ≡ s.error)
