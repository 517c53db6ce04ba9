-- ===== src/Service/Sync/Storing.antt =====
-- internal/app/service/sync_service.go: what is in the store after a synchronisation. `Stored w c` says
-- that the store holds the content in the world `w`.
pub mod Concurrent
use search_engine_service.Base.{
  ℕ, zero, suc, ◌≡◌, ◌≢◌, refl, sym, ◌∙◌, subst, String, List, [], ◌∷◌, map, length, Option, none,
  some, In, All, All-In, Empty, arith,
}
use search_engine_service.Base.Effects.{Error, Result, ok, err, Eff}
use search_engine_service.Domain.Content.{Content, Time}
use search_engine_service.Domain.Ports.{Provider}
use search_engine_service.Service.Sync.{
  SyncService, SyncResult, Task, ready, started, fetched, stored, done, after_store, store,
  after_fetch, advance, finish, result_of, advance_at, run_schedule, wait, sync_all,
}

-- No other content has its key.
abbrev pub IsOnly : {F : Type 0} → Content F → List (Content F) → Type 0
IsOnly {F} c cs =
    (d : Content F)
    → In d cs
    → d.provider_id ≡ c.provider_id
    → d.external_id ≡ c.external_id
    → d ≡ c

-- What a provider promises: its contents carry its name, and a fetch leaves the store alone.
pub record FetchContract {F W : Type 0} (Stored : W → Content F → Type 0) (p : Provider F W)
    : Type 0 where
  pub own :
      (w : W) (cs : List (Content F))
      → (p.fetch w).0 ≡ ok cs
      → All (λ (c : Content F). c.provider_id ≡ p.name) cs
  pub fetch_keeps : (w : W) (c : Content F) → Stored w c → Stored (p.fetch w).1 c

-- What the repository and the clock promise: a bulk write that succeeds stores the contents that are
-- the only ones of their keys, and any bulk write leaves those of other providers.
pub record StoreContract {F W : Type 0} (Stored : W → Content F → Type 0) (svc : SyncService F W)
    : Type 0 where
  pub upsert_stores :
      (cs cs' : List (Content F)) (c : Content F) (w : W)
      → In c cs
      → IsOnly c cs
      → (svc.repo.bulk_upsert cs w).0 ≡ ok cs'
      → Stored (svc.repo.bulk_upsert cs w).1 c
  pub upsert_keeps :
      (cs : List (Content F)) (c : Content F) (w : W)
      → ((d : Content F) → In d cs → d.provider_id ≢ c.provider_id)
      → Stored w c
      → Stored (svc.repo.bulk_upsert cs w).1 c
  pub clock_keeps : (w : W) (c : Content F) → Stored w c → Stored (svc.clock w).1 c

module _ {F W : Type 0} (Stored : W → Content F → Type 0) where
  -- The number of the contents of a fetch, which are stored.
  abbrev pub Delivered : Provider F W → ℕ → W → Type 0
  Delivered p n w =
      (cs : List (Content F)) × (v : W) × ((p.fetch v).0 ≡ ok cs)
      × (n ≡ length cs)
      × ((c : Content F) → In c cs → IsOnly c cs → Stored w c)

  -- Each result without an error tells of a delivery of its provider.
  abbrev pub AllDelivered : List (Provider F W) → List SyncResult → W → Type 0
  AllDelivered [] [] w = Unit
  AllDelivered [] (r ∷ rs) w = Empty
  AllDelivered (p ∷ ps) [] w = Empty
  AllDelivered (p ∷ ps) (r ∷ rs) w = (r.error ≡ none → Delivered p r.count w) × AllDelivered ps rs w

  abbrev pub AllDistinct : List (Provider F W) → Type 0
  AllDistinct [] = Unit
  AllDistinct (p ∷ ps) = All (λ (q : Provider F W). p.name ≢ q.name) ps × AllDistinct ps

  -- What the task of a provider has done by now.
  abbrev pub Kept : Provider F W → Task F → W → Type 0
  Kept p ready w = Unit
  Kept p (started start) w = Unit
  Kept p (fetched start (err e)) w = Unit
  Kept p (fetched start (ok cs)) w = (v : W) × ((p.fetch v).0 ≡ ok cs)
  Kept p (stored start n error) w = error ≡ none → Delivered p n w
  Kept p (done r) w = r.error ≡ none → Delivered p r.count w

  abbrev pub AllKept : List (Provider F W) → List (Task F) → W → Type 0
  AllKept [] [] w = Unit
  AllKept [] (t ∷ ts) w = Empty
  AllKept (p ∷ ps) [] w = Empty
  AllKept (p ∷ ps) (t ∷ ts) w = Kept p t w × AllKept ps ts w

  -- Contents of other providers than the given stay.
  abbrev pub Spares : List (Provider F W) → W → W → Type 0
  Spares ps w w' =
      (c : Content F)
      → All (λ (p : Provider F W). c.provider_id ≢ p.name) ps
      → Stored w c
      → Stored w' c

  Delivered-later :
      (p : Provider F W) (n : ℕ) (w w' : W)
      → FetchContract Stored p
      → ((c : Content F) → c.provider_id ≡ p.name → Stored w c → Stored w' c)
      → Delivered p n w
      → Delivered p n w'
  Delivered-later p n w w' fc move (cs, v, e, same, there) =
      (cs, v, e, same, λ c i only. move c (All-In _ cs (fc.own v cs e) i) (there c i only))

  pub Kept-later :
      (p : Provider F W) (t : Task F) (w w' : W)
      → FetchContract Stored p
      → ((c : Content F) → c.provider_id ≡ p.name → Stored w c → Stored w' c)
      → Kept p t w
      → Kept p t w'
  Kept-later p ready w w' fc move k = tt
  Kept-later p (started start) w w' fc move k = tt
  Kept-later p (fetched start (err e)) w w' fc move k = tt
  Kept-later p (fetched start (ok cs)) w w' fc move k = k
  Kept-later p (stored start n error) w w' fc move k = λ e. Delivered-later p n w w' fc move (k e)
  Kept-later p (done r) w w' fc move k = λ e. Delivered-later p r.count w w' fc move (k e)

  module _ (svc : SyncService F W) (h : StoreContract Stored svc) where
    after_store-Kept :
        (p : Provider F W) (start : Time) (cs : List (Content F)) (v w : W)
        (out : Result (List (Content F)))
        → (p.fetch v).0 ≡ ok cs
        → (svc.repo.bulk_upsert cs w).0 ≡ out
        → Kept p (after_store start cs out) (svc.repo.bulk_upsert cs w).1
    unfolding after_store
    after_store-Kept p start cs v w (ok cs') e stored_it =
        λ none_yet. (cs, v, e, refl, λ c i only. h.upsert_stores cs cs' c w i only stored_it)
    after_store-Kept p start cs v w (err x) e failed = λ none_yet. cc

    store-Kept :
        (p : Provider F W) (start : Time) (cs : List (Content F)) (v w : W)
        → (p.fetch v).0 ≡ ok cs
        → Kept p (store svc start cs w).0 (store svc start cs w).1
    unfolding store
    store-Kept p start [] v w e = λ none_yet. ([], v, e, refl, λ c i only. elim i [ ])
    store-Kept p start (c ∷ cs) v w e = after_store-Kept p start (c ∷ cs) v w _ e refl

    fetched-Kept :
        (p : Provider F W) (start : Time) (w w' : W) (out : Result (List (Content F)))
        → (p.fetch w).0 ≡ out
        → Kept p (fetched start out) w'
    fetched-Kept p start w w' (ok cs) e = (w, e)
    fetched-Kept p start w w' (err x) e = tt

    pub advance-Kept :
        (p : Provider F W) (t : Task F) (w : W)
        → FetchContract Stored p
        → Kept p t w
        → Kept p (advance svc p t w).0 (advance svc p t w).1
    unfolding advance after_fetch
    advance-Kept p ready w fc k = tt
    advance-Kept p (started start) w fc k = fetched-Kept p start w _ _ refl
    advance-Kept p (fetched start (err e)) w fc k = λ none_yet. cc
    advance-Kept p (fetched start (ok cs)) w fc (v, e) = store-Kept p start cs v w e
    advance-Kept p (stored start n error) w fc k =
        λ e. Delivered-later p n w _ fc (λ c own. h.clock_keeps w c) (k e)
    advance-Kept p (done r) w fc k = k

    store-Spares :
        (p : Provider F W) (start : Time) (cs : List (Content F)) (w : W)
        → All (λ (d : Content F). d.provider_id ≡ p.name) cs
        → Spares (p ∷ []) w (store svc start cs w).1
    unfolding store
    store-Spares p start [] w own c other held = held
    store-Spares p start (d ∷ cs) w own c other held =
        h.upsert_keeps (d ∷ cs) c w (λ x i e. other.0 (sym e ∙ All-In _ (d ∷ cs) own i)) held

    pub advance-Spares :
        (p : Provider F W) (t : Task F) (w : W)
        → FetchContract Stored p
        → Kept p t w
        → Spares (p ∷ []) w (advance svc p t w).1
    unfolding advance after_fetch
    advance-Spares p ready w fc k c other held = h.clock_keeps w c held
    advance-Spares p (started start) w fc k c other held = fc.fetch_keeps w c held
    advance-Spares p (fetched start (err e)) w fc k c other held = held
    advance-Spares p (fetched start (ok cs)) w fc (v, e) c other held =
        store-Spares p start cs w (fc.own v cs e) c other held
    advance-Spares p (stored start n error) w fc k c other held = h.clock_keeps w c held
    advance-Spares p (done r) w fc k c other held = held
