-- ===== src/Service/Sync/Isolation/Steps.antt =====
-- internal/app/service/sync_service.go, `syncProvider`: a step of a goroutine in two worlds that are
-- alike for its provider, and what it leaves of the others.
use search_engine_service.Base.{
  ℕ, suc, ◌≡◌, ◌≢◌, refl, sym, ap, ◌∙◌, subst, String, List, [], ◌∷◌, length, Option, none, some,
  All,
}
use search_engine_service.Base.Effects.{Error, Result, ok, err}
use search_engine_service.Domain.Content.{Content, Time}
use search_engine_service.Domain.Ports.{Provider}
use search_engine_service.Service.Sync.{
  SyncService, SyncResult, Task, ready, started, fetched, stored, done, after_store, store,
  after_fetch, advance,
}
use search_engine_service.Service.Sync.Isolation.{
  failure, SameContents, SameFetch, FetchIsLocal, StoreIsLocal, SameReport,
}

-- Two goroutines at the same point, with the same values but for the times and the scores.
pub data Same {F : Type 0} : Task F → Task F → Type 0 where
  same_ready : Same ready ready
  same_started : (a b : Time) → Same (started a) (started b)
  same_fetched :
      (a b : Time) (r s : Result (List (Content F)))
      → SameFetch r s
      → Same (fetched a r) (fetched b s)
  same_stored : (a b : Time) (n : ℕ) (e : Option Error) → Same (stored a n e) (stored b n e)
  same_done : (r s : SyncResult) → SameReport r s → Same (done r) (done s)

-- What a goroutine holds is of its provider.
abbrev pub Owned : {F W : Type 0} → Provider F W → Task F → Type 0
Owned p ready = Unit
Owned p (started a) = Unit
Owned {F} p (fetched a (ok cs)) = All (λ (c : Content F). c.provider_id ≡ p.name) cs
Owned p (fetched a (err e)) = Unit
Owned p (stored a n e) = Unit
Owned p (done r) = Unit

module _ {F W V : Type 0} (view : W → String → V) (svc : SyncService F W)
    (h : StoreIsLocal view svc) where
  -- The same task, and the same view of a provider.
  abbrev pub Alike : String → Task F × W → Task F × W → Type 0
  Alike n x y = Same x.0 y.0 × (view x.1 n ≡ view y.1 n)

  clocks-eq :
      (n : String) (v w : W) → view v n ≡ view w n → view (svc.clock v).1 n ≡ view (svc.clock w).1 n
  clocks-eq n v w e = h.clock_spares v n ∙ e ∙ sym (h.clock_spares w n)

  SameContents-length : (cs ds : List (Content F)) → SameContents cs ds → length cs ≡ length ds
  SameContents-length [] [] same = refl
  SameContents-length [] (d ∷ ds) same = absurd (elim same [ ])
  SameContents-length (c ∷ cs) [] same = absurd (elim same [ ])
  SameContents-length (c ∷ cs) (d ∷ ds) same = ap suc (SameContents-length cs ds same.1)

  after_store-Same :
      (a b : Time) (cs ds : List (Content F)) (r s : Result (List (Content F)))
      → length cs ≡ length ds
      → failure r ≡ failure s
      → Same (after_store a cs r) (after_store b ds s)
  unfolding after_store
  after_store-Same a b cs ds (ok x) (ok y) many e =
      subst (λ n. Same {F = F} (stored a (length cs) none) (stored b n none)) many
        (same_stored a b (length cs) none)
  after_store-Same a b cs ds (ok x) (err y) many e = cc
  after_store-Same a b cs ds (err x) (ok y) many e = cc
  after_store-Same a b cs ds (err x) (err y) many e =
      subst (λ z. Same {F = F} (stored a 0 (some x)) (stored b 0 z)) e (same_stored a b 0 (some x))

  store-Alike :
      (n : String) (a b : Time) (cs ds : List (Content F)) (v w : W)
      → All (λ (c : Content F). c.provider_id ≡ n) cs
      → SameContents cs ds
      → view v n ≡ view w n
      → Alike n (store svc a cs v) (store svc b ds w)
  unfolding store
  store-Alike n a b [] [] v w own same e = (same_stored a b 0 none, e)
  store-Alike n a b [] (d ∷ ds) v w own same e = absurd (elim same [ ])
  store-Alike n a b (c ∷ cs) [] v w own same e = absurd (elim same [ ])
  store-Alike n a b (c ∷ cs) (d ∷ ds) v w own same e = (
    after_store-Same a b (c ∷ cs) (d ∷ ds) _ _ (SameContents-length (c ∷ cs) (d ∷ ds) same)
        (h.reads n (c ∷ cs) (d ∷ ds) v w own same e),
    h.moves n (c ∷ cs) (d ∷ ds) v w own same e,
  )

  after_fetch-Alike :
      (p : Provider F W) (a b : Time) (r s : Result (List (Content F))) (v w : W)
      → Owned p (fetched a r)
      → SameFetch r s
      → view v p.name ≡ view w p.name
      → Alike p.name (after_fetch svc a r v) (after_fetch svc b s w)
  unfolding after_fetch
  after_fetch-Alike p a b (ok cs) (ok ds) v w own same e =
      store-Alike p.name a b cs ds v w own same e
  after_fetch-Alike p a b (ok cs) (err y) v w own same e = absurd (elim same [ ])
  after_fetch-Alike p a b (err x) (ok ds) v w own same e = absurd (elim same [ ])
  after_fetch-Alike p a b (err x) (err y) v w own same e = (
    subst (λ z. Same {F = F} (stored a 0 (some x)) (stored b 0 (some z))) same
        (same_stored a b 0 (some x)),
    e,
  )

  pub advance-Alike :
      (p : Provider F W) (t u : Task F) (v w : W)
      → FetchIsLocal view p
      → Owned p t
      → Same t u
      → view v p.name ≡ view w p.name
      → Alike p.name (advance svc p t v) (advance svc p u w)
  unfolding advance
  advance-Alike p _ _ v w fc own same_ready e = (same_started _ _, clocks-eq p.name v w e)
  advance-Alike p _ _ v w fc own (same_started a b) e =
      (same_fetched a b _ _ (fc.reads v w e), fc.moves v w e)
  advance-Alike p _ _ v w fc own (same_fetched a b r s same) e =
      after_fetch-Alike p a b r s v w own same e
  advance-Alike p _ _ v w fc own (same_stored a b n x) e =
      (same_done _ _ (refl, refl, refl), clocks-eq p.name v w e)
  advance-Alike p _ _ v w fc own (same_done r s same) e = (same_done r s same, e)

  fetched-Owned :
      (p : Provider F W) (a : Time) (w : W) (r : Result (List (Content F)))
      → FetchIsLocal view p
      → (p.fetch w).0 ≡ r
      → Owned p (fetched a r)
  fetched-Owned p a w (ok cs) fc e = fc.own w cs e
  fetched-Owned p a w (err x) fc e = tt

  after_store-Owned :
      (p : Provider F W) (a : Time) (cs : List (Content F)) (r : Result (List (Content F)))
      → Owned p (after_store a cs r)
  unfolding after_store
  after_store-Owned p a cs (ok x) = tt
  after_store-Owned p a cs (err x) = tt

  store-Owned :
      (p : Provider F W) (a : Time) (cs : List (Content F)) (w : W) → Owned p (store svc a cs w).0
  unfolding store
  store-Owned p a [] w = tt
  store-Owned p a (c ∷ cs) w = after_store-Owned p a (c ∷ cs) _

  pub advance-Owned :
      (p : Provider F W) (t : Task F) (w : W) → FetchIsLocal view p → Owned p (advance svc p t w).0
  unfolding advance after_fetch
  advance-Owned p ready w fc = tt
  advance-Owned p (started a) w fc = fetched-Owned p a w _ fc refl
  advance-Owned p (fetched a (ok cs)) w fc = store-Owned p a cs w
  advance-Owned p (fetched a (err x)) w fc = tt
  advance-Owned p (stored a n e) w fc = tt
  advance-Owned p (done r) w fc = tt

  store-spares :
      (p : Provider F W) (a : Time) (cs : List (Content F)) (w : W) (m : String)
      → All (λ (c : Content F). c.provider_id ≡ p.name) cs
      → m ≢ p.name
      → view (store svc a cs w).1 m ≡ view w m
  unfolding store
  store-spares p a [] w m own other = refl
  store-spares p a (c ∷ cs) w m own other = h.spares p.name m (c ∷ cs) w own other

  -- A step leaves what there is of the others.
  pub advance-spares :
      (p : Provider F W) (t : Task F) (w : W) (m : String)
      → FetchIsLocal view p
      → Owned p t
      → m ≢ p.name
      → view (advance svc p t w).1 m ≡ view w m
  unfolding advance after_fetch
  advance-spares p ready w m fc own other = h.clock_spares w m
  advance-spares p (started a) w m fc own other = fc.spares w m other
  advance-spares p (fetched a (ok cs)) w m fc own other = store-spares p a cs w m own other
  advance-spares p (fetched a (err x)) w m fc own other = refl
  advance-spares p (stored a n e) w m fc own other = h.clock_spares w m
  advance-spares p (done r) w m fc own other = refl
