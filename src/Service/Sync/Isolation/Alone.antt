-- ===== src/Service/Sync/Isolation/Alone.antt =====
-- internal/app/service/sync_service.go, `syncProvider`: where a goroutine stands beside others,
-- compared with one that runs alone.
use search_engine_service.Base.{ℕ, zero, suc, ◌-◌, ◌≤◌, ◌≡◌, refl, ◌∙◌, String, arith}
use search_engine_service.Base.Effects.{Eff, pure, ◌>>=◌}
use search_engine_service.Domain.Ports.{Provider}
use search_engine_service.Service.Sync.{
  SyncService, Task, ready, started, fetched, stored, done, advance, finish, result_of,
}
use search_engine_service.Service.Sync.Outcomes.{calls_left, advance-calls_left}
use search_engine_service.Service.Sync.Isolation.{FetchIsLocal, StoreIsLocal, SameReport}
use search_engine_service.Service.Sync.Isolation.Steps.{
  Same, same_ready, same_started, same_fetched, same_stored, same_done, Owned, Alike, advance-Alike,
  advance-Owned,
}

pub Same-calls_left :
    {F W : Type 0} (svc : SyncService F W) (t u : Task F)
    → Same t u
    → calls_left svc t ≡ calls_left svc u
Same-calls_left svc _ _ same_ready = refl
Same-calls_left svc _ _ (same_started a b) = refl
Same-calls_left svc _ _ (same_fetched a b r s same) = refl
Same-calls_left svc _ _ (same_stored a b n e) = refl
Same-calls_left svc _ _ (same_done r s same) = refl

pub Same-SameReport :
    {F W : Type 0} (svc : SyncService F W) (t u : Task F)
    → Same t u
    → SameReport (result_of svc t) (result_of svc u)
Same-SameReport svc _ _ same_ready = (refl, refl, refl)
Same-SameReport svc _ _ (same_started a b) = (refl, refl, refl)
Same-SameReport svc _ _ (same_fetched a b r s same) = (refl, refl, refl)
Same-SameReport svc _ _ (same_stored a b n e) = (refl, refl, refl)
Same-SameReport svc _ _ (same_done r s same) = same

module _ {F W V : Type 0} (view : W → String → V) (svc : SyncService F W)
    (h : StoreIsLocal view svc) where
  -- The first calls of a goroutine that runs alone.
  pub alone : Provider F W → ℕ → Eff W (Task F)
  alone p zero = pure ready
  alone p (suc k) = do t ← alone p k; advance svc p t

  pub alone-calls_left : (p : Provider F W) (k : ℕ) (w : W) → calls_left svc (alone p k w).0 ≡ 4 - k
  unfolding alone
  alone-calls_left p zero w = omega arith
  alone-calls_left p (suc k) w =
      omega
        (arith, alone-calls_left p k w, advance-calls_left svc p (alone p k w).0 (alone p k w).1)

  advance-over :
      (p : Provider F W) (t : Task F) (w : W) → calls_left svc t ≡ 0 → advance svc p t w ≡ (t, w)
  unfolding advance
  advance-over p ready w over = absurd (omega arith)
  advance-over p (started a) w over = absurd (omega arith)
  advance-over p (fetched a r) w over = absurd (omega arith)
  advance-over p (stored a n e) w over = absurd (omega arith)
  advance-over p (done r) w over = refl

  alone-over : (p : Provider F W) (k : ℕ) (w : W) → 4 ≤ k → alone p (suc k) w ≡ alone p k w
  unfolding alone
  alone-over p k w enough =
      advance-over p (alone p k w).0 (alone p k w).1 (omega (arith, alone-calls_left p k w))

  -- No call comes after the fourth.
  pub alone-finish : (p : Provider F W) (k : ℕ) (w : W) → 4 ≤ k → alone p k w ≡ finish svc p ready w
  unfolding alone finish
  alone-finish p zero w enough = absurd (omega arith)
  alone-finish p (suc zero) w enough = absurd (omega arith)
  alone-finish p (suc (suc zero)) w enough = absurd (omega arith)
  alone-finish p (suc (suc (suc zero))) w enough = absurd (omega arith)
  alone-finish p (suc (suc (suc (suc zero)))) w enough = refl
  alone-finish p (suc (suc (suc (suc (suc k))))) w enough =
      alone-over p (suc (suc (suc (suc k)))) w (omega arith)
      ∙ alone-finish p (suc (suc (suc (suc k)))) w (omega arith)

  -- A goroutine stands where it would stand alone after some number of calls from the world `o`.
  abbrev pub At : W → Provider F W → Task F → W → Type 0
  At o p t w = (k : ℕ) × Alike view svc h p.name (t, w) (alone p k o) × Owned p t

  pub At-advance :
      (o : W) (p : Provider F W) (t : Task F) (w : W)
      → FetchIsLocal view p
      → At o p t w
      → At o p (advance svc p t w).0 (advance svc p t w).1
  unfolding alone
  At-advance o p t w fc (k, (same, e), own) = (
    suc k,
    advance-Alike view svc h p t (alone p k o).0 w (alone p k o).1 fc own same e,
    advance-Owned view svc h p t w fc,
  )

  pub At-later :
      (o : W) (p : Provider F W) (t : Task F) (v w : W)
      → view w p.name ≡ view v p.name
      → At o p t v
      → At o p t w
  At-later o p t v w e (k, (same, e'), own) = (k, (same, e ∙ e'), own)

  pub ready-At : (o : W) (p : Provider F W) → At o p ready o
  unfolding alone
  ready-At o p = (0, (same_ready, refl), tt)
