-- ===== src/App/Cooldown.antt =====
-- cmd/api/main.go in several instances over one Redis: the time between two synchronisations. `rs i`
-- is the Redsync of instance `i`, and `Runs w i e` says that in the world `w` it holds the lock of the
-- scheduler until the time `e`.
use mathlib.Core.Path.{fun_ext}
use search_engine_service.Base.{ℕ, ◌+◌, ◌<◌, ◌≡◌, refl, subst, List, [], ◌∷◌}
use search_engine_service.Base.Int.{pos_part}
use search_engine_service.Base.Float.{Float}
use search_engine_service.Base.Effects.{Eff, pure, ◌>>=◌}
use search_engine_service.Domain.Content.{Duration}
use search_engine_service.Service.Sync.{SyncResult}
use search_engine_service.Locker.{Redsync}
use search_engine_service.Job.{
  SyncScheduler, SyncOutcome, completed, execute_sync, new_sync_scheduler,
}
use search_engine_service.Job.Cooldown.{SyncContract, IsBlocked, instance_at, run_all, cooldown}
use search_engine_service.Job.Cooldown.Lockers.{
  Cluster, in_instance, lockers, clock, Leased, lockers-LockContract,
}
use search_engine_service.Job.Cooldown.Hosting.{execute_sync-hosted}
use search_engine_service.App.{Platform, running, App, boot, scheduler}
use search_engine_service.App.Quiet.{CooldownContract, Quiet, boot-Quiet}

-- Instances take turns; each ends what it does before the next begins.
abbrev pub each : {S A : Type 0} → (ℕ → Eff S A) → List ℕ → Eff S (Unit {0})
each run [] = pure tt
each run (j ∷ js) = do _ ← run j; each run js

-- Once an instance has completed a sync, none runs another before the interval is over.
abbrev CoolsDown : {S : Type 0} → (S → ℕ) → ℕ → (ℕ → Eff S SyncOutcome) → Type 0
CoolsDown {S} now interval run =
    (i : ℕ) (s : S) (n : ℕ) (js : List ℕ) (j : ℕ)
    → (run i s).0 ≡ completed n
    → let v = (each run js (run i s).1).1 in
      now (run j v).1 < now s + interval → IsBlocked (run j v).0

module _ {F W V H X D P C M : Type 0} ⦃f : Float F⦄ (now : W → ℕ) (Runs : W → ℕ → ℕ → Type 0)
    (rs : ℕ → Redsync W M) (p : Platform F W V H X D P C) (h : CooldownContract now Runs rs p)
    (pick : ℕ → Duration → W → List ℕ) where
  -- An execution of the scheduler that instance `i` has put together.
  abbrev pub executes : App F W H X D C → ℕ → Eff (Cluster W M) SyncOutcome
  executes a i = in_instance i (execute_sync (scheduler p (rs i) (pick i) a))

  -- The synchronisation of one instance, in the world of all.
  abbrev pub syncs : App F W H X D C → ℕ → Duration → Eff (Cluster W M) (List SyncResult)
  syncs a i t = in_instance i ((scheduler p (rs i) (pick i) a).sync t)

  pub syncs-SyncContract :
      (a : App F W H X D C) (i : ℕ)
      → Quiet now Runs rs p h a
      → SyncContract (clock now Runs rs h.redsync) (Leased now Runs rs h.redsync) (syncs a i)
  unfolding scheduler new_sync_scheduler
  syncs-SyncContract a i quiet = record {
    sync_keeps = λ t s j e leased soon. (quiet (pick i t s.world) s.world).1 j e leased soon;
    sync_clock = λ t s. (quiet (pick i t s.world) s.world).0;
  }

  abbrev interval_of : App F W H X D C → ℕ
  interval_of a = pos_part a.config.sync.interval

  abbrev member : App F W H X D C → ℕ → SyncScheduler (Cluster W M)
  member a =
      instance_at (clock now Runs rs h.redsync) (Leased now Runs rs h.redsync) (syncs a)
        a.config.sync.interval a.config.sync.timeout (lockers rs)

  member-executes :
      (a : App F W H X D C) (i : ℕ) (s : Cluster W M) → execute_sync (member a i) s ≡ executes a i s
  unfolding scheduler new_sync_scheduler
  member-executes a i s = execute_sync-hosted (λ j. scheduler p (rs j) (pick j) a) i s

  run_all-each :
      (a : App F W H X D C) (js : List ℕ) (s : Cluster W M)
      → run_all
          (clock now Runs rs h.redsync)
          (Leased now Runs rs h.redsync)
          (syncs a)
          a.config.sync.interval
          a.config.sync.timeout
          (lockers rs)
          js
          s
        ≡ each (λ i. execute_sync (member a i)) js s
  run_all-each a [] s = refl
  run_all-each a (j ∷ js) s = run_all-each a js _

  CoolsDown-of_Quiet :
      (a : App F W H X D C)
      → Quiet now Runs rs p h a
      → CoolsDown (clock now Runs rs h.redsync) (interval_of a) (executes a)
  CoolsDown-of_Quiet a quiet =
      subst (CoolsDown (clock now Runs rs h.redsync) (interval_of a))
        (fun_ext (λ i. fun_ext (member-executes a i)))
        (λ i s n js j done.
          subst
            (λ (v : Unit {0} × Cluster W M).
              clock now Runs rs h.redsync (execute_sync (member a j) v.1).1
                < now s.world + interval_of a
              → IsBlocked (execute_sync (member a j) v.1).0)
            (run_all-each a js _)
            (cooldown (clock now Runs rs h.redsync) (Leased now Runs rs h.redsync) (syncs a)
              a.config.sync.interval a.config.sync.timeout (lockers rs)
              (lockers-LockContract now Runs rs h.redsync) (λ k. syncs-SyncContract a k quiet) i s n
              js j done))

  -- Over a Redis, a database, a network and a clock that keep what they document, for an application
  -- that the start has brought up and that runs in many instances, whose executions follow one
  -- another: once the scheduler of instance `i` has completed a sync without errors that it began at
  -- the time `now`, and whatever executions of whatever instances follow, an execution of any
  -- instance that is over before that time plus the configured interval runs no sync.
  pub boot-cooldown :
      (w : W) (a : App F W H X D C) (i : ℕ) (s : Cluster W M) (n : ℕ) (js : List ℕ) (j : ℕ)
      → (boot p w).0 ≡ running a
      → (executes a i s).0 ≡ completed n
      → let v = (each (executes a) js (executes a i s).1).1 in
        now (executes a j v).1.world < now s.world + pos_part a.config.sync.interval
        → IsBlocked (executes a j v).0
  boot-cooldown w a i s n js j up =
      CoolsDown-of_Quiet a (boot-Quiet now Runs rs p h w a up) i s n js j
