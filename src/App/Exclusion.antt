-- ===== src/App/Exclusion.antt =====
-- cmd/api/main.go in several instances over one Redis, call by call: which of them synchronise at one
-- time. `rs i` is the Redsync of instance `i`, and `Runs w i e` says that in the world `w` it holds the
-- lock of the scheduler until the time `e`.
use search_engine_service.Base.{ℕ, ◌+◌, ◌≤◌, ◌≡◌, ◌≢◌, ◌⊎◌, List}
use search_engine_service.Base.Int.{pos_part}
use search_engine_service.Base.Float.{Float}
use search_engine_service.Domain.Content.{Duration}
use search_engine_service.Locker.{Redsync, RedisLocker}
use search_engine_service.Job.{SyncScheduler, new_sync_scheduler}
use search_engine_service.Job.Cooldown.Lockers.{
  Cluster, lockers, clock, Leased, lockers-LockContract, lockers-release,
}
use search_engine_service.Job.Cooldown.Hosting.{hosted}
use search_engine_service.Job.Interleaving.{syncing, Instances, run_steps, at_rest}
use search_engine_service.Job.Interleaving.Exclusion.{run_steps-IsOver}
use search_engine_service.App.{Platform, running, App, boot, scheduler}
use search_engine_service.App.Quiet.{CooldownContract, boot-Quiet}
use search_engine_service.App.Cooldown.{syncs, syncs-SyncContract}

module _ {F W V H X D P C M : Type 0} ⦃f : Float F⦄ (now : W → ℕ) (Runs : W → ℕ → ℕ → Type 0)
    (rs : ℕ → Redsync W M) (p : Platform F W V H X D P C) (h : CooldownContract now Runs rs p)
    (pick : ℕ → Duration → W → List ℕ) where
  -- The scheduler that each instance has put together.
  abbrev pub schedulers : App F W H X D C → ℕ → SyncScheduler (RedisLocker W M)
  schedulers a i = scheduler p (rs i) (pick i) a

  -- The instances of an application after the calls of some order.
  abbrev pub ran : App F W H X D C → List ℕ → Cluster W M → Instances (Cluster W M)
  ran a order s = run_steps (clock now Runs rs h.redsync) (hosted (schedulers a)) order (at_rest s)

  -- Over a Redis, a database, a network and a clock that keep what they document, for an application
  -- that the start has brought up and that runs in many instances, from a state in which none has
  -- begun an execution and in whatever order the calls of their executions fall, where the calls of
  -- one synchronisation follow one another: if two instances are synchronising at one time, the
  -- configured interval of one of them, counted from the time at which it asked for the lock, is
  -- over.
  pub boot-IsOver :
      (w : W) (a : App F W H X D C) (order : List ℕ) (s : Cluster W M) (i j t u : ℕ)
      → (boot p w).0 ≡ running a
      → i ≢ j
      → (ran a order s).phases i ≡ syncing t
      → (ran a order s).phases j ≡ syncing u
      → (t + pos_part a.config.sync.interval ≤ now (ran a order s).world.world)
        ⊎ (u + pos_part a.config.sync.interval ≤ now (ran a order s).world.world)
  unfolding scheduler new_sync_scheduler
  boot-IsOver w a order s i j t u up =
      run_steps-IsOver (clock now Runs rs h.redsync) (Leased now Runs rs h.redsync)
        (syncs now Runs rs p h pick a) a.config.sync.interval a.config.sync.timeout (lockers rs)
        (lockers-LockContract now Runs rs h.redsync)
        (λ k. syncs-SyncContract now Runs rs p h pick a k (boot-Quiet now Runs rs p h w a up))
        (lockers-release now Runs rs h.redsync) order s i j t u
