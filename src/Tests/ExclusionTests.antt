-- ===== src/Tests/ExclusionTests.antt =====
-- cmd/api/main.go in two instances with an interval of two, where every request of the lock takes one
-- unit of time. The memory is a log: its length is the time, its last lock is the one that counts.
use search_engine_service.Base.{
  ℕ, zero, suc, ◌+◌, ◌≡◌, ◌≤◌, ◌⊎◌, refl, sym, ◌∙◌, List, [], ◌∷◌, none, some, true, leb, arith,
  if◌then◌else◌, Bool-cases, inl, inr, length, String, string_eq, ◌&&◌, ◌==◌, nat_eq, ==_iff,
}
use search_engine_service.Base.Int.{ℤ, pos, pos_part}
use search_engine_service.Base.Effects.{ok, err, lock_failed}
use search_engine_service.Base.Dict.{lookup}
use search_engine_service.Config.{Config}
use search_engine_service.Domain.Content.{Duration}
use search_engine_service.Domain.Ports.{Bytes}
use search_engine_service.Locker.{Redsync}
use search_engine_service.Job.Cooldown.Lockers.{Cluster, RedsyncContract}
use search_engine_service.Job.{lock_key}
use search_engine_service.Job.Interleaving.{syncing, Instances, run_steps}
use search_engine_service.App.{running, App, assemble, boot, scheduler}
use search_engine_service.App.Quiet.{CooldownContract}
use search_engine_service.App.Exclusion.{ran, boot-IsOver}
use search_engine_service.Tests.Fakes.{toy}
use search_engine_service.Tests.Platforms.{World, TestPlatform, config, viper, log}
use search_engine_service.Tests.RedisTests.{Memory}
use search_engine_service.Tests.SyncingTests.{syncing as platform, turns}

abbrev nth : ℕ → Bytes → ℕ
nth i [] = 0
nth zero (b ∷ bytes) = b
nth (suc i) (b ∷ bytes) = nth i bytes

holder : Memory → ℕ
holder m = elim (lookup "lock" m) [ none ↦ 0 | some b ↦ nth 0 b ]

until : Memory → ℕ
until m = elim (lookup "lock" m) [ none ↦ 0 | some b ↦ nth 1 b ]

abbrev now : World → ℕ
now w = length w.1

abbrev logged : ℕ → Redsync World (String × ℕ)
logged i = record {
  new_mutex = λ key ttl w. ((key, pos_part ttl), w);
  lock = λ m w.
      if m.0 == lock_key
      then (if leb (until w.1) (suc (now w))
          then (ok tt, (w.0, ("lock", i ∷ (suc (now w) + m.1) ∷ []) ∷ w.1))
          else (err lock_failed, (w.0, ("tick", []) ∷ w.1)))
      else (ok tt, (w.0, ("tick", []) ∷ w.1));
  unlock = λ m w. (
    ok true,
    if m.0 == lock_key && holder w.1 == i
        then (w.0, ("lock", i ∷ 0 ∷ []) ∷ w.1)
        else (w.0, ("tick", []) ∷ w.1),
  );
}

abbrev Runs : World → ℕ → ℕ → Type 0
Runs w i e = (holder w.1 ≡ i) × (until w.1 ≡ e)

logged-RedsyncContract : RedsyncContract now Runs logged
unfolding holder until lookup
logged-RedsyncContract = record {
  mutex_keeps = λ i ttl w j e runs soon. runs;
  mutex_clock = λ i ttl w. omega arith;
  lock_runs = λ i ttl w got. elim (Bool-cases (leb (until w.1) (suc (now w)))) [
    | inl free ↦ rw free (suc (now w) + pos_part ttl, omega arith, (refl, refl))
    | inr taken ↦ absurd (ground arith)
  ];
  lock_excludes = λ i ttl w j e got runs. ground arith;
  lock_keeps = λ i m w j e runs soon. ground arith;
  lock_clock = λ i m w. ground arith;
  unlock_keeps = λ i m w j e other runs soon. elim (Bool-cases (holder w.1 == i)) [
    | inl same ↦ absurd (other (sym ((==_iff (holder w.1) i).0 same) ∙ runs.0))
    | inr apart ↦ ground arith
  ];
  unlock_clock = λ i m w. ground arith;
}

abbrev quick_config : Config ℤ
quick_config = record config {
  sync = record { interval = pos 2; on_startup = true; timeout = pos 30; batch_size = pos 100 };
}

abbrev quick : TestPlatform
quick = record platform { viper = record viper { unmarshal = λ v w. (ok quick_config, w) } }

quick-CooldownContract : CooldownContract now Runs logged quick
quick-CooldownContract = record {
  redsync = logged-RedsyncContract;
  write_moves = λ db rule ms n w. (omega arith, λ j e runs soon. runs);
  now_moves = λ db w. (omega arith, λ j e runs soon. runs);
  a_moves = λ s t. record {
    get_moves = λ url w. (omega arith, λ j e runs soon. runs);
    execute_moves = λ m moves. moves;
    now_moves = λ w. (omega arith, λ j e runs soon. runs);
  };
  b_moves = λ s t. record {
    get_moves = λ url w. (omega arith, λ j e runs soon. runs);
    execute_moves = λ m moves. moves;
    now_moves = λ w. (omega arith, λ j e runs soon. runs);
  };
  clock_moves = λ w. (omega arith, λ j e runs soon. runs);
}

abbrev app : App ℤ World (Unit {0}) (Unit {0}) (Unit {0}) (Unit {0})
app = assemble quick quick_config log tt tt

started : (boot quick ([], [])).0 ≡ running app
unfolding boot
started = refl

abbrev order_of : ℕ → Duration → World → List ℕ
order_of i timeout w = turns

abbrev fresh : Cluster World (String × ℕ)
fresh = record { mutexes = λ i. []; world = ([], []) }

-- Instance 0 is still synchronising when its lock expires, and instance 1 asks a second time.
abbrev overrun : Instances (Cluster World (String × ℕ))
overrun = ran now Runs logged quick quick-CooldownContract order_of app (0 ∷ 1 ∷ 1 ∷ []) fresh

first : overrun.phases 0 ≡ syncing 0
unfolding run_steps scheduler holder until lookup assemble
first = refl

second : overrun.phases 1 ≡ syncing 2
unfolding run_steps scheduler holder until lookup assemble
second = refl

boot-IsOver_example :
    (0 + pos_part app.config.sync.interval ≤ now overrun.world.world)
    ⊎ (2 + pos_part app.config.sync.interval ≤ now overrun.world.world)
boot-IsOver_example =
    boot-IsOver now Runs logged quick quick-CooldownContract order_of ([], []) app (0 ∷ 1 ∷ 1 ∷ [])
      fresh 0 1 0 2 started (λ e. absurd (omega arith)) first second
