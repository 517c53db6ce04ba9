-- ===== src/Tests/CooldownTests.antt =====
-- cmd/api/main.go in three instances, with a Redis in memory that has one lock of 300 nanoseconds.
use search_engine_service.Base.{
  ℕ, suc, ◌==◌, nat_eq, ==_iff, ◌≡◌, refl, List, [], ◌∷◌, none, some, true, leb, ◌&&◌, arith,
  String, string_eq, if◌then◌else◌, Bool-cases, inl, inr,
}
use search_engine_service.Base.Int.{pos_part}
use search_engine_service.Base.Effects.{ok, err, lock_failed}
use search_engine_service.Base.Dict.{lookup}
use search_engine_service.Domain.Content.{Duration}
use search_engine_service.Domain.Ports.{Bytes}
use search_engine_service.Locker.{Redsync}
use search_engine_service.Job.{lock_key, SyncOutcome, completed, execute_sync}
use search_engine_service.App.{scheduler, assemble}
use search_engine_service.Infra.Provider.ProviderA
use search_engine_service.Infra.Provider.ProviderB
use search_engine_service.Job.Cooldown.{IsBlocked}
use search_engine_service.Job.Cooldown.Lockers.{Cluster, RedsyncContract}
use search_engine_service.App.Quiet.{CooldownContract}
use search_engine_service.App.Cooldown.{executes, each, boot-cooldown}
use search_engine_service.Tests.Fakes.{toy}
use search_engine_service.Tests.Platforms.{World}
use search_engine_service.Tests.RedisTests.{Memory}
use search_engine_service.Tests.SyncingTests.{syncing, app, started, turns}

abbrev head_of : Bytes → ℕ
head_of [] = 0
head_of (b ∷ bytes) = b

-- The holder of the lock plus one, or zero.
owner : Memory → ℕ
owner m = elim (lookup "lock" m) [ none ↦ 0 | some b ↦ suc (head_of b) ]

abbrev one_lock : ℕ → Redsync World (String × ℕ)
one_lock i = record {
  new_mutex = λ key ttl w. ((key, pos_part ttl), w);
  lock = λ m w.
      if m.0 == lock_key
      then (if leb m.1 300 && owner w.1 == 0
          then (ok tt, (w.0, ("lock", i ∷ []) ∷ w.1))
          else (err lock_failed, w))
      else (ok tt, w);
  unlock = λ m w. (ok true, if m.0 == lock_key && owner w.1 == suc i then (w.0, []) else w);
}

abbrev still : World → ℕ
still w = 0

abbrev Runs : World → ℕ → ℕ → Type 0
Runs w i e = (owner w.1 ≡ suc i) × (e ≡ 300)

one_lock-RedsyncContract : RedsyncContract still Runs one_lock
unfolding owner lookup
one_lock-RedsyncContract = record {
  mutex_keeps = λ i ttl w j e runs soon. runs;
  mutex_clock = λ i ttl w. omega arith;
  lock_runs = λ i ttl w got. elim (Bool-cases (leb (pos_part ttl) 300 && owner w.1 == 0)) [
    | inl free ↦ rw free (300, ground arith, (refl, refl))
    | inr taken ↦ absurd (ground arith)
  ];
  lock_excludes = λ i ttl w j e got runs. ground arith;
  lock_keeps = λ i m w j e runs soon. ground arith;
  lock_clock = λ i m w. omega arith;
  unlock_keeps = λ i m w j e other runs soon. ground (arith, ==_iff (owner w.1) (suc i));
  unlock_clock = λ i m w. omega arith;
}

syncing-CooldownContract : CooldownContract still Runs one_lock syncing
syncing-CooldownContract = record {
  redsync = one_lock-RedsyncContract;
  write_moves = λ db rule ms n w. (omega arith, λ j e runs soon. runs);
  now_moves = λ db w. (omega arith, λ j e runs soon. runs);
  a_moves = λ s t. record {
    get_moves = λ url w. (omega arith, λ j e runs soon. runs);
    execute_moves = λ m moves. moves;
    now_moves = λ w. (omega arith, λ j e runs soon. runs);
  };
  b_moves = λ s t. record {
    get_moves = λ url w. (omega arith, λ j e runs soon. runs);
    execute_moves = λ m moves. moves;
    now_moves = λ w. (omega arith, λ j e runs soon. runs);
  };
  clock_moves = λ w. (omega arith, λ j e runs soon. runs);
}

abbrev fresh : Cluster World (String × ℕ)
fresh = record { mutexes = λ i. []; world = ([], []) }

abbrev order : ℕ → Duration → World → List ℕ
order i timeout w = turns

abbrev execute : ℕ → Cluster World (String × ℕ) → SyncOutcome × Cluster World (String × ℕ)
execute = executes still Runs one_lock syncing syncing-CooldownContract order app

first : (execute 0 fresh).0 ≡ completed 2
unfolding execute_sync scheduler assemble owner lookup ProviderA.as_provider ProviderB.as_provider
first = refl

abbrev later : Cluster World (String × ℕ)
later = (each execute (1 ∷ 2 ∷ []) (execute 0 fresh).1).1

boot-cooldown_example : IsBlocked (execute 1 later).0
unfolding assemble
boot-cooldown_example =
    boot-cooldown still Runs one_lock syncing syncing-CooldownContract order ([], []) app 0 fresh 2
      (1 ∷ 2 ∷ []) 1 started first (omega arith)
