-- ===== src/Job/Cooldown/Lockers.antt =====
-- pkg/locker/redis.go under internal/job/sync_scheduler.go: the lockers of all instances, each with the
-- mutexes that it remembers, over one Redis. `rs i` is the Redsync of instance `i`, and `Runs w i e` says
-- that in the world `w` it holds the lock of the scheduler until the time `e`.
use search_engine_service.Base.{
  ℕ, Option, none, some, Bool-cases, inl, inr, leb, ◌+◌, ◌≤◌, ◌<◌, ◌≡◌, ◌≢◌, refl, sym, subst,
  String, List, true, if◌then◌else◌, ◌==◌, nat_eq, arith,
}
use search_engine_service.Base.Int.{pos_part}
use search_engine_service.Base.Effects.{Result, ok, err, Eff}
use search_engine_service.Domain.Content.{Duration}
use search_engine_service.Locker.{
  DistributedLocker, Redsync, RedisLocker, acquire, after_lock, release, release_mutex, as_locker,
}
use search_engine_service.Job.{lock_key}
use search_engine_service.Job.Cooldown.{LockContract}

-- The maps of all instances, and what they share.
pub record Cluster (W M : Type 0) : Type 0 where
  pub mutexes : ℕ → List (String × M)
  pub world : W

-- The locker of one instance, as a step of the cluster.
abbrev pub in_instance : {W M A : Type 0} → ℕ → Eff (RedisLocker W M) A → Eff (Cluster W M) A
in_instance i step s =
    let (out, l) = step (record { mutexes = s.mutexes i; world = s.world }) in
    (out, record { mutexes = λ j. if j == i then l.mutexes else s.mutexes j; world = l.world })

abbrev pub lockers : {W M : Type 0} → (ℕ → Redsync W M) → ℕ → DistributedLocker (Cluster W M)
lockers rs i = record {
  acquire = λ key ttl. in_instance i ((as_locker (rs i)).acquire key ttl);
  release = λ key. in_instance i ((as_locker (rs i)).release key);
}

-- What Redsync documents of mutexes with one try: to make one does nothing but take time; a lock by a
-- mutex of the scheduler's key that succeeds runs for its time to live from then on, and was not made
-- while another of this key was running; no lock, of this key or of others, ends one that runs; an
-- unlock ends that of its own instance at most; time does not go back.
pub record RedsyncContract {W M : Type 0} (now : W → ℕ) (Runs : W → ℕ → ℕ → Type 0)
    (rs : ℕ → Redsync W M) : Type 0 where
  pub mutex_keeps :
      (i : ℕ) (ttl : Duration) (w : W) (j e : ℕ)
      → Runs w j e
      → now ((rs i).new_mutex lock_key ttl w).1 < e
      → Runs ((rs i).new_mutex lock_key ttl w).1 j e
  pub mutex_clock :
      (i : ℕ) (ttl : Duration) (w : W) → now w ≤ now ((rs i).new_mutex lock_key ttl w).1
  pub lock_runs :
      (i : ℕ) (ttl : Duration) (w : W)
      → let (m, v) = (rs i).new_mutex lock_key ttl w in
        ((rs i).lock m v).0 ≡ ok tt
        → (e : ℕ) × (now v + pos_part ttl ≤ e) × Runs ((rs i).lock m v).1 i e
  pub lock_excludes :
      (i : ℕ) (ttl : Duration) (w : W) (j e : ℕ)
      → let (m, v) = (rs i).new_mutex lock_key ttl w in
        ((rs i).lock m v).0 ≡ ok tt → Runs v j e → e ≤ now ((rs i).lock m v).1
  pub lock_keeps :
      (i : ℕ) (m : M) (w : W) (j e : ℕ)
      → Runs w j e
      → now ((rs i).lock m w).1 < e
      → Runs ((rs i).lock m w).1 j e
  pub lock_clock : (i : ℕ) (m : M) (w : W) → now w ≤ now ((rs i).lock m w).1
  pub unlock_keeps :
      (i : ℕ) (m : M) (w : W) (j e : ℕ)
      → i ≢ j
      → Runs w j e
      → now ((rs i).unlock m w).1 < e
      → Runs ((rs i).unlock m w).1 j e
  pub unlock_clock : (i : ℕ) (m : M) (w : W) → now w ≤ now ((rs i).unlock m w).1

module _ {W M : Type 0} (now : W → ℕ) (Runs : W → ℕ → ℕ → Type 0) (rs : ℕ → Redsync W M)
    (h : RedsyncContract now Runs rs) where
  abbrev pub clock : Cluster W M → ℕ
  clock s = now s.world

  abbrev pub Leased : Cluster W M → ℕ → ℕ → Type 0
  Leased s i e = Runs s.world i e

  after_lock-world :
      (key : String) (m : M) (r : Result (Unit {0})) (l : RedisLocker W M)
      → (after_lock key m r l).1.world ≡ l.world
  unfolding after_lock
  after_lock-world key m (ok done) l = refl
  after_lock-world key m (err e) l = refl

  after_lock-ok :
      (key : String) (m : M) (r : Result (Unit {0})) (l : RedisLocker W M)
      → (after_lock key m r l).0 ≡ ok true
      → r ≡ ok tt
  unfolding after_lock
  after_lock-ok key m (ok tt) l done = refl
  after_lock-ok key m (err e) l done = ground arith

  release_mutex-clock :
      (i : ℕ) (key : String) (m : Option M) (l : RedisLocker W M)
      → now l.world ≤ now (release_mutex (rs i) key m l).1.world
  unfolding release_mutex
  release_mutex-clock i key none l = omega arith
  release_mutex-clock i key (some m) l = h.unlock_clock i m l.world

  release_mutex-Runs :
      (i : ℕ) (key : String) (m : Option M) (l : RedisLocker W M) (j e : ℕ)
      → i ≢ j
      → Runs l.world j e
      → now (release_mutex (rs i) key m l).1.world < e
      → Runs (release_mutex (rs i) key m l).1.world j e
  unfolding release_mutex
  release_mutex-Runs i key none l j e other runs soon = runs
  release_mutex-Runs i key (some m) l j e other runs soon =
      h.unlock_keeps i m l.world j e other runs soon

  -- The mutex of an acquisition, and the world in which it is made.
  abbrev mutex : ℕ → String → Duration → RedisLocker W M → M × W
  mutex i key ttl l = (rs i).new_mutex key ttl l.world

  acquire-world :
      (i : ℕ) (key : String) (ttl : Duration) (l : RedisLocker W M)
      → ((rs i).lock (mutex i key ttl l).0 (mutex i key ttl l).1).1
        ≡ (acquire (rs i) key ttl l).1.world
  unfolding acquire
  acquire-world i key ttl l = sym (after_lock-world key _ _ _)

  acquire-ok :
      (i : ℕ) (key : String) (ttl : Duration) (l : RedisLocker W M)
      → (acquire (rs i) key ttl l).0 ≡ ok true
      → ((rs i).lock (mutex i key ttl l).0 (mutex i key ttl l).1).0 ≡ ok tt
  unfolding acquire
  acquire-ok i key ttl l got = after_lock-ok key _ _ _ got

  locked_later :
      (i : ℕ) (ttl : Duration) (w : W) (j e : ℕ)
      → let (m, v) = (rs i).new_mutex lock_key ttl w in
        ((rs i).lock m v).0 ≡ ok tt → Runs w j e → e ≤ now ((rs i).lock m v).1
  locked_later i ttl w j e got runs =
      let (m, v) = (rs i).new_mutex lock_key ttl w in
      elim (Bool-cases (leb e (now v))) [
        | inl over ↦ ground (arith, h.lock_clock i m v)
        | inr running ↦
            h.lock_excludes i ttl w j e got (h.mutex_keeps i ttl w j e runs (ground arith))
      ]

  locked_still :
      (i : ℕ) (ttl : Duration) (w : W) (j e : ℕ)
      → let (m, v) = (rs i).new_mutex lock_key ttl w in
        Runs w j e → now ((rs i).lock m v).1 < e → Runs ((rs i).lock m v).1 j e
  locked_still i ttl w j e runs soon =
      let (m, v) = (rs i).new_mutex lock_key ttl w in
      h.lock_keeps i m v j e (h.mutex_keeps i ttl w j e runs (omega (arith, h.lock_clock i m v)))
        soon

  locked_runs :
      (i : ℕ) (ttl : Duration) (w : W)
      → let (m, v) = (rs i).new_mutex lock_key ttl w in
        ((rs i).lock m v).0 ≡ ok tt
        → (e : ℕ) × (now w + pos_part ttl ≤ e) × Runs ((rs i).lock m v).1 i e
  locked_runs i ttl w got =
      let (e, long, runs) = h.lock_runs i ttl w got in
      (e, omega (arith, h.mutex_clock i ttl w), runs)

  -- The map and the world of one instance.
  abbrev instance_of : Cluster W M → ℕ → RedisLocker W M
  instance_of s i = record { mutexes = s.mutexes i; world = s.world }

  -- Over a Redsync that keeps what it documents, the Redis lockers of all instances together keep the
  -- contract that the scheduler relies on: an acquisition that succeeds holds the lock for the given
  -- time, and is made while no other instance holds it; a lock that is held is not ended by the
  -- attempts of the others.
  pub lockers-LockContract : LockContract clock Leased (lockers rs)
  unfolding as_locker release
  lockers-LockContract = record {
    acquire_leases = λ i ttl s got.
        let l = instance_of s i in
        let (e, long, runs) = locked_runs i ttl s.world (acquire-ok i lock_key ttl l got) in
        (e, long, subst (λ v. Runs v i e) (acquire-world i lock_key ttl l) runs);
    acquire_excludes = λ i ttl s j e got leased.
        let l = instance_of s i in
        subst (λ v. e ≤ now v) (acquire-world i lock_key ttl l)
          (locked_later i ttl s.world j e (acquire-ok i lock_key ttl l got) leased);
    acquire_keeps = λ i ttl s j e leased soon.
        let l = instance_of s i in
        subst (λ v. now v < e → Runs v j e) (acquire-world i lock_key ttl l)
          (locked_still i ttl s.world j e leased) soon;
    acquire_clock = λ i ttl s.
        let l = instance_of s i in
        let (m, v) = mutex i lock_key ttl l in
        subst (λ u. now s.world ≤ now u) (acquire-world i lock_key ttl l)
          (omega (arith, h.mutex_clock i ttl s.world, h.lock_clock i m v));
    release_clock = λ i s. release_mutex-clock i lock_key _ (instance_of s i);
  }

  -- A release of one instance does not end the lock of another.
  pub lockers-release :
      (i : ℕ) (s : Cluster W M) (j e : ℕ)
      → i ≢ j
      → Leased s j e
      → clock ((lockers rs i).release lock_key s).1 < e
      → Leased ((lockers rs i).release lock_key s).1 j e
  unfolding as_locker release
  lockers-release i s j e other leased soon =
      release_mutex-Runs i lock_key _ (instance_of s i) j e other leased soon
