-- ===== src/Job/Cooldown/Hosting.antt =====
-- internal/job/sync_scheduler.go: a scheduler of one instance as a step of all instances together.
use mathlib.Core.Path.{fun_ext}
use search_engine_service.Base.{
  ℕ, ◌≡◌, refl, sym, ap, ◌∙◌, String, List, Bool, true, false, Bool-cases, inl, inr, if◌then◌else◌,
  ◌==◌, ==_iff, nat_eq, arith,
}
use search_engine_service.Base.Effects.{Result, ok, err, Eff, pure, ◌>>=◌}
use search_engine_service.Service.Sync.{SyncResult, count_results}
use search_engine_service.Locker.{RedisLocker}
use search_engine_service.Job.{
  SyncScheduler, lock_key, has_error, handle_results, after_acquire, execute_sync, lock_error,
  skipped, completed,
}
use search_engine_service.Job.Cooldown.Lockers.{Cluster, in_instance}

-- Each call of the scheduler of instance `i`, as a step of the cluster.
abbrev pub hosted :
    {W M : Type 0} → (ℕ → SyncScheduler (RedisLocker W M)) → ℕ → SyncScheduler (Cluster W M)
hosted s i = record {
  sync = λ t. in_instance i ((s i).sync t);
  interval = (s i).interval;
  timeout = (s i).timeout;
  locker = record {
    acquire = λ key ttl. in_instance i ((s i).locker.acquire key ttl);
    release = λ key. in_instance i ((s i).locker.release key);
  };
}

self_eq : (i : ℕ) → (i == i) ≡ true
self_eq i = (==_iff i i).1 refl

module _ {A : Type 0} where
  -- What is put into the map of an instance is what is read there, and the last of two writes counts.
  abbrev put : ℕ → A → (ℕ → A) → ℕ → A
  put i ms maps j = if j == i then ms else maps j

  put_self : (i : ℕ) (ms : A) (maps : ℕ → A) → put i ms maps i ≡ ms
  put_self i ms maps = rw (self_eq i)

  put_twice : (i : ℕ) (ms ns : A) (maps : ℕ → A) → put i ms (put i ns maps) ≡ put i ms maps
  put_twice i ms ns maps = fun_ext (λ j. ground arith)

  put_same : (i : ℕ) (maps : ℕ → A) → put i (maps i) maps ≡ maps
  put_same i maps = fun_ext (λ j. ground (arith, ==_iff j i))

module _ {W M : Type 0} where
  in_instance-pure :
      {A : Type 0} (i : ℕ) (a : A) (s : Cluster W M)
      → in_instance {W = W} {M = M} i (pure a) s ≡ (a, s)
  in_instance-pure i a s =
      ap (λ maps. (a, record { mutexes = maps; world = s.world })) (put_same i s.mutexes)

  -- Two steps of one instance are a step of it.
  in_instance-bind :
      {A B : Type 0} (i : ℕ) (m : Eff (RedisLocker W M) A) (k : A → Eff (RedisLocker W M) B)
      (s : Cluster W M)
      → (in_instance i m >>= λ a. in_instance i (k a)) s ≡ in_instance i (m >>= k) s
  in_instance-bind {B = B} i m k s =
      let (a, l) = m (record { mutexes = s.mutexes i; world = s.world }) in
      let (b, l') = k a l in
      let next = λ (ms : List (String × M)).
        let (c, u) = k a (record { mutexes = ms; world = l.world }) in
        let r : B × Cluster W M =
          (c, record { mutexes = put i u.mutexes (put i l.mutexes s.mutexes); world = u.world }) in
        r in
      ap next (put_self i l.mutexes s.mutexes)
      ∙ ap (λ maps. (b, record { mutexes = maps; world = l'.world }))
          (put_twice i l'.mutexes l.mutexes s.mutexes)

  module _ (s : ℕ → SyncScheduler (RedisLocker W M)) (i : ℕ) where
    handle_results-hosted :
        (rs : List SyncResult) (c : Cluster W M)
        → handle_results (hosted s i) rs c ≡ in_instance i (handle_results (s i) rs) c
    unfolding handle_results
    handle_results-hosted rs c = elim (Bool-cases (has_error rs)) [
      | inl bad ↦ rw bad
      | inr good ↦ rw good (sym (in_instance-pure i (completed (count_results rs).0) c))
    ]

    after_acquire-hosted :
        (r : Result Bool) (c : Cluster W M)
        → after_acquire (hosted s i) r c ≡ in_instance i (after_acquire (s i) r) c
    unfolding after_acquire
    after_acquire-hosted (err e) c = sym (in_instance-pure i (lock_error e) c)
    after_acquire-hosted (ok false) c = sym (in_instance-pure i skipped c)
    after_acquire-hosted (ok true) c =
        let (rs, c') = in_instance i ((s i).sync (s i).timeout) c in
        handle_results-hosted rs c'
        ∙ in_instance-bind i ((s i).sync (s i).timeout) (handle_results (s i)) c

    -- An execution call by call is an execution of the scheduler by itself.
    pub execute_sync-hosted :
        (c : Cluster W M) → execute_sync (hosted s i) c ≡ in_instance i (execute_sync (s i)) c
    unfolding execute_sync
    execute_sync-hosted c =
        let (r, c') = in_instance i ((s i).locker.acquire lock_key (s i).interval) c in
        after_acquire-hosted r c'
        ∙ in_instance-bind i ((s i).locker.acquire lock_key (s i).interval) (after_acquire (s i)) c
