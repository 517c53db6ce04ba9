-- ===== src/Locker/Handles.antt =====
-- pkg/locker/redis.go: which mutexes the locker remembers, and which one it unlocks.
use search_engine_service.Base.{
  String, ◌<>◌, Option, none, some, Bool, true, false, ◌≡◌, refl, ap, ◌∙◌, sym, ◌⊎◌, ==_iff,
  if◌then◌else◌, ◌==◌, string_eq, ==_refl, Bool-cases, inl, inr, arith,
}
use search_engine_service.Base.Effects.{wrapped, Result, ok, err}
use search_engine_service.Base.Dict.{lookup, lookup-insert, lookup-erase}
use search_engine_service.Domain.Content.{Duration}
use search_engine_service.Locker.{
  Redsync, RedisLocker, is_contention, after_lock, acquire, release_mutex, release,
}

module _ {W M : Type 0} (rs : Redsync W M) where
  -- What `NewMutex` and `LockContext` return when a locker acquires a key.
  abbrev pub fresh_mutex : String → Duration → RedisLocker W M → M
  fresh_mutex key ttl l = (rs.new_mutex key ttl l.world).0

  abbrev pub locked : String → Duration → RedisLocker W M → Result (Unit {0})
  locked key ttl l = (rs.lock (fresh_mutex key ttl l) (rs.new_mutex key ttl l.world).1).0

  abbrev pub is_ok {ℓ} : {A : Type ℓ} → Result A → Bool
  is_ok (ok a) = true
  is_ok (err e) = false

  -- What `Acquire` returns for each answer of Redsync.
  abbrev pub Answer : String → Result (Unit {0}) → Result Bool → Type 0
  Answer key (ok done) out = out ≡ ok true
  Answer key (err e) out =
      ((is_contention e ≡ true) × (out ≡ ok false))
      ⊎ ((is_contention e ≡ false) × (out ≡ err (wrapped ("acquire lock " <> key) e)))

  after_lock-Answer :
      (key : String) (m : M) (r : Result (Unit {0})) (l : RedisLocker W M)
      → Answer key r (after_lock key m r l).0
        × ((j : String)
            → lookup j (after_lock key m r l).1.mutexes ≡ (
                if is_ok r
                then if key == j then some m else lookup j l.mutexes
                else lookup j l.mutexes))
  unfolding after_lock
  after_lock-Answer key m (ok done) l = (refl, λ j. lookup-insert key j m l.mutexes)
  after_lock-Answer key m (err e) l = (ground arith, λ j. refl)

  -- `Acquire` returns true exactly if Redsync locked, false if the lock is held elsewhere, and a
  -- wrapped error otherwise; it remembers the new mutex under the key if it was locked, and changes
  -- nothing else that it remembers.
  pub acquire-Answer :
      (key : String) (ttl : Duration) (l : RedisLocker W M)
      → Answer key (locked key ttl l) (acquire rs key ttl l).0
        × ((j : String)
            → lookup j (acquire rs key ttl l).1.mutexes ≡ (
                if is_ok (locked key ttl l)
                then if key == j then some (fresh_mutex key ttl l) else lookup j l.mutexes
                else lookup j l.mutexes))
  unfolding acquire
  acquire-Answer key ttl l = after_lock-Answer key _ (locked key ttl l) _

  release_mutex-forgets :
      (key : String) (m : Option M) (l : RedisLocker W M) (j : String)
      → lookup key l.mutexes ≡ m
      → lookup j (release_mutex rs key m l).1.mutexes
        ≡ (if key == j then none else lookup j l.mutexes)
  unfolding release_mutex
  release_mutex-forgets key (some m) l j e = lookup-erase key j l.mutexes
  release_mutex-forgets key none l j e = elim (Bool-cases (key == j)) [
    | inl same ↦ rw same (ap (λ k. lookup k l.mutexes) (sym ((==_iff key j).0 same)) ∙ e)
    | inr other ↦ rw other
  ]

  -- After `Release`, whether it succeeded or failed, the key's mutex is forgotten and the others are
  -- kept; so a second `Release` of the key succeeds and does nothing.
  pub release_twice :
      (key : String) (l : RedisLocker W M)
      → ((j : String)
          → lookup j (release rs key l).1.mutexes ≡ (if key == j then none else lookup j l.mutexes))
        × (release rs key (release rs key l).1 ≡ (ok tt, (release rs key l).1))
  unfolding release
  release_twice key l =
      let forgets = λ (j : String). release_mutex-forgets key (lookup key l.mutexes) l j refl in
      let gone : lookup key (release rs key l).1.mutexes ≡ none =
        forgets key ∙ ap (λ b. if b then none else lookup key l.mutexes) (==_refl key) in
      (forgets, ap (λ m. release_mutex rs key m (release rs key l).1) gone)

  after_lock-lookup :
      (key : String) (m : M) (r : Result (Unit {0})) (l : RedisLocker W M)
      → (after_lock key m r l).0 ≡ ok true
      → lookup key (after_lock key m r l).1.mutexes ≡ some m
  unfolding after_lock
  after_lock-lookup key m (ok done) l h =
      lookup-insert key key m l.mutexes
      ∙ ap (λ b. if b then some m else lookup key l.mutexes) (==_refl key)
  after_lock-lookup key m (err e) l h = ground arith

  -- A key that was acquired is released by unlocking the very mutex that acquired it.
  pub release-acquire :
      (key : String) (ttl : Duration) (l : RedisLocker W M)
      → (acquire rs key ttl l).0 ≡ ok true
      → let held = (acquire rs key ttl l).1 in
        (release rs key held).1.world ≡ (rs.unlock (fresh_mutex key ttl l) held.world).1
  unfolding release acquire
  release-acquire key ttl l h =
      let found = after_lock-lookup key (fresh_mutex key ttl l) (locked key ttl l) _ h in
      ap (λ m. (release_mutex rs key m (acquire rs key ttl l).1).1.world) found
