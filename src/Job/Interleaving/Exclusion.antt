-- ===== src/Job/Interleaving/Exclusion.antt =====
-- internal/job/sync_scheduler.go: which instances synchronise at one time.
use search_engine_service.Base.{
  ℕ, ◌+◌, ◌≤◌, ◌<◌, ◌≡◌, ◌≢◌, refl, sym, ◌∙◌, subst, ◌⊎◌, inl, inr, List, [], ◌∷◌, Bool, true,
  false, Bool-cases, arith, leb, ◌==◌, ==_iff, nat_eq,
}
use search_engine_service.Base.Int.{pos_part}
use search_engine_service.Base.Effects.{Result, ok, err, Eff}
use search_engine_service.Domain.Content.{Duration}
use search_engine_service.Service.Sync.{SyncResult}
use search_engine_service.Locker.{DistributedLocker}
use search_engine_service.Job.{SyncScheduler, lock_key}
use search_engine_service.Job.Cooldown.{LockContract, SyncContract, instance_at}
use search_engine_service.Job.Interleaving.{
  Phase, waiting, syncing, releasing, after_acquired, after_sync, after_release, advance, Instances,
  step, run_steps, at_rest,
}

-- What the lock's documentation says of `Release`: it does nothing to the lock of another instance.
abbrev pub ReleaseContract :
    {W : Type 0} → (W → ℕ) → (W → ℕ → ℕ → Type 0) → (ℕ → DistributedLocker W) → Type 0
ReleaseContract {W} now Leased locker =
    (i : ℕ) (w : W) (j e : ℕ)
    → i ≢ j
    → Leased w j e
    → now ((locker i).release lock_key w).1 < e
    → Leased ((locker i).release lock_key w).1 j e

module _ {W : Type 0} (now : W → ℕ) (Leased : W → ℕ → ℕ → Type 0)
    (sync : ℕ → Duration → Eff W (List SyncResult)) (interval timeout : Duration)
    (locker : ℕ → DistributedLocker W) where
  abbrev pub members : ℕ → SyncScheduler W
  members = instance_at now Leased sync interval timeout locker

  -- A lease since the time `t`, of the whole interval.
  abbrev pub HasLease : W → ℕ → ℕ → Type 0
  HasLease w i t = (e : ℕ) × (t + pos_part interval ≤ e) × (now w < e → Leased w i e)

  abbrev pub IsOver : W → ℕ → Type 0
  IsOver w t = t + pos_part interval ≤ now w

  -- Who synchronises has a lease, and of two who synchronise one is over its time.
  pub record IsExclusive (s : Instances W) : Type 0 where
    pub leases : (i t : ℕ) → s.phases i ≡ syncing t → HasLease s.world i t
    pub one_over :
        (i j t u : ℕ)
        → i ≢ j
        → s.phases i ≡ syncing t
        → s.phases j ≡ syncing u
        → IsOver s.world t ⊎ IsOver s.world u

  module _ (lock : LockContract now Leased locker)
      (work : (i : ℕ) → SyncContract now Leased (sync i))
      (release : ReleaseContract now Leased locker) where
    advance_clock : (i : ℕ) (p : Phase) (w : W) → now w ≤ now (advance now (members i) p w).1
    unfolding advance
    advance_clock i (waiting o) w = lock.acquire_clock i interval w
    advance_clock i (syncing t) w = (work i).sync_clock timeout w
    advance_clock i (releasing rs) w = lock.release_clock i w

    -- A call of one instance leaves the leases of the others.
    advance_keeps :
        (i : ℕ) (p : Phase) (w : W) (j e : ℕ)
        → i ≢ j
        → Leased w j e
        → now (advance now (members i) p w).1 < e
        → Leased (advance now (members i) p w).1 j e
    unfolding advance
    advance_keeps i (waiting o) w j e other leased soon =
        lock.acquire_keeps i interval w j e leased soon
    advance_keeps i (syncing t) w j e other leased soon =
        (work i).sync_keeps timeout w j e leased soon
    advance_keeps i (releasing rs) w j e other leased soon = release i w j e other leased soon

    HasLease-later :
        (i : ℕ) (p : Phase) (w : W) (j t : ℕ)
        → i ≢ j
        → HasLease w j t
        → HasLease (advance now (members i) p w).1 j t
    HasLease-later i p w j t other (e, far, leased) = (
      e,
      far,
      λ soon. advance_keeps i p w j e other (leased (omega (arith, advance_clock i p w))) soon,
    )

    after_sync-ne : (rs : List SyncResult) (t : ℕ) → after_sync rs ≢ syncing t
    unfolding after_sync
    after_sync-ne rs t e = ground arith

    acquired-HasLease :
        (i : ℕ) (w : W) (t : ℕ) (r : Result Bool)
        → ((locker i).acquire lock_key interval w).0 ≡ r
        → after_acquired (now w) r ≡ syncing t
        → HasLease ((locker i).acquire lock_key interval w).1 i t
    unfolding after_acquired
    acquired-HasLease i w t (err x) got begun = cc
    acquired-HasLease i w t (ok false) got begun = cc
    acquired-HasLease i w t (ok true) got begun =
        let (e, far, leased) = lock.acquire_leases i interval w got in
        let same : now w ≡ t = ground arith in (e, omega arith, λ soon. leased)

    -- Who has come to synchronise has just acquired a lease.
    begun-HasLease :
        (i : ℕ) (p : Phase) (w : W) (t : ℕ)
        → (advance now (members i) p w).0 ≡ syncing t
        → HasLease (advance now (members i) p w).1 i t
    unfolding advance after_release
    begun-HasLease i (waiting o) w t begun = acquired-HasLease i w t _ refl begun
    begun-HasLease i (syncing u) w t begun = absurd (after_sync-ne (sync i timeout w).0 t begun)
    begun-HasLease i (releasing rs) w t begun = cc

    acquired-IsOver :
        (i : ℕ) (w : W) (t j u : ℕ) (r : Result Bool)
        → ((locker i).acquire lock_key interval w).0 ≡ r
        → after_acquired (now w) r ≡ syncing t
        → HasLease w j u
        → IsOver ((locker i).acquire lock_key interval w).1 u
    unfolding after_acquired
    acquired-IsOver i w t j u (err x) got begun lease = cc
    acquired-IsOver i w t j u (ok false) got begun lease = cc
    acquired-IsOver i w t j u (ok true) got begun (e, far, leased) =
        elim (Bool-cases (leb e (now w))) [
          | inl late ↦ ground (arith, lock.acquire_clock i interval w)
          | inr running ↦
              let ended = lock.acquire_excludes i interval w j e got (leased (ground arith)) in
              omega arith
        ]

    -- Who comes to synchronise finds the others over their time.
    begun-IsOver :
        (i : ℕ) (p : Phase) (w : W) (t j u : ℕ)
        → (advance now (members i) p w).0 ≡ syncing t
        → HasLease w j u
        → IsOver (advance now (members i) p w).1 u
    unfolding advance after_release
    begun-IsOver i (waiting o) w t j u begun lease = acquired-IsOver i w t j u _ refl begun lease
    begun-IsOver i (syncing v) w t j u begun lease =
        absurd (after_sync-ne (sync i timeout w).0 t begun)
    begun-IsOver i (releasing rs) w t j u begun lease = cc

    -- The phase of an instance after a step: that of the step, or the one before.
    data StepOf (i : ℕ) (s : Instances W) (j t : ℕ) : Type 0 where
      own : i ≡ j → (advance now (members i) (s.phases i) s.world).0 ≡ syncing t → StepOf i s j t
      other : i ≢ j → s.phases j ≡ syncing t → StepOf i s j t

    step-StepOf :
        (i : ℕ) (s : Instances W) (j t : ℕ)
        → (step now members i s).phases j ≡ syncing t
        → StepOf i s j t
    unfolding step
    step-StepOf i s j t at = elim (Bool-cases (j == i)) [
      | inl same ↦ own (sym ((==_iff j i).0 same)) (rw same at at)
      | inr apart ↦ other (λ e. absurd (ground (arith, ==_iff j i))) (rw apart at at)
    ]

    StepOf-HasLease :
        (i : ℕ) (s : Instances W) (j t : ℕ)
        → IsExclusive s
        → StepOf i s j t
        → HasLease (advance now (members i) (s.phases i) s.world).1 j t
    StepOf-HasLease i s j t x (own same begun) =
        subst (λ k. HasLease (advance now (members i) (s.phases i) s.world).1 k t) same
          (begun-HasLease i (s.phases i) s.world t begun)
    StepOf-HasLease i s j t x (other apart at) =
        HasLease-later i (s.phases i) s.world j t apart (x.leases j t at)

    StepOf-IsOver :
        (i : ℕ) (s : Instances W) (j k t u : ℕ)
        → IsExclusive s
        → j ≢ k
        → StepOf i s j t
        → StepOf i s k u
        → let v = (advance now (members i) (s.phases i) s.world).1 in IsOver v t ⊎ IsOver v u
    StepOf-IsOver i s j k t u x apart (own same begun) (own same' begun') =
        absurd (apart (sym same ∙ same'))
    StepOf-IsOver i s j k t u x apart (own same begun) (other apart' at) =
        inr (begun-IsOver i (s.phases i) s.world t k u begun (x.leases k u at))
    StepOf-IsOver i s j k t u x apart (other apart' at) (own same begun) =
        inl (begun-IsOver i (s.phases i) s.world u j t begun (x.leases j t at))
    StepOf-IsOver i s j k t u x apart (other apart' at) (other apart'' at') =
        let later = advance_clock i (s.phases i) s.world in
        elim (x.one_over j k t u apart at at') [
          | inl over ↦ inl (omega arith)
          | inr over ↦ inr (omega arith)
        ]

    step-IsExclusive :
        (i : ℕ) (s : Instances W) → IsExclusive s → IsExclusive (step now members i s)
    unfolding step
    step-IsExclusive i s x = record {
      leases = λ j t at. StepOf-HasLease i s j t x (step-StepOf i s j t at);
      one_over = λ j k t u apart at at'.
          StepOf-IsOver i s j k t u x apart (step-StepOf i s j t at) (step-StepOf i s k u at');
    }

    run_steps-IsExclusive :
        (is : List ℕ) (s : Instances W) → IsExclusive s → IsExclusive (run_steps now members is s)
    unfolding run_steps
    run_steps-IsExclusive [] s x = x
    run_steps-IsExclusive (i ∷ is) s x = run_steps-IsExclusive is _ (step-IsExclusive i s x)

    at_rest-IsExclusive : (w : W) → IsExclusive (at_rest w)
    at_rest-IsExclusive w = record {
      leases = λ i t at. absurd (cc);
      one_over = λ i j t u apart at at'. absurd (cc);
    }

    -- For a lock and for synchronisations that keep their contracts, from a state in which no
    -- instance has begun and in whatever order the calls of the instances' executions fall: if two
    -- instances are synchronising at one time, the interval of one of them, counted from the time at
    -- which it asked for the lock, is over.
    pub run_steps-IsOver :
        (order : List ℕ) (w : W) (i j t u : ℕ)
        → i ≢ j
        → (run_steps now members order (at_rest w)).phases i ≡ syncing t
        → (run_steps now members order (at_rest w)).phases j ≡ syncing u
        → let v = (run_steps now members order (at_rest w)).world in IsOver v t ⊎ IsOver v u
    run_steps-IsOver order w =
        (run_steps-IsExclusive order (at_rest w) (at_rest-IsExclusive w)).one_over
