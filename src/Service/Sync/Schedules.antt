-- ===== src/Service/Sync/Schedules.antt =====
-- internal/app/service/sync_service.go: one goroutine after the other as one of the orders, and
-- the synchronisation of one provider by its name.
use search_engine_service.Base.{
  ◌≡◌, refl, ap, String, List, [], ◌∷◌, map, Option, none, some, ==_iff, ◌==◌, string_eq, nat_eq,
  Bool-cases, inl, inr, ◌≢◌, All,
}
use search_engine_service.Base.Effects.{Eff, pure, ◌>>=◌}
use search_engine_service.Domain.Ports.{Provider}
use search_engine_service.Service.Sync.{
  SyncService, SyncResult, ready, finish, result_of, sync_provider, run_schedule, wait, sync_all,
  find_and_sync, sync_provider_named,
}

module _ {F W : Type 0} (svc : SyncService F W) where
  abbrev pub in_turn : List (Provider F W) → Eff W (List SyncResult)
  in_turn [] = pure []
  in_turn (p ∷ ps) = do r ← sync_provider svc p; rs ← in_turn ps; pure (r ∷ rs)

  wait-in_turn :
      (ps : List (Provider F W)) (w : W)
      → (
        map (result_of svc) (wait svc ps (map (λ p. ready) ps) w).0,
        (wait svc ps (map (λ p. ready) ps) w).1,
      )
        ≡ in_turn ps w
  unfolding wait sync_provider
  wait-in_turn [] w = refl
  wait-in_turn (p ∷ ps) w =
      let w' = (finish svc p ready w).1 in
      ap (λ (out : List SyncResult × W). (result_of svc (finish svc p ready w).0 ∷ out.0, out.1))
        (wait-in_turn ps w')

  -- With nothing scheduled before the waiting, `SyncAll` synchronises the providers one after the
  -- other: the same calls in the same world as `syncProvider` for each in turn.
  pub sync_all-in_turn : (w : W) → sync_all svc [] w ≡ in_turn svc.providers w
  unfolding sync_all run_schedule
  sync_all-in_turn w = wait-in_turn svc.providers w

  abbrev pub NoneNamed : String → List (Provider F W) → Type 0
  NoneNamed name = All (λ p. p.name ≢ name)

  -- What a synchronisation by name comes to: no provider has the name, and nothing was done; or
  -- the first provider that has it was synchronised.
  pub data ByName (name : String) (w : W)
      : List (Provider F W) → Option SyncResult × W → Type 0 where
    not_found : {ps : List (Provider F W)} → NoneNamed name ps → ByName name w ps (none, w)
    found_first :
        {p : Provider F W} {ps : List (Provider F W)}
        → p.name ≡ name
        → ByName name w (p ∷ ps) (some (sync_provider svc p w).0, (sync_provider svc p w).1)
    found_later :
        {p : Provider F W} {ps : List (Provider F W)} {r : SyncResult} {w' : W}
        → p.name ≢ name
        → ByName name w ps (some r, w')
        → ByName name w (p ∷ ps) (some r, w')

  later-ByName :
      {name : String} {w : W} {p : Provider F W} {ps : List (Provider F W)}
      {out : Option SyncResult × W}
      → p.name ≢ name
      → ByName name w ps out
      → ByName name w (p ∷ ps) out
  later-ByName other (not_found none_named) = not_found (other, none_named)
  later-ByName other (found_first e) = found_later other (found_first e)
  later-ByName other (found_later ne later) = found_later other (found_later ne later)

  find_and_sync-ByName :
      (name : String) (ps : List (Provider F W)) (w : W)
      → ByName name w ps (find_and_sync svc name ps w)
  unfolding find_and_sync
  find_and_sync-ByName name [] w = not_found tt
  find_and_sync-ByName name (p ∷ ps) w = elim (Bool-cases (p.name == name)) [
    | inl same ↦ rw same (found_first ((==_iff p.name name).0 same))
    | inr other ↦
        rw other (
          later-ByName (λ e. cc (other, (==_iff p.name name).1 e)) (find_and_sync-ByName name ps w))
  ]

  -- `SyncProvider` synchronises the first provider that has the name, and only that one; with no
  -- such provider it returns no result and does nothing.
  pub sync_provider_named-ByName :
      (name : String) (w : W) → ByName name w svc.providers (sync_provider_named svc name w)
  unfolding sync_provider_named
  sync_provider_named-ByName name w = find_and_sync-ByName name svc.providers w
