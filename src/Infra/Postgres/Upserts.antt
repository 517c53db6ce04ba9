-- ===== src/Infra/Postgres/Upserts.antt =====
-- internal/infra/postgres/repository.go, `BulkUpsert` and `GetByProviderAndExternalID`: what is written
-- is what is found. `Holds w row` says that the table holds the row in the world `w`.
use search_engine_service.Base.{
  ◌≡◌, ◌≢◌, refl, sym, ap, ◌∙◌, subst, ◌⊎◌, inl, inr, String, List, [], ◌∷◌, map, Option, some, In,
  false,
}
use search_engine_service.Base.Float.{Float}
use search_engine_service.Base.Effects.{
  Eff, Error, wrapped, Result, ok, err, pure, on_ok, is_record_not_found,
}
use search_engine_service.Domain.Content.{Content, Time}
use search_engine_service.Infra.Postgres.Models.{
  ContentModel, to_domain, from_domain, from_domain_slice,
}
use search_engine_service.Infra.Postgres.{Gorm}
use search_engine_service.Infra.Postgres.Repository.{
  conflict_rule, of_first, fill_in_all, stamp, get_by_provider_and_external_id, bulk_upsert,
  bulk_upsert_some, as_repository,
}
use search_engine_service.Domain.Ports.{Provider}
use search_engine_service.Service.Sync.{new_sync_service}
use search_engine_service.Service.Sync.Storing.{IsOnly, StoreContract}
use search_engine_service.Infra.Postgres.Conflicts.{
  SameKey, IsKept, UpsertContract, HasAssigned-IsKept,
}

-- The lookup has found the content, as the table keeps it, or has failed.
abbrev pub Finds : {F : Type 0} ⦃f : Float F⦄ → Content F → Result (Option (Content F)) → Type 0
Finds {F} c out =
    ((found : Content F) × (out ≡ ok (some found)) × IsKept c found) ⊎ ((e : Error) × (out ≡ err e))

module _ {F : Type 0} ⦃f : Float F⦄ where
  of_first-Finds :
      (text : String) (c : Content F) (row : ContentModel F) (r : Result (ContentModel F))
      → IsKept c (to_domain row)
      → ((row' : ContentModel F) → r ≡ ok row' → row' ≡ row)
      → ((e : Error) → r ≡ err e → is_record_not_found e ≡ false)
      → Finds c (of_first text r)
  unfolding of_first
  of_first-Finds text c row (ok row') same finds misses =
      inl (to_domain row', refl, subst (λ m. IsKept c (to_domain m)) (sym (finds row' refl)) same)
  of_first-Finds text c row (err e) same finds misses =
      rw (misses e refl) (inr (wrapped text e, refl))

  -- The model of a bulk write.
  abbrev model_of : Time → Content F → ContentModel F
  model_of now c = stamp now (from_domain c)

  In-model :
      (now : Time) (cs : List (Content F)) (c : Content F)
      → In c cs
      → In (model_of now c) (map (stamp now) (from_domain_slice cs))
  unfolding from_domain_slice
  In-model now [] c i = elim i [ ]
  In-model now (d ∷ cs) c (inl e) = inl (ap (model_of now) e)
  In-model now (d ∷ cs) c (inr later) = inr (In-model now cs c later)

  of_model-In :
      (now : Time) (cs : List (Content F)) (m : ContentModel F)
      → In m (map (stamp now) (from_domain_slice cs))
      → (d : Content F) × In d cs × (m ≡ model_of now d)
  unfolding from_domain_slice
  of_model-In now [] m i = elim i [ ]
  of_model-In now (d ∷ cs) m (inl e) = (d, inl refl, e)
  of_model-In now (d ∷ cs) m (inr later) =
      let (d', there, e) = of_model-In now cs m later in (d', inr there, e)

  model-IsOnly :
      (now : Time) (cs : List (Content F)) (c : Content F)
      → IsOnly c cs
      → (other : ContentModel F) → In other (map (stamp now) (from_domain_slice cs))
      → SameKey other (model_of now c)
      → other ≡ model_of now c
  unfolding stamp from_domain
  model-IsOnly now cs c only other there (p, x) =
      let (d, i, e) = of_model-In now cs other there in
      e
      ∙ ap (model_of now) (
          only d i (sym (ap (λ (m : ContentModel F). m.provider_id) e) ∙ p)
            (sym (ap (λ (m : ContentModel F). m.external_id) e) ∙ x))

-- The table holds a row with the data of the content.
abbrev pub StoredAs :
    {F W : Type 0} ⦃f : Float F⦄ → (W → ContentModel F → Type 0) → W → Content F → Type 0
StoredAs {F} Holds w c = (row : ContentModel F) × Holds w row × IsKept c (to_domain row)

module _ {F W : Type 0} ⦃f : Float F⦄ (Holds : W → ContentModel F → Type 0) (db : Gorm F W)
    (h : UpsertContract Holds db) where
  created-StoredAs :
      (now : Time) (cs cs' : List (Content F)) (c : Content F) (w : W)
      (created : Result (List (ContentModel F)))
      → (db.create_in_batches conflict_rule (map (stamp now) (from_domain_slice cs)) 100 w).0
        ≡ created
      → In c cs
      → IsOnly c cs
      → let v =
          (db.create_in_batches conflict_rule (map (stamp now) (from_domain_slice cs)) 100 w).1 in
        let out =
          on_ok "bulk upserting contents" created (λ models. pure (ok (fill_in_all cs models))) v in
        out.0 ≡ ok cs' → StoredAs Holds out.1 c
  created-StoredAs now cs cs' c w (ok ms') e i only done =
      let (row, held, assigned) =
        h.create_stores conflict_rule _ ms' 100 w (model_of now c) refl e (In-model now cs c i)
          (model-IsOnly now cs c only) in
      (row, held, HasAssigned-IsKept now c row assigned)
  created-StoredAs now cs cs' c w (err x) e i only done = cc

  bulk_upsert-StoredAs :
      (cs cs' : List (Content F)) (c : Content F) (w : W)
      → In c cs
      → IsOnly c cs
      → (bulk_upsert db cs w).0 ≡ ok cs'
      → StoredAs Holds (bulk_upsert db cs w).1 c
  unfolding bulk_upsert bulk_upsert_some
  bulk_upsert-StoredAs [] cs' c w i only done = elim i [ ]
  bulk_upsert-StoredAs (d ∷ cs) cs' c w i only done =
      let (now, w1) = db.now w in created-StoredAs now (d ∷ cs) cs' c w1 _ refl i only done

  pub StoredAs-Finds :
      (c : Content F) (w : W)
      → StoredAs Holds w c
      → Finds c (get_by_provider_and_external_id db c.provider_id c.external_id w).0
  unfolding get_by_provider_and_external_id to_domain
  StoredAs-Finds c w (row, held, same) =
      let provider_id : row.provider_id ≡ c.provider_id =
        ap (λ (d : Content F). d.provider_id) same.same in
      let external_id : row.external_id ≡ c.external_id =
        ap (λ (d : Content F). d.external_id) same.same in
      of_first-Finds "getting content by provider and external id" c row _ same
        (λ row' e.
          h.first_finds c.provider_id c.external_id w row row' held provider_id external_id e)
        (λ x e. h.first_misses c.provider_id c.external_id w row x held provider_id external_id e)

  -- Over a database that keeps what it documents: after a bulk write that succeeds, a lookup of any
  -- content that was written, if no other of the write has its provider and external identifier,
  -- finds this content as the table keeps it, or fails with an error; it never reports that there is
  -- none, whether the row was new or was there before. The table generates the identifier and the two
  -- times of a row; a score that is a number comes back within a hundredth, the time of the
  -- publication, whose zone is dropped, within 25 hours and a microsecond, and all else as it was.
  pub get_by_provider_and_external_id-bulk_upsert :
      (cs cs' : List (Content F)) (c : Content F) (w : W)
      → In c cs
      → IsOnly c cs
      → (bulk_upsert db cs w).0 ≡ ok cs'
      → Finds c
          (get_by_provider_and_external_id db c.provider_id c.external_id (bulk_upsert db cs w).1).0
  get_by_provider_and_external_id-bulk_upsert cs cs' c w i only done =
      StoredAs-Finds c (bulk_upsert db cs w).1 (bulk_upsert-StoredAs cs cs' c w i only done)

  created-later :
      (cs : List (Content F)) (created : Result (List (ContentModel F))) (w : W)
      → (on_ok "bulk upserting contents" created (λ models. pure (ok (fill_in_all cs models))) w).1
        ≡ w
  created-later cs (ok ms) w = refl
  created-later cs (err e) w = refl

  bulk_upsert-keeps :
      (cs : List (Content F)) (c : Content F) (w : W)
      → ((d : Content F) → In d cs → d.provider_id ≢ c.provider_id)
      → StoredAs Holds w c
      → StoredAs Holds (bulk_upsert db cs w).1 c
  unfolding bulk_upsert bulk_upsert_some to_domain stamp from_domain
  bulk_upsert-keeps [] c w other stored_before = stored_before
  bulk_upsert-keeps (d ∷ cs) c w other (row, held, same) =
      let (now, w1) = db.now w in
      let ms = map (stamp now) (from_domain_slice (d ∷ cs)) in
      let kept =
        h.create_keeps conflict_rule ms 100 w1 row refl
          (λ m i key.
            let (x, there, e) = of_model-In now (d ∷ cs) m i in
            other x there (
              sym (ap (λ (n : ContentModel F). n.provider_id) e)
              ∙ key.0
              ∙ ap (λ (n : Content F). n.provider_id) same.same))
          (h.now_keeps w row held) in
      (row, subst (λ v. Holds v row) (sym (created-later (d ∷ cs) _ _)) kept, same)

  -- The repository over such a database stores what the synchronisation relies on, if the clock and
  -- the table do not meet.
  pub as_repository-StoreContract :
      (ps : List (Provider F W)) (clock : Eff W Time)
      → ((w : W) (row : ContentModel F) → Holds w row → Holds (clock w).1 row)
      → StoreContract (StoredAs Holds) (new_sync_service (as_repository db) ps clock)
  unfolding new_sync_service as_repository
  as_repository-StoreContract ps clock idle = record {
    upsert_stores = bulk_upsert-StoredAs;
    upsert_keeps = bulk_upsert-keeps;
    clock_keeps = λ w c (row, held, same). (row, idle w row held, same);
  }
