-- ===== src/Infra/Postgres/Writes.antt =====
-- internal/infra/postgres/repository.go: the contents after a write, and a lookup of one row.
use search_engine_service.Base.{
  ◌≡◌, refl, ap, sym, ◌⊎◌, String, List, [], ◌∷◌, map, Option, none, some, Empty, arith, true,
  false, subst,
}
use search_engine_service.Base.Float.{Float}
use search_engine_service.Base.Effects.{wrapped, Result, ok, err, pure, on_ok, is_record_not_found}
use search_engine_service.Domain.Content.{Content, Time}
use search_engine_service.Infra.Postgres.Models.{
  ContentModel, to_domain, from_domain, from_domain_slice,
}
use search_engine_service.Infra.Postgres.{Gorm, no_statement, with_condition}
use search_engine_service.Infra.Postgres.Repository.{
  id_sql, of_first, fill_in_all, stamp, get_by_id, bulk_upsert, bulk_upsert_some,
}

-- The content with the fields that the database generates replaced, and no other field.
abbrev pub SameData : {F : Type 0} → Content F → Content F → Type 0
SameData c c' = c' ≡ record c { id = c'.id; created_at = c'.created_at; updated_at = c'.updated_at }

abbrev pub AllSameData : {F : Type 0} → List (Content F) → List (Content F) → Type 0
AllSameData [] [] = Unit
AllSameData [] (c' ∷ cs') = Empty
AllSameData (c ∷ cs) [] = Empty
AllSameData (c ∷ cs) (c' ∷ cs') = SameData c c' × AllSameData cs cs'

module _ {F : Type 0} ⦃f : Float F⦄ where
  -- A content goes through the table's model unchanged.
  pub to_domain-from_domain : (c : Content F) → to_domain (from_domain c) ≡ c
  unfolding to_domain from_domain
  to_domain-from_domain c = refl

  -- The models of a bulk write, read back, are the contents in their order, with the time of the
  -- write for the time of their last change.
  pub to_domain-from_domain_slice :
      (now : Time) (cs : List (Content F))
      → map to_domain (map (stamp now) (from_domain_slice cs))
        ≡ map (λ (c : Content F). record c { updated_at = now }) cs
  unfolding to_domain from_domain_slice stamp
  to_domain-from_domain_slice now [] = refl
  to_domain-from_domain_slice now (c ∷ cs) =
      ap (λ (rest : List (Content F)). record c { updated_at = now } ∷ rest)
        (to_domain-from_domain_slice now cs)

  fill_in_all-AllSameData :
      (cs : List (Content F)) (ms : List (ContentModel F)) → AllSameData cs (fill_in_all cs ms)
  unfolding fill_in_all
  fill_in_all-AllSameData [] ms = tt
  fill_in_all-AllSameData (c ∷ cs) [] = (refl, all_same cs)
    where
      all_same : (ds : List (Content F)) → AllSameData ds ds
      all_same [] = tt
      all_same (d ∷ ds) = (refl, all_same ds)
  fill_in_all-AllSameData (c ∷ cs) (m ∷ ms) = (refl, fill_in_all-AllSameData cs ms)

  module _ {W : Type 0} (db : Gorm F W) where
    written-AllSameData :
        (cs cs' : List (Content F)) (created : Result (List (ContentModel F))) (w : W)
        → (on_ok "bulk upserting contents" created
            (λ models. pure (ok (fill_in_all cs models)))
            w).0
          ≡ ok cs'
        → AllSameData cs cs'
    written-AllSameData cs cs' (ok ms) w e =
        let same : fill_in_all cs ms ≡ cs' = ground arith in
        subst (AllSameData cs) same (fill_in_all-AllSameData cs ms)
    written-AllSameData cs cs' (err x) w e = cc

    -- A bulk write that succeeds returns the given contents in their order, changed only in the
    -- identifier and the two times that the database generates; with no contents it does not touch
    -- the database.
    pub bulk_upsert-AllSameData :
        (cs cs' : List (Content F)) (w : W)
        → (bulk_upsert db cs w).0 ≡ ok cs'
        → AllSameData cs cs' × (bulk_upsert db [] w ≡ (ok [], w))
    unfolding bulk_upsert bulk_upsert_some
    bulk_upsert-AllSameData [] [] w e = (tt, refl)
    bulk_upsert-AllSameData [] (c' ∷ cs') w e = ground arith
    bulk_upsert-AllSameData (c ∷ cs) cs' w e = (written-AllSameData (c ∷ cs) cs' _ _ e, refl)

  module _ {W : Type 0} (db : Gorm F W) where
    -- What the database answers to a lookup by identifier.
    abbrev pub answer_by_id : String → W → Result (ContentModel F)
    answer_by_id id w = (db.first (with_condition no_statement id_sql (id ∷ [])) w).0

    -- What a lookup returns for each answer of the database: the row; nothing, if the error is that
    -- there is no such record, however deep it is wrapped; and else the error, wrapped.
    abbrev pub Lookup : Result (ContentModel F) → Result (Option (Content F)) → Type 0
    Lookup (ok m) out = out ≡ ok (some (to_domain m))
    Lookup (err x) out =
        ((is_record_not_found x ≡ true) × (out ≡ ok none))
        ⊎ ((is_record_not_found x ≡ false) × (out ≡ err (wrapped "getting content by id" x)))

    of_first-Lookup : (r : Result (ContentModel F)) → Lookup r (of_first "getting content by id" r)
    unfolding of_first
    of_first-Lookup (ok m) = refl
    of_first-Lookup (err x) = ground arith

    -- A lookup by identifier returns the content of the row that the database found, no content and
    -- no error exactly if the database reports that there is no such record, and the wrapped error
    -- of the database otherwise; a content that was made into a row comes back as it was.
    pub get_by_id-Lookup :
        (id : String) (w : W) (c : Content F)
        → Lookup (answer_by_id id w) (get_by_id db id w).0
          × Lookup (ok (from_domain c)) (ok (some c))
    unfolding get_by_id
    get_by_id-Lookup id w c =
        (of_first-Lookup (answer_by_id id w), ap (λ d. ok (some d)) (sym (to_domain-from_domain c)))
