-- ===== src/Infra/Postgres/Conflicts.antt =====
-- internal/infra/postgres/repository.go, `BulkUpsert`: the columns that a conflict assigns, and what the
-- database makes of them. `Holds w row` says that the table holds, in the world `w`, the row that a
-- selection reads as `row`.
use search_engine_service.Base.{ℕ, ◌≡◌, refl, inl, inr, String, List, [], ◌∷◌, In, false}
use search_engine_service.Base.Float.{Float, ◌≼◌}
use search_engine_service.Base.Int.{pos, ◌+ℤ◌, ◌≤ℤ◌}
use search_engine_service.Base.Effects.{Error, ok, err, is_record_not_found}
use search_engine_service.Domain.Content.{Content, Time}
use search_engine_service.Infra.Postgres.Models.{ContentModel, to_domain, from_domain}
use search_engine_service.Infra.Postgres.{Gorm, OnConflict, no_statement, with_condition}
use search_engine_service.Infra.Postgres.Repository.{conflict_rule, stamp}

-- A `TIMESTAMP` is kept to the microsecond and without its zone: it comes back as the clock showed it
-- there, which is at most 25 hours away.
abbrev pub IsNearTime : Time → Time → Type 0
IsNearTime t kept = (kept ≤ℤ t +ℤ pos 90_000_000_001_000) × (t ≤ℤ kept +ℤ pos 90_000_000_001_000)

-- A `DECIMAL(10,2)` is kept to the hundredth, if it is a number.
abbrev pub IsNearScore : {F : Type 0} ⦃f : Float F⦄ → F → F → Type 0
IsNearScore ⦃f⦄ score kept =
    score ≼ score → (kept ≼ f.add score (f.decimal 1 2)) × (score ≼ f.add kept (f.decimal 1 2))

-- The content as the table keeps it: what the database generates is its own, the score and the time of
-- the publication are near those of the content, and all else is as it was.
pub record IsKept {F : Type 0} ⦃f : Float F⦄ (c kept : Content F) : Type 0 where
  pub same : kept ≡ record c {
    id = kept.id;
    score = kept.score;
    published_at = kept.published_at;
    created_at = kept.created_at;
    updated_at = kept.updated_at;
  }
  pub score : IsNearScore c.score kept.score
  pub published_at : IsNearTime c.published_at kept.published_at

-- The row of a model that was inserted, or that has met a row of its key: then it has the values of
-- the columns that the rule names, as these keep them (migrations/001_create_contents.go).
pub record HasAssigned {F : Type 0} ⦃f : Float F⦄ (names : List String) (m row : ContentModel F)
    : Type 0 where
  pub provider_id : row.provider_id ≡ m.provider_id
  pub external_id : row.external_id ≡ m.external_id
  pub title : In "title" names → row.title ≡ m.title
  pub type : In "type" names → row.type ≡ m.type
  pub tags : In "tags" names → row.tags ≡ m.tags
  pub views : In "views" names → row.views ≡ m.views
  pub likes : In "likes" names → row.likes ≡ m.likes
  pub duration : In "duration" names → row.duration ≡ m.duration
  pub reading_time : In "reading_time" names → row.reading_time ≡ m.reading_time
  pub reactions : In "reactions" names → row.reactions ≡ m.reactions
  pub comments : In "comments" names → row.comments ≡ m.comments
  pub score : In "score" names → IsNearScore m.score row.score
  pub published_at : In "published_at" names → IsNearTime m.published_at row.published_at
  pub updated_at : In "updated_at" names → IsNearTime m.updated_at row.updated_at

abbrev pub SameKey : {F : Type 0} → ContentModel F → ContentModel F → Type 0
SameKey m n = (m.provider_id ≡ n.provider_id) × (m.external_id ≡ n.external_id)

-- What PostgreSQL documents of an insertion with ON CONFLICT on the unique key, and of a selection by
-- this key: a write that succeeds leaves for each model, if no other has its key, a row that has
-- been assigned from it, and any write leaves the rows of other keys; a selection returns no other row than that of the key, and misses none.
pub record UpsertContract {F W : Type 0} ⦃f : Float F⦄ (Holds : W → ContentModel F → Type 0)
    (db : Gorm F W) : Type 0 where
  pub create_stores :
      (rule : OnConflict) (ms ms' : List (ContentModel F)) (n : ℕ) (w : W) (m : ContentModel F)
      → rule.columns ≡ "provider_id" ∷ "external_id" ∷ []
      → (db.create_in_batches rule ms n w).0 ≡ ok ms'
      → In m ms
      → ((other : ContentModel F) → In other ms → SameKey other m → other ≡ m)
      → (row : ContentModel F) × Holds (db.create_in_batches rule ms n w).1 row
        × HasAssigned rule.assigned m row
  pub first_finds :
      (provider_id external_id : String) (w : W) (row row' : ContentModel F)
      → Holds w row
      → row.provider_id ≡ provider_id
      → row.external_id ≡ external_id
      → (db.first
          (with_condition no_statement "provider_id = ? AND external_id = ?"
            (provider_id ∷ external_id ∷ []))
          w).0
        ≡ ok row'
      → row' ≡ row
  pub first_misses :
      (provider_id external_id : String) (w : W) (row : ContentModel F) (e : Error)
      → Holds w row
      → row.provider_id ≡ provider_id
      → row.external_id ≡ external_id
      → (db.first
          (with_condition no_statement "provider_id = ? AND external_id = ?"
            (provider_id ∷ external_id ∷ []))
          w).0
        ≡ err e
      → is_record_not_found e ≡ false
  pub create_keeps :
      (rule : OnConflict) (ms : List (ContentModel F)) (n : ℕ) (w : W) (row : ContentModel F)
      → rule.columns ≡ "provider_id" ∷ "external_id" ∷ []
      → ((m : ContentModel F) → In m ms → ¬ SameKey m row)
      → Holds w row
      → Holds (db.create_in_batches rule ms n w).1 row
  pub now_keeps : (w : W) (row : ContentModel F) → Holds w row → Holds (db.now w).1 row

module _ {F : Type 0} ⦃f : Float F⦄ where
  pub HasAssigned-IsKept :
      (now : Time) (c : Content F) (row : ContentModel F)
      → HasAssigned conflict_rule.assigned (stamp now (from_domain c)) row
      → IsKept c (to_domain row)
  unfolding to_domain stamp from_domain
  HasAssigned-IsKept now c row h =
      let title : row.title ≡ c.title = h.title (inl refl) in
      let type : row.type ≡ c.type = h.type (inr (inl refl)) in
      let tags : row.tags ≡ c.tags = h.tags (inr (inr (inl refl))) in
      let views : row.views ≡ c.views = h.views (inr (inr (inr (inl refl)))) in
      let likes : row.likes ≡ c.likes = h.likes (inr (inr (inr (inr (inl refl))))) in
      let duration : row.duration ≡ c.duration =
        h.duration (inr (inr (inr (inr (inr (inl refl)))))) in
      let reading_time : row.reading_time ≡ c.reading_time =
        h.reading_time (inr (inr (inr (inr (inr (inr (inl refl))))))) in
      let reactions : row.reactions ≡ c.reactions =
        h.reactions (inr (inr (inr (inr (inr (inr (inr (inl refl)))))))) in
      let comments : row.comments ≡ c.comments =
        h.comments (inr (inr (inr (inr (inr (inr (inr (inr (inl refl))))))))) in
      let provider_id : row.provider_id ≡ c.provider_id = h.provider_id in
      let external_id : row.external_id ≡ c.external_id = h.external_id in
      record {
        same = cc;
        score = h.score (inr (inr (inr (inr (inr (inr (inr (inr (inr (inl refl))))))))));
        published_at =
            h.published_at (inr (inr (inr (inr (inr (inr (inr (inr (inr (inr (inl refl)))))))))));
      }
