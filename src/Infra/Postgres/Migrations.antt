-- ===== src/Infra/Postgres/Migrations.antt =====
-- internal/infra/postgres/migrations. Gormigrate is a parameter; a migration is what it runs, over the
-- statements that `exec` sends. The white space of the SQL texts is one space here, and comments in
-- them are left out.
use search_engine_service.Base.{String, ◌<>◌, List, [], ◌∷◌}
use search_engine_service.Base.Effects.{Result, ok, err, Eff, pure, ◌>>=◌}

abbrev pub Exec : Type 0 → Type 0
Exec W = String → Eff W (Result (Unit {0}))

pub record Migration (W : Type 0) : Type 0 where
  pub id : String
  pub migrate : Exec W → Eff W (Result (Unit {0}))
  pub rollback : Exec W → Eff W (Result (Unit {0}))

abbrev pub create_table_sql : String
create_table_sql =
    "CREATE TABLE IF NOT EXISTS contents ( " <> "id UUID PRIMARY KEY DEFAULT gen_random_uuid(), "
    <> "provider_id VARCHAR(50) NOT NULL, " <> "external_id VARCHAR(100) NOT NULL, "
    <> "title VARCHAR(500) NOT NULL, " <> "type VARCHAR(20) NOT NULL, " <> "tags TEXT[], "
    <> "views INTEGER DEFAULT 0, " <> "likes INTEGER DEFAULT 0, " <> "duration VARCHAR(20), "
    <> "reading_time INTEGER DEFAULT 0, " <> "reactions INTEGER DEFAULT 0, "
    <> "comments INTEGER DEFAULT 0, " <> "score DECIMAL(10,2) DEFAULT 0, "
    <> "published_at TIMESTAMP NOT NULL, " <> "created_at TIMESTAMP DEFAULT CURRENT_TIMESTAMP, "
    <> "updated_at TIMESTAMP DEFAULT CURRENT_TIMESTAMP, "
    <> "CONSTRAINT uq_provider_external UNIQUE (provider_id, external_id) );"

abbrev pub index_sqls : List String
index_sqls =
    "CREATE INDEX IF NOT EXISTS idx_contents_type ON contents(type);"
    ∷ "CREATE INDEX IF NOT EXISTS idx_contents_score ON contents(score DESC);"
    ∷ "CREATE INDEX IF NOT EXISTS idx_contents_published_at ON contents(published_at DESC);"
    ∷ "CREATE INDEX IF NOT EXISTS idx_contents_provider_id ON contents(provider_id);" ∷ []

abbrev vector_sql : String → String
vector_sql row =
    "setweight(to_tsvector('english', coalesce(" <> row
    <> "title, '')), 'A') || setweight(to_tsvector('english', coalesce(array_to_string(" <> row
    <> "tags, ' '), '')), 'B')"

abbrev pub fts_sqls : List String
fts_sqls =
    "ALTER TABLE contents ADD COLUMN IF NOT EXISTS search_vector tsvector"
    ∷ "CREATE INDEX IF NOT EXISTS idx_contents_search_vector ON contents USING GIN (search_vector)"
    ∷ ("CREATE OR REPLACE FUNCTION contents_search_vector_update() RETURNS trigger AS $$ BEGIN "
        <> "NEW.search_vector := "
        <> vector_sql "NEW."
        <> "; RETURN NEW; END $$ LANGUAGE plpgsql")
    ∷ "DROP TRIGGER IF EXISTS trg_contents_search_vector ON contents"
    ∷ ("CREATE TRIGGER trg_contents_search_vector BEFORE INSERT OR UPDATE OF title, tags "
        <> "ON contents FOR EACH ROW EXECUTE FUNCTION contents_search_vector_update()")
    ∷ ("UPDATE contents SET search_vector = " <> vector_sql "" <> " WHERE search_vector IS NULL")
    ∷ ("ALTER TABLE contents ADD COLUMN IF NOT EXISTS log_score_cached float8 "
        <> "GENERATED ALWAYS AS (LOG(COALESCE(score, 0) + 10)) STORED")
    ∷ "CREATE INDEX IF NOT EXISTS idx_contents_score_cached ON contents (log_score_cached DESC)"
    ∷ []

abbrev pub fts_rollback_sqls : List String
fts_rollback_sqls =
    "DROP TRIGGER IF EXISTS trg_contents_search_vector ON contents"
    ∷ "DROP FUNCTION IF EXISTS contents_search_vector_update()"
    ∷ "DROP INDEX IF EXISTS idx_contents_search_vector"
    ∷ "DROP INDEX IF EXISTS idx_contents_score_cached"
    ∷ "ALTER TABLE contents DROP COLUMN IF EXISTS log_score_cached"
    ∷ "ALTER TABLE contents DROP COLUMN IF EXISTS search_vector" ∷ []

module _ {W : Type 0} (exec : Exec W) where
  -- `if err != nil { return err }`.
  abbrev unless_failed : Result (Unit {0}) → Eff W (Result (Unit {0})) → Eff W (Result (Unit {0}))
  unless_failed (ok done) k = k
  unless_failed (err e) k = pure (err e)

  -- One statement after the other, up to the first that fails.
  unfoldable pub exec_all : List String → Eff W (Result (Unit {0}))
  exec_all [] = pure (ok tt)
  exec_all (sql ∷ sqls) = do done ← exec sql; unless_failed done (exec_all sqls)

  -- One statement after the other, whatever fails: `_ = tx.Exec(sql).Error`.
  unfoldable pub exec_each : List String → Eff W (Result (Unit {0}))
  exec_each [] = pure (ok tt)
  exec_each (sql ∷ sqls) = do _ ← exec sql; exec_each sqls

  unfoldable pub create_contents : Eff W (Result (Unit {0}))
  unfolding exec_each
  create_contents = do created ← exec create_table_sql; unless_failed created (exec_each index_sqls)

  unfoldable pub drop_contents : Eff W (Result (Unit {0}))
  drop_contents = exec "DROP TABLE IF EXISTS contents;"

  unfoldable pub add_fts : Eff W (Result (Unit {0}))
  unfolding exec_all
  add_fts = exec_all fts_sqls

  unfoldable pub drop_fts : Eff W (Result (Unit {0}))
  unfolding exec_each
  drop_fts = exec_each fts_rollback_sqls

unfoldable pub create_contents_table : {W : Type 0} → Migration W
unfolding create_contents drop_contents
create_contents_table = record {
  id = "001_create_contents";
  migrate = create_contents;
  rollback = drop_contents;
}

unfoldable pub add_fts_support : {W : Type 0} → Migration W
unfolding add_fts drop_fts
add_fts_support = record { id = "002_add_fts_support"; migrate = add_fts; rollback = drop_fts }

unfoldable pub migrations : {W : Type 0} → List (Migration W)
unfolding create_contents_table add_fts_support
migrations = create_contents_table ∷ add_fts_support ∷ []

-- `gormigrate.New(db, DefaultOptions, migrations)` with its methods.
pub record Gormigrate (W : Type 0) : Type 0 where
  pub migrate : List (Migration W) → Eff W (Result (Unit {0}))
  pub rollback_last : List (Migration W) → Eff W (Result (Unit {0}))

unfoldable pub run : {W : Type 0} → Gormigrate W → Eff W (Result (Unit {0}))
unfolding migrations
run g = g.migrate migrations

unfoldable pub rollback : {W : Type 0} → Gormigrate W → Eff W (Result (Unit {0}))
unfolding migrations
rollback g = g.rollback_last migrations
