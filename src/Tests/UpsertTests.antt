-- ===== src/Tests/UpsertTests.antt =====
-- internal/infra/postgres/repository.go over a table whose newest row of a key hides the older ones.
use mathlib.Core.Bool.{false≢true}
use search_engine_service.Base.{
  ℕ, ◌≡◌, refl, sym, ap, ◌∙◌, inl, inr, String, List, [], ◌∷◌, ◌++◌, Option, none, some, Bool, true,
  false, ◌&&◌, In, arith, ◌==◌, string_eq, ==_iff, if◌then◌else◌, Bool-cases,
}
use search_engine_service.Base.Int.{ℤ, pos, negsuc, ◌+ℤ◌, ◌≤ℤ◌, leb_ℤ}
use search_engine_service.Base.Effects.{
  Error, record_not_found, Result, ok, err, is_record_not_found,
}
use search_engine_service.Domain.Content.{Content}
use search_engine_service.Infra.Postgres.Models.{ContentModel}
use search_engine_service.Infra.Postgres.{Condition, Gorm, with_condition}
use search_engine_service.Infra.Postgres.Repository.{bulk_upsert, get_by_provider_and_external_id}
use search_engine_service.Infra.Postgres.Conflicts.{HasAssigned, SameKey, UpsertContract}
use search_engine_service.Service.Sync.Storing.{IsOnly}
use search_engine_service.Infra.Postgres.Upserts.{
  Finds, get_by_provider_and_external_id-bulk_upsert,
}
use search_engine_service.Tests.Fakes.{toy, content_of}

abbrev pub Row : Type 0
Row = ContentModel ℤ

abbrev pub has_key : String → String → Row → Bool
has_key p x m = m.provider_id == p && m.external_id == x

unfoldable pub find_row : String → String → List Row → Option Row
find_row p x [] = none
find_row p x (m ∷ w) = let rest = find_row p x w in if has_key p x m then some m else rest

abbrev pub or_missing : Option Row → Result Row
or_missing none = err record_not_found
or_missing (some m) = ok m

abbrev pub row_of : List String → List Row → Result Row
row_of (p ∷ x ∷ []) w = or_missing (find_row p x w)
row_of other w = err record_not_found

abbrev pub first_of : List Condition → List Row → Result Row
first_of [] w = err record_not_found
first_of (c ∷ cs) w = row_of c.args w

abbrev pub keyed : Gorm ℤ (List Row)
keyed = record {
  count = λ q w. (ok (pos 0), w);
  find = λ q w. (ok w, w);
  first = λ q w. (first_of q.conditions w, w);
  create = λ rule m w. (ok m, m ∷ w);
  create_in_batches = λ rule ms n w. (ok ms, ms ++ w);
  delete = λ q w. (ok tt, []);
  now = λ w. (pos 99, w);
}

abbrev pub Holds : List Row → Row → Type 0
Holds w row = find_row row.provider_id row.external_id w ≡ some row

has_key_lem :
    (p x : String) (m : Row) → has_key p x m ≡ true → (m.provider_id ≡ p) × (m.external_id ≡ x)
has_key_lem p x m h = ground (arith, ==_iff m.provider_id p, ==_iff m.external_id x)

has_own_key : (m : Row) → has_key m.provider_id m.external_id m ≡ true
has_own_key m =
    ground (arith, ==_iff m.provider_id m.provider_id, ==_iff m.external_id m.external_id)

In-tail :
    (m d : Row) (ms : List Row)
    → has_key m.provider_id m.external_id d ≡ false
    → In m (d ∷ ms)
    → In m ms
In-tail m d ms miss (inl e) =
    absurd
      (false≢true (sym miss ∙ ap (has_key m.provider_id m.external_id) (sym e) ∙ has_own_key m))
In-tail m d ms miss (inr later) = later

append-Holds :
    (ms w : List Row) (m : Row)
    → In m ms
    → ((other : Row) → In other ms → SameKey other m → other ≡ m)
    → Holds (ms ++ w) m
unfolding find_row
append-Holds [] w m i only = elim i [ ]
append-Holds (d ∷ ms) w m i only = elim (Bool-cases (has_key m.provider_id m.external_id d)) [
  | inl hit ↦ rw hit (ap some (only d (inl refl) (has_key_lem m.provider_id m.external_id d hit)))
  | inr miss ↦ rw miss (append-Holds ms w m (In-tail m d ms miss i) (λ o j. only o (inr j)))
]

append-keeps :
    (ms w : List Row) (row : Row)
    → ((m : Row) → In m ms → ¬ SameKey m row)
    → Holds w row
    → Holds (ms ++ w) row
unfolding find_row
append-keeps [] w row other held = held
append-keeps (m ∷ ms) w row other held =
    elim (Bool-cases (has_key row.provider_id row.external_id m)) [
      | inl hit ↦ absurd (other m (inl refl) (has_key_lem row.provider_id row.external_id m hit))
      | inr miss ↦ rw miss (append-keeps ms w row (λ d i. other d (inr i)) held)
    ]

leb_ℤ-later : (z : ℤ) (n : ℕ) → leb_ℤ z (z +ℤ pos n) ≡ true
leb_ℤ-later (pos a) n = ground arith
leb_ℤ-later (negsuc a) n = ground arith

later_ℤ : (z : ℤ) (n : ℕ) → z ≤ℤ z +ℤ pos n
later_ℤ (pos a) n = ground arith
later_ℤ (negsuc a) n = ground arith

assigned_whole : (names : List String) (m : Row) → HasAssigned names m m
assigned_whole names m = record {
  provider_id = refl;
  external_id = refl;
  title = λ i. refl;
  type = λ i. refl;
  tags = λ i. refl;
  views = λ i. refl;
  likes = λ i. refl;
  duration = λ i. refl;
  reading_time = λ i. refl;
  reactions = λ i. refl;
  comments = λ i. refl;
  score = λ i self. (leb_ℤ-later m.score 1, leb_ℤ-later m.score 1);
  published_at = λ i. (later_ℤ m.published_at _, later_ℤ m.published_at _);
  updated_at = λ i. (later_ℤ m.updated_at _, later_ℤ m.updated_at _);
}

found_row :
    (p x : String) (w : List Row) (row : Row)
    → Holds w row
    → row.provider_id ≡ p
    → row.external_id ≡ x
    → or_missing (find_row p x w) ≡ ok row
found_row p x w row held e e' =
    ap or_missing
      (ap (λ q. find_row q x w) (sym e) ∙ ap (λ y. find_row row.provider_id y w) (sym e') ∙ held)

ok-injective : (m n : Row) → ok m ≡ ok n → m ≡ n
ok-injective m n e = ground arith

ok-not_missing : (m : Row) (e : Error) → ok m ≡ err e → is_record_not_found e ≡ false
ok-not_missing m e h = cc

pub keyed-UpsertContract : UpsertContract Holds keyed
unfolding with_condition
keyed-UpsertContract = record {
  create_stores = λ rule ms ms' n w m columns done i only.
      (m, append-Holds ms w m i only, assigned_whole rule.assigned m);
  first_finds = λ p x w row row' held e e' out.
      ok-injective row' row (sym out ∙ found_row p x w row held e e');
  first_misses =
      λ p x w row e held q q' out. ok-not_missing row e (sym (found_row p x w row held q q') ∙ out);
  create_keeps = λ rule ms n w row columns other held. append-keeps ms w row other held;
  now_keeps = λ w row held. held;
}

abbrev written : List (Content ℤ)
written = content_of "a" "video" ∷ content_of "b" "article" ∷ []

written-IsOnly : IsOnly (content_of "b" "article") written
written-IsOnly d (inl e) p x =
    absurd (false≢true ((==_iff "b" "a").1 (sym x ∙ ap (λ (c : Content ℤ). c.external_id) e)))
written-IsOnly d (inr (inl e)) p x = e
written-IsOnly d (inr (inr none_left)) p x = elim none_left [ ]

get_by_provider_and_external_id-bulk_upsert_example :
    Finds
      (content_of "b" "article")
      (get_by_provider_and_external_id keyed "provider_a" "b" (bulk_upsert keyed written []).1).0
unfolding bulk_upsert
get_by_provider_and_external_id-bulk_upsert_example =
    get_by_provider_and_external_id-bulk_upsert Holds keyed keyed-UpsertContract written _
      (content_of "b" "article") [] (inr (inl refl)) written-IsOnly refl
