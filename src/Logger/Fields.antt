-- ===== src/Logger/Fields.antt =====
-- internal/logger/zap.go, `fieldsToMap` and `Write`: what Sentry is sent of the fields of a log line.
use search_engine_service.Base.{
  ℕ, ◌+◌, ◌≤◌, length, ◌≡◌, refl, sym, ◌⊎◌, inl, inr, ◌∙◌, ap, String, List, [], ◌∷◌, ◌++◌, Option,
  none, some, if◌then◌else◌, ◌==◌, string_eq, arith, ==_iff,
}
use search_engine_service.Base.Float.{Float}
use search_engine_service.Base.Dict.{lookup, lookup-insert}
use search_engine_service.Base.Effects.{Eff, ◌>>=◌}
use search_engine_service.Base.Slices.{
  Heap, append, elements, IsSlice, Appended, append-Appended, append_twice,
}
use search_engine_service.Domain.Content.{Duration}
use search_engine_service.Logger.{
  Field, Value, value_of, add_field, add_fields, fields_to_map, SentryCore, Entry, no_field,
  core_with, event_of,
}

abbrev or_else {ℓ} : {A : Type ℓ} → Option A → Option A → Option A
or_else (some a) o = some a
or_else none o = o

Option-cases {ℓ} : {A : Type ℓ} (o : Option A) → (o ≡ none) ⊎ ((a : A) × (o ≡ some a))
Option-cases none = inl refl
Option-cases (some a) = inr (a, refl)

append_assoc {ℓ} : {A : Type ℓ} (xs ys zs : List A) → (xs ++ ys) ++ zs ≡ xs ++ (ys ++ zs)
append_assoc [] ys zs = refl
append_assoc (x ∷ xs) ys zs = ap (λ t. x ∷ t) (append_assoc xs ys zs)

or_else-none {ℓ} : {A : Type ℓ} (o : Option A) → or_else o none ≡ o
or_else-none none = refl
or_else-none (some a) = refl

or_else_assoc {ℓ} :
    {A : Type ℓ} (a b c : Option A) → or_else (or_else a b) c ≡ or_else a (or_else b c)
or_else_assoc none b c = refl
or_else_assoc (some a) b c = refl

module _ {X : Type 0} where
  -- A logger that `With` has made twice from a core, and the arrays then.
  abbrev pub child :
      (ℕ → ℕ) → SentryCore → List (Field X) → List (Field X) → Eff (Heap (Field X)) SentryCore
  child room c own more = do c1 ← core_with room c own; core_with room c1 more

  child-Appended :
      (room : ℕ → ℕ) (c : SentryCore) (own more : List (Field X)) (h : Heap (Field X))
      → IsSlice c.fields h
      → Appended c.fields
          (own ++ more)
          h
          ((child room c own more h).0.fields, (child room c own more h).1)
  unfolding core_with
  child-Appended room c own more h v =
      let (s1, h1) = append no_field room c.fields own h in
      let (first, v1) = append-Appended no_field room c.fields own h v in
      let (second, v2) = append-Appended no_field room s1 more h1 v1 in
      (second ∙ ap (λ t. t ++ more) first ∙ append_assoc (elements c.fields h) own more, v2)

module _ {F X : Type 0} ⦃f : Float F⦄ (duration_text : Duration → String) where
  -- What the last field of the key, among those that have a value, has.
  unfoldable pub last_value : String → List (Field X) → Option (Value F X)
  last_value asked [] = none
  last_value asked (x ∷ xs) =
      or_else (last_value asked xs) (if x.key == asked then value_of duration_text x else none)

  lookup-add_field :
      (asked : String) (x : Field X) (m : List (String × Value F X))
      → lookup asked (add_field duration_text x m)
        ≡ or_else (if x.key == asked then value_of duration_text x else none) (lookup asked m)
  unfolding add_field
  lookup-add_field asked x m = elim (Option-cases (value_of {F = F} duration_text x)) [
    | inl e ↦ rw e (ground (arith, ==_iff x.key asked))
    | inr (v, e) ↦ rw e (ground (arith, ==_iff x.key asked, lookup-insert x.key asked v m))
  ]

  lookup-add_fields :
      (asked : String) (xs : List (Field X)) (m : List (String × Value F X))
      → lookup asked (add_fields duration_text xs m)
        ≡ or_else (last_value asked xs) (lookup asked m)
  unfolding add_fields last_value
  lookup-add_fields asked [] m = refl
  lookup-add_fields asked (x ∷ xs) m =
      lookup-add_fields asked xs (add_field duration_text x m)
      ∙ ap (or_else (last_value asked xs)) (lookup-add_field asked x m)
      ∙ sym (or_else_assoc (last_value asked xs) _ (lookup asked m))

  last_value-append :
      (asked : String) (xs ys : List (Field X))
      → last_value asked (xs ++ ys) ≡ or_else (last_value asked ys) (last_value asked xs)
  unfolding last_value
  last_value-append asked [] ys = sym (or_else-none (last_value asked ys))
  last_value-append asked (x ∷ xs) ys =
      let own = if x.key == asked then value_of duration_text x else none in
      ap (λ o. or_else o own) (last_value-append asked xs ys)
      ∙ or_else_assoc (last_value asked ys) (last_value asked xs) own

  -- For a core whose slice lies in its array, and for a logger that is made of it by one call of
  -- `With` after the other: as long as nothing has written over the places of the logger's fields,
  -- the data that an event carries under a key are those of the last field of the line with this key
  -- that has a value, or, if there is none, those of the last such field of the second call, of the
  -- first, or of the core; under no other key does it carry any.
  pub event_of-extra :
      (room : ℕ → ℕ) (c : SentryCore) (own more line : List (Field X)) (entry : Entry)
      (asked : String) (h h' : Heap (Field X))
      → IsSlice c.fields h
      → IsSlice (child room c own more h).0.fields h'
      → elements (child room c own more h).0.fields h'
        ≡ elements (child room c own more h).0.fields (child room c own more h).1
      → lookup asked (event_of duration_text room (child room c own more h).0 entry line h').0.extra
        ≡ or_else (last_value asked line) (
            or_else
              (last_value asked more)
              (or_else (last_value asked own) (last_value asked (elements c.fields h))))
  unfolding event_of fields_to_map lookup
  event_of-extra room c own more line entry asked h h' v v' kept =
      let (c2, h2) = child room c own more h in
      let base = elements c.fields h in
      let (made, _) = child-Appended room c own more h v in
      let (written, _) = append-Appended no_field room c2.fields line h' v' in
      ap (λ xs. lookup asked (add_fields {F = F} duration_text xs []))
        (written ∙ ap (λ t. t ++ line) (kept ∙ made))
      ∙ lookup-add_fields asked ((base ++ (own ++ more)) ++ line) []
      ∙ or_else-none _
      ∙ last_value-append asked (base ++ (own ++ more)) line
      ∙ ap (or_else (last_value asked line)) (
          last_value-append asked base (own ++ more)
          ∙ ap (λ o. or_else o (last_value asked base)) (last_value-append asked own more)
          ∙ or_else_assoc (last_value asked more) (last_value asked own) (last_value asked base))

  -- For a core whose array has room for more fields: of two loggers that `With` makes of it with the
  -- same number of fields, the first writes events that carry the fields of the second in place of
  -- its own.
  pub core_with-overwrites :
      (room : ℕ → ℕ) (c : SentryCore) (own other line : List (Field X)) (entry : Entry)
      (h : Heap (Field X))
      → IsSlice c.fields h
      → c.fields.size + length own ≤ c.fields.capacity
      → length own ≡ length other
      → let (first, h1) = core_with room c own h in
        let (second, h2) = core_with room c other h1 in
        (event_of {F = F} duration_text room first entry line h2).0.extra
        ≡ fields_to_map duration_text ((elements c.fields h ++ other) ++ line)
  unfolding event_of core_with
  core_with-overwrites room c own other line entry h v fits even =
      let (s1, h1) = append no_field room c.fields own h in
      let (s2, h2) = append no_field room c.fields other h1 in
      let (shared, v2) = append_twice no_field room c.fields own other h v fits even in
      let (written, _) = append-Appended no_field room s1 line h2 v2 in
      ap (fields_to_map duration_text) (written ∙ ap (λ t. t ++ line) shared)
