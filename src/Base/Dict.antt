-- ===== src/Base/Dict.antt =====
-- Go's maps with text keys, as association lists that hold a key at most once.
use search_engine_service.Base.{
  String, List, [], ◌∷◌, Option, none, some, ◌==◌, string_eq, if◌then◌else◌, ◌≡◌, ==_iff, arith,
}

module _ {ℓ} {V : Type ℓ} where
  -- `delete(m, k)`.
  unfoldable pub erase : String → List (String × V) → List (String × V)
  erase gone [] = []
  erase gone ((name, value) ∷ entries) =
      let rest = erase gone entries in if name == gone then rest else (name, value) ∷ rest

  -- `m[k]` with its second result.
  unfoldable pub lookup : String → List (String × V) → Option V
  lookup asked [] = none
  lookup asked ((name, value) ∷ entries) =
      let later = lookup asked entries in if name == asked then some value else later

  pub lookup-erase :
      (gone asked : String) (m : List (String × V))
      → lookup asked (erase gone m) ≡ (if gone == asked then none else lookup asked m)
  unfolding erase lookup
  lookup-erase gone asked [] = ground arith
  lookup-erase gone asked ((name, value) ∷ m) =
      let later = lookup-erase gone asked m in
      ground (arith, later, ==_iff gone asked, ==_iff name gone, ==_iff name asked)

  -- `m[k] = v`.
  unfoldable pub insert : String → V → List (String × V) → List (String × V)
  unfolding erase
  insert name value m = (name, value) ∷ erase name m

  pub lookup-insert :
      (name asked : String) (value : V) (m : List (String × V))
      → lookup asked (insert name value m) ≡ (if name == asked then some value else lookup asked m)
  unfolding insert lookup
  lookup-insert name asked value m = ground (arith, lookup-erase name asked m, ==_iff name asked)
