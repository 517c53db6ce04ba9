-- ===== src/Base/Texts.antt =====
-- Texts: concatenation and a search for a part.
use Prim.Native.Nat.{ℕ}
use Prim.Native.Char.{code}
use Prim.Native.String
use Prim.Native.String.{String}
use mathlib.Core.Bool.{Bool, true, false}
use mathlib.Core.List.{List, [], ◌∷◌}
use mathlib.Core.Option.{Option, none, some}
use text.Mathlib.Text.{find?}

-- Go's `s + t`.
infixr 65 ◌<>◌
abbrev pub ◌<>◌ : String → String → String
s <> t = String.◌++◌ s t

abbrev some? {ℓ} : {A : Type ℓ} → Option A → Bool
some? none = false
some? (some a) = true

-- Go's `strings.Contains`.
abbrev pub contains : String → String → Bool
contains s part = some? (find? s part)

-- Go's `[]byte(s)` of an ASCII text.
abbrev pub codes : String → List ℕ
codes String.[] = []
codes (String.◌∷◌ c s) = code c ∷ codes s
