-- ===== src/Base/Float.antt =====
-- Go's `float64`: its operations are a parameter of the code that calculates with it.
use search_engine_service.Base.{ℕ, ◌≡◌, Bool, true}
use search_engine_service.Base.Int.{ℤ}

-- `decimal m k` is the constant m·10⁻ᵏ, `of_int` the conversion of an integer, `to_int` the
-- conversion to an integer.
pub record Float (F : Type 0) : Type 0 where
  pub of_int : ℤ → F
  pub decimal : ℕ → ℕ → F
  pub add : F → F → F
  pub mul : F → F → F
  pub div : F → F → F
  pub lt : F → F → Bool
  pub le : F → F → Bool
  pub to_int : F → ℤ

infix 4 ◌≼◌
abbrev pub ◌≼◌ : {F : Type 0} ⦃f : Float F⦄ → F → F → Type 0
◌≼◌ ⦃f⦄ a b = f.le a b ≡ true
