-- ===== src/Domain/Scoring/Ieee.antt =====
-- What internal/domain/scoring.go relies on of float64's arithmetic, and what follows for values that
-- are not negative.
use search_engine_service.Base.{ℕ, ◌^◌, ◌≤◌, ◌≡◌, refl, Bool, true, false, if◌then◌else◌}
use search_engine_service.Base.Int.{ℤ, pos, ◌≤ℤ◌}
use search_engine_service.Base.Float.{Float, ◌≼◌}

module _ {F : Type 0} ⦃f : Float F⦄ where
  abbrev pub zero_point : F
  zero_point = f.of_int (pos 0)

module _ (F : Type 0) ⦃f : Float F⦄ where
  -- What the code relies on of IEEE 754: an operation on values that are not negative, rounded,
  -- keeps their order and is not negative; so does a conversion in the range of the integers.
  pub record IsIeee : Type 0 where
    pub le_trans : (a b c : F) → a ≼ b → b ≼ c → a ≼ c
    pub of_int_mono : (m n : ℤ) → m ≤ℤ n → f.of_int m ≼ f.of_int n
    pub decimal_nonneg : (m k : ℕ) → zero_point ≼ f.decimal m k
    pub decimal_self : (m k : ℕ) → f.decimal m k ≼ f.decimal m k
    pub add_mono :
        (a b c d : F) → zero_point ≼ a → a ≼ b → zero_point ≼ c → c ≼ d → f.add a c ≼ f.add b d
    pub add_nonneg : (a b : F) → zero_point ≼ a → zero_point ≼ b → zero_point ≼ f.add a b
    pub mul_mono :
        (a b : F) (n : ℤ)
        → pos 1 ≤ℤ n
        → zero_point ≼ a
        → a ≼ b
        → f.mul a (f.of_int n) ≼ f.mul b (f.of_int n)
    pub mul_nonneg :
        (a : F) (n : ℤ) → pos 1 ≤ℤ n → zero_point ≼ a → zero_point ≼ f.mul a (f.of_int n)
    pub scale_mono :
        (a b : F) (m k : ℕ)
        → 1 ≤ m
        → zero_point ≼ a
        → a ≼ b
        → f.mul a (f.decimal m k) ≼ f.mul b (f.decimal m k)
    pub scale_nonneg :
        (a : F) (m k : ℕ) → 1 ≤ m → zero_point ≼ a → zero_point ≼ f.mul a (f.decimal m k)
    pub div_mono :
        (a b : F) (n : ℤ)
        → pos 1 ≤ℤ n
        → zero_point ≼ a
        → a ≼ b
        → f.div a (f.of_int n) ≼ f.div b (f.of_int n)
    pub div_nonneg :
        (a : F) (n : ℤ) → pos 1 ≤ℤ n → zero_point ≼ a → zero_point ≼ f.div a (f.of_int n)
    pub to_int_mono :
        (a b : F) → zero_point ≼ a → a ≼ b → b ≼ f.of_int (pos (2 ^ 62)) → f.to_int a ≤ℤ f.to_int b
    pub to_int_nonneg : (a : F) → zero_point ≼ a → a ≼ f.of_int (pos (2 ^ 62)) → pos 0 ≤ℤ f.to_int a

module _ {F : Type 0} ⦃f : Float F⦄ where
  -- `a` is not negative, and `b` is not smaller.
  abbrev pub Grows : F → F → Type 0
  Grows a b = (zero_point ≼ a) × (a ≼ b)

  pub Grows-if :
      (t : Bool) (x x' y y' : F)
      → Grows x x'
      → (t ≡ false → Grows y y')
      → Grows (if t then x else y) (if t then x' else y')
  Grows-if true x x' y y' h k = h
  Grows-if false x x' y y' h k = k refl

  module _ (law : IsIeee F) where
    pub of_int-Grows : (m n : ℤ) → pos 0 ≤ℤ m → m ≤ℤ n → Grows (f.of_int m) (f.of_int n)
    of_int-Grows m n h k = (law.of_int_mono (pos 0) m h, law.of_int_mono m n k)

    pub add-Grows : (a b c d : F) → Grows a b → Grows c d → Grows (f.add a c) (f.add b d)
    add-Grows a b c d h k = (law.add_nonneg a c h.0 k.0, law.add_mono a b c d h.0 h.1 k.0 k.1)

    pub mul-Grows :
        (a b : F) (n : ℤ)
        → pos 1 ≤ℤ n
        → Grows a b
        → Grows (f.mul a (f.of_int n)) (f.mul b (f.of_int n))
    mul-Grows a b n one h = (law.mul_nonneg a n one h.0, law.mul_mono a b n one h.0 h.1)

    pub scale-Grows :
        (a b : F) (m k : ℕ)
        → 1 ≤ m
        → Grows a b
        → Grows (f.mul a (f.decimal m k)) (f.mul b (f.decimal m k))
    scale-Grows a b m k one h = (law.scale_nonneg a m k one h.0, law.scale_mono a b m k one h.0 h.1)

    pub div-Grows :
        (a b : F) (n : ℤ)
        → pos 1 ≤ℤ n
        → Grows a b
        → Grows (f.div a (f.of_int n)) (f.div b (f.of_int n))
    div-Grows a b n one h = (law.div_nonneg a n one h.0, law.div_mono a b n one h.0 h.1)
