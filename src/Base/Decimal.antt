-- ===== src/Base/Decimal.antt =====
-- `fmt`'s `%d`: an integer in decimal digits, and what a reader of the digits gets back.
use Prim.Native.Char.{Char, code}
use text.Mathlib.TextLemmas.{nil≢cons, cons-eq-cons, cons-append, nil-append, append_cancel_left}
use search_engine_service.Base.{
  ℕ, zero, suc, ◌+◌, ◌-◌, ◌*◌, ◌/◌, ◌%◌, ◌<◌, ◌≤◌, ◌≡◌, refl, ap, sym, ◌≢◌, ◌∙◌, inl, inr, String,
  ◌<>◌, arith, ltb, if◌then◌else◌, Bool-cases, ltb→lt,
}
use search_engine_service.Base.Int.{ℤ, pos, negsuc}

digit : ℕ → Char
digit zero = "0"
digit (suc zero) = "1"
digit (suc (suc zero)) = "2"
digit (suc (suc (suc zero))) = "3"
digit (suc (suc (suc (suc zero)))) = "4"
digit (suc (suc (suc (suc (suc zero))))) = "5"
digit (suc (suc (suc (suc (suc (suc zero)))))) = "6"
digit (suc (suc (suc (suc (suc (suc (suc zero))))))) = "7"
digit (suc (suc (suc (suc (suc (suc (suc (suc zero)))))))) = "8"
digit (suc (suc (suc (suc (suc (suc (suc (suc (suc n))))))))) = "9"

-- The digits of `n` in front of `rest`.
digits : ℕ → ℕ → String → String
digits zero n rest = rest
digits (suc fuel) n rest =
    let more = digits fuel (n / 10) (String.◌∷◌ (digit (n % 10)) rest) in
    if ltb n 10 then String.◌∷◌ (digit n) rest else more

unfoldable pub format_ℕ : ℕ → String
unfolding digits digit
format_ℕ n = digits (suc n) n ""

unfoldable pub format_ℤ : ℤ → String
unfolding format_ℕ
format_ℤ (pos n) = format_ℕ n
format_ℤ (negsuc n) = "-" <> format_ℕ (suc n)

digit_code : (d : ℕ) → d < 10 → code (digit d) ≡ 48 + d
unfolding digit
digit_code zero h = refl
digit_code (suc zero) h = refl
digit_code (suc (suc zero)) h = refl
digit_code (suc (suc (suc zero))) h = refl
digit_code (suc (suc (suc (suc zero)))) h = refl
digit_code (suc (suc (suc (suc (suc zero))))) h = refl
digit_code (suc (suc (suc (suc (suc (suc zero)))))) h = refl
digit_code (suc (suc (suc (suc (suc (suc (suc zero))))))) h = refl
digit_code (suc (suc (suc (suc (suc (suc (suc (suc zero)))))))) h = refl
digit_code (suc (suc (suc (suc (suc (suc (suc (suc (suc zero))))))))) h = refl
digit_code (suc (suc (suc (suc (suc (suc (suc (suc (suc (suc n)))))))))) h = absurd (omega arith)

-- The number that a run of digits continues `acc` to.
read_from : ℕ → String → ℕ
read_from acc String.[] = acc
read_from acc (String.◌∷◌ c s) = read_from (acc * 10 + (code c - 48)) s

add_digit : (acc d : ℕ) → d < 10 → acc * 10 + (code (digit d) - 48) ≡ acc * 10 + d
add_digit acc d h = omega (arith, digit_code d h)

read_from-digits :
    (fuel n : ℕ) (rest : String) → n < fuel → read_from 0 (digits fuel n rest) ≡ read_from n rest
unfolding digits read_from
read_from-digits zero n rest h = absurd (omega arith)
read_from-digits (suc fuel) n rest h = elim (Bool-cases (ltb n 10)) [
  | inl small ↦ rw small (ap (λ k. read_from k rest) (omega (arith, add_digit 0 n (ground arith))))
  | inr large ↦ rw large (
      read_from-digits fuel (n / 10) (String.◌∷◌ (digit (n % 10)) rest) (ground arith)
      ∙ ap (λ k. read_from k rest) (omega (arith, add_digit (n / 10) (n % 10) (omega arith))))
]

read_from-format_ℕ : (n : ℕ) → read_from 0 (format_ℕ n) ≡ n
unfolding format_ℕ read_from
read_from-format_ℕ n = read_from-digits (suc n) n "" (omega arith)

pub format_ℕ-injective : (m n : ℕ) → format_ℕ m ≡ format_ℕ n → m ≡ n
format_ℕ-injective m n e = sym (read_from-format_ℕ m) ∙ ap (read_from 0) e ∙ read_from-format_ℕ n

-- Every character is a decimal digit.
abbrev pub IsDigits : String → Type 0
IsDigits String.[] = Unit
IsDigits (String.◌∷◌ c s) = (48 ≤ code c) × (code c < 58) × IsDigits s

digit_range : (d : ℕ) → d < 10 → (48 ≤ code (digit d)) × (code (digit d) < 58)
digit_range d h = let e = digit_code d h in (omega arith, omega arith)

digits-IsDigits : (fuel n : ℕ) (rest : String) → IsDigits rest → IsDigits (digits fuel n rest)
unfolding digits
digits-IsDigits zero n rest h = h
digits-IsDigits (suc fuel) n rest h =
    let last = digit_range (n % 10) (omega arith) in
    elim (Bool-cases (ltb n 10)) [
      | inl small ↦ let only = digit_range n (ltb→lt n 10 small) in rw small (only.0, only.1, h)
      | inr large ↦
          rw large
            (digits-IsDigits fuel (n / 10) (String.◌∷◌ (digit (n % 10)) rest) (last.0, last.1, h))
    ]

pub format_ℕ-IsDigits : (n : ℕ) → IsDigits (format_ℕ n)
unfolding format_ℕ
format_ℕ-IsDigits n = digits-IsDigits (suc n) n "" tt

dash-ne-IsDigits : (s t : String) → IsDigits s → s ≢ String.◌∷◌ "-" t
dash-ne-IsDigits String.[] t h e = nil≢cons e
dash-ne-IsDigits (String.◌∷◌ c s) t h e =
    let same : code c ≡ 45 = ap code (cons-eq-cons.0 e).0 in absurd (omega arith)

dash-append : (s : String) → "-" <> s ≡ String.◌∷◌ "-" s
dash-append s = cons-append "-" "" s ∙ ap (String.◌∷◌ "-") (nil-append s)

-- `%d` prints different integers differently.
pub format_ℤ-injective : (a b : ℤ) → format_ℤ a ≡ format_ℤ b → a ≡ b
unfolding format_ℤ
format_ℤ-injective (pos m) (pos n) e = ap pos (format_ℕ-injective m n e)
format_ℤ-injective (pos m) (negsuc n) e =
    absurd (dash-ne-IsDigits (format_ℕ m) _ (format_ℕ-IsDigits m) (e ∙ dash-append _))
format_ℤ-injective (negsuc m) (pos n) e =
    absurd (dash-ne-IsDigits (format_ℕ n) _ (format_ℕ-IsDigits n) (sym e ∙ dash-append _))
format_ℤ-injective (negsuc m) (negsuc n) e =
    let same = format_ℕ-injective (suc m) (suc n) (append_cancel_left "-" _ _ e) in
    ap negsuc (omega arith)
