-- ===== src/Tests/ScoringTests.antt =====
-- internal/domain/scoring.go with whole numbers for the floating-point ones.
use native.Mathlib.Nat.{mul-le-mul_right, le-div_iff_mul-le, div-mul-le_self}
use search_engine_service.Base.{ℕ, zero, suc, ◌*◌, ◌/◌, ◌≤◌, ◌≡◌, refl, some, arith}
use search_engine_service.Base.Int.{ℤ, pos, negsuc, ◌≤ℤ◌, quot64, ◌*ℤ◌}
use search_engine_service.Base.Float.{◌≼◌}
use search_engine_service.Domain.Scoring.{
  calculate_base_score, content_type_coefficient, calculate_recency_score,
  calculate_engagement_score, calculate_score,
}
use search_engine_service.Domain.Content.{days_since_published}
use search_engine_service.Domain.Scoring.Ieee.{IsIeee, Grows}
use search_engine_service.Domain.Scoring.Monotone.{IsMoreLiked, calculate_score-Grows}
use search_engine_service.Tests.Fakes.{toy, content_of}

div_mono : (a b n : ℕ) → a ≤ b → a / suc n ≤ b / suc n
div_mono a b n h =
    (le-div_iff_mul-le {k = suc n} (omega arith)).1 (omega (arith, div-mul-le_self a (suc n)))

times_pos : (a n : ℕ) → pos a *ℤ pos n ≡ pos (a * n)
times_pos a n = ground arith

mul_nonneg : (a n : ℤ) → pos 1 ≤ℤ n → pos 0 ≼ a → pos 0 ≼ (a *ℤ n)
mul_nonneg (pos a) (pos n) one h = rw (times_pos a n) (ground arith)
mul_nonneg (pos a) (negsuc n) one h = absurd (ground arith)
mul_nonneg (negsuc a) n one h = absurd (ground arith)

mul_mono : (a b n : ℤ) → pos 1 ≤ℤ n → pos 0 ≼ a → a ≼ b → (a *ℤ n) ≼ (b *ℤ n)
mul_mono (pos a) (pos b) (pos n) one low up =
    let more : a * n ≤ b * n = mul-le-mul_right n (ground arith) in
    rw (times_pos a n, times_pos b n) (ground arith)
mul_mono (pos a) (pos b) (negsuc n) one low up = absurd (ground arith)
mul_mono (pos a) (negsuc b) n one low up = absurd (ground arith)
mul_mono (negsuc a) b n one low up = absurd (ground arith)

quot_nonneg : (a n : ℤ) → pos 1 ≤ℤ n → pos 0 ≼ a → pos 0 ≼ quot64 a n
unfolding quot64
quot_nonneg (pos a) (pos n) one h = ground arith
quot_nonneg (pos a) (negsuc n) one h = absurd (ground arith)
quot_nonneg (negsuc a) n one h = absurd (ground arith)

quot_mono : (a b n : ℤ) → pos 1 ≤ℤ n → pos 0 ≼ a → a ≼ b → quot64 a n ≼ quot64 b n
unfolding quot64
quot_mono (pos a) (pos b) (pos zero) one low up = absurd (ground arith)
quot_mono (pos a) (pos b) (pos (suc n)) one low up =
    let less = div_mono a b n (ground arith) in ground arith
quot_mono (pos a) (pos b) (negsuc n) one low up = absurd (ground arith)
quot_mono (pos a) (negsuc b) n one low up = absurd (ground arith)
quot_mono (negsuc a) b n one low up = absurd (ground arith)

toy-IsIeee : IsIeee ℤ
toy-IsIeee = record {
  le_trans = λ a b c h k. ground arith;
  of_int_mono = λ m n h. ground arith;
  decimal_nonneg = λ m k. ground arith;
  decimal_self = λ m k. ground arith;
  add_mono = λ a b c d h k l m. ground arith;
  add_nonneg = λ a b h k. ground arith;
  mul_mono = λ a b n one low up. mul_mono a b n one low up;
  mul_nonneg = λ a n one low. mul_nonneg a n one low;
  scale_mono = λ a b m k one low up. mul_mono a b (pos m) (omega arith) low up;
  scale_nonneg = λ a m k one low. mul_nonneg a (pos m) (omega arith) low;
  div_mono = λ a b n one low up. quot_mono a b n one low up;
  div_nonneg = λ a n one low. quot_nonneg a n one low;
  to_int_mono = λ a b low up range. ground arith;
  to_int_nonneg = λ a low range. ground arith;
}

video-IsMoreLiked : IsMoreLiked toy-IsIeee (content_of "a" "video") (pos 9000) (pos 0)
video-IsMoreLiked = record {
  views = omega arith;
  reading_time = omega arith;
  old_likes = omega arith;
  old_reactions = omega arith;
  more_likes = omega arith;
  more_reactions = omega arith;
}

abbrev now : ℤ
now = pos 5_000_000_000_000_000

old_days : days_since_published now (content_of "a" "video") ≡ pos 57
unfolding days_since_published
old_days = refl

new_days : days_since_published (pos 0) (content_of "a" "video") ≡ pos 0
unfolding days_since_published
new_days = refl

younger :
    days_since_published (pos 0) (content_of "a" "video")
    ≤ℤ days_since_published now (content_of "a" "video")
younger = rw (old_days, new_days) (omega arith)

calculate_score_example :
    Grows
      (calculate_score now (some (content_of "a" "video")))
      (calculate_score (pos 0) (some (record (content_of "a" "video") { likes = pos 9000 })))
unfolding calculate_base_score content_type_coefficient calculate_recency_score days_since_published
    calculate_engagement_score
calculate_score_example =
    calculate_score-Grows toy-IsIeee now (pos 0) (content_of "a" "video") (pos 9000) (pos 0)
      video-IsMoreLiked younger refl
