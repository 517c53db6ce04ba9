-- ===== src/Domain/Scoring/Monotone.antt =====
-- internal/domain/scoring.go, `CalculateScore`: what raises a score and what lowers it.
use search_engine_service.Base.{
  String, ◌^◌, ◌≡◌, some, arith, ◌==◌, string_eq, ==_iff, if◌then◌else◌, if_ind,
}
use search_engine_service.Base.Int.{ℤ, pos, ◌≤ℤ◌, leb_ℤ, int_eq}
use search_engine_service.Base.Float.{Float, ◌≼◌}
use search_engine_service.Domain.Content.{
  Time, Content, content_type_video, content_type_article, days_since_published,
}
use search_engine_service.Domain.Scoring.{
  content_type_coefficient, calculate_base_score, recency_of_days, calculate_recency_score,
  calculate_engagement_score, round_to2_decimals, calculate_score,
}
use search_engine_service.Domain.Scoring.Ieee.{
  zero_point, IsIeee, Grows, Grows-if, of_int-Grows, add-Grows, mul-Grows, scale-Grows, div-Grows,
}

-- The bonus of an age, as a number.
abbrev bonus : ℤ → ℤ
bonus d =
    if leb_ℤ d (pos 7)
    then pos 5
    else if leb_ℤ d (pos 30)
    then pos 3
    else if leb_ℤ d (pos 90)
    then pos 1
    else pos 0

bonus_antitone : (d d' : ℤ) → d' ≤ℤ d → (pos 0 ≤ℤ bonus d) × (bonus d ≤ℤ bonus d')
bonus_antitone d d' h = ground arith

module _ {F : Type 0} ⦃f : Float F⦄ where
  recency_of_days-bonus : (d : ℤ) → recency_of_days d ≡ f.of_int (bonus d)
  unfolding recency_of_days
  recency_of_days-bonus d = ground arith

  module _ (law : IsIeee F) where
    recency-Grows : (d d' : ℤ) → d' ≤ℤ d → Grows {F = F} (recency_of_days d) (recency_of_days d')
    recency-Grows d d' h =
        let (nonneg, less) = bonus_antitone d d' h in
        rw (recency_of_days-bonus d, recency_of_days-bonus d')
          (of_int-Grows law (bonus d) (bonus d') nonneg less)

    -- The content with other likes and reactions.
    abbrev pub with_likes : Content F → ℤ → ℤ → Content F
    with_likes c likes reactions = record c { likes = likes; reactions = reactions }

    -- No counter is negative, and `likes` and `reactions` are not below those of the content.
    pub record IsMoreLiked (c : Content F) (likes reactions : ℤ) : Type 0 where
      pub views : pos 0 ≤ℤ c.views
      pub reading_time : pos 0 ≤ℤ c.reading_time
      pub old_likes : pos 0 ≤ℤ c.likes
      pub old_reactions : pos 0 ≤ℤ c.reactions
      pub more_likes : c.likes ≤ℤ likes
      pub more_reactions : c.reactions ≤ℤ reactions

    base-Grows :
        (c : Content F) (l r : ℤ)
        → IsMoreLiked c l r
        → Grows (calculate_base_score c) (calculate_base_score (with_likes c l r))
    unfolding calculate_base_score
    base-Grows c l r h =
        let part = λ (m n d : ℤ) (one : pos 1 ≤ℤ d) (low : pos 0 ≤ℤ m) (up : m ≤ℤ n).
          div-Grows law (f.of_int m) (f.of_int n) d one (of_int-Grows law m n low up) in
        Grows-if {F = F} (c.type == content_type_video) _ _ _ _
          (add-Grows law _ _ _ _
            (part c.views c.views (pos 1000) (omega arith) h.views (omega arith))
            (part c.likes l (pos 100) (omega arith) h.old_likes h.more_likes))
          (λ other.
            Grows-if {F = F} (c.type == content_type_article) _ _ _ _
              (add-Grows law _ _ _ _
                (of_int-Grows law c.reading_time c.reading_time h.reading_time (omega arith))
                (part c.reactions r (pos 50) (omega arith) h.old_reactions h.more_reactions))
              (λ unknown. of_int-Grows law (pos 0) (pos 0) (omega arith) (omega arith)))

    -- A share of something that is not zero, times a weight.
    share-Grows :
        (m n d weight : ℤ)
        → pos 0 ≤ℤ m
        → m ≤ℤ n
        → pos 0 ≤ℤ d
        → pos 1 ≤ℤ weight
        → Grows
            (if d == pos 0
              then zero_point
              else f.mul (f.div (f.of_int m) (f.of_int d)) (f.of_int weight))
            (if d == pos 0
              then zero_point
              else f.mul (f.div (f.of_int n) (f.of_int d)) (f.of_int weight))
    share-Grows m n d weight low up nonneg one =
        Grows-if {F = F} (d == pos 0) _ _ _ _
          (of_int-Grows law (pos 0) (pos 0) (omega arith) (omega arith))
          (λ some_views.
            mul-Grows law _ _ weight one (
              div-Grows law _ _ d (ground (arith, ==_iff d (pos 0))) (of_int-Grows law m n low up)))

    engagement-Grows :
        (c : Content F) (l r : ℤ)
        → IsMoreLiked c l r
        → Grows (calculate_engagement_score c) (calculate_engagement_score (with_likes c l r))
    unfolding calculate_engagement_score
    engagement-Grows c l r h =
        Grows-if {F = F} (c.type == content_type_video) _ _ _ _
          (share-Grows c.likes l c.views (pos 10) h.old_likes h.more_likes h.views (omega arith))
          (λ other.
            Grows-if {F = F} (c.type == content_type_article) _ _ _ _
              (share-Grows c.reactions r c.reading_time (pos 5) h.old_reactions h.more_reactions
                h.reading_time (omega arith))
              (λ unknown. of_int-Grows law (pos 0) (pos 0) (omega arith) (omega arith)))

    coefficient-Grows :
        (a b : F) (t : String)
        → Grows a b
        → Grows (f.mul a (content_type_coefficient t)) (f.mul b (content_type_coefficient t))
    unfolding content_type_coefficient
    coefficient-Grows a b t h =
        let P = λ (x : F). Grows (f.mul a x) (f.mul b x) in
        let plain = scale-Grows law a b 10 1 (omega arith) h in
        if_ind P (t == content_type_video) _ _ (scale-Grows law a b 15 1 (omega arith) h)
          (if_ind P (t == content_type_article) _ _ plain plain)

    -- The score before it is rounded.
    abbrev pub raw_score : Time → Content F → F
    raw_score now c =
        f.add
          (f.add (f.mul (calculate_base_score c) (content_type_coefficient c.type))
            (calculate_recency_score now c))
          (calculate_engagement_score c)

    -- The raw score in hundredths is in the range in which its conversion to an integer is exact.
    abbrev pub IsInRange : F → Type 0
    IsInRange x = f.add (f.mul x (f.of_int (pos 100))) (f.decimal 5 1) ≼ f.of_int (pos (2 ^ 62))

    round-Grows :
        (a b : F) → IsInRange b → Grows a b → Grows (round_to2_decimals a) (round_to2_decimals b)
    unfolding round_to2_decimals
    round-Grows a b range h =
        let half = f.decimal 5 1 in
        let (low, up) =
          add-Grows law _ _ half half (mul-Grows law a b (pos 100) (omega arith) h)
            (law.decimal_nonneg 5 1, law.decimal_self 5 1) in
        div-Grows law _ _ (pos 100) (omega arith) (
          of_int-Grows law _ _ (law.to_int_nonneg _ low (law.le_trans _ _ _ up range))
            (law.to_int_mono _ _ low up range))

    recency_score-Grows :
        (now now' : Time) (c : Content F) (l r : ℤ)
        → days_since_published now' c ≤ℤ days_since_published now c
        → Grows (calculate_recency_score now c) (calculate_recency_score now' (with_likes c l r))
    unfolding calculate_recency_score days_since_published
    recency_score-Grows now now' c l r younger =
        recency-Grows (days_since_published now c) (days_since_published now' c) younger

    -- For IEEE arithmetic and counters that are not negative: a score is not negative; more likes
    -- and reactions never lower it, and neither does a smaller age in whole days, as long as the
    -- greater score, in hundredths, is in the range of an integer.
    pub calculate_score-Grows :
        (now now' : Time) (c : Content F) (likes reactions : ℤ)
        → IsMoreLiked c likes reactions
        → days_since_published now' c ≤ℤ days_since_published now c
        → IsInRange (raw_score now' (with_likes c likes reactions))
        → Grows
            (calculate_score now (some c))
            (calculate_score now' (some (with_likes c likes reactions)))
    unfolding calculate_score
    calculate_score-Grows now now' c likes reactions h younger range = round-Grows _ _ range (
        add-Grows law _ _ _ _
          (add-Grows law _ _ _ _ (coefficient-Grows _ _ c.type (base-Grows c likes reactions h))
            (recency_score-Grows now now' c likes reactions younger))
          (engagement-Grows c likes reactions h))
