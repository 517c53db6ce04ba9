-- ===== src/Base/Slices.antt =====
-- Go's slices, where `append` writes into the array of a slice that has room: slices that were made
-- from one slice may share their places.
use search_engine_service.Base.{
  ℕ, zero, suc, ◌+◌, ◌-◌, ◌≤◌, ◌≡◌, refl, sym, ap, ◌∙◌, subst, inl, inr, List, [], ◌∷◌, ◌++◌,
  length, take, drop, length-append, arith, leb, ◌==◌, nat_eq, ==_iff, Bool-cases, if◌then◌else◌,
  true,
}

-- A slice from the start of an array; the arrays by number.
pub record Slice : Type 0 where
  pub array : ℕ
  pub size : ℕ
  pub capacity : ℕ

pub record Heap (A : Type 0) : Type 0 where
  pub arrays : ℕ → List A
  pub next : ℕ

-- `make([]A, 0)`: it has no places.
abbrev pub empty_slice : Slice
empty_slice = record { array = 0; size = 0; capacity = 0 }

module _ {A : Type 0} where
  -- The places of an array from `n` on, written over.
  abbrev pub overwrite : ℕ → List A → List A → List A
  overwrite zero xs old = xs ++ drop (length xs) old
  overwrite (suc n) xs [] = []
  overwrite (suc n) xs (a ∷ old) = a ∷ overwrite n xs old

  abbrev pub blanks : ℕ → A → List A
  blanks zero a = []
  blanks (suc n) a = a ∷ blanks n a

  abbrev pub with_array : ℕ → List A → Heap A → Heap A
  with_array i old h = record h { arrays = λ j. if j == i then old else h.arrays j }

  abbrev pub elements : Slice → Heap A → List A
  elements s h = take s.size (h.arrays s.array)

  -- `append` where the slice has room, and where the runtime gives an array with `room` more places.
  abbrev pub append_in_place : Slice → List A → Heap A → Slice × Heap A
  append_in_place s xs h = (
    record s { size = s.size + length xs },
    with_array s.array (overwrite s.size xs (h.arrays s.array)) h,
  )

  abbrev pub append_elsewhere : A → (ℕ → ℕ) → Slice → List A → Heap A → Slice × Heap A
  append_elsewhere blank room s xs h =
      let needed = s.size + length xs in
      let more = blanks (room needed) blank in
      (
        record { array = h.next; size = needed; capacity = needed + room needed },
        record (with_array h.next (elements s h ++ (xs ++ more)) h) { next = suc h.next },
      )

  abbrev pub append : A → (ℕ → ℕ) → Slice → List A → Heap A → Slice × Heap A
  append blank room s xs h =
      if leb (s.size + length xs) s.capacity
      then append_in_place s xs h
      else append_elsewhere blank room s xs h

  -- A slice whose array has its places.
  pub record IsSlice (s : Slice) (h : Heap A) : Type 0 where
    pub shown : s.size ≤ s.capacity
    pub there : s.capacity ≤ length (h.arrays s.array)

  take-over : (xs ys : List A) → take (length xs) (xs ++ ys) ≡ xs
  take-over [] ys = refl
  take-over (x ∷ xs) ys = ap (λ t. x ∷ t) (take-over xs ys)

  take-more :
      (n : ℕ) (old xs ys : List A)
      → length old ≡ n
      → take (n + length xs) (old ++ (xs ++ ys)) ≡ old ++ xs
  take-more zero [] xs ys e =
      let same : 0 + length xs ≡ length xs = omega arith in rw same (take-over xs ys)
  take-more zero (x ∷ old) xs ys e = absurd (omega (arith, e))
  take-more (suc n) [] xs ys e = absurd (omega (arith, e))
  take-more (suc n) (x ∷ old) xs ys e =
      let same : suc n + length xs ≡ suc (n + length xs) = omega arith in
      rw same (ap (λ t. x ∷ t) (take-more n old xs ys (omega (arith, e))))

  take-overwrite :
      (n : ℕ) (xs old : List A)
      → n ≤ length old
      → take (n + length xs) (overwrite n xs old) ≡ take n old ++ xs
  take-overwrite zero xs old h =
      let e : 0 + length xs ≡ length xs = omega arith in rw e (take-over xs (drop (length xs) old))
  take-overwrite (suc n) xs [] h = absurd (omega arith)
  take-overwrite (suc n) xs (a ∷ old) h =
      let e : suc n + length xs ≡ suc (n + length xs) = omega arith in
      rw e (ap (λ t. a ∷ t) (take-overwrite n xs old (omega arith)))

  length-drop : (n : ℕ) (old : List A) → n ≤ length old → length (drop n old) ≡ length old - n
  length-drop zero old h = omega arith
  length-drop (suc n) [] h = absurd (omega arith)
  length-drop (suc n) (a ∷ old) h = omega (arith, length-drop n old (omega arith))

  length-overwrite :
      (n : ℕ) (xs old : List A)
      → n + length xs ≤ length old
      → length (overwrite n xs old) ≡ length old
  length-overwrite zero xs old h =
      omega
        (arith, length-append xs (drop (length xs) old), length-drop (length xs) old (omega arith))
  length-overwrite (suc n) xs [] h = absurd (omega arith)
  length-overwrite (suc n) xs (a ∷ old) h = ap suc (length-overwrite n xs old (omega arith))

  length-take : (n : ℕ) (old : List A) → n ≤ length old → length (take n old) ≡ n
  length-take zero old h = refl
  length-take (suc n) [] h = absurd (omega arith)
  length-take (suc n) (a ∷ old) h = ap suc (length-take n old (omega arith))

  length-blanks : (n : ℕ) (a : A) → length (blanks n a) ≡ n
  length-blanks zero a = refl
  length-blanks (suc n) a = ap suc (length-blanks n a)

  with_array-own : (i : ℕ) (old : List A) (h : Heap A) → (with_array i old h).arrays i ≡ old
  with_array-own i old h = ground (arith, ==_iff i i)

  -- The slice that `append` returns shows the old elements and the new ones.
  abbrev pub Appended : Slice → List A → Heap A → Slice × Heap A → Type 0
  Appended s xs h out = (elements out.0 out.1 ≡ elements s h ++ xs) × IsSlice out.0 out.1

  append_in_place-Appended :
      (s : Slice) (xs : List A) (h : Heap A)
      → IsSlice s h
      → s.size + length xs ≤ s.capacity
      → Appended s xs h (append_in_place s xs h)
  append_in_place-Appended s xs h v small =
      let old = h.arrays s.array in
      let same = with_array-own s.array (overwrite s.size xs old) h in
      (
        ap (take (s.size + length xs)) same
            ∙ take-overwrite s.size xs old (omega (arith, v.shown, v.there)),
        record {
          shown = small;
          there =
              subst (λ new. s.capacity ≤ length new) (sym same)
                (omega (arith, v.there, length-overwrite s.size xs old (omega (arith, v.there))));
        },
      )

  append_elsewhere-Appended :
      (blank : A) (room : ℕ → ℕ) (s : Slice) (xs : List A) (h : Heap A)
      → IsSlice s h
      → Appended s xs h (append_elsewhere blank room s xs h)
  append_elsewhere-Appended blank room s xs h v =
      let needed = s.size + length xs in
      let more = blanks (room needed) blank in
      let whole = elements s h ++ (xs ++ more) in
      let same = with_array-own h.next whole h in
      let shown = length-take s.size (h.arrays s.array) (omega (arith, v.shown, v.there)) in
      (
        ap (take needed) same ∙ take-more s.size (elements s h) xs more shown,
        record {
          shown = omega arith;
          there =
              subst (λ new. needed + room needed ≤ length new) (sym same)
                (omega (
                  arith,
                  shown,
                  length-append (elements s h) (xs ++ more),
                  length-append xs more,
                  length-blanks (room needed) blank,
                ));
        },
      )

  pub append-Appended :
      (blank : A) (room : ℕ → ℕ) (s : Slice) (xs : List A) (h : Heap A)
      → IsSlice s h
      → Appended s xs h (append blank room s xs h)
  append-Appended blank room s xs h v = elim (Bool-cases (leb (s.size + length xs) s.capacity)) [
    | inl fits ↦ rw fits (append_in_place-Appended s xs h v (ground arith))
    | inr full ↦ rw full (append_elsewhere-Appended blank room s xs h v)
  ]

  take-under : (n : ℕ) (xs old : List A) → n ≤ length old → take n (overwrite n xs old) ≡ take n old
  take-under zero xs old h = refl
  take-under (suc n) xs [] h = refl
  take-under (suc n) xs (a ∷ old) h = ap (λ t. a ∷ t) (take-under n xs old (omega arith))

  -- Of two appends to one slice with room for them, the second writes over the elements of the first.
  pub append_twice :
      (blank : A) (room : ℕ → ℕ) (s : Slice) (xs ys : List A) (h : Heap A)
      → IsSlice s h
      → s.size + length xs ≤ s.capacity
      → length xs ≡ length ys
      → let (first, h1) = append blank room s xs h in
        let (second, h2) = append blank room s ys h1 in
        (elements first h2 ≡ elements s h ++ ys) × IsSlice first h2
  append_twice blank room s xs ys h v fits even =
      let first : leb (s.size + length xs) s.capacity ≡ true = ground arith in
      let second : leb (s.size + length ys) s.capacity ≡ true = ground arith in
      let old = h.arrays s.array in
      let once = overwrite s.size xs old in
      let h1 = with_array s.array once h in
      let one = with_array-own s.array once h in
      let two = with_array-own s.array (overwrite s.size ys (h1.arrays s.array)) h1 in
      let long = length-overwrite s.size xs old (omega (arith, v.there)) in
      let long' =
        length-overwrite s.size ys (h1.arrays s.array)
          (omega (arith, v.there, long, ap length one)) in
      rw (first, second)
        (
          ap (take (s.size + length xs)) (two ∙ ap (overwrite s.size ys) one)
              ∙ ap (λ n. take (s.size + n) (overwrite s.size ys once)) even
              ∙ take-overwrite s.size ys once (omega (arith, long, v.shown, v.there))
              ∙ ap (λ t. t ++ ys) (take-under s.size xs old (omega (arith, v.shown, v.there))),
          record {
            shown = fits;
            there =
                subst (λ new. s.capacity ≤ length new) (sym two)
                  (omega (arith, v.there, long, long', ap length one));
          },
        )

  pub empty_slice-IsSlice : (h : Heap A) → IsSlice empty_slice h
  empty_slice-IsSlice h = record { shown = omega arith; there = omega arith }
