-- ===== src/Anchors/Windows.antt =====
-- The body of the loops of `fuzzyFindBestMatch` (packages/schema/src/fuzzy.ts).
use native.Mathlib.Nat.{mul-le-mul_right, le_of_mul-le-mul_right}
use cueloop.Prelude.{
  ℕ, ◌+◌, ◌-◌, ◌*◌, ◌≤◌, ◌<◌, max, ◌≡◌, refl, sym, subst, Bool, true, false, ◌||◌, Option, none,
  some, Text, ◌==◌, nat_eq, text_eq, length, Bool-cases, ◌⊎◌, inl, inr, arith,
}
use cueloop.Anchors.Fuzzy.{
  Ratio, ratio_lt, slice, FuzzyMatch, similarity_ratio, Scan, window_match, better, try_window,
}

similarity_ratio-den_pos : (left right : Text) → 0 < (similarity_ratio left right).den
unfolding similarity_ratio
similarity_ratio-den_pos left right = elim (Bool-cases (max (length left) (length right) == 0)) [
  | inl t ↦ rw t (omega arith)
  | inr f ↦ rw f (ground arith)
]

-- What is not more than the one is not more than one that is more.
ratio_lt_trans :
    (w best found : Ratio)
    → 0 < best.den
    → ratio_lt best w ≡ false
    → ratio_lt best found ≡ true
    → ratio_lt found w ≡ false
ratio_lt_trans w best found pos below more =
    let low : w.num * best.den ≤ best.num * w.den = ground arith in
    let high : best.num * found.den ≤ found.num * best.den = ground arith in
    let a : w.num * best.den * found.den ≤ best.num * w.den * found.den =
      mul-le-mul_right found.den low in
    let b : best.num * found.den * w.den ≤ found.num * best.den * w.den =
      mul-le-mul_right w.den high in
    let scaled : w.num * found.den * best.den ≤ found.num * w.den * best.den =
      omega (arith, a, b) in
    let done : w.num * found.den ≤ found.num * w.den = le_of_mul-le-mul_right scaled pos in
    ground (arith, done)

module _ (needle text : Text) (floor : Ratio) where
  abbrev similarity_at : ℕ → ℕ → Ratio
  similarity_at start window_length =
      (window_match needle text floor start window_length).similarity

  -- A window in the text that is similar enough, with its similarity.
  pub record IsMatch (found : FuzzyMatch) : Type 0 where
    pub not_empty : found.start < found.end
    pub in_text : found.end ≤ length text
    pub measured : found.similarity ≡ similarity_ratio needle (slice text found.start found.end)
    pub enough : ratio_lt found.similarity floor ≡ false

  abbrev pub IsFound : Option FuzzyMatch → Type 0
  IsFound none = Unit
  IsFound (some found) = IsMatch found

  -- A window that is not similar enough, or not more similar than the best one.
  abbrev pub IsBeaten : Option FuzzyMatch → ℕ → ℕ → Type 0
  IsBeaten best start window_length =
      (ratio_lt (similarity_at start window_length) floor ≡ true)
      ⊎ ((m : FuzzyMatch) × (best ≡ some m)
          × (ratio_lt m.similarity (similarity_at start window_length) ≡ false))

  better-IsFound :
      (found : FuzzyMatch) (best : Option FuzzyMatch)
      → IsMatch found
      → IsFound best
      → IsFound (better needle text floor found best)
  better-IsFound found none h k = h
  better-IsFound found (some m) h k = elim (Bool-cases (ratio_lt m.similarity found.similarity)) [
    | inl t ↦ rw t h
    | inr f ↦ rw f k
  ]

  IsMatch-den_pos : (m : FuzzyMatch) → IsMatch m → 0 < m.similarity.den
  IsMatch-den_pos m h =
      subst (λ (r : Ratio). 0 < r.den) (sym h.measured)
        (similarity_ratio-den_pos needle (slice text m.start m.end))

  better_self :
      (found : FuzzyMatch) (best : Option FuzzyMatch)
      → (m : FuzzyMatch) × (better needle text floor found best ≡ some m)
        × (ratio_lt m.similarity found.similarity ≡ false)
  better_self found none = (found, refl, ground arith)
  better_self found (some m) = elim (Bool-cases (ratio_lt m.similarity found.similarity)) [
    | inl t ↦ (found, rw t refl, ground arith)
    | inr f ↦ (m, rw f refl, f)
  ]

  better-IsBeaten :
      (found : FuzzyMatch) (best : Option FuzzyMatch) (s l : ℕ)
      → IsFound best
      → IsBeaten best s l
      → IsBeaten (better needle text floor found best) s l
  better-IsBeaten found best s l k (inl t) = inl t
  better-IsBeaten found none s l k (inr (m, e, f)) = absurd (ground arith)
  better-IsBeaten found (some b) s l k (inr (m, e, f)) =
      let same : b ≡ m = ground arith in
      let below : ratio_lt b.similarity (similarity_at s l) ≡ false =
        subst (λ (x : FuzzyMatch). ratio_lt x.similarity (similarity_at s l) ≡ false) (sym same)
          f in
      elim (Bool-cases (ratio_lt b.similarity found.similarity)) [
        | inl t ↦ rw t (
            inr (
              found,
              refl,
              ratio_lt_trans (similarity_at s l) b.similarity found.similarity (IsMatch-den_pos b k)
                  below t,
            ))
        | inr g ↦ rw g (inr (b, refl, below))
      ]

  module _ (start window_length : ℕ) where
    pub try_window-IsFound :
        (scan : Scan)
        → 0 < window_length
        → start + window_length ≤ length text
        → IsFound scan.best
        → IsFound (try_window needle text floor start window_length scan).best
    unfolding try_window
    try_window-IsFound scan p q h = elim (Bool-cases skipped) [
      | inl t ↦ rw t h
      | inr f ↦ rw f (
          better-IsFound _ scan.best
            (record {
              not_empty = omega arith;
              in_text = q;
              measured = refl;
              enough = ground arith;
            })
            h)
    ]
      where
        skipped : Bool
        skipped =
            (scan.remaining - length needle * window_length) == 0
            || ratio_lt (similarity_at start window_length) floor

    abbrev spent : Scan → Bool
    spent scan = (scan.remaining - length needle * window_length) == 0

    abbrev pub tried : Scan → Scan
    tried scan = try_window needle text floor start window_length scan

    -- The window that is tried is beaten, unless the budget is spent on it.
    pub try_window-IsBeaten :
        (scan : Scan)
        → ((tried scan).remaining == 0) ≡ false
        → IsBeaten (tried scan).best start window_length
    unfolding try_window
    try_window-IsBeaten scan h =
        elim (Bool-cases (ratio_lt (similarity_at start window_length) floor)) [
          | inl t ↦ inl t
          | inr f ↦ elim (Bool-cases (spent scan)) [
            | inl t ↦ absurd (ground arith)
            | inr g ↦
                let (m, e, b) =
                  better_self (window_match needle text floor start window_length) scan.best in
                rw (g, f) (inr (m, e, b))
          ]
        ]

    pub try_window-IsBeaten_other :
        (scan : Scan) (s l : ℕ)
        → IsFound scan.best
        → IsBeaten scan.best s l
        → IsBeaten (tried scan).best s l
    unfolding try_window
    try_window-IsBeaten_other scan s l k h =
        elim (Bool-cases (spent scan || ratio_lt (similarity_at start window_length) floor)) [
          | inl t ↦ rw t h
          | inr f ↦ rw f (
              better-IsBeaten (window_match needle text floor start window_length) scan.best s l k
                h)
        ]
