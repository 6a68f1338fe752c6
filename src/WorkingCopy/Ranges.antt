-- ===== src/WorkingCopy/Ranges.antt =====
-- The ranges that `mergeTextCut` joins (packages/schema/src/working-copy.ts).
use cueloop.Prelude.{
  ℕ, suc, ◌≤◌, ◌<◌, min, max, ◌≡◌, refl, ap, ◌∙◌, Bool, true, false, ◌&&◌, ◌||◌, List, [], ◌∷◌,
  ◌++◌, map, Text, nat_eq, text_eq, length, filter, ltb, leb, any, All, Bool-cases, inl, inr, arith,
}
use cueloop.Prelude.Sort.{any-to_sorted, All-to_sorted, to_sorted-IsSorted, IsSorted}
use cueloop.Types.{TextCut}
use cueloop.WorkingCopy.Cuts.{Range, before, range_of, clamp, join_from, join_ranges, source_ranges}

abbrev pub covers : ℕ → Range → Bool
covers k r = leb r.start k && ltb k r.end

-- Ranges that hold something within `n`, in order, with a gap between each two.
abbrev pub Apart : ℕ → ℕ → List Range → Type 0
Apart n low [] = Unit
Apart n low (r ∷ rs) = (low ≤ r.start) × (r.start < r.end) × (r.end ≤ n) × Apart n (suc r.end) rs

abbrev IsWithin : ℕ → Range → Type 0
IsWithin n r = (r.start < r.end) × (r.end ≤ n)

-- Ranges that hold something within `n`, by their starts.
abbrev Ordered : ℕ → ℕ → List Range → Type 0
Ordered n low [] = Unit
Ordered n low (r ∷ rs) = (low ≤ r.start) × IsWithin n r × Ordered n r.start rs

Ordered-le : (n low low' : ℕ) (rs : List Range) → low' ≤ low → Ordered n low rs → Ordered n low' rs
Ordered-le n low low' [] h o = tt
Ordered-le n low low' (r ∷ rs) h o = (omega (arith, o.0), o.1, o.2)

join_from-Apart :
    (n low : ℕ) (p : Range) (rs : List Range)
    → low ≤ p.start
    → IsWithin n p
    → Ordered n p.start rs
    → Apart n low (join_from p rs)
unfolding join_from
join_from-Apart n low p [] l w o = (l, w.0, w.1, tt)
join_from-Apart n low p (r ∷ rs) l w o = elim (Bool-cases (leb r.start p.end)) [
  | inl t ↦ rw t (
      join_from-Apart n low (record p { end = max p.end r.end }) rs l
        (omega (arith, w.0), omega (arith, w.1, o.1.1)) (Ordered-le n r.start p.start rs o.0 o.2))
  | inr f ↦ rw f (l, w.0, w.1, join_from-Apart n (suc p.end) r rs (ground arith) o.1 o.2)
]

join_from-covers :
    (n k : ℕ) (p : Range) (rs : List Range)
    → Ordered n p.start rs
    → any (covers k) (join_from p rs) ≡ covers k p || any (covers k) rs
unfolding join_from
join_from-covers n k p [] o = refl
join_from-covers n k p (r ∷ rs) o = elim (Bool-cases (leb r.start p.end)) [
  | inl t ↦ rw t (
      join_from-covers n k (record p { end = max p.end r.end }) rs
        (Ordered-le n r.start p.start rs o.0 o.2)
      ∙ ground (arith, o.0))
  | inr f ↦ rw f (ap (λ (b : Bool). covers k p || b) (join_from-covers n k r rs o.2))
]

Ordered-sorted :
    (n : ℕ) (rs : List Range) → IsSorted before rs → All (IsWithin n) rs → Ordered n 0 rs
Ordered-sorted n [] s w = tt
Ordered-sorted n (r ∷ rs) s w = (omega arith, w.0, behind r rs s w.1)
  where
    behind :
        (r : Range) (rs : List Range)
        → IsSorted before (r ∷ rs)
        → All (IsWithin n) rs
        → Ordered n r.start rs
    behind r [] s w = tt
    behind r (q ∷ qs) s w = (ground (arith, s.0), w.0, behind q qs s.1 w.1)

kept_ranges-IsWithin :
    (n : ℕ) (rs : List Range)
    → All (IsWithin n) (filter (λ r. ltb r.start r.end) (map (clamp n) rs))
kept_ranges-IsWithin n [] = tt
kept_ranges-IsWithin n (r ∷ rs) = elim (Bool-cases (ltb (min r.start n) (min r.end n))) [
  | inl t ↦ rw t ((ground arith, omega arith), kept_ranges-IsWithin n rs)
  | inr f ↦ rw f (kept_ranges-IsWithin n rs)
]

kept_ranges-covers :
    (n k : ℕ) (rs : List Range)
    → k < n
    → any (covers k) (filter (λ r. ltb r.start r.end) (map (clamp n) rs)) ≡ any (covers k) rs
kept_ranges-covers n k [] h = refl
kept_ranges-covers n k (r ∷ rs) h = ground (arith, kept_ranges-covers n k rs h)

before_total : (a b : Range) → before a b ≡ false → before b a ≡ true
before_total a b h = ground arith

source_ranges-Ordered :
    (source : Text) (cuts : List TextCut) (new : Range)
    → Ordered (length source) 0 (source_ranges source cuts new)
unfolding source_ranges
source_ranges-Ordered source cuts new =
    let within = kept_ranges-IsWithin (length source) (map range_of cuts ++ new ∷ []) in
    Ordered-sorted (length source) _ (to_sorted-IsSorted before before_total _)
      (All-to_sorted before (IsWithin (length source)) _ within)

any-snoc : (p : Range → Bool) (rs : List Range) (r : Range) → any p (rs ++ r ∷ []) ≡ any p rs || p r
any-snoc p [] r = ground arith
any-snoc p (q ∷ qs) r = ground (arith, any-snoc p qs r)

pub joined-Apart :
    (source : Text) (cuts : List TextCut) (new : Range)
    → Apart (length source) 0 (join_ranges (source_ranges source cuts new))
unfolding join_ranges
joined-Apart source cuts new =
    join_Apart (source_ranges source cuts new) (source_ranges-Ordered source cuts new)
  where
    join_Apart :
        (rs : List Range) → Ordered (length source) 0 rs → Apart (length source) 0 (join_ranges rs)
    join_Apart [] o = tt
    join_Apart (r ∷ rs) o = join_from-Apart (length source) 0 r rs o.0 o.1 o.2

pub joined-covers :
    (source : Text) (cuts : List TextCut) (new : Range) (k : ℕ)
    → k < length source
    → any (covers k) (join_ranges (source_ranges source cuts new))
      ≡ any (covers k) (map range_of cuts) || covers k new
unfolding source_ranges join_ranges
joined-covers source cuts new k h =
    join_covers (source_ranges source cuts new) (source_ranges-Ordered source cuts new)
    ∙ (any-to_sorted before (covers k) _
        ∙ (kept_ranges-covers (length source) k (map range_of cuts ++ new ∷ []) h
            ∙ any-snoc (covers k) (map range_of cuts) new))
  where
    join_covers :
        (rs : List Range)
        → Ordered (length source) 0 rs
        → any (covers k) (join_ranges rs) ≡ any (covers k) rs
    join_covers [] o = refl
    join_covers (r ∷ rs) o = join_from-covers (length source) k r rs o.2
