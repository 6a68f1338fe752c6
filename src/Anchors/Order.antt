-- ===== src/Anchors/Order.antt =====
-- The order in which packages/schema/src/anchor.ts scans the blocks.
use cueloop.Prelude.{
  ℕ, zero, suc, ◌+◌, ◌-◌, ◌<◌, ◌≡◌, refl, Bool, true, false, ◌&&◌, ◌||◌, List, [], ◌∷◌, ◌++◌,
  Option, none, some, ◌==◌, nat_eq, leb, ltb, if◌then◌else◌, Bool-cases, inl, inr, arith, ◌⊎◌, All,
  All-append,
}
use cueloop.Anchors.Resolve.{spiral, block_scan_order, first_block}

-- How often a block is scanned.
abbrev pub times : ℕ → List ℕ → ℕ
times k [] = 0
times k (i ∷ is) = (if i == k then 1 else 0) + times k is

times-append : (k : ℕ) (is js : List ℕ) → times k (is ++ js) ≡ times k is + times k js
times-append k [] js = omega arith
times-append k (i ∷ is) js = omega (arith, times-append k is js)

-- The rounds from `step` on reach the blocks whose distance lies among theirs.
abbrev reached : ℕ → ℕ → ℕ → ℕ → ℕ → Bool
reached first count rounds step k =
    ltb k count
    && ((leb (first + step) k && ltb k (first + step + rounds))
        || (leb (k + step) first && ltb first (k + step + rounds)))

times_if :
    (k i : ℕ) (b : Bool) → times k (if b then i ∷ [] else []) ≡ (if b && i == k then 1 else 0)
times_if k i true = omega arith
times_if k i false = refl

reached_step :
    (first count rounds step k : ℕ)
    → first < count
    → 0 < step
    → (if ltb (first + step) count && first + step == k then 1 else 0)
        + (if leb step first && first - step == k then 1 else 0)
        + (if reached first count rounds (suc step) k then 1 else 0)
      ≡ (if reached first count (suc rounds) step k then 1 else 0)
reached_step first count rounds step k h p = ground arith

times-spiral :
    (first count rounds step k : ℕ)
    → first < count
    → 0 < step
    → times k (spiral first count rounds step)
      ≡ (if reached first count rounds step k then 1 else 0)
unfolding spiral
times-spiral first count zero step k h p = ground arith
times-spiral first count (suc rounds) step k h p = omega (
  arith,
  times-append k
      ((if ltb (first + step) count then (first + step) ∷ [] else [])
        ++ (if leb step first then (first - step) ∷ [] else []))
      (spiral first count rounds (suc step)),
  times-append k (if ltb (first + step) count then (first + step) ∷ [] else [])
      (if leb step first then (first - step) ∷ [] else []),
  times_if k (first + step) (ltb (first + step) count),
  times_if k (first - step) (leb step first),
  times-spiral first count rounds (suc step) k h (omega arith),
  reached_step first count rounds step k h p,
)

-- Whatever the hint, the scan visits every block once and nothing else.
pub times-block_scan_order :
    (hint : Option ℕ) (count k : ℕ)
    → times k (block_scan_order hint count) ≡ (if ltb k count then 1 else 0)
unfolding block_scan_order
times-block_scan_order hint count k = elim (Bool-cases (count == 0)) [
  | inl t ↦ rw t (ground arith)
  | inr f ↦
      let below : first_block hint count < count = first hint (ground arith) in
      rw f (
        omega (
          arith,
          times-spiral (first_block hint count) count (count - 1) 1 k below (omega arith),
          whole (first_block hint count) below,
        ))
]
  where
    first : (hint : Option ℕ) → 0 < count → first_block hint count < count
    first none h = h
    first (some i) h = omega arith

    whole :
        (i : ℕ)
        → i < count
        → (if i == k then 1 else 0) + (if reached i count (count - 1) 1 k then 1 else 0)
          ≡ (if ltb k count then 1 else 0)
    whole i h = ground arith

spiral-All :
    (first count rounds step : ℕ)
    → first < count
    → All (λ i. i < count) (spiral first count rounds step)
unfolding spiral
spiral-All first count zero step h = tt
spiral-All first count (suc rounds) step h =
    All-append (λ i. i < count) _ _
      (All-append (λ i. i < count) _ _ (ahead (Bool-cases (ltb (first + step) count)))
        (back (Bool-cases (leb step first))))
      (spiral-All first count rounds (suc step) h)
  where
    ahead :
        (ltb (first + step) count ≡ true) ⊎ (ltb (first + step) count ≡ false)
        → All (λ i. i < count) (if ltb (first + step) count then (first + step) ∷ [] else [])
    ahead (inl t) = rw t (ground arith, tt)
    ahead (inr f) = rw f tt

    back :
        (leb step first ≡ true) ⊎ (leb step first ≡ false)
        → All (λ i. i < count) (if leb step first then (first - step) ∷ [] else [])
    back (inl t) = rw t (omega arith, tt)
    back (inr f) = rw f tt

-- It visits blocks that are there.
pub block_scan_order-All :
    (hint : Option ℕ) (count : ℕ) → All (λ i. i < count) (block_scan_order hint count)
unfolding block_scan_order
block_scan_order-All hint count = elim (Bool-cases (count == 0)) [
  | inl t ↦ rw t tt
  | inr f ↦ rw f (
    first hint (ground arith),
    spiral-All (first_block hint count) count (count - 1) 1 (first hint (ground arith)),
  )
]
  where
    first : (hint : Option ℕ) → 0 < count → first_block hint count < count
    first none h = h
    first (some i) h = omega arith
