-- ===== src/Anchors/Picks.antt =====
-- `pickBest` of packages/schema/src/anchor.ts.
use cueloop.Prelude.{
  ℕ, ◌≡◌, refl, ◌∙◌, subst, Bool, true, List, [], ◌∷◌, some, leb, any, All, Bool-cases, inl, inr,
  arith,
}
use cueloop.Prelude.Sort.{to_sorted, to_sorted-IsSorted, any-to_sorted, All-to_sorted, IsSorted}
use cueloop.Anchors.Exact.{Candidate, pick_best, head?}

module _ {Score : Type 0} (le : Score → Score → Bool) (xs : List (Candidate Score)) where
  abbrev ranked : List (Candidate Score)
  ranked = to_sorted (λ left right. le right.score left.score) xs

  head-All :
      (P : Candidate Score → Type 0) {b : Candidate Score} (ys : List (Candidate Score))
      → All P ys
      → head? ys ≡ some b
      → P b
  head-All P [] h e = cc
  head-All P (y ∷ ys) h e = subst P (ground arith) h.0

  -- What is picked is one of them.
  pub pick_best-All :
      (P : Candidate Score → Type 0) {b : Candidate Score}
      → All P xs
      → pick_best le xs ≡ some b
      → P b
  unfolding pick_best
  pick_best-All P h e = head-All P ranked (All-to_sorted _ P xs h) e

  pub pick_best-some :
      (p : Candidate Score → Bool)
      → any p xs ≡ true
      → (b : Candidate Score) × (pick_best le xs ≡ some b)
  unfolding pick_best
  pick_best-some p h = first ranked (any-to_sorted _ p xs ∙ h)
    where
      first :
          (ys : List (Candidate Score))
          → any p ys ≡ true
          → (b : Candidate Score) × (head? ys ≡ some b)
      first [] h = cc
      first (y ∷ ys) h = (y, refl)

module _ (xs : List (Candidate ℕ)) where
  -- It has a score of `n` when one of them has.
  pub pick_best-score :
      (n : ℕ) {b : Candidate ℕ}
      → any (λ x. leb n x.score) xs ≡ true
      → pick_best leb xs ≡ some b
      → leb n b.score ≡ true
  unfolding pick_best
  pick_best-score n {b} h e =
      first (ranked leb xs) (to_sorted-IsSorted _ (λ x y f. ground arith) xs)
        (any-to_sorted _ _ xs ∙ h) e
    where
      top :
          (y : Candidate ℕ) (ys : List (Candidate ℕ))
          → IsSorted (λ left right. leb right.score left.score) (y ∷ ys)
          → any (λ x. leb n x.score) (y ∷ ys) ≡ true
          → leb n y.score ≡ true
      top y [] s h = ground arith
      top y (z ∷ zs) s h = elim (Bool-cases (leb n y.score)) [
        | inl t ↦ t
        | inr f ↦
            let rest : leb n z.score ≡ true = top z zs s.1 (ground arith) in
            let below : leb z.score y.score ≡ true = s.0 in ground arith
      ]

      first :
          (ys : List (Candidate ℕ))
          → IsSorted (λ left right. leb right.score left.score) ys
          → any (λ x. leb n x.score) ys ≡ true
          → head? ys ≡ some b
          → leb n b.score ≡ true
      first [] s h e = cc
      first (y ∷ ys) s h e =
          let same : y ≡ b = ground arith in
          subst (λ (x : Candidate ℕ). leb n x.score ≡ true) same (top y ys s h)
