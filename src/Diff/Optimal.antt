-- ===== src/Diff/Optimal.antt =====
-- No edit script keeps more items than that of `lcsDiff`.
use cueloop.Prelude.{suc, ◌≤◌, Bool, List, [], ◌∷◌, arith}
use cueloop.Diff.Lcs.{DiffOp, lcs_diff, old_side, new_side, kept, Agrees}
use cueloop.Diff.Table.{lcs, kept-lcs_diff}

module _ {ℓ} {A : Type ℓ} (equals : A → A → Bool) where
  -- One more item adds at most one, and takes nothing away.
  lcs_cons :
      (xs ys : List A)
      → ((x : A)
          → (lcs equals xs ys ≤ lcs equals (x ∷ xs) ys)
            × (lcs equals (x ∷ xs) ys ≤ suc (lcs equals xs ys)))
        × ((y : A)
            → (lcs equals xs ys ≤ lcs equals xs (y ∷ ys))
              × (lcs equals xs (y ∷ ys) ≤ suc (lcs equals xs ys)))
  unfolding lcs
  lcs_cons [] [] = (λ x. ground arith, λ y. ground arith)
  lcs_cons [] (y ∷ ys) =
      let (left, up) = lcs_cons [] ys in (λ x. ground (arith, left x, up y), λ z. ground arith)
  lcs_cons (x ∷ xs) [] =
      let (left, up) = lcs_cons xs [] in (λ z. ground arith, λ y. ground (arith, left x, up y))
  lcs_cons (x ∷ xs) (y ∷ ys) =
      let (left, up) = lcs_cons (x ∷ xs) ys in
      let (left', up') = lcs_cons xs (y ∷ ys) in
      (λ z. ground (arith, left z, up y), λ z. ground (arith, left' x, up' z))

  kept-le-lcs :
      (ops : List (DiffOp A))
      → Agrees equals ops
      → kept ops ≤ lcs equals (old_side ops) (new_side ops)
  unfolding lcs
  kept-le-lcs [] h = omega arith
  kept-le-lcs (DiffOp.ctx a b ∷ ops) h = ground (arith, kept-le-lcs ops h.1)
  kept-le-lcs (DiffOp.del a ∷ ops) h =
      omega (arith, kept-le-lcs ops h, ((lcs_cons (old_side ops) (new_side ops)).0 a).0)
  kept-le-lcs (DiffOp.add b ∷ ops) h =
      omega (arith, kept-le-lcs ops h, ((lcs_cons (old_side ops) (new_side ops)).1 b).0)

  -- Every script between the same texts that pairs only equal items keeps at most as many items
  -- as the script of `lcsDiff`.
  pub lcs_diff-optimal :
      (ops : List (DiffOp A))
      → Agrees equals ops
      → kept ops ≤ kept (lcs_diff equals (old_side ops) (new_side ops))
  lcs_diff-optimal ops h =
      rw (kept-lcs_diff equals (old_side ops) (new_side ops)) (kept-le-lcs ops h)
