-- ===== src/Diff/Lcs.antt =====
-- `lcsDiff` of packages/schema/src/diff.ts: the table of the longest common subsequences of the
-- suffixes, and the walk through it.
use cueloop.Prelude.{
  ℕ, suc, ◌+◌, max, ◌≡◌, Bool, true, false, List, [], ◌∷◌, leb, if◌then◌else◌, get_or,
}

pub data DiffOp {ℓ} (A : Type ℓ) : Type ℓ where
  ctx : A → A → DiffOp A
  del : A → DiffOp A
  add : A → DiffOp A

module _ {ℓ} {A : Type ℓ} where
  -- The last row and the last column are zero.
  unfoldable pub zero_row : List A → List ℕ
  zero_row [] = 0 ∷ []
  zero_row (y ∷ ys) = 0 ∷ zero_row ys

abbrev pub cell : List (List ℕ) → ℕ → ℕ → ℕ
cell table i j = get_or (get_or table i []) j 0

module _ {ℓ} {A : Type ℓ} (equals : A → A → Bool) where
  -- The inner loop: the row of one old item, from its end, over the row below it.
  unfoldable pub fill_row : A → List A → List ℕ → List ℕ
  fill_row x [] below = 0 ∷ []
  fill_row x (y ∷ ys) [] = 0 ∷ []
  fill_row x (y ∷ ys) (b ∷ below) =
      let rest = fill_row x ys below in
      (if equals x y then get_or below 0 0 + 1 else max b (get_or rest 0 0)) ∷ rest

  -- The outer loop.
  unfoldable pub fill : List A → List A → List (List ℕ)
  fill [] ys = zero_row ys ∷ []
  fill (x ∷ xs) ys = let table = fill xs ys in fill_row x ys (get_or table 0 []) ∷ table

  -- The three loops that emit the operations, at the indices `i` and `j` of the items left.
  unfoldable pub walk : List (List ℕ) → List A → List A → ℕ → ℕ → List (DiffOp A)
  walk table [] [] i j = []
  walk table [] (y ∷ ys) i j = DiffOp.add y ∷ walk table [] ys i (suc j)
  walk table (x ∷ xs) [] i j = DiffOp.del x ∷ walk table xs [] (suc i) j
  walk table (x ∷ xs) (y ∷ ys) i j = elim (equals x y) [
    | true ↦ DiffOp.ctx x y ∷ walk table xs ys (suc i) (suc j)
    | false ↦ elim (leb (cell table i (suc j)) (cell table (suc i) j)) [
      | true ↦ DiffOp.del x ∷ walk table xs (y ∷ ys) (suc i) j
      | false ↦ DiffOp.add y ∷ walk table (x ∷ xs) ys i (suc j)
    ]
  ]

  unfoldable pub lcs_diff : List A → List A → List (DiffOp A)
  lcs_diff old new = walk (fill old new) old new 0 0

module _ {ℓ} {A : Type ℓ} where
  -- The sides of an edit script.
  abbrev pub old_side : List (DiffOp A) → List A
  old_side [] = []
  old_side (DiffOp.ctx a b ∷ ops) = a ∷ old_side ops
  old_side (DiffOp.del a ∷ ops) = a ∷ old_side ops
  old_side (DiffOp.add b ∷ ops) = old_side ops

  abbrev pub new_side : List (DiffOp A) → List A
  new_side [] = []
  new_side (DiffOp.ctx a b ∷ ops) = b ∷ new_side ops
  new_side (DiffOp.del a ∷ ops) = new_side ops
  new_side (DiffOp.add b ∷ ops) = b ∷ new_side ops

  -- The items that it keeps.
  abbrev pub kept : List (DiffOp A) → ℕ
  kept [] = 0
  kept (DiffOp.ctx a b ∷ ops) = suc (kept ops)
  kept (DiffOp.del a ∷ ops) = kept ops
  kept (DiffOp.add b ∷ ops) = kept ops

  -- It keeps only items that are equal.
  abbrev pub Agrees : (A → A → Bool) → List (DiffOp A) → Type 0
  Agrees equals [] = Unit
  Agrees equals (DiffOp.ctx a b ∷ ops) = (equals a b ≡ true) × Agrees equals ops
  Agrees equals (DiffOp.del a ∷ ops) = Agrees equals ops
  Agrees equals (DiffOp.add b ∷ ops) = Agrees equals ops
