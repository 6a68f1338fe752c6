-- ===== src/Diff/Table.antt =====
-- The table of `lcsDiff` holds the lengths of the longest common subsequences.
use cueloop.Prelude.{
  ℕ, suc, ◌+◌, max, ◌≡◌, refl, ◌∙◌, ap, Bool, true, false, List, [], ◌∷◌, arith, get_or,
}
use cueloop.Diff.Lcs.{
  zero_row, cell, fill_row, fill, walk, lcs_diff, old_side, new_side, kept, Agrees,
}

module _ {ℓ} {A : Type ℓ} (equals : A → A → Bool) where
  -- The length of a longest common subsequence, by its recursion.
  unfoldable pub lcs : List A → List A → ℕ
  lcs [] ys = 0
  lcs (x ∷ xs) [] = 0
  lcs (x ∷ xs) (y ∷ ys) = elim (equals x y) [
    | true ↦ suc (lcs xs ys)
    | false ↦ max (lcs xs (y ∷ ys)) (lcs (x ∷ xs) ys)
  ]

  -- The row of a suffix of the old items, against every suffix of the new ones.
  row : List A → List A → List ℕ
  row xs [] = lcs xs [] ∷ []
  row xs (y ∷ ys) = lcs xs (y ∷ ys) ∷ row xs ys

  lcs-nil : (xs : List A) → lcs xs [] ≡ 0
  unfolding lcs
  lcs-nil [] = refl
  lcs-nil (x ∷ xs) = refl

  row-zero : (xs ys : List A) → get_or (row xs ys) 0 0 ≡ lcs xs ys
  unfolding row
  row-zero xs [] = refl
  row-zero xs (y ∷ ys) = refl

  zero_row-row : (ys : List A) → zero_row ys ≡ row [] ys
  unfolding zero_row row lcs
  zero_row-row [] = refl
  zero_row-row (y ∷ ys) = ap (◌∷◌ 0) (zero_row-row ys)

  fill_row-row : (x : A) (xs ys : List A) → fill_row equals x ys (row xs ys) ≡ row (x ∷ xs) ys
  unfolding fill_row row lcs
  fill_row-row x xs [] = refl
  fill_row-row x xs (y ∷ ys) =
      rw (fill_row-row x xs ys)
        (ap (λ (n : ℕ). n ∷ row (x ∷ xs) ys) (ground (arith, row-zero xs ys, row-zero (x ∷ xs) ys)))

  -- The rows of all suffixes.
  rows : List A → List A → List (List ℕ)
  rows [] ys = row [] ys ∷ []
  rows (x ∷ xs) ys = row (x ∷ xs) ys ∷ rows xs ys

  rows-zero : (xs ys : List A) → get_or (rows xs ys) 0 [] ≡ row xs ys
  unfolding rows
  rows-zero [] ys = refl
  rows-zero (x ∷ xs) ys = refl

  fill-rows : (xs ys : List A) → fill equals xs ys ≡ rows xs ys
  unfolding fill rows
  fill-rows [] ys = ap (λ (r : List ℕ). r ∷ []) (zero_row-row ys)
  fill-rows (x ∷ xs) ys = rw (fill-rows xs ys, rows-zero xs ys, fill_row-row x xs ys)

  -- The indices `i` and `j` stand at the items that are left.
  record IsAt (table : List (List ℕ)) (new : List A) (i j : ℕ) (xs ys : List A) : Type ℓ where
    at_row : (k : ℕ) → get_or table (i + k) [] ≡ get_or (rows xs new) k []
    at_column : (zs : List A) (k : ℕ) → get_or (row zs new) (j + k) 0 ≡ get_or (row zs ys) k 0

  IsAt-row :
      {table : List (List ℕ)} {new : List A} {i j : ℕ} {x : A} {xs ys : List A}
      → IsAt table new i j (x ∷ xs) ys
      → IsAt table new (suc i) j xs ys
  unfolding rows
  IsAt-row {table} {i = i} a = record {
    at_row = λ k. ap (λ (n : ℕ). get_or table n []) (omega arith) ∙ a.at_row (suc k);
    at_column = a.at_column;
  }

  IsAt-column :
      {table : List (List ℕ)} {new : List A} {i j : ℕ} {y : A} {xs ys : List A}
      → IsAt table new i j xs (y ∷ ys)
      → IsAt table new i (suc j) xs ys
  unfolding row
  IsAt-column {new} {j = j} a = record {
    at_row = a.at_row;
    at_column =
        λ zs k. ap (λ (n : ℕ). get_or (row zs new) n 0) (omega arith) ∙ a.at_column zs (suc k);
  }

  cell-lcs :
      {table : List (List ℕ)} {new : List A} {i j : ℕ} {xs ys : List A}
      → IsAt table new i j xs ys
      → cell table i j ≡ lcs xs ys
  cell-lcs {table} {new} {i} {j} {xs} {ys} a =
      ap (λ (r : List ℕ). get_or r j 0)
        (ap (λ (n : ℕ). get_or table n []) (omega arith) ∙ (a.at_row 0 ∙ rows-zero xs new))
      ∙ (ap (λ (n : ℕ). get_or (row xs new) n 0) (omega arith)
          ∙ (a.at_column xs 0 ∙ row-zero xs ys))

  kept-walk :
      (table : List (List ℕ)) (new xs ys : List A) (i j : ℕ)
      → IsAt table new i j xs ys
      → kept (walk equals table xs ys i j) ≡ lcs xs ys
  unfolding walk lcs
  kept-walk table new [] [] i j a = refl
  kept-walk table new [] (y ∷ ys) i j a = kept-walk table new [] ys i (suc j) (IsAt-column a)
  kept-walk table new (x ∷ xs) [] i j a =
      kept-walk table new xs [] (suc i) j (IsAt-row a) ∙ lcs-nil xs
  kept-walk table new (x ∷ xs) (y ∷ ys) i j a = ground (
    arith,
    kept-walk table new xs ys (suc i) (suc j) (IsAt-column (IsAt-row a)),
    kept-walk table new xs (y ∷ ys) (suc i) j (IsAt-row a),
    kept-walk table new (x ∷ xs) ys i (suc j) (IsAt-column a),
    cell-lcs (IsAt-row a),
    cell-lcs (IsAt-column a),
  )

  -- `lcsDiff` keeps as many items as a longest common subsequence has.
  pub kept-lcs_diff : (old new : List A) → kept (lcs_diff equals old new) ≡ lcs old new
  unfolding lcs_diff
  kept-lcs_diff old new =
      let start : (k : ℕ) → 0 + k ≡ k = λ k. omega arith in
      kept-walk (fill equals old new) new old new 0 0 (record {
        at_row = λ k.
            ap (λ (n : ℕ). get_or (fill equals old new) n []) (start k) ∙ rw (fill-rows old new);
        at_column = λ zs k. ap (λ (n : ℕ). get_or (row zs new) n 0) (start k);
      })

  sides-walk :
      (table : List (List ℕ)) (xs ys : List A) (i j : ℕ)
      → (old_side (walk equals table xs ys i j) ≡ xs)
        × (new_side (walk equals table xs ys i j) ≡ ys)
        × Agrees equals (walk equals table xs ys i j)
  unfolding walk
  sides-walk table [] [] i j = (refl, refl, tt)
  sides-walk table [] (y ∷ ys) i j = ground (arith, sides-walk table [] ys i (suc j))
  sides-walk table (x ∷ xs) [] i j = ground (arith, sides-walk table xs [] (suc i) j)
  sides-walk table (x ∷ xs) (y ∷ ys) i j = ground (
    arith,
    sides-walk table xs ys (suc i) (suc j),
    sides-walk table xs (y ∷ ys) (suc i) j,
    sides-walk table (x ∷ xs) ys i (suc j),
  )

  -- The operations of `lcsDiff` spell the old items and the new ones, in order, and pair only
  -- items that the comparison accepts.
  pub lcs_diff_sides :
      (old new : List A)
      → (old_side (lcs_diff equals old new) ≡ old)
        × (new_side (lcs_diff equals old new) ≡ new)
        × Agrees equals (lcs_diff equals old new)
  unfolding lcs_diff
  lcs_diff_sides old new = sides-walk (fill equals old new) old new 0 0
