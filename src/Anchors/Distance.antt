-- ===== src/Anchors/Distance.antt =====
-- `levenshteinDistance` of packages/schema/src/fuzzy.ts, and the least number of edits.
use cueloop.Prelude.{
  ℕ, suc, ◌+◌, min, ◌≡◌, refl, sym, ap, ◌∙◌, List, [], ◌∷◌, Text, ◌==◌, nat_eq, text_eq,
  if◌then◌else◌, get_or, length, Bool-cases, inl, inr, arith,
}
use cueloop.Diff.Lcs.{DiffOp}

abbrev pub substitution_cost : ℕ → ℕ → ℕ
substitution_cost x y = if x == y then 0 else 1

-- The inner loop: the cells of the current row from `here` on, over those of the previous row.
unfoldable pub fill_cells : ℕ → ℕ → Text → List ℕ → List ℕ
fill_cells x here (y ∷ ys) (diagonal ∷ above ∷ previous) =
    here
    ∷ fill_cells x (min (min (here + 1) (above + 1)) (diagonal + substitution_cost x y)) ys
        (above ∷ previous)
fill_cells x here ys previous = here ∷ []

-- The outer loop, from `left_index` on.
unfoldable pub rows : ℕ → Text → Text → List ℕ → List ℕ
rows left_index [] right previous = previous
rows left_index (x ∷ left) right previous =
    rows (suc left_index) left right (fill_cells x left_index right previous)

-- `Array.from({ length }, (_unused, column) => column)`
unfoldable pub columns : ℕ → Text → List ℕ
columns column [] = column ∷ []
columns column (y ∷ ys) = column ∷ columns (suc column) ys

unfoldable pub levenshtein_distance : Text → Text → ℕ
levenshtein_distance left right =
    if left == right
    then 0
    else (if length left == 0
        then length right
        else (if length right == 0
            then length left
            else get_or (rows 1 left right (columns 0 right)) (length right) 0))

-- A script of edits: a pair of different characters is a substitution.
abbrev pub edits : List (DiffOp ℕ) → ℕ
edits [] = 0
edits (DiffOp.ctx a b ∷ ops) = substitution_cost a b + edits ops
edits (DiffOp.del a ∷ ops) = suc (edits ops)
edits (DiffOp.add b ∷ ops) = suc (edits ops)

-- The distance of two texts that are read backwards, by its recursion.
unfoldable pub dist : Text → Text → ℕ
dist [] ys = length ys
dist (x ∷ xs) [] = suc (length xs)
dist (x ∷ xs) (y ∷ ys) =
    min (min (dist (x ∷ xs) ys + 1) (dist xs (y ∷ ys) + 1)) (dist xs ys + substitution_cost x y)

pub dist-nil : (xs : Text) → dist xs [] ≡ length xs
unfolding dist
dist-nil [] = refl
dist-nil (x ∷ xs) = refl

dist_refl : (xs : Text) → dist xs xs ≡ 0
unfolding dist
dist_refl [] = refl
dist_refl (x ∷ xs) = ground (arith, dist_refl xs)

-- The row of a text, from the prefix `acc` of the other one on.
row : Text → Text → Text → List ℕ
row xs acc [] = dist xs acc ∷ []
row xs acc (y ∷ ys) = dist xs acc ∷ row xs (y ∷ acc) ys

fill_cells-row :
    (x : ℕ) (xs acc ys : Text)
    → fill_cells x (dist (x ∷ xs) acc) ys (row xs acc ys) ≡ row (x ∷ xs) acc ys
unfolding fill_cells row dist
fill_cells-row x xs acc [] = refl
fill_cells-row x xs acc (y ∷ []) = refl
fill_cells-row x xs acc (y ∷ z ∷ zs) =
    ap (λ (r : List ℕ). dist (x ∷ xs) acc ∷ r) (fill_cells-row x xs (y ∷ acc) (z ∷ zs))

unfoldable pub onto : {A : Type 0} → List A → List A → List A
onto [] acc = acc
onto (x ∷ xs) acc = onto xs (x ∷ acc)

rows-row :
    (done left right : Text)
    → rows (suc (length done)) left right (row done [] right) ≡ row (onto left done) [] right
unfolding rows onto dist
rows-row done [] right = refl
rows-row done (x ∷ left) right =
    ap (rows (suc (suc (length done))) left right) (filled done) ∙ rows-row (x ∷ done) left right
  where
    filled :
        (done : Text)
        → fill_cells x (suc (length done)) right (row done [] right) ≡ row (x ∷ done) [] right
    filled done = fill_cells-row x done [] right

columns-row : (acc right : Text) → columns (length acc) right ≡ row [] acc right
unfolding columns row dist
columns-row acc [] = refl
columns-row acc (y ∷ ys) = ap (λ (r : List ℕ). length acc ∷ r) (columns-row (y ∷ acc) ys)

row_last : (xs acc ys : Text) → get_or (row xs acc ys) (length ys) 0 ≡ dist xs (onto ys acc)
unfolding row onto
row_last xs acc [] = refl
row_last xs acc (y ∷ ys) = row_last xs (y ∷ acc) ys

length-onto : (xs acc : Text) → length (onto xs acc) ≡ length xs + length acc
unfolding onto
length-onto [] acc = omega arith
length-onto (x ∷ xs) acc = omega (arith, length-onto xs (x ∷ acc))

nil_of_length : (xs : Text) → length xs ≡ 0 → xs ≡ []
nil_of_length [] h = refl
nil_of_length (x ∷ xs) h = absurd (omega arith)

pub levenshtein_distance-dist :
    (left right : Text) → levenshtein_distance left right ≡ dist (onto left []) (onto right [])
unfolding levenshtein_distance onto dist
levenshtein_distance-dist left right = elim (Bool-cases (left == right)) [
  | inl t ↦
      let same : left ≡ right = ground arith in
      rw t (
        sym
          (ap (λ l. dist l (onto right [])) (ap (λ l. onto l []) same) ∙ dist_refl (onto right [])))
  | inr f ↦ rw f (elim (Bool-cases (length left == 0)) [
    | inl t ↦
        let none_left : left ≡ [] = nil_of_length left (ground arith) in
        rw t (
          sym (
            ap (λ l. dist (onto l []) (onto right [])) none_left
            ∙ (from_nil (onto right []) ∙ (length-onto right [] ∙ omega arith))))
    | inr g ↦ rw g (elim (Bool-cases (length right == 0)) [
      | inl t ↦
          let none_right : right ≡ [] = nil_of_length right (ground arith) in
          rw t (
            sym (
              ap (λ r. dist (onto left []) (onto r [])) none_right
              ∙ (to_nil (onto left []) ∙ (length-onto left [] ∙ omega arith))))
      | inr h ↦ rw h by_rows
    ])
  ])
]
  where
    from_nil : (ys : Text) → dist [] ys ≡ length ys
    from_nil ys = refl

    to_nil : (xs : Text) → dist xs (onto [] []) ≡ length xs
    to_nil xs = dist-nil xs

    by_rows :
        get_or (rows 1 left right (columns 0 right)) (length right) 0
        ≡ dist (onto left []) (onto right [])
    by_rows =
        ap (λ r. get_or (rows 1 left right r) (length right) 0) (columns-row [] right)
        ∙ (ap (λ r. get_or r (length right) 0) (rows-row [] left right)
            ∙ row_last (onto left []) [] right)
