-- ===== src/Diff/Stats.antt =====
-- What `unifiedDiff` and `editStats` of packages/schema/src/diff.ts report.
use cueloop.Prelude.{
  ℕ, suc, ◌+◌, ◌≡◌, ◌↔◌, refl, subst, sym, ◌∙◌, ap, Bool, true, false, List, [], ◌∷◌, none, Text,
  arith, ◌==◌, text_eq, ==_refl, ==_iff, length, any, Bool-cases, inl, inr, split_lines,
  split_lines-injective,
}
use cueloop.Diff.Lcs.{DiffOp, fill, walk, lcs_diff, old_side, new_side, kept, Agrees}
use cueloop.Diff.Table.{lcs, kept-lcs_diff, lcs_diff_sides}
use cueloop.Diff.Unified.{
  is_edit, is_add, is_del, number_rows, line_ops, unified_lines, unified_diff, edit_stats,
}
use cueloop.Diff.Marks.{count_rows, count-unified}

no_edit-walk {ℓ} :
    {A : Type ℓ} (equals : A → A → Bool)
    → ((a : A) → equals a a ≡ true)
    → (table : List (List ℕ)) (xs : List A) (i j : ℕ)
    → any is_edit (walk equals table xs xs i j) ≡ false
unfolding walk
no_edit-walk equals same table [] i j = refl
no_edit-walk equals same table (x ∷ xs) i j =
    ground (arith, same x, no_edit-walk equals same table xs (suc i) (suc j))

sides_of_no_edit :
    (ops : List (DiffOp Text))
    → Agrees (λ a b. a == b) ops
    → any is_edit ops ≡ false
    → old_side ops ≡ new_side ops
sides_of_no_edit [] h n = refl
sides_of_no_edit (DiffOp.ctx a b ∷ ops) h n = ground (arith, ==_iff a b, sides_of_no_edit ops h.1)
sides_of_no_edit (DiffOp.del a ∷ ops) h n = cc
sides_of_no_edit (DiffOp.add b ∷ ops) h n = cc

unified_diff_self : (t : Text) (context : ℕ) → unified_diff t t context ≡ none
unfolding unified_diff line_ops lcs_diff
unified_diff_self t context = rw (
  no_edit-walk (λ a b. a == b) (λ a. ==_refl a)
      (fill (λ a b. a == b) (split_lines t) (split_lines t)) (split_lines t) 0 0,
  unified_diff,
)

-- `unifiedDiff` returns null exactly for equal texts.
pub unified_diff-eq-none_iff :
    (old new : Text) (context : ℕ) → (unified_diff old new context ≡ none) ↔ (old ≡ new)
unfolding unified_diff line_ops
unified_diff-eq-none_iff old new context = (to, from)
  where
    sides :
        (old_side (line_ops old new) ≡ split_lines old)
        × (new_side (line_ops old new) ≡ split_lines new)
        × Agrees (λ a b. a == b) (line_ops old new)
    sides = lcs_diff_sides (λ a b. a == b) (split_lines old) (split_lines new)

    to : unified_diff old new context ≡ none → old ≡ new
    to h =
        split_lines-injective old new
          (sym sides.0 ∙ (sides_of_no_edit (line_ops old new) sides.2 (ground arith) ∙ sides.1))

    from : old ≡ new → unified_diff old new context ≡ none
    from e =
        subst (λ (t : Text). unified_diff old t context ≡ none) e (unified_diff_self old context)

count_add :
    (i j : ℕ) (ops : List (DiffOp Text))
    → count_rows is_add refl refl (number_rows i j ops) + kept ops ≡ length (new_side ops)
unfolding number_rows
count_add i j [] = refl
count_add i j (DiffOp.ctx a b ∷ ops) = omega (arith, count_add (i + 1) (j + 1) ops)
count_add i j (DiffOp.del a ∷ ops) = omega (arith, count_add (i + 1) j ops)
count_add i j (DiffOp.add b ∷ ops) = omega (arith, count_add i (j + 1) ops)

count_del :
    (i j : ℕ) (ops : List (DiffOp Text))
    → count_rows is_del refl refl (number_rows i j ops) + kept ops ≡ length (old_side ops)
unfolding number_rows
count_del i j [] = refl
count_del i j (DiffOp.ctx a b ∷ ops) = omega (arith, count_del (i + 1) (j + 1) ops)
count_del i j (DiffOp.del a ∷ ops) = omega (arith, count_del (i + 1) j ops)
count_del i j (DiffOp.add b ∷ ops) = omega (arith, count_del i (j + 1) ops)

abbrev lines_diff : Text → Text → List (DiffOp Text)
lines_diff old new = lcs_diff (λ a b. a == b) (split_lines old) (split_lines new)

kept_of_no_edit :
    (ops : List (DiffOp Text))
    → any is_edit ops ≡ false
    → (kept ops ≡ length (old_side ops)) × (kept ops ≡ length (new_side ops))
kept_of_no_edit [] n = (refl, refl)
kept_of_no_edit (DiffOp.ctx a b ∷ ops) n = omega (arith, kept_of_no_edit ops n)
kept_of_no_edit (DiffOp.del a ∷ ops) n = cc
kept_of_no_edit (DiffOp.add b ∷ ops) n = cc

edit_stats-kept :
    (old new : Text)
    → ((edit_stats old new).added + kept (lines_diff old new)
        ≡ length (new_side (lines_diff old new)))
      × ((edit_stats old new).removed + kept (lines_diff old new)
          ≡ length (old_side (lines_diff old new)))
unfolding edit_stats unified_diff unified_lines line_ops
edit_stats-kept old new = elim (Bool-cases (any is_edit (lines_diff old new))) [
  | inl e ↦ ground (
    arith,
    count-unified is_add refl refl 0 (number_rows 1 1 (lines_diff old new)),
    count-unified is_del refl refl 0 (number_rows 1 1 (lines_diff old new)),
    count_add 1 1 (lines_diff old new),
    count_del 1 1 (lines_diff old new),
  )
  | inr n ↦ ground (arith, kept_of_no_edit (lines_diff old new) n)
]

-- `editStats` counts the lines of the new text, and of the old one, that lie outside a longest
-- common subsequence of the two.
pub edit_stats_lem :
    (old new : Text)
    → let common = lcs (λ a b. a == b) (split_lines old) (split_lines new) in
      ((edit_stats old new).added + common ≡ length (split_lines new))
      × ((edit_stats old new).removed + common ≡ length (split_lines old))
edit_stats_lem old new =
    let (o, n, a) = lcs_diff_sides (λ a b. a == b) (split_lines old) (split_lines new) in
    let k = kept-lcs_diff (λ a b. a == b) (split_lines old) (split_lines new) in
    let (added, removed) = edit_stats-kept old new in
    (
      subst (λ (m : ℕ). (edit_stats old new).added + m ≡ length (split_lines new)) k
          (added ∙ ap length n),
      subst (λ (m : ℕ). (edit_stats old new).removed + m ≡ length (split_lines old)) k
          (removed ∙ ap length o),
    )
