-- ===== src/Examples/DiffExamples.antt =====
-- Two texts of a few lines (packages/schema/src/diff.ts).
use cueloop.Prelude.{
  ℕ, ◌+◌, ◌≤◌, ◌≡◌, refl, Bool, List, [], ◌∷◌, Text, ◌==◌, nat_eq, text_eq, length, split_lines,
  newline,
}
use cueloop.Diff.Lcs.{
  DiffOp, zero_row, fill_row, fill, walk, lcs_diff, old_side, new_side, kept, Agrees,
}
use cueloop.Diff.Table.{lcs, lcs_diff_sides}
use cueloop.Diff.Optimal.{lcs_diff-optimal}
use cueloop.Diff.Unified.{edit_stats}
use cueloop.Diff.Stats.{edit_stats_lem}

abbrev old_items : List ℕ
old_items = 1 ∷ 2 ∷ 3 ∷ 4 ∷ []

abbrev new_items : List ℕ
new_items = 2 ∷ 4 ∷ 3 ∷ 5 ∷ []

abbrev equals : ℕ → ℕ → Bool
equals a b = a == b

-- A tie deletes first.
walk_test :
    lcs_diff equals old_items new_items
    ≡ DiffOp.del 1
      ∷ DiffOp.ctx 2 2
      ∷ DiffOp.del 3
      ∷ DiffOp.ctx 4 4
      ∷ DiffOp.add 3
      ∷ DiffOp.add 5
      ∷ []
unfolding lcs_diff walk fill fill_row zero_row native.Mathlib.Decide.ℕ_discrete
walk_test = refl

lcs_diff_sides_example :
    (old_side (lcs_diff equals old_items new_items) ≡ old_items)
    × (new_side (lcs_diff equals old_items new_items) ≡ new_items)
    × Agrees equals (lcs_diff equals old_items new_items)
lcs_diff_sides_example = lcs_diff_sides equals old_items new_items

abbrev script : List (DiffOp ℕ)
script =
    DiffOp.del 1 ∷ DiffOp.ctx 2 2 ∷ DiffOp.add 4 ∷ DiffOp.ctx 3 3 ∷ DiffOp.del 4 ∷ DiffOp.add 5 ∷ []

lcs_diff-optimal_example : 2 ≤ kept (lcs_diff equals old_items new_items)
unfolding native.Mathlib.Decide.ℕ_discrete
lcs_diff-optimal_example = lcs_diff-optimal equals script (refl, (refl, tt))

abbrev old_text : Text
old_text = b'a' ∷ newline ∷ b'b' ∷ []

abbrev new_text : Text
new_text = b'a' ∷ newline ∷ b'c' ∷ newline ∷ b'b' ∷ []

edit_stats_lem_example :
    let common = lcs (λ a b. a == b) (split_lines old_text) (split_lines new_text) in
    ((edit_stats old_text new_text).added + common ≡ length (split_lines new_text))
    × ((edit_stats old_text new_text).removed + common ≡ length (split_lines old_text))
edit_stats_lem_example = edit_stats_lem old_text new_text
