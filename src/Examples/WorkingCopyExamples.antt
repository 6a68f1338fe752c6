-- ===== src/Examples/WorkingCopyExamples.antt =====
-- Cuts of a text of eight characters (packages/schema/src/working-copy.ts).
use cueloop.Prelude.{◌≡◌, refl, [], ◌∷◌, some, Text, text_dec, ◌||◌, ◌&&◌, not, arith}
use cueloop.Prelude.Sort.{to_sorted, insert}
use cueloop.Types.{TextCut}
use cueloop.WorkingCopy.Cuts.{
  merge_text_cut, restore_text_cut, restore_in, apply_text_cuts, join_ranges, join_from,
  source_ranges, apply_from,
}
use cueloop.WorkingCopy.Outside.{outside}
use cueloop.WorkingCopy.Apply.{IsNormal, is_cut, apply_text_cuts_lem}
use cueloop.WorkingCopy.Merge.{is_in, merge_text_cut_lem, restore_text_cut_lem}

program : Unit {0}
unfolding merge_text_cut restore_text_cut restore_in apply_text_cuts join_ranges join_from
    source_ranges apply_from to_sorted insert text_dec native.Mathlib.Decide.ℕ_discrete
program = tt

abbrev source : Text
source = 10 ∷ 11 ∷ 12 ∷ 13 ∷ 14 ∷ 15 ∷ 16 ∷ 17 ∷ []

abbrev early : TextCut
early = record { start = 1; end = 3; quote = 11 ∷ 12 ∷ [] }

abbrev late : TextCut
late = record { start = 5; end = 7; quote = 15 ∷ 16 ∷ [] }

-- A range that meets both cuts joins them.
merge_test :
    merge_text_cut source (early ∷ late ∷ []) 3 5
    ≡ record { start = 1; end = 7; quote = 11 ∷ 12 ∷ 13 ∷ 14 ∷ 15 ∷ 16 ∷ [] } ∷ []
unfolding program
merge_test = refl

restore_test :
    restore_text_cut source (late ∷ []) 5 6
    ≡ some (record { start = 6; end = 7; quote = 16 ∷ [] } ∷ [])
unfolding program
restore_test = refl

cuts-IsNormal : IsNormal source 0 (early ∷ late ∷ [])
cuts-IsNormal =
    (omega arith, omega arith, omega arith, refl, (omega arith, omega arith, omega arith, refl, tt))

apply_text_cuts_lem_example : apply_text_cuts source (early ∷ late ∷ []) ≡ 10 ∷ 13 ∷ 14 ∷ 17 ∷ []
apply_text_cuts_lem_example = apply_text_cuts_lem source (early ∷ late ∷ []) cuts-IsNormal

merge_text_cut_lem_example :
    IsNormal source 0 (merge_text_cut source (early ∷ late ∷ []) 2 4)
    × (apply_text_cuts source (merge_text_cut source (early ∷ late ∷ []) 2 4)
        ≡ outside (λ k. is_cut (early ∷ late ∷ []) k || is_in 2 4 k) 0 source)
merge_text_cut_lem_example = merge_text_cut_lem source (early ∷ late ∷ []) 2 4 cuts-IsNormal

abbrev left_over : TextCut
left_over = record { start = 6; end = 7; quote = 16 ∷ [] }

restore_text_cut_lem_example :
    IsNormal source 0 (early ∷ left_over ∷ [])
    × (apply_text_cuts source (early ∷ left_over ∷ [])
        ≡ outside (λ k. is_cut (early ∷ late ∷ []) k && not (is_in 5 6 k)) 0 source)
unfolding program
restore_text_cut_lem_example =
    restore_text_cut_lem source (early ∷ late ∷ []) (early ∷ left_over ∷ []) 5 6 cuts-IsNormal refl
