-- ===== src/Examples/AnchorExamples.antt =====
-- Quotes in small blocks (packages/schema/src/anchor.ts, packages/schema/src/fuzzy.ts).
use cueloop.Prelude.{
  ℕ, ◌+◌, ◌≤◌, ◌≡◌, refl, false, List, [], ◌∷◌, Option, none, some, Text, text_dec, get_or, arith,
}
use cueloop.Prelude.Sort.{to_sorted, insert}
use cueloop.Types.{Anchor}
use cueloop.Diff.Lcs.{DiffOp, old_side, new_side}
use cueloop.Sharing.Participants.{trim_start, trim_end}
use cueloop.Anchors.Distance.{levenshtein_distance, fill_cells, rows, columns, edits}
use cueloop.Anchors.Optimal.{levenshtein_distance-optimal}
use cueloop.Anchors.Fuzzy.{
  similarity_ratio, fuzzy_find_best_match, try_window, scan_lengths, scan_starts,
}
use cueloop.Anchors.Windows.{IsBeaten}
use cueloop.Anchors.Best.{fuzzy_find_best_match-IsBeaten}
use cueloop.Anchors.Blocks.{
  BlockKind, Block, make_anchor, strip_leading_block_marker, starts_with, behind_digits, join_texts,
  quoted_parts, text_at,
}
use cueloop.Anchors.Exact.{
  AnchorMatchStrategy, ResolvedAnchor, context_score, index_from, index_of, matches_from,
  exact_from, pick_best,
}
use cueloop.Anchors.Spans.{
  join_onto, join_blocks, last_start, locate_in_blocks, Edge, Outcome, spans_from, or_tier,
  document_score, span_candidate, resolved_span, best_span, or_next, span_tier, fuzzy_span,
  resolve_spanning_anchor,
}
use cueloop.Anchors.Resolve.{
  spiral, block_scan_order, fuzzy_from, exact_tier, fuzzy_tier, resolve_in_block, spans_blocks,
  resolve_anchor,
}
use cueloop.Anchors.Again.{resolve_anchor-make_anchor}
use cueloop.Anchors.Bound.{IsBoundIf, resolve_anchor-IsBound}
use cueloop.Anchors.Located.{locate_in_blocks-join_blocks}
use cueloop.Anchors.Order.{times, times-block_scan_order}
use cueloop.Anchors.Blank.{resolve_anchor-blank_quote}
use cueloop.Anchors.Within.{IsPlaced, resolve_spanning_anchor-IsPlaced}

program : Unit {0}
unfolding levenshtein_distance fill_cells rows columns similarity_ratio fuzzy_find_best_match
    try_window scan_lengths scan_starts make_anchor strip_leading_block_marker starts_with
    behind_digits join_texts quoted_parts context_score index_from index_of matches_from exact_from
    pick_best join_onto join_blocks last_start locate_in_blocks document_score span_candidate
    resolved_span best_span or_next or_tier spans_from span_tier fuzzy_span resolve_spanning_anchor
    spiral block_scan_order fuzzy_from exact_tier fuzzy_tier resolve_in_block spans_blocks
    resolve_anchor to_sorted insert trim_start trim_end text_dec native.Mathlib.Decide.ℕ_discrete
program = tt

abbrev block : Text → Block
block text = record { kind = BlockKind.p; text = text; lang = none; line_start = 0; line_end = 0 }

-- "abcab" and "xab".
abbrev blocks : List Block
blocks = block (97 ∷ 98 ∷ 99 ∷ 97 ∷ 98 ∷ []) ∷ block (120 ∷ 97 ∷ 98 ∷ []) ∷ []

-- The second "ab" of the first block.
abbrev second : Anchor
second = make_anchor blocks 0 3 5 0

abbrev place : ℕ → ℕ → ℕ → ℕ → AnchorMatchStrategy → ResolvedAnchor
place i start j end strategy = record {
  block_index = i;
  start = start;
  end_block_index = j;
  end = end;
  approximate = false;
  strategy = strategy;
}

-- Two substitutions and an insertion.
distance_test :
    levenshtein_distance
      (107 ∷ 105 ∷ 116 ∷ 116 ∷ 101 ∷ 110 ∷ [])
      (115 ∷ 105 ∷ 116 ∷ 116 ∷ 105 ∷ 110 ∷ 103 ∷ [])
    ≡ 3
unfolding program
distance_test = refl

marker_test : strip_leading_block_marker (49 ∷ 50 ∷ 46 ∷ 32 ∷ 97 ∷ []) ≡ 97 ∷ []
unfolding program
marker_test = refl

fuzzy_test :
    (fuzzy_find_best_match
      (97 ∷ 98 ∷ 99 ∷ 100 ∷ [])
      (120 ∷ 97 ∷ 98 ∷ 99 ∷ 101 ∷ 120 ∷ [])
      (record { num = 3; den = 4 })
      1000).best
    ≡ some (record { start = 1; end = 4; similarity = record { num = 3; den = 4 } })
unfolding program
fuzzy_test = refl

order_test : block_scan_order (some 1) 4 ≡ 1 ∷ 2 ∷ 0 ∷ 3 ∷ []
unfolding program
order_test = refl

-- A quote from the first block's end to the second one's start.
span_test :
    resolve_anchor 20 (make_anchor blocks 0 3 1 1) blocks
    ≡ Outcome.returns (some (place 0 3 1 1 AnchorMatchStrategy.exact))
unfolding program
span_test = refl

levenshtein_distance-optimal_example :
    (levenshtein_distance (97 ∷ 99 ∷ []) (98 ∷ []) ≤ 2)
    × ((best : List (DiffOp ℕ)) × (old_side best ≡ 97 ∷ 99 ∷ [])
        × (new_side best ≡ 98 ∷ [])
        × (edits best ≡ levenshtein_distance (97 ∷ 99 ∷ []) (98 ∷ [])))
unfolding program
levenshtein_distance-optimal_example =
    levenshtein_distance-optimal (DiffOp.ctx 97 98 ∷ DiffOp.del 99 ∷ [])

fuzzy_find_best_match-IsBeaten_example :
    IsBeaten
      (97 ∷ 98 ∷ [])
      (120 ∷ 97 ∷ 98 ∷ [])
      (record { num = 1; den = 2 })
      (fuzzy_find_best_match
        (97 ∷ 98 ∷ [])
        (120 ∷ 97 ∷ 98 ∷ [])
        (record { num = 1; den = 2 })
        1000).best
      1
      2
unfolding program
fuzzy_find_best_match-IsBeaten_example =
    fuzzy_find_best_match-IsBeaten (97 ∷ 98 ∷ []) (120 ∷ 97 ∷ 98 ∷ []) (record { num = 1; den = 2 })
      1000 1 2 refl (omega arith) (omega arith) (omega arith) (omega arith)

resolve_anchor-make_anchor_example :
    resolve_anchor 9 second blocks
    ≡ Outcome.returns (some (place 0 3 0 5 AnchorMatchStrategy.exact))
unfolding program
resolve_anchor-make_anchor_example =
    resolve_anchor-make_anchor blocks 0 3 5 (omega arith) (omega arith) (omega arith) 9
      (omega arith, (omega arith, tt)) refl

resolve_anchor-IsBound_example :
    (r : Option ResolvedAnchor) × (resolve_anchor 9 second blocks ≡ Outcome.returns r)
    × IsBoundIf second blocks r
unfolding program
resolve_anchor-IsBound_example =
    resolve_anchor-IsBound second blocks 9 (omega arith, (omega arith, tt)) refl

locate_in_blocks-join_blocks_example :
    (get_or (join_blocks blocks).text (get_or (join_blocks blocks).starts 1 0 + 2) 0
      ≡ get_or (text_at blocks 1) 2 0)
    × (locate_in_blocks blocks
          (join_blocks blocks).starts
          (get_or (join_blocks blocks).starts 1 0 + 2)
          Edge.start_edge
        ≡ some (record { block_index = 1; offset = 2 }))
    × (locate_in_blocks blocks
          (join_blocks blocks).starts
          (get_or (join_blocks blocks).starts 1 0 + 3)
          Edge.end_edge
        ≡ some (record { block_index = 1; offset = 3 }))
locate_in_blocks-join_blocks_example =
    locate_in_blocks-join_blocks blocks 1 2 (omega arith) (omega arith)

times-block_scan_order_example : times 2 (block_scan_order (some 1) 4) ≡ 1
times-block_scan_order_example = times-block_scan_order (some 1) 4 2

abbrev blank : Anchor
blank = record {
  quote = 10 ∷ 10 ∷ [];
  prefix = [];
  suffix = [];
  block_index = some 0;
  end_block_index = some 1;
  start = some 5;
  end = some 0;
  selector = none;
}

-- Without a block, the first match cannot be located.
no_block_test : resolve_anchor 1000 blank [] ≡ Outcome.throws
unfolding program
no_block_test = refl

resolve_anchor-blank_quote_example :
    resolve_anchor 1000 blank (block (97 ∷ []) ∷ []) ≡ Outcome.goes_on
unfolding program
resolve_anchor-blank_quote_example =
    resolve_anchor-blank_quote 1000 blank (block (97 ∷ []) ∷ []) (omega arith) refl refl refl

resolve_spanning_anchor-IsPlaced_example : IsPlaced blocks (place 0 3 1 1 AnchorMatchStrategy.exact)
unfolding program
resolve_spanning_anchor-IsPlaced_example =
    resolve_spanning_anchor-IsPlaced blocks 20 (make_anchor blocks 0 3 1 1)
      {r = place 0 3 1 1 AnchorMatchStrategy.exact} (omega arith) refl
