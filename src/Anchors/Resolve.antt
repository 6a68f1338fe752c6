-- ===== src/Anchors/Resolve.antt =====
-- The cascade of packages/schema/src/anchor.ts, `resolveAnchor`.
use cueloop.Prelude.{
  ℕ, zero, suc, ◌+◌, ◌-◌, ◌*◌, min, Bool, true, false, ◌&&◌, not, List, [], ◌∷◌, ◌++◌, Option, none,
  some, Text, ◌==◌, ◌!=◌, nat_eq, text_eq, leb, ltb, if◌then◌else◌, length, get_or,
}
use cueloop.Types.{Anchor}
use cueloop.Sharing.Participants.{trim}
use cueloop.Anchors.Fuzzy.{
  Ratio, ratio_lt, Scan, FuzzyMatch, fuzzy_find_best_match, fuzzy_work_budget,
}
use cueloop.Anchors.Blocks.{Block, no_block, block_separator, strip_leading_block_marker}
use cueloop.Anchors.Exact.{
  Candidate, AnchorMatchStrategy, ResolvedAnchor, resolved, context_score, exact_from,
  find_exact_candidates, pick_best, index_of,
}
use cueloop.Anchors.Spans.{fuzzy_minimum_similarity, or_next, Outcome, resolve_spanning_anchor}

-- The rounds of the spiral from `step` on.
unfoldable pub spiral : ℕ → ℕ → ℕ → ℕ → List ℕ
spiral first count zero step = []
spiral first count (suc rounds) step =
    (if ltb (first + step) count then (first + step) ∷ [] else [])
    ++ (if leb step first then (first - step) ∷ [] else [])
    ++ spiral first count rounds (suc step)

-- A hint that is there is a whole number.
abbrev pub first_block : Option ℕ → ℕ → ℕ
first_block none count = 0
first_block (some hint) count = min hint (count - 1)

unfoldable pub block_scan_order : Option ℕ → ℕ → List ℕ
unfolding spiral
block_scan_order hint count =
    if count == 0
    then []
    else first_block hint count ∷ spiral (first_block hint count) count (count - 1) 1

-- The similarity with a hundredth for each point of context.
abbrev pub with_context : Ratio → ℕ → Ratio
with_context similarity points = record {
  num = 100 * similarity.num + points * similarity.den;
  den = 100 * similarity.den;
}

abbrev pub fuzzy_candidate : Anchor → ℕ → Block → FuzzyMatch → Candidate Ratio
fuzzy_candidate anchor block_index block found = record {
  block_index = block_index;
  start = found.start;
  end = found.end;
  score =
      with_context found.similarity (context_score anchor block_index block found.start found.end);
}

-- The loop over the blocks in the order of the scan, until the budget is spent.
unfoldable pub fuzzy_from : Anchor → List Block → Text → Ratio → List ℕ → ℕ → List (Candidate Ratio)
unfolding fuzzy_find_best_match context_score
fuzzy_from anchor blocks needle floor [] budget = []
fuzzy_from anchor blocks needle floor (i ∷ order) budget =
    let block : Block = get_or blocks i no_block in
    let scan : Scan = fuzzy_find_best_match needle block.text floor budget in
    let here : List (Candidate Ratio) = elim scan.best [
      | none ↦ []
      | some found ↦ fuzzy_candidate anchor i block found ∷ []
    ] in
    elim (scan.remaining == 0) [
      | true ↦ here
      | false ↦ here ++ fuzzy_from anchor blocks needle floor order scan.remaining
    ]

abbrev pub find_fuzzy_candidates : Anchor → List Block → Text → List (Candidate Ratio)
find_fuzzy_candidates anchor blocks needle =
    fuzzy_from anchor blocks needle fuzzy_minimum_similarity
      (block_scan_order anchor.block_index (length blocks)) fuzzy_work_budget

abbrev pub ratio_le : Ratio → Ratio → Bool
ratio_le a b = not (ratio_lt b a)

abbrev pub resolve_best :
    {Score : Type 0} → AnchorMatchStrategy → Option (Candidate Score) → Option ResolvedAnchor
resolve_best strategy none = none
resolve_best strategy (some best) = some (resolved strategy best)

-- `text.includes(BLOCK_SEPARATOR)`
unfoldable pub spans_blocks : Text → Bool
unfolding index_of
spans_blocks quote = elim (index_of quote block_separator 0) [ none ↦ false | some _ ↦ true ]

abbrev pub trimmed_quote : Anchor → Text
trimmed_quote anchor = trim anchor.quote

abbrev pub normalized_quote : Anchor → Text
normalized_quote anchor = trim (strip_leading_block_marker anchor.quote)

abbrev pub fuzzy_needle : Anchor → Text
fuzzy_needle anchor =
    if normalized_quote anchor != [] then normalized_quote anchor else trimmed_quote anchor

module _ (fuel : ℕ) (anchor : Anchor) (blocks : List Block) where
  unfoldable pub exact_tier : Text → AnchorMatchStrategy → Option (Option ResolvedAnchor)
  unfolding exact_from pick_best
  exact_tier quote strategy = elim (find_exact_candidates fuel anchor blocks quote) [
    | none ↦ none
    | some candidates ↦ some (resolve_best strategy (pick_best leb candidates))
  ]

  unfoldable pub fuzzy_tier : Text → Option ResolvedAnchor
  unfolding fuzzy_from pick_best block_scan_order
  fuzzy_tier needle =
      resolve_best AnchorMatchStrategy.fuzzy
        (pick_best ratio_le (find_fuzzy_candidates anchor blocks needle))

  -- The tiers for a quote inside a block.
  unfoldable pub resolve_in_block : Option (Option ResolvedAnchor)
  unfolding exact_tier fuzzy_tier or_next
  resolve_in_block = or_next (exact_tier anchor.quote AnchorMatchStrategy.exact) (
      or_next
        (if trimmed_quote anchor != [] && trimmed_quote anchor != anchor.quote
          then exact_tier (trimmed_quote anchor) AnchorMatchStrategy.trimmed
          else some none)
        (or_next
          (if normalized_quote anchor != [] && normalized_quote anchor != trimmed_quote anchor
            then exact_tier (normalized_quote anchor) AnchorMatchStrategy.normalized
            else some none)
          (some (if fuzzy_needle anchor != [] then fuzzy_tier (fuzzy_needle anchor) else none))))

  unfoldable pub resolve_anchor : Outcome (Option ResolvedAnchor)
  unfolding resolve_in_block resolve_spanning_anchor spans_blocks
  resolve_anchor =
      if anchor.quote == []
      then Outcome.returns none
      else (if spans_blocks anchor.quote
          then resolve_spanning_anchor fuel anchor blocks
          else elim resolve_in_block [
            | none ↦ Outcome.goes_on
            | some found ↦ Outcome.returns found
          ])
