-- ===== src/WorkingCopy/Cuts.antt =====
-- `mergeTextCut`, `restoreTextCut` and `applyTextCuts` of packages/schema/src/working-copy.ts, at
-- offsets that are not negative.
use cueloop.Prelude.{
  ℕ, ◌-◌, min, max, Bool, ◌&&◌, ◌||◌, not, List, [], ◌∷◌, ◌++◌, map, Option, none, some, Text, ◌==◌,
  nat_eq, text_eq, if◌then◌else◌, length, filter, take, drop, ltb, leb,
}
use cueloop.Prelude.Sort.{to_sorted}
use cueloop.Types.{TextCut}

pub record Range : Type 0 where
  pub start : ℕ
  pub end : ℕ

-- `text.slice(start, end)`
abbrev pub slice : Text → ℕ → ℕ → Text
slice s start end = take (end - start) (drop start s)

-- `left.start - right.start || left.end - right.end` is not positive.
abbrev pub before : Range → Range → Bool
before a b = ltb a.start b.start || (a.start == b.start && leb a.end b.end)

abbrev pub range_of : TextCut → Range
range_of cut = record { start = cut.start; end = cut.end }

abbrev pub clamp : ℕ → Range → Range
clamp n r = record { start = min r.start n; end = min r.end n }

-- The loop that joins ranges which meet, with the last range that it has pushed.
unfoldable pub join_from : Range → List Range → List Range
join_from previous [] = previous ∷ []
join_from previous (r ∷ rs) =
    let touching = leb r.start previous.end in
    let rest =
      join_from (if touching then record previous { end = max previous.end r.end } else r) rs in
    if touching then rest else previous ∷ rest

unfoldable pub join_ranges : List Range → List Range
unfolding join_from
join_ranges [] = []
join_ranges (r ∷ rs) = join_from r rs

abbrev pub with_quote : Text → Range → TextCut
with_quote source r = record { start = r.start; end = r.end; quote = slice source r.start r.end }

-- The ranges of the cuts and the new one, within the source and in order.
unfoldable pub source_ranges : Text → List TextCut → Range → List Range
source_ranges source cuts new =
    to_sorted before (
      filter (λ r. ltb r.start r.end) (map (clamp (length source)) (map range_of cuts ++ new ∷ [])))

unfoldable pub merge_text_cut : Text → List TextCut → ℕ → ℕ → List TextCut
merge_text_cut source cuts start end =
    let bounded_start = min start (length source) in
    let bounded_end = max bounded_start (min end (length source)) in
    if bounded_end == bounded_start
    then cuts
    else map (with_quote source) (
        join_ranges
          (source_ranges source cuts (record { start = bounded_start; end = bounded_end })))

-- `[...cuts.slice(0, i), ...replacements, ...cuts.slice(i + 1)]` at the first cut that holds the
-- range; none is null.
unfoldable pub restore_in : Text → ℕ → ℕ → List TextCut → Option (List TextCut)
restore_in source start end [] = none
restore_in source start end (cut ∷ cuts) =
    let rest = restore_in source start end cuts in
    if leb cut.start start && leb end cut.end
    then some (
        (if ltb cut.start start
          then record { start = cut.start; end = start; quote = slice source cut.start start } ∷ []
          else [])
        ++ (if ltb end cut.end
            then record { start = end; end = cut.end; quote = slice source end cut.end } ∷ []
            else [])
        ++ cuts)
    else elim rest [ none ↦ none | some r ↦ some (cut ∷ r) ]

unfoldable pub restore_text_cut : Text → List TextCut → ℕ → ℕ → Option (List TextCut)
unfolding restore_in
restore_text_cut source cuts start end =
    if leb end start then none else restore_in source start end cuts

-- A stale or overlapping record.
abbrev pub is_stale : Text → ℕ → TextCut → Bool
is_stale source cursor cut =
    ltb cut.start cursor
    || ltb (length source) cut.end
    || leb cut.end cut.start
    || not (slice source cut.start cut.end == cut.quote)

unfoldable pub apply_from : Text → ℕ → List TextCut → Text
apply_from source cursor [] = drop cursor source
apply_from source cursor (cut ∷ cuts) =
    let rest = apply_from source (if is_stale source cursor cut then cursor else cut.end) cuts in
    if is_stale source cursor cut then rest else slice source cursor cut.start ++ rest

abbrev pub cut_before : TextCut → TextCut → Bool
cut_before a b = before (range_of a) (range_of b)

unfoldable pub apply_text_cuts : Text → List TextCut → Text
unfolding apply_from
apply_text_cuts source [] = source
apply_text_cuts source (cut ∷ cuts) = apply_from source 0 (to_sorted cut_before (cut ∷ cuts))
