-- ===== src/Anchors/Fuzzy.antt =====
-- The best window of packages/schema/src/fuzzy.ts. A similarity is an exact fraction; a budget that
-- is overspent counts as spent.
use cueloop.Prelude.{
  ℕ, zero, suc, ◌+◌, ◌-◌, ◌*◌, ◌/◌, max, Bool, true, false, List, [], Option, none, some, Text,
  ◌==◌, ◌||◌, nat_eq, text_eq, ltb, leb, if◌then◌else◌, take, drop, length,
}
use cueloop.Anchors.Distance.{levenshtein_distance}

pub record Ratio : Type 0 where
  pub num : ℕ
  pub den : ℕ

abbrev pub ratio_lt : Ratio → Ratio → Bool
ratio_lt a b = ltb (a.num * b.den) (b.num * a.den)

-- `text.slice(start, end)`
abbrev pub slice {ℓ} : {A : Type ℓ} → List A → ℕ → ℕ → List A
slice xs start end = take (end - start) (drop start xs)

pub record FuzzyMatch : Type 0 where
  pub start : ℕ
  pub end : ℕ
  pub similarity : Ratio

-- One less the distance over the longer length.
unfoldable pub similarity_ratio : Text → Text → Ratio
similarity_ratio left right =
    let longest : ℕ = max (length left) (length right) in
    if longest == 0
    then record { num = 1; den = 1 }
    else record { num = longest - levenshtein_distance left right; den = longest }

abbrev pub fuzzy_work_budget : ℕ
fuzzy_work_budget = 150_000_000

-- The variables of the scan: what remains of the budget, and `bestMatch`.
pub record Scan : Type 0 where
  pub remaining : ℕ
  pub best : Option FuzzyMatch

-- `Math.round(length * 0.25)` is `(length + 2) / 4`.
abbrev pub length_tolerance : Text → ℕ
length_tolerance needle = max 2 ((length needle + 2) / 4)

abbrev pub minimum_window_length : Text → ℕ
minimum_window_length needle = max 1 (length needle - length_tolerance needle)

abbrev pub maximum_window_length : Text → ℕ
maximum_window_length needle = length needle + length_tolerance needle

module _ (needle haystack : Text) (minimum_similarity : Ratio) where
  abbrev pub window_match : ℕ → ℕ → FuzzyMatch
  window_match start window_length = record {
    start = start;
    end = start + window_length;
    similarity = similarity_ratio needle (slice haystack start (start + window_length));
  }

  abbrev pub better : FuzzyMatch → Option FuzzyMatch → Option FuzzyMatch
  better found none = some found
  better found (some best) =
      if ratio_lt best.similarity found.similarity then some found else some best

  -- The body of the inner loop: nothing more is done once the budget is spent.
  unfoldable pub try_window : ℕ → ℕ → Scan → Scan
  try_window start window_length scan =
      let remaining : ℕ = scan.remaining - length needle * window_length in
      let found : FuzzyMatch = window_match start window_length in
      if remaining == 0 || ratio_lt found.similarity minimum_similarity
      then record { remaining = remaining; best = scan.best }
      else record { remaining = remaining; best = better found scan.best }

  -- The inner loop, over the lengths from `window_length` on, with `rounds` of them left.
  unfoldable pub scan_lengths : ℕ → ℕ → ℕ → Scan → Scan
  scan_lengths start zero window_length scan = scan
  scan_lengths start (suc rounds) window_length scan =
      let next : Scan = try_window start window_length scan in
      elim (leb (start + window_length) (length haystack)) [
        | false ↦ scan
        | true ↦ elim (next.remaining == 0) [
          | true ↦ next
          | false ↦ scan_lengths start rounds (suc window_length) next
        ]
      ]

  -- The outer loop, over the starts from `start` on, with `rounds` of them left.
  unfoldable pub scan_starts : ℕ → ℕ → Scan → Scan
  scan_starts zero start scan = scan
  scan_starts (suc rounds) start scan =
      let next : Scan =
        scan_lengths start (suc (maximum_window_length needle) - minimum_window_length needle)
          (minimum_window_length needle) scan in
      elim (next.remaining == 0) [ true ↦ next | false ↦ scan_starts rounds (suc start) next ]

  -- What the search returns, with what it leaves of the budget.
  unfoldable pub fuzzy_find_best_match : ℕ → Scan
  fuzzy_find_best_match budget =
      if needle == [] || haystack == []
      then record { remaining = budget; best = none }
      else scan_starts (length haystack) 0 (record { remaining = budget; best = none })
