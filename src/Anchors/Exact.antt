-- ===== src/Anchors/Exact.antt =====
-- The verbatim occurrences of a quote: packages/schema/src/anchor.ts. The loop over `indexOf` has
-- fuel; `none` is a loop that goes on.
use cueloop.Prelude.{
  ℕ, zero, suc, ◌+◌, min, Bool, true, false, ◌&&◌, List, [], ◌∷◌, ◌++◌, Option, none, some, Text,
  ◌==◌, nat_eq, text_eq, if◌then◌else◌, drop, length,
}
use cueloop.Prelude.Sort.{to_sorted}
use cueloop.Types.{Anchor}
use cueloop.Anchors.Blocks.{Block, starts_with, prefix_of, suffix_of}

pub record Candidate (Score : Type 0) : Type 0 where
  pub block_index : ℕ
  pub start : ℕ
  pub end : ℕ
  pub score : Score

abbrev pub is_at : Option ℕ → ℕ → Bool
is_at none i = false
is_at (some j) i = j == i

unfoldable pub context_score : Anchor → ℕ → Block → ℕ → ℕ → ℕ
context_score anchor block_index block start end =
    (if prefix_of block.text start == anchor.prefix then 2 else 0)
    + (if suffix_of block.text end == anchor.suffix then 2 else 0)
    + (if is_at anchor.block_index block_index then 1 else 0)
    + (if is_at anchor.block_index block_index && is_at anchor.start start then 1 else 0)

-- The first occurrence in what is left of a text from `i` on.
unfoldable pub index_from : Text → Text → ℕ → Option ℕ
unfolding starts_with
index_from [] quote i = if starts_with quote [] then some i else none
index_from (c ∷ s) quote i =
    let rest = index_from s quote (suc i) in if starts_with quote (c ∷ s) then some i else rest

-- `text.indexOf(quote, position)`: a position behind the end counts as the end.
unfoldable pub index_of : Text → Text → ℕ → Option ℕ
unfolding index_from
index_of text quote position = index_from (drop position text) quote (min position (length text))

-- The loop from one match on, with the candidate of each.
unfoldable pub matches_from {ℓ} :
    {A : Type ℓ} → ℕ → Text → Text → (ℕ → A) → Option ℕ → Option (List A)
unfolding index_of
matches_from zero text quote candidate found = none
matches_from (suc fuel) text quote candidate none = some []
matches_from (suc fuel) text quote candidate (some i) =
    elim (matches_from fuel text quote candidate (index_of text quote (i + 1))) [
      | none ↦ none
      | some rest ↦ some (candidate i ∷ rest)
    ]

abbrev pub matches {ℓ} : {A : Type ℓ} → ℕ → Text → Text → (ℕ → A) → Option (List A)
matches fuel text quote candidate = matches_from fuel text quote candidate (index_of text quote 0)

abbrev pub exact_candidate : Anchor → Text → ℕ → Block → ℕ → Candidate ℕ
exact_candidate anchor quote block_index block start = record {
  block_index = block_index;
  start = start;
  end = start + length quote;
  score = context_score anchor block_index block start (start + length quote);
}

-- The blocks from the one at `block_index` on.
unfoldable pub exact_from : ℕ → Anchor → Text → ℕ → List Block → Option (List (Candidate ℕ))
unfolding matches_from context_score
exact_from fuel anchor quote block_index [] = some []
exact_from fuel anchor quote block_index (block ∷ blocks) =
    elim (matches fuel block.text quote (exact_candidate anchor quote block_index block)) [
      | none ↦ none
      | some here ↦ elim (exact_from fuel anchor quote (suc block_index) blocks) [
        | none ↦ none
        | some rest ↦ some (here ++ rest)
      ]
    ]

abbrev pub find_exact_candidates : ℕ → Anchor → List Block → Text → Option (List (Candidate ℕ))
find_exact_candidates fuel anchor blocks quote = exact_from fuel anchor quote 0 blocks

abbrev pub head? {ℓ} : {A : Type ℓ} → List A → Option A
head? [] = none
head? (x ∷ xs) = some x

-- `candidates.sort((left, right) => right.score - left.score)[0]`
unfoldable pub pick_best :
    {Score : Type 0} → (Score → Score → Bool) → List (Candidate Score) → Option (Candidate Score)
unfolding to_sorted
pick_best le candidates = head? (to_sorted (λ left right. le right.score left.score) candidates)

pub data AnchorMatchStrategy : Type 0 where
  exact trimmed normalized fuzzy : AnchorMatchStrategy

pub record ResolvedAnchor : Type 0 where
  pub block_index : ℕ
  pub start : ℕ
  pub end_block_index : ℕ
  pub end : ℕ
  pub approximate : Bool
  pub strategy : AnchorMatchStrategy

abbrev pub is_approximate : AnchorMatchStrategy → Bool
is_approximate AnchorMatchStrategy.exact = false
is_approximate _ = true

abbrev pub resolved : {Score : Type 0} → AnchorMatchStrategy → Candidate Score → ResolvedAnchor
resolved strategy candidate = record {
  block_index = candidate.block_index;
  start = candidate.start;
  end_block_index = candidate.block_index;
  end = candidate.end;
  approximate = is_approximate strategy;
  strategy = strategy;
}
