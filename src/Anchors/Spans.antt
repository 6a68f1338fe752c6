-- ===== src/Anchors/Spans.antt =====
-- Quotes that span blocks: packages/schema/src/anchor.ts. With no blocks, `blocks[blockIndex]!.text`
-- throws, so that a search may also end with an error.
use cueloop.Prelude.{
  ℕ, zero, suc, ◌+◌, ◌-◌, min, ◌&&◌, List, [], ◌∷◌, ◌++◌, Option, none, some, Text, ◌==◌, ◌!=◌,
  nat_eq, text_eq, leb, ltb, if◌then◌else◌, length, get_or,
}
use cueloop.Prelude.Sort.{to_sorted}
use cueloop.Types.{Anchor}
use cueloop.Sharing.Participants.{trim}
use cueloop.Anchors.Fuzzy.{Ratio, fuzzy_find_best_match, fuzzy_work_budget}
use cueloop.Anchors.Blocks.{Block, text_at, block_separator, prefix_of, suffix_of}
use cueloop.Anchors.Exact.{
  AnchorMatchStrategy, ResolvedAnchor, is_approximate, is_at, index_of, head?,
}

abbrev pub fuzzy_minimum_similarity : Ratio
fuzzy_minimum_similarity = record { num = 3; den = 4 }

pub record JoinedDocument : Type 0 where
  pub text : Text
  pub starts : List ℕ

-- The loop over the blocks; the first is the one in front of which no start is noted.
unfoldable pub join_onto : JoinedDocument → List Block → JoinedDocument
join_onto document [] = document
join_onto document (block ∷ blocks) =
    let opened : Text = elim document.starts [
      | [] ↦ document.text
      | _ ∷ _ ↦ document.text ++ block_separator
    ] in
    join_onto
      (record { text = opened ++ block.text; starts = document.starts ++ length opened ∷ [] })
      blocks

unfoldable pub join_blocks : List Block → JoinedDocument
unfolding join_onto
join_blocks blocks = join_onto (record { text = []; starts = [] }) blocks

-- What a call comes to: its loop goes on after the rounds given, it throws, or it returns.
pub data Outcome {ℓ} (A : Type ℓ) : Type ℓ where
  goes_on throws : Outcome A
  returns : A → Outcome A

pub data Edge : Type 0 where
  start_edge end_edge : Edge

pub record BlockOffset : Type 0 where
  pub block_index : ℕ
  pub offset : ℕ

-- `starts.findLastIndex((start) => start <= offset)`, from the index `i` on, and 0 for none.
unfoldable pub last_start : List ℕ → ℕ → ℕ → ℕ → ℕ
last_start [] offset i found = found
last_start (s ∷ starts) offset i found =
    last_start starts offset (suc i) (if leb s offset then i else found)

-- `none` is the error of reading the text of a block that is not there.
unfoldable pub locate_in_blocks : List Block → List ℕ → ℕ → Edge → Option BlockOffset
unfolding last_start
locate_in_blocks blocks starts offset edge =
    let i : ℕ = last_start starts offset 0 0 in
    let block_start : ℕ = get_or starts i 0 in
    let block_end : ℕ = block_start + length (text_at blocks i) in
    let inside : BlockOffset = record {
      block_index = i;
      offset = min offset block_end - block_start;
    } in
    let located : BlockOffset = elim edge [
      | start_edge ↦
          if leb block_end offset && ltb (i + 1) (length blocks)
          then record { block_index = i + 1; offset = 0 }
          else inside
      | end_edge ↦
          if offset == block_start && ltb 0 i
          then record { block_index = i - 1; offset = length (text_at blocks (i - 1)) }
          else inside
    ] in
    if ltb i (length blocks) then some located else none

unfoldable pub document_score : Anchor → Text → ℕ → ℕ → ℕ → ℕ
document_score anchor text start end start_block_index =
    (if prefix_of text start == anchor.prefix then 2 else 0)
    + (if suffix_of text end == anchor.suffix then 2 else 0)
    + (if is_at anchor.block_index start_block_index then 1 else 0)

pub record DocumentCandidate : Type 0 where
  pub start : ℕ
  pub end : ℕ
  pub score : ℕ

unfoldable pub span_candidate :
    Anchor → Text → Text → List ℕ → List Block → ℕ → Option DocumentCandidate
unfolding document_score locate_in_blocks
span_candidate anchor text quote starts blocks start =
    elim (locate_in_blocks blocks starts start Edge.start_edge) [
      | none ↦ none
      | some first ↦ some (record {
        start = start;
        end = start + length quote;
        score = document_score anchor text start (start + length quote) first.block_index;
      })
    ]

-- The loop from one match on: a candidate that cannot be located throws at once.
unfoldable pub spans_from :
    ℕ → Text → Text → (ℕ → Option DocumentCandidate) → Option ℕ → Outcome (List DocumentCandidate)
unfolding index_of
spans_from zero text quote candidate found = goes_on
spans_from (suc fuel) text quote candidate none = returns []
spans_from (suc fuel) text quote candidate (some i) = elim (candidate i) [
  | none ↦ throws
  | some c ↦ elim (spans_from fuel text quote candidate (index_of text quote (i + 1))) [
    | goes_on ↦ goes_on
    | throws ↦ throws
    | returns rest ↦ returns (c ∷ rest)
  ]
]

abbrev pub find_spanning_exact :
    ℕ → Anchor → Text → Text → List ℕ → List Block → Outcome (List DocumentCandidate)
find_spanning_exact fuel anchor text quote starts blocks =
    spans_from fuel text quote (span_candidate anchor text quote starts blocks)
      (index_of text quote 0)

-- The anchor of two places, when both are located.
abbrev pub span_of :
    AnchorMatchStrategy → Option BlockOffset → Option BlockOffset → Option ResolvedAnchor
span_of strategy (some first) (some last) = some (record {
  block_index = first.block_index;
  start = first.offset;
  end_block_index = last.block_index;
  end = last.offset;
  approximate = is_approximate strategy;
  strategy = strategy;
})
span_of strategy _ _ = none

unfoldable pub resolved_span :
    List Block → List ℕ → AnchorMatchStrategy → DocumentCandidate → Option ResolvedAnchor
unfolding locate_in_blocks
resolved_span blocks starts strategy candidate =
    span_of strategy (locate_in_blocks blocks starts candidate.start Edge.start_edge)
      (locate_in_blocks blocks starts candidate.end Edge.end_edge)

unfoldable pub best_span : List DocumentCandidate → Option DocumentCandidate
unfolding to_sorted
best_span candidates = head? (to_sorted (λ left right. leb right.score left.score) candidates)

-- A tier that misses hands over to the next one.
unfoldable pub or_next {ℓ} :
    {A : Type ℓ} → Option (Option A) → Option (Option A) → Option (Option A)
or_next none next = none
or_next (some none) next = next
or_next (some (some r)) next = some (some r)

-- The same for the tiers of a quote that spans blocks.
unfoldable pub or_tier {ℓ} :
    {A : Type ℓ} → Outcome (Option A) → Outcome (Option A) → Outcome (Option A)
or_tier goes_on next = goes_on
or_tier throws next = throws
or_tier (returns none) next = next
or_tier (returns (some r)) next = returns (some r)

-- A span that was found is returned, unless an end of it cannot be located.
abbrev pub or_throws {ℓ} : {A : Type ℓ} → Option A → Outcome (Option A)
or_throws none = throws
or_throws (some r) = returns (some r)

module _ (fuel : ℕ) (anchor : Anchor) (blocks : List Block) where
  unfoldable pub span_tier : Text → AnchorMatchStrategy → Outcome (Option ResolvedAnchor)
  unfolding spans_from join_blocks span_candidate resolved_span best_span
  span_tier quote strategy =
      let document : JoinedDocument = join_blocks blocks in
      elim (find_spanning_exact fuel anchor document.text quote document.starts blocks) [
        | goes_on ↦ goes_on
        | throws ↦ throws
        | returns candidates ↦ elim (best_span candidates) [
          | none ↦ returns none
          | some best ↦ or_throws (resolved_span blocks document.starts strategy best)
        ]
      ]

  unfoldable pub fuzzy_span : Outcome (Option ResolvedAnchor)
  unfolding join_blocks fuzzy_find_best_match resolved_span
  fuzzy_span =
      let document : JoinedDocument = join_blocks blocks in
      elim (fuzzy_find_best_match (trim anchor.quote) document.text fuzzy_minimum_similarity
        fuzzy_work_budget).best [
          | none ↦ returns none
          | some found ↦ or_throws (
              resolved_span blocks document.starts AnchorMatchStrategy.fuzzy
                (record { start = found.start; end = found.end; score = 0 }))
        ]

  unfoldable pub resolve_spanning_anchor : Outcome (Option ResolvedAnchor)
  unfolding span_tier fuzzy_span or_tier
  resolve_spanning_anchor = or_tier (span_tier anchor.quote AnchorMatchStrategy.exact) (
      or_tier
        (if trim anchor.quote != anchor.quote
          then span_tier (trim anchor.quote) AnchorMatchStrategy.trimmed
          else returns none)
        fuzzy_span)
