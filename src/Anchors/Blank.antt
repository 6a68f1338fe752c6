-- ===== src/Anchors/Blank.antt =====
-- A quote of white space between blocks (packages/schema/src/anchor.ts, `resolveSpanningAnchor`).
use cueloop.Prelude.{
  ℕ, zero, suc, ◌+◌, ◌<◌, min, ◌≡◌, refl, sym, ap, ◌∙◌, true, false, List, [], ◌∷◌, Option, none,
  some, Text, ◌==◌, ◌!=◌, nat_eq, text_eq, if◌then◌else◌, drop, length, Bool-cases, inl, inr, arith,
}
use cueloop.Prelude.Sort.{to_sorted}
use cueloop.Types.{Anchor}
use cueloop.Sharing.Participants.{trim}
use cueloop.Anchors.Blocks.{Block}
use cueloop.Anchors.Exact.{AnchorMatchStrategy, ResolvedAnchor, index_from, index_of}
use cueloop.Anchors.Spans.{
  Outcome, join_blocks, spans_from, span_tier, span_candidate, best_span, or_tier, or_throws,
  resolve_spanning_anchor, fuzzy_span, DocumentCandidate, document_score, resolved_span, Edge,
}
use cueloop.Anchors.Resolve.{resolve_anchor, spans_blocks}
use cueloop.Anchors.Within.{locate_in_blocks-IsPlace, length-starts}

spans_blocks-nil : spans_blocks [] ≡ false
unfolding spans_blocks index_of
spans_blocks-nil = refl

-- The empty text is found again at the end, for ever.
index_of-nil :
    (text : Text) (position : ℕ) → index_of text [] position ≡ some (min position (length text))
unfolding index_of
index_of-nil text position = here (drop position text) (min position (length text))
  where
    here : (s : Text) (i : ℕ) → index_from s [] i ≡ some i
    here [] i = refl
    here (c ∷ s) i = refl

spans_from-nil :
    (fuel : ℕ) (text : Text) (candidate : ℕ → Option DocumentCandidate) (i : ℕ)
    → ((j : ℕ) → (c : DocumentCandidate) × (candidate j ≡ some c))
    → spans_from fuel text [] candidate (some i) ≡ Outcome.goes_on
unfolding spans_from
spans_from-nil zero text candidate i located = refl
spans_from-nil (suc fuel) text candidate i located =
    let (c, e) = located i in
    rw
      (
        spans_from,
        e,
        index_of-nil text (i + 1),
        spans_from-nil fuel text candidate (min (i + 1) (length text)) located,
      )
      refl

module _ (fuel : ℕ) (anchor : Anchor) (blocks : List Block) where
  abbrev document : Text
  document = (join_blocks blocks).text

  abbrev candidate : Text → ℕ → Option DocumentCandidate
  candidate quote = span_candidate anchor document quote (join_blocks blocks).starts blocks

  abbrev tier_of :
      AnchorMatchStrategy → Outcome (List DocumentCandidate) → Outcome (Option ResolvedAnchor)
  tier_of strategy o = elim o [
    | Outcome.goes_on ↦ Outcome.goes_on
    | Outcome.throws ↦ Outcome.throws
    | Outcome.returns candidates ↦ elim (best_span candidates) [
      | none ↦ Outcome.returns none
      | some best ↦ or_throws (resolved_span blocks (join_blocks blocks).starts strategy best)
    ]
  ]

  -- With a block, every match is located.
  located :
      0 < length blocks
      → (quote : Text) (i : ℕ) → (c : DocumentCandidate) × (candidate quote i ≡ some c)
  unfolding span_candidate
  located h quote i =
      let (first, e, k) =
        locate_in_blocks-IsPlace blocks (join_blocks blocks).starts i Edge.start_edge h
          (length-starts blocks h) in
      (
        _,
        ap
            (λ o. elim o [
              | none ↦ none
              | some place ↦ some (record {
                start = i;
                end = i + length quote;
                score = document_score anchor document i (i + length quote) place.block_index;
              })
            ])
            e,
      )

  span_tier-nil :
      (strategy : AnchorMatchStrategy)
      → 0 < length blocks
      → span_tier fuel anchor blocks [] strategy ≡ Outcome.goes_on
  unfolding span_tier
  span_tier-nil strategy h =
      ap (λ o. tier_of strategy (spans_from fuel document [] (candidate []) o))
        (index_of-nil document 0)
      ∙ ap (tier_of strategy)
          (spans_from-nil fuel document (candidate []) (min 0 (length document)) (located h []))

  -- Where a quote does not occur, its tier goes on to the next one.
  span_tier_missed :
      (quote : Text) (strategy : AnchorMatchStrategy) (rest : Outcome (Option ResolvedAnchor))
      → index_of document quote 0 ≡ none
      → rest ≡ Outcome.goes_on
      → or_tier (span_tier fuel anchor blocks quote strategy) rest ≡ Outcome.goes_on
  unfolding span_tier or_tier best_span to_sorted spans_from
  span_tier_missed quote strategy rest h e =
      ap (λ o. or_tier (tier_of strategy (spans_from fuel document quote (candidate quote) o)) rest)
        h
      ∙ rounds fuel
    where
      rounds :
          (n : ℕ)
          → or_tier (tier_of strategy (spans_from n document quote (candidate quote) none)) rest
            ≡ Outcome.goes_on
      rounds zero = refl
      rounds (suc n) = e

  -- An anchor whose quote is white space with a separator, which the document of one block or more
  -- does not hold: the search is never over, however many rounds it is given.
  pub resolve_anchor-blank_quote :
      0 < length blocks
      → spans_blocks anchor.quote ≡ true
      → trim anchor.quote ≡ []
      → index_of (join_blocks blocks).text anchor.quote 0 ≡ none
      → resolve_anchor fuel anchor blocks ≡ Outcome.goes_on
  unfolding resolve_anchor resolve_spanning_anchor or_tier
  resolve_anchor-blank_quote some_block spans blank absent =
      elim (Bool-cases (anchor.quote == [])) [
        | inl t ↦ absurd (cc (sym (no_separator (ground arith)) ∙ spans))
        | inr f ↦
            let guard : (trim anchor.quote != anchor.quote) ≡ true = ground (arith, blank) in
            let next : or_tier
                  (if trim anchor.quote != anchor.quote
                    then span_tier fuel anchor blocks (trim anchor.quote)
                        AnchorMatchStrategy.trimmed
                    else Outcome.returns none)
                  (fuzzy_span fuel anchor blocks)
                ≡ Outcome.goes_on =
              rw guard (
                ap
                  (λ q.
                    or_tier (span_tier fuel anchor blocks q AnchorMatchStrategy.trimmed)
                      (fuzzy_span fuel anchor blocks))
                  blank
                ∙ ap (λ o. or_tier o (fuzzy_span fuel anchor blocks))
                    (span_tier-nil AnchorMatchStrategy.trimmed some_block)) in
            rw (f, spans) (span_tier_missed anchor.quote AnchorMatchStrategy.exact _ absent next)
      ]
    where
      no_separator : anchor.quote ≡ [] → spans_blocks anchor.quote ≡ false
      no_separator e = ap spans_blocks e ∙ spans_blocks-nil
