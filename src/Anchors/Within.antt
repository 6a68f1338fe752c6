-- ===== src/Anchors/Within.antt =====
-- The bounds of what a quote that spans blocks is bound to (packages/schema/src/anchor.ts).
use cueloop.Prelude.{
  ℕ, suc, ◌+◌, ◌-◌, ◌≤◌, ◌<◌, min, ◌≡◌, refl, sym, ap, ◌∙◌, subst, Bool, true, false, ◌&&◌, List,
  [], ◌∷◌, Option, none, some, Text, ◌==◌, ◌!=◌, nat_eq, text_eq, leb, ltb, if◌then◌else◌, length,
  get_or, Bool-cases, inl, inr, arith,
}
use cueloop.Types.{Anchor}
use cueloop.Sharing.Participants.{trim}
use cueloop.Anchors.Blocks.{Block, text_at}
use cueloop.Anchors.Exact.{AnchorMatchStrategy, ResolvedAnchor}
use cueloop.Anchors.Spans.{
  JoinedDocument, join_blocks, last_start, locate_in_blocks, Edge, BlockOffset, DocumentCandidate,
  resolved_span, span_of, span_tier, fuzzy_span, or_tier, or_throws, Outcome, best_span,
  find_spanning_exact, fuzzy_minimum_similarity, resolve_spanning_anchor,
}
use cueloop.Anchors.Fuzzy.{FuzzyMatch, fuzzy_find_best_match, fuzzy_work_budget}
use cueloop.Anchors.Located.{starts_from, join_blocks-starts}

length-starts_from : (p : ℕ) (blocks : List Block) → length (starts_from p blocks) ≡ length blocks
unfolding starts_from
length-starts_from p [] = refl
length-starts_from p (b ∷ bs) = ap suc (length-starts_from (p + length b.text + 2) bs)

last_start-lt :
    (starts : List ℕ) (offset i found n : ℕ)
    → found < n
    → i + length starts ≤ n
    → last_start starts offset i found < n
unfolding last_start
last_start-lt [] offset i found n h e = h
last_start-lt (s ∷ starts) offset i found n h e =
    last_start-lt starts offset (suc i) (if leb s offset then i else found) n (ground arith)
      (omega arith)

module _ (blocks : List Block) where
  -- A place in a block, its end included.
  abbrev pub IsPlace : ℕ → ℕ → Type 0
  IsPlace i offset = (i < length blocks) × (offset ≤ length (text_at blocks i))

  pub locate_in_blocks-IsPlace :
      (starts : List ℕ) (offset : ℕ) (edge : Edge)
      → 0 < length blocks
      → length starts ≡ length blocks
      → (r : BlockOffset) × (locate_in_blocks blocks starts offset edge ≡ some r)
        × IsPlace r.block_index r.offset
  unfolding locate_in_blocks
  locate_in_blocks-IsPlace starts offset edge h e =
      let found : last_start starts offset 0 0 < length blocks =
        last_start-lt starts offset 0 0 (length blocks) h (omega (arith, e)) in
      let there : ltb (last_start starts offset 0 0) (length blocks) ≡ true = ground arith in
      (_, rw there refl, go edge (last_start starts offset 0 0) found)
    where
      inside : ℕ → BlockOffset
      inside i = record {
        block_index = i;
        offset = min offset (get_or starts i 0 + length (text_at blocks i)) - get_or starts i 0;
      }

      go :
          (edge : Edge) (i : ℕ)
          → i < length blocks
          → (let r : BlockOffset = elim edge [
            | Edge.start_edge ↦
                if leb (get_or starts i 0 + length (text_at blocks i)) offset
                  && ltb (i + 1) (length blocks)
                then record { block_index = i + 1; offset = 0 }
                else inside i
            | Edge.end_edge ↦
                if offset == get_or starts i 0 && ltb 0 i
                then record { block_index = i - 1; offset = length (text_at blocks (i - 1)) }
                else inside i
          ] in
              IsPlace r.block_index r.offset)
      go Edge.start_edge i b =
          elim (Bool-cases (
            leb (get_or starts i 0 + length (text_at blocks i)) offset
            && ltb (i + 1) (length blocks))) [
              | inl t ↦ rw t (ground arith, omega arith)
              | inr f ↦ rw f (b, omega arith)
            ]
      go Edge.end_edge i b = elim (Bool-cases (offset == get_or starts i 0 && ltb 0 i)) [
        | inl t ↦ rw t (omega arith, omega arith)
        | inr f ↦ rw f (b, omega arith)
      ]

  abbrev pub IsPlaced : ResolvedAnchor → Type 0
  IsPlaced r = IsPlace r.block_index r.start × IsPlace r.end_block_index r.end

  module _ (some_block : 0 < length blocks) where
    pub length-starts : length (join_blocks blocks).starts ≡ length blocks
    length-starts = of_blocks blocks some_block
      where
        of_blocks : (bs : List Block) → 0 < length bs → length (join_blocks bs).starts ≡ length bs
        of_blocks [] h = absurd (omega arith)
        of_blocks (b ∷ bs) h =
            ap (λ (d : JoinedDocument). length d.starts) (join_blocks-starts b bs)
            ∙ length-starts_from 0 (b ∷ bs)

    resolved_span-IsPlaced :
        (strategy : AnchorMatchStrategy) (candidate : DocumentCandidate)
        → (r : ResolvedAnchor) × (resolved_span blocks
              (join_blocks blocks).starts
              strategy
              candidate
            ≡ some r)
          × IsPlaced r
    unfolding resolved_span
    resolved_span-IsPlaced strategy candidate =
        let (first, e, h) =
          locate_in_blocks-IsPlace (join_blocks blocks).starts candidate.start Edge.start_edge
            some_block length-starts in
        let (last, f, k) =
          locate_in_blocks-IsPlace (join_blocks blocks).starts candidate.end Edge.end_edge
            some_block length-starts in
        (
          _,
          ap
                (λ o.
                  span_of strategy o (
                    locate_in_blocks blocks (join_blocks blocks).starts candidate.end
                      Edge.end_edge))
                e
              ∙ ap (span_of strategy (some first)) f,
          (h, k),
        )

    abbrev AllPlaced : Outcome (Option ResolvedAnchor) → Type 0
    AllPlaced (Outcome.returns (some r)) = IsPlaced r
    AllPlaced _ = Unit

    or_tier-AllPlaced :
        (a b : Outcome (Option ResolvedAnchor))
        → AllPlaced a
        → AllPlaced b
        → AllPlaced (or_tier a b)
    unfolding or_tier
    or_tier-AllPlaced Outcome.goes_on b h k = tt
    or_tier-AllPlaced Outcome.throws b h k = tt
    or_tier-AllPlaced (Outcome.returns none) b h k = k
    or_tier-AllPlaced (Outcome.returns (some r)) b h k = h

    span-AllPlaced :
        (strategy : AnchorMatchStrategy) (candidate : DocumentCandidate)
        → AllPlaced
            (or_throws (resolved_span blocks (join_blocks blocks).starts strategy candidate))
    span-AllPlaced strategy candidate =
        let (r, e, h) = resolved_span-IsPlaced strategy candidate in
        subst (λ o. AllPlaced (or_throws o)) (sym e) h

    module _ (fuel : ℕ) (anchor : Anchor) where
      span_tier-AllPlaced :
          (quote : Text) (strategy : AnchorMatchStrategy)
          → AllPlaced (span_tier fuel anchor blocks quote strategy)
      unfolding span_tier
      span_tier-AllPlaced quote strategy = candidates (
          find_spanning_exact fuel anchor (join_blocks blocks).text quote
            (join_blocks blocks).starts blocks)
        where
          picked :
              (o : Option DocumentCandidate)
              → AllPlaced (elim o [
                | none ↦ Outcome.returns none
                | some best ↦
                    or_throws (resolved_span blocks (join_blocks blocks).starts strategy best)
              ])
          picked none = tt
          picked (some best) = span-AllPlaced strategy best

          candidates :
              (o : Outcome (List DocumentCandidate))
              → AllPlaced (elim o [
                | Outcome.goes_on ↦ Outcome.goes_on
                | Outcome.throws ↦ Outcome.throws
                | Outcome.returns cs ↦ elim (best_span cs) [
                  | none ↦ Outcome.returns none
                  | some best ↦
                      or_throws (resolved_span blocks (join_blocks blocks).starts strategy best)
                ]
              ])
          candidates Outcome.goes_on = tt
          candidates Outcome.throws = tt
          candidates (Outcome.returns cs) = picked (best_span cs)

      fuzzy_span-AllPlaced : AllPlaced (fuzzy_span fuel anchor blocks)
      unfolding fuzzy_span
      fuzzy_span-AllPlaced =
          found
            (fuzzy_find_best_match (trim anchor.quote) (join_blocks blocks).text
              fuzzy_minimum_similarity fuzzy_work_budget).best
        where
          found :
              (o : Option FuzzyMatch)
              → AllPlaced (elim o [
                | none ↦ Outcome.returns none
                | some m ↦ or_throws (
                    resolved_span blocks
                      (join_blocks blocks).starts
                      AnchorMatchStrategy.fuzzy
                      (record { start = m.start; end = m.end; score = 0 }))
              ])
          found none = tt
          found (some m) =
              span-AllPlaced AnchorMatchStrategy.fuzzy
                (record { start = m.start; end = m.end; score = 0 })

      resolve_spanning_anchor-AllPlaced : AllPlaced (resolve_spanning_anchor fuel anchor blocks)
      unfolding resolve_spanning_anchor
      resolve_spanning_anchor-AllPlaced =
          or_tier-AllPlaced _ _ (span_tier-AllPlaced anchor.quote AnchorMatchStrategy.exact) (
            or_tier-AllPlaced _ _ (trimmed_tier (trim anchor.quote != anchor.quote))
              fuzzy_span-AllPlaced)
        where
          trimmed_tier :
              (b : Bool)
              → AllPlaced (
                  if b
                  then span_tier fuel anchor blocks (trim anchor.quote) AnchorMatchStrategy.trimmed
                  else Outcome.returns none)
          trimmed_tier true = span_tier-AllPlaced (trim anchor.quote) AnchorMatchStrategy.trimmed
          trimmed_tier false = tt

  -- Blocks of which there is one at least, and a quote that spans some: when it is bound, both ends
  -- of what it is bound to lie in blocks that are there, at offsets of their texts.
  pub resolve_spanning_anchor-IsPlaced :
      (fuel : ℕ) (anchor : Anchor) {r : ResolvedAnchor}
      → 0 < length blocks
      → resolve_spanning_anchor fuel anchor blocks ≡ Outcome.returns (some r)
      → IsPlaced r
  resolve_spanning_anchor-IsPlaced fuel anchor h e =
      subst (AllPlaced h) e (resolve_spanning_anchor-AllPlaced h fuel anchor)
