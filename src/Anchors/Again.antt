-- ===== src/Anchors/Again.antt =====
-- An anchor that is made on a block is found again (packages/schema/src/anchor.ts).
use cueloop.Prelude.{
  ℕ, zero, suc, ◌+◌, ◌-◌, ◌≤◌, ◌<◌, ◌≡◌, refl, sym, ap, ◌∙◌, subst, Bool, true, false, ◌&&◌, List,
  [], ◌∷◌, some, Text, ◌==◌, nat_eq, text_eq, leb, if◌then◌else◌, take, drop, length, get_or, any,
  All, Bool-cases, ◌⊎◌, inl, inr, arith,
}
use cueloop.Types.{Anchor}
use cueloop.Anchors.Fuzzy.{slice}
use cueloop.Anchors.Blocks.{
  Block, no_block, text_at, starts_with, prefix_of, suffix_of, make_anchor, join_texts,
  quoted_parts,
}
use cueloop.Anchors.Exact.{
  Candidate, AnchorMatchStrategy, ResolvedAnchor, resolved, context_score, exact_candidate,
  pick_best, is_at,
}
use cueloop.Anchors.Spans.{or_next, Outcome}
use cueloop.Anchors.Resolve.{
  exact_tier, resolve_best, resolve_in_block, resolve_anchor, spans_blocks,
}
use cueloop.Anchors.Matches.{occurrences, exact_from-occurrences, occurrences-All, occurrences-any}
use cueloop.Anchors.Picks.{pick_best-All, pick_best-some, pick_best-score}

-- The tier of a quote picks among its occurrences.
pub exact_tier-occurrences :
    (fuel : ℕ) (anchor : Anchor) (blocks : List Block) (q : ℕ) (qs : Text)
    (strategy : AnchorMatchStrategy)
    → All (λ b. length b.text < fuel) blocks
    → exact_tier fuel anchor blocks (q ∷ qs) strategy
      ≡ some (resolve_best strategy (pick_best leb (occurrences anchor q qs 0 blocks)))
unfolding exact_tier
exact_tier-occurrences fuel anchor blocks q qs strategy h =
    ground (arith, exact_from-occurrences anchor q qs fuel 0 blocks h)

starts_with-take : (n : ℕ) (s : Text) → starts_with (take n s) s ≡ true
unfolding starts_with
starts_with-take zero s = refl
starts_with-take (suc n) [] = refl
starts_with-take (suc n) (c ∷ s) = ground (arith, starts_with-take n s)

length-take : (n : ℕ) (s : Text) → n ≤ length s → length (take n s) ≡ n
length-take zero s h = refl
length-take (suc n) [] h = absurd (omega arith)
length-take (suc n) (c ∷ s) h = ap suc (length-take n s (omega arith))

pub length-drop : (n : ℕ) (s : Text) → length (drop n s) ≡ length s - n
length-drop zero s = omega arith
length-drop (suc n) [] = omega arith
length-drop (suc n) (c ∷ s) = omega (arith, length-drop n s)

pub length-slice :
    (text : Text) (start end : ℕ) → end ≤ length text → length (slice text start end) ≡ end - start
length-slice text start end h =
    length-take (end - start) (drop start text) (omega (arith, length-drop start text))

get_or-slice :
    (blocks : List Block) (i : ℕ)
    → i < length blocks
    → slice blocks i (i + 1) ≡ get_or blocks i no_block ∷ []
get_or-slice blocks i h =
    let width : i + 1 - i ≡ 1 = omega arith in
    ap (λ n. take n (drop i blocks)) width ∙ one i blocks h
  where
    one :
        (i : ℕ) (blocks : List Block)
        → i < length blocks
        → take 1 (drop i blocks) ≡ get_or blocks i no_block ∷ []
    one i [] h = absurd (omega arith)
    one zero (b ∷ bs) h = refl
    one (suc i) (b ∷ bs) h = one i bs (omega arith)

abbrev points : Bool → Bool → Bool → Bool → ℕ
points a b c d =
    (if a then 2 else 0) + (if b then 2 else 0) + (if c then 1 else 0) + (if c && d then 1 else 0)

points_full : (a b c d : Bool) → leb 6 (points a b c d) ≡ true → (c ≡ true) × (d ≡ true)
points_full a b c d h = ground arith

points_all :
    (a b c d : Bool) → a ≡ true → b ≡ true → c ≡ true → d ≡ true → leb 6 (points a b c d) ≡ true
points_all a b c d w x y z = ground arith

same_text : (s t : Text) → s ≡ t → (s == t) ≡ true
same_text s t e = ground arith

same_number : (m n : ℕ) → m ≡ n → (m == n) ≡ true
same_number m n e = ground arith

quote_of_one :
    (b : Block) (start end : ℕ)
    → join_texts (quoted_parts start end 1 0 (b ∷ [])) ≡ slice b.text start end
unfolding join_texts quoted_parts native.Mathlib.Decide.ℕ_discrete
quote_of_one b start end = refl

module _ (blocks : List Block) (i start end : ℕ) (in_blocks : i < length blocks)
    (opens : start < end) (in_text : end ≤ length (text_at blocks i)) where
  abbrev made : Anchor
  made = make_anchor blocks i start end i

  made-quote : made.quote ≡ slice (text_at blocks i) start end
  unfolding make_anchor
  made-quote =
      ap (λ bs. join_texts (quoted_parts start end (length bs) 0 bs))
        (get_or-slice blocks i in_blocks)
      ∙ quote_of_one (get_or blocks i no_block) start end

  full_score :
      (block : Block) (j k l : ℕ)
      → leb 6 (context_score made j block k l) ≡ true
      → (j ≡ i) × (k ≡ start)
  unfolding context_score make_anchor
  full_score block j k l h =
      let (c, d) =
        points_full (prefix_of block.text k == made.prefix) (suffix_of block.text l == made.suffix)
          (is_at made.block_index j) (is_at made.start k) h in
      (ground (arith, c), ground (arith, d))

  own_score : leb 6 (context_score made i (get_or blocks i no_block) start end) ≡ true
  unfolding context_score make_anchor
  own_score =
      points_all (prefix_of (text_at blocks i) start == made.prefix)
        (suffix_of (text_at blocks i) end == made.suffix) (is_at made.block_index i)
        (is_at made.start start) (same_text _ _ refl) (same_text _ _ refl) (same_number i i refl)
        (same_number start start refl)

  module _ (fuel q : ℕ) (qs : Text) (quoted : slice (text_at blocks i) start end ≡ q ∷ qs)
      (enough : All (λ b. length b.text < fuel) blocks) where
    abbrev candidates : List (Candidate ℕ)
    candidates = occurrences made q qs 0 blocks

    abbrev target : ResolvedAnchor
    target = record {
      block_index = i;
      start = start;
      end_block_index = i;
      end = end;
      approximate = false;
      strategy = AnchorMatchStrategy.exact;
    }

    abbrev IsTarget : Candidate ℕ → Type 0
    IsTarget c = (leb 6 c.score ≡ false) ⊎ (resolved AnchorMatchStrategy.exact c ≡ target)

    quote_end : start + length (q ∷ qs) ≡ end
    quote_end = omega (arith, ap length quoted, length-slice (text_at blocks i) start end in_text)

    candidates-IsTarget : All IsTarget candidates
    candidates-IsTarget = occurrences-All made q qs IsTarget 0 blocks (λ j k a b t. one j k)
      where
        one :
            (j k : ℕ)
            → IsTarget (exact_candidate made (q ∷ qs) (0 + j) (get_or blocks j no_block) k)
        one j k =
            elim (Bool-cases (
              leb 6
                (context_score made (0 + j) (get_or blocks j no_block) k (k + length (q ∷ qs))))) [
                  | inl t ↦
                      let (e, f) =
                        full_score (get_or blocks j no_block) (0 + j) k (k + length (q ∷ qs)) t in
                      let g : k + length (q ∷ qs) ≡ end = omega (arith, f, quote_end) in
                      inr (cc (e, f, g))
                  | inr f ↦ inl f
                ]

    candidates-any : any (λ c. leb 6 c.score) candidates ≡ true
    candidates-any =
        occurrences-any made q qs _ 0 i start blocks in_blocks (omega arith)
          (subst (λ quote. starts_with quote (drop start (text_at blocks i)) ≡ true) quoted
            (starts_with-take (end - start) (drop start (text_at blocks i))))
          (subst
            (λ n.
              leb 6
                (context_score made n (get_or blocks i no_block) start (start + length (q ∷ qs)))
              ≡ true)
            (omega arith)
            (subst (λ n. leb 6 (context_score made i (get_or blocks i no_block) start n) ≡ true)
              (sym quote_end) own_score))

    exact_tier-made :
        exact_tier fuel made blocks (q ∷ qs) AnchorMatchStrategy.exact ≡ some (some target)
    exact_tier-made =
        let (b, e) = pick_best-some leb candidates _ candidates-any in
        let full : leb 6 b.score ≡ true = pick_best-score candidates 6 candidates-any e in
        exact_tier-occurrences fuel made blocks q qs AnchorMatchStrategy.exact enough
        ∙ (ap (λ o. some (resolve_best AnchorMatchStrategy.exact o)) e
            ∙ ap (λ (r : ResolvedAnchor). some (some r))
                (picked b full (pick_best-All leb candidates IsTarget candidates-IsTarget e)))
      where
        picked :
            (b : Candidate ℕ)
            → leb 6 b.score ≡ true
            → IsTarget b
            → resolved AnchorMatchStrategy.exact b ≡ target
        picked b full (inl f) = absurd (cc (sym full ∙ f))
        picked b full (inr e) = e

  -- An anchor that is made on a passage of one block that is not empty and holds no separator, and
  -- resolved against the same blocks with more rounds than a block has characters, is found exactly
  -- where it was made, however often its quote occurs.
  pub resolve_anchor-make_anchor :
      (fuel : ℕ)
      → All (λ b. length b.text < fuel) blocks
      → spans_blocks (make_anchor blocks i start end i).quote ≡ false
      → resolve_anchor fuel (make_anchor blocks i start end i) blocks
        ≡ Outcome.returns (
            some (record {
              block_index = i;
              start = start;
              end_block_index = i;
              end = end;
              approximate = false;
              strategy = AnchorMatchStrategy.exact;
            }))
  unfolding resolve_anchor resolve_in_block or_next
  resolve_anchor-make_anchor fuel enough inside =
      let (q, qs, quoted) = some_quote in
      let quote : made.quote ≡ q ∷ qs = made-quote ∙ quoted in
      let not_empty : (made.quote == []) ≡ false = ground (arith, quote) in
      let tier : exact_tier fuel made blocks made.quote AnchorMatchStrategy.exact
          ≡ some (some (target fuel q qs quoted enough)) =
        ap (λ t. exact_tier fuel made blocks t AnchorMatchStrategy.exact) quote
        ∙ exact_tier-made fuel q qs quoted enough in
      rw (not_empty, inside, tier) refl
    where
      cons_of_length : (xs : Text) → 0 < length xs → (q : ℕ) × (qs : Text) × (xs ≡ q ∷ qs)
      cons_of_length [] h = absurd (omega arith)
      cons_of_length (x ∷ xs) h = (x, xs, refl)

      some_quote : (q : ℕ) × (qs : Text) × (slice (text_at blocks i) start end ≡ q ∷ qs)
      some_quote =
          cons_of_length (slice (text_at blocks i) start end)
            (omega (arith, length-slice (text_at blocks i) start end in_text))
