-- ===== src/Anchors/Binding.antt =====
-- What a tier of `resolveAnchor` of packages/schema/src/anchor.ts binds a quote to.
use cueloop.Prelude.{
  ℕ, ◌+◌, ◌-◌, ◌≤◌, ◌<◌, ◌≡◌, refl, sym, ap, ◌∙◌, subst, Bool, true, false, List, [], ◌∷◌, ◌++◌,
  Option, none, some, Text, ◌==◌, nat_eq, text_eq, leb, take, drop, length, get_or, All, All-append,
  arith,
}
use cueloop.Types.{Anchor}
use cueloop.Sharing.Participants.{trim}
use cueloop.Anchors.Fuzzy.{
  Ratio, ratio_lt, slice, similarity_ratio, fuzzy_find_best_match, fuzzy_work_budget, Scan,
  FuzzyMatch,
}
use cueloop.Anchors.Blocks.{Block, no_block, text_at, starts_with}
use cueloop.Anchors.Exact.{
  Candidate, AnchorMatchStrategy, ResolvedAnchor, is_approximate, resolved, exact_candidate,
  pick_best,
}
use cueloop.Anchors.Spans.{or_next, fuzzy_minimum_similarity}
use cueloop.Anchors.Resolve.{
  block_scan_order, fuzzy_from, fuzzy_candidate, find_fuzzy_candidates, ratio_le, resolve_best,
  exact_tier, fuzzy_tier, normalized_quote, fuzzy_needle,
}
use cueloop.Anchors.Windows.{IsMatch, IsFound}
use cueloop.Anchors.Best.{fuzzy_find_best_match-IsFound}
use cueloop.Anchors.Matches.{occurrences-All, occurrences}
use cueloop.Anchors.Order.{block_scan_order-All}
use cueloop.Anchors.Picks.{pick_best-All}
use cueloop.Anchors.Quoted.{is_quoted, pick_best-none, starts_with-take}
use cueloop.Anchors.Again.{exact_tier-occurrences, length-drop}

module _ (anchor : Anchor) (blocks : List Block) where
  -- The text that an anchor is bound to.
  abbrev pub bound_text : ResolvedAnchor → Text
  bound_text r = slice (text_at blocks r.block_index) r.start r.end

  -- The tiers by what they ask of that text.
  abbrev pub Binds : AnchorMatchStrategy → Text → Type 0
  Binds AnchorMatchStrategy.exact t = t ≡ anchor.quote
  Binds AnchorMatchStrategy.trimmed t = t ≡ trim anchor.quote
  Binds AnchorMatchStrategy.normalized t = t ≡ normalized_quote anchor
  Binds AnchorMatchStrategy.fuzzy t =
      ratio_lt (similarity_ratio (fuzzy_needle anchor) t) fuzzy_minimum_similarity ≡ false

  pub record IsBound (r : ResolvedAnchor) : Type 0 where
    pub one_block : r.end_block_index ≡ r.block_index
    pub in_blocks : r.block_index < length blocks
    pub not_empty : r.start < r.end
    pub in_text : r.end ≤ length (text_at blocks r.block_index)
    pub flagged : r.approximate ≡ is_approximate r.strategy
    pub allowed : Binds r.strategy (bound_text r)

  -- It returns what is bound, or nothing under the condition `P`.
  abbrev pub Good : Type 0 → Option ResolvedAnchor → Type 0
  Good P none = P
  Good P (some r) = IsBound r

  abbrev pub Returns : Type 0 → Option (Option ResolvedAnchor) → Type 0
  Returns P o = (r : Option ResolvedAnchor) × (o ≡ some r) × Good P r

  pub Good-imp : {P Q : Type 0} (r : Option ResolvedAnchor) → (P → Q) → Good P r → Good Q r
  Good-imp none f h = f h
  Good-imp (some r) f h = h

  pub or_next-Returns :
      {P Q : Type 0} {a b : Option (Option ResolvedAnchor)}
      → Returns P a
      → Returns Q b
      → Returns (P × Q) (or_next a b)
  unfolding or_next
  or_next-Returns {b = b} (none, e, h) (r, f, k) =
      (r, ap (λ o. or_next o b) e ∙ f, Good-imp r (λ q. (h, q)) k)
  or_next-Returns {b = b} (some r, e, h) k = (some r, ap (λ o. or_next o b) e, h)

  pub resolve_best-Good :
      {P : Type 0} {Score : Type 0} (strategy : AnchorMatchStrategy) (o : Option (Candidate Score))
      → (o ≡ none → P)
      → ((b : Candidate Score) → o ≡ some b → IsBound (resolved strategy b))
      → Good P (resolve_best strategy o)
  resolve_best-Good strategy none g h = g refl
  resolve_best-Good strategy (some b) g h = h b refl

  pub exact_tier-Returns :
      (fuel q : ℕ) (qs : Text) (strategy : AnchorMatchStrategy)
      → ((t : Text) → t ≡ q ∷ qs → Binds strategy t)
      → All (λ b. length b.text < fuel) blocks
      → Returns
          (is_quoted (q ∷ qs) blocks ≡ false)
          (exact_tier fuel anchor blocks (q ∷ qs) strategy)
  exact_tier-Returns fuel q qs strategy binds enough = (
    resolve_best strategy (pick_best leb (occurrences anchor q qs 0 blocks)),
    exact_tier-occurrences fuel anchor blocks q qs strategy enough,
    resolve_best-Good strategy _ (pick_best-none anchor q qs blocks) (λ b e.
        pick_best-All leb (occurrences anchor q qs 0 blocks) (λ c. IsBound (resolved strategy c))
          (occurrences-All anchor q qs _ 0 blocks one) e),
  )
    where
      one :
          (j k : ℕ)
          → j < length blocks
          → k < length (text_at blocks j)
          → starts_with (q ∷ qs) (drop k (text_at blocks j)) ≡ true
          → IsBound (
              resolved strategy
                (exact_candidate anchor (q ∷ qs) (0 + j) (get_or blocks j no_block) k))
      one j k a b t =
          let (whole, fits) = starts_with-take (q ∷ qs) (drop k (text_at blocks j)) t in
          let same : 0 + j ≡ j = omega arith in
          let width : k + length (q ∷ qs) - k ≡ length (q ∷ qs) = omega arith in
          subst
            (λ n.
              IsBound (
                resolved strategy (exact_candidate anchor (q ∷ qs) n (get_or blocks j no_block) k)))
            (sym same)
            (record {
              one_block = refl;
              in_blocks = a;
              not_empty = omega arith;
              in_text = omega (arith, fits, length-drop k (text_at blocks j));
              flagged = refl;
              allowed = binds _ (ap (λ n. take n (drop k (text_at blocks j))) width ∙ whole);
            })

  -- A window that the search finds in a block is bound.
  fuzzy_candidate-IsBound :
      (i : ℕ) (found : FuzzyMatch)
      → i < length blocks
      → IsMatch (fuzzy_needle anchor) (text_at blocks i) fuzzy_minimum_similarity found
      → IsBound (
          resolved AnchorMatchStrategy.fuzzy
            (fuzzy_candidate anchor i (get_or blocks i no_block) found))
  fuzzy_candidate-IsBound i found h m = record {
    one_block = refl;
    in_blocks = h;
    not_empty = m.not_empty;
    in_text = m.in_text;
    flagged = refl;
    allowed = subst (λ s. ratio_lt s fuzzy_minimum_similarity ≡ false) m.measured m.enough;
  }

  abbrev FuzzyBound : Candidate Ratio → Type 0
  FuzzyBound c = IsBound (resolved AnchorMatchStrategy.fuzzy c)

  fuzzy_from-All :
      (order : List ℕ) (budget : ℕ)
      → All (λ i. i < length blocks) order
      → All FuzzyBound
          (fuzzy_from anchor blocks (fuzzy_needle anchor) fuzzy_minimum_similarity order budget)
  unfolding fuzzy_from
  fuzzy_from-All [] budget h = tt
  fuzzy_from-All (i ∷ order) budget h =
      go scan.best
        (fuzzy_find_best_match-IsFound (fuzzy_needle anchor) (text_at blocks i)
          fuzzy_minimum_similarity budget)
        (scan.remaining == 0) (fuzzy_from-All order scan.remaining h.1)
    where
      scan : Scan
      scan =
          fuzzy_find_best_match (fuzzy_needle anchor) (text_at blocks i) fuzzy_minimum_similarity
            budget

      here : Option FuzzyMatch → List (Candidate Ratio)
      here o = elim o [
        | none ↦ []
        | some found ↦ fuzzy_candidate anchor i (get_or blocks i no_block) found ∷ []
      ]

      here-All :
          (o : Option FuzzyMatch)
          → IsFound (fuzzy_needle anchor) (text_at blocks i) fuzzy_minimum_similarity o
          → All FuzzyBound (here o)
      here-All none f = tt
      here-All (some found) f = (fuzzy_candidate-IsBound i found h.0 f, tt)

      go :
          (o : Option FuzzyMatch)
          → IsFound (fuzzy_needle anchor) (text_at blocks i) fuzzy_minimum_similarity o
          → (b : Bool)
          → All FuzzyBound (
              fuzzy_from anchor blocks
                (fuzzy_needle anchor)
                fuzzy_minimum_similarity
                order
                scan.remaining)
          → All FuzzyBound (elim b [
            | true ↦ here o
            | false ↦
                here o
                ++ fuzzy_from anchor blocks
                    (fuzzy_needle anchor)
                    fuzzy_minimum_similarity
                    order
                    scan.remaining
          ])
      go o f true rest = here-All o f
      go o f false rest = All-append FuzzyBound (here o) _ (here-All o f) rest

  pub fuzzy_tier-Good : (fuel : ℕ) → Good Unit (fuzzy_tier fuel anchor blocks (fuzzy_needle anchor))
  unfolding fuzzy_tier
  fuzzy_tier-Good fuel =
      resolve_best-Good AnchorMatchStrategy.fuzzy _ (λ e. tt)
        (λ b e.
          pick_best-All ratio_le (find_fuzzy_candidates anchor blocks (fuzzy_needle anchor))
            FuzzyBound
            (fuzzy_from-All (block_scan_order anchor.block_index (length blocks)) fuzzy_work_budget
              (block_scan_order-All anchor.block_index (length blocks)))
            e)
