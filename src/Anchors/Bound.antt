-- ===== src/Anchors/Bound.antt =====
-- What `resolveAnchor` of packages/schema/src/anchor.ts binds a quote to.
use cueloop.Prelude.{
  ℕ, ◌<◌, ◌≡◌, refl, sym, ap, ◌∙◌, Bool, true, false, ◌&&◌, List, [], ◌∷◌, Option, none, some, Text,
  ◌==◌, ◌!=◌, nat_eq, text_eq, if◌then◌else◌, length, All, Bool-cases, inl, inr, arith,
}
use cueloop.Types.{Anchor}
use cueloop.Sharing.Participants.{trim, trim_start, trim_end}
use cueloop.Anchors.Blocks.{Block, strip_leading_block_marker}
use cueloop.Anchors.Exact.{AnchorMatchStrategy, ResolvedAnchor}
use cueloop.Anchors.Spans.{Outcome}
use cueloop.Anchors.Resolve.{
  exact_tier, fuzzy_tier, trimmed_quote, normalized_quote, fuzzy_needle, resolve_in_block,
  resolve_anchor, spans_blocks,
}
use cueloop.Anchors.Quoted.{is_quoted, is_quoted-nil}
use cueloop.Anchors.Binding.{
  Binds, IsBound, Good, Returns, or_next-Returns, exact_tier-Returns, fuzzy_tier-Good,
}

module _ (anchor : Anchor) (blocks : List Block) where
  -- Nothing is answered only when none of the three texts stands in a block.
  abbrev pub IsBoundIf : Option ResolvedAnchor → Type 0
  IsBoundIf none =
      (is_quoted anchor.quote blocks ≡ false)
      × (is_quoted (trimmed_quote anchor) blocks ≡ false)
      × (is_quoted (normalized_quote anchor) blocks ≡ false)
  IsBoundIf (some r) = IsBound anchor blocks r

  -- A tier under its guard.
  guarded-Returns :
      (fuel : ℕ) (quote : Text) (strategy : AnchorMatchStrategy) (guard : Bool)
      → (guard ≡ true → (quote == []) ≡ false)
      → ((t : Text) → t ≡ quote → Binds anchor blocks strategy t)
      → All (λ b. length b.text < fuel) blocks
      → Returns anchor blocks
          ((guard && is_quoted quote blocks) ≡ false)
          (if guard then exact_tier fuel anchor blocks quote strategy else some none)
  guarded-Returns fuel quote strategy false some_text binds enough = (none, refl, refl)
  guarded-Returns fuel [] strategy true some_text binds enough =
      let is_empty : (◌==◌ {A = Text} [] []) ≡ true = ground arith in
      absurd (cc (sym (some_text refl) ∙ is_empty))
  guarded-Returns fuel (q ∷ qs) strategy true some_text binds enough =
      exact_tier-Returns anchor blocks fuel q qs strategy binds enough

  -- A text that is not searched is empty or the one that was searched before.
  is_quoted_next :
      (quote before : Text)
      → is_quoted before blocks ≡ false
      → ((quote != [] && quote != before) && is_quoted quote blocks) ≡ false
      → is_quoted quote blocks ≡ false
  is_quoted_next quote before h k = elim (Bool-cases (quote == [])) [
    | inl t ↦
        let e : quote ≡ [] = ground arith in ap (λ q. is_quoted q blocks) e ∙ is_quoted-nil blocks
    | inr f ↦ elim (Bool-cases (quote == before)) [
      | inl t ↦ let e : quote ≡ before = ground arith in ap (λ q. is_quoted q blocks) e ∙ h
      | inr g ↦ ground (arith, f, g, k)
    ]
  ]

  resolve_in_block-Returns :
      (fuel : ℕ)
      → (anchor.quote == []) ≡ false
      → All (λ b. length b.text < fuel) blocks
      → (r : Option ResolvedAnchor) × (resolve_in_block fuel anchor blocks ≡ some r) × IsBoundIf r
  unfolding resolve_in_block
  resolve_in_block-Returns fuel some_text enough =
      let (r, e, h) =
        or_next-Returns anchor blocks
          (guarded-Returns fuel anchor.quote AnchorMatchStrategy.exact true (λ t. some_text)
            (λ t e. e) enough)
          (or_next-Returns anchor blocks
            (guarded-Returns fuel (trimmed_quote anchor) AnchorMatchStrategy.trimmed
              (trimmed_quote anchor != [] && trimmed_quote anchor != anchor.quote)
              (λ t. ground (arith, t)) (λ t e. e) enough)
            (or_next-Returns anchor blocks
              (guarded-Returns fuel (normalized_quote anchor) AnchorMatchStrategy.normalized
                (normalized_quote anchor != [] && normalized_quote anchor != trimmed_quote anchor)
                (λ t. ground (arith, t)) (λ t e. e) enough)
              (last (fuzzy_needle anchor != [])))) in
      (r, e, missing r h)
    where
      last :
          (b : Bool)
          → Returns anchor blocks Unit
              (some (if b then fuzzy_tier fuel anchor blocks (fuzzy_needle anchor) else none))
      last true = (
        fuzzy_tier fuel anchor blocks (fuzzy_needle anchor),
        refl,
        fuzzy_tier-Good anchor blocks fuel,
      )
      last false = (none, refl, tt)

      missing :
          (r : Option ResolvedAnchor)
          → Good anchor blocks
              ((is_quoted anchor.quote blocks ≡ false)
                × ((((trimmed_quote anchor != [] && trimmed_quote anchor != anchor.quote)
                        && is_quoted (trimmed_quote anchor) blocks)
                      ≡ false)
                    × ((((normalized_quote anchor != []
                              && normalized_quote anchor != trimmed_quote anchor)
                            && is_quoted (normalized_quote anchor) blocks)
                          ≡ false)
                        × Unit)))
              r
          → IsBoundIf r
      missing none (h, (k, (l, u))) =
          let trimmed = is_quoted_next (trimmed_quote anchor) anchor.quote h k in
          (h, trimmed, is_quoted_next (normalized_quote anchor) (trimmed_quote anchor) trimmed l)
      missing (some r) h = h

  -- The texts of an anchor with an empty quote.
  empty_missing : anchor.quote ≡ [] → IsBoundIf none
  unfolding strip_leading_block_marker trim_start trim_end
  empty_missing e = (
    ap (λ t. is_quoted t blocks) e ∙ is_quoted-nil blocks,
    ap (λ t. is_quoted (trim t) blocks) e ∙ is_quoted-nil blocks,
    ap (λ t. is_quoted (trim (strip_leading_block_marker t)) blocks) e ∙ is_quoted-nil blocks,
  )

  -- For a quote that holds no separator, and more rounds than a block has characters, the search
  -- returns. What it binds the anchor to is a passage of one block that is not empty and lies in it:
  -- the quote itself, the trimmed quote, the quote without its marker, or, when it is bound as
  -- fuzzy, a passage that reaches the least similarity with what was searched. Only the first of
  -- these is not flagged as approximate. It answers `null` only when none of these three texts
  -- stands in a block.
  pub resolve_anchor-IsBound :
      (fuel : ℕ)
      → All (λ b. length b.text < fuel) blocks
      → spans_blocks anchor.quote ≡ false
      → (r : Option ResolvedAnchor) × (resolve_anchor fuel anchor blocks ≡ Outcome.returns r)
        × IsBoundIf r
  unfolding resolve_anchor
  resolve_anchor-IsBound fuel enough inside = elim (Bool-cases (anchor.quote == [])) [
    | inl t ↦ (none, rw t refl, empty_missing (ground arith))
    | inr f ↦
        let (r, e, h) = resolve_in_block-Returns fuel f enough in (r, rw (f, inside, e) refl, h)
  ]
