-- ===== src/Daemon/Drift.antt =====
-- The comments that a revision leaves open (packages/daemon/src/api.ts, `sessionSubmitRevision`, with
-- `resolveAnchor` of packages/schema/src/anchor.ts).
use cueloop.Prelude.{
  ℕ, ◌<◌, ◌≡◌, refl, sym, ap, ◌∙◌, Bool, true, false, List, [], ◌∷◌, Option, none, some, String,
  Text, ◌==◌, text_eq, string_eq, leb, has, drop, length, All, arith,
}
use cueloop.Types.{Anchor, Annotation, ArtifactType}
use cueloop.Anchors.Blocks.{Block, text_at, starts_with}
use cueloop.Anchors.Exact.{AnchorMatchStrategy, ResolvedAnchor, resolved}
use cueloop.Anchors.Spans.{or_next, Outcome}
use cueloop.Anchors.Resolve.{
  resolve_anchor, resolve_in_block, exact_tier, resolve_best, spans_blocks,
}
use cueloop.Anchors.Matches.{occurrences, occurrences-any}
use cueloop.Anchors.Picks.{pick_best-some}
use cueloop.Anchors.Again.{exact_tier-occurrences}
use cueloop.Daemon.Messages.{Services, address}

-- `resolveAnchor(...) === null`, the other way round; a search that goes on or throws does not
-- answer that.
abbrev pub is_resolved_anchor : Outcome (Option ResolvedAnchor) → Bool
is_resolved_anchor (Outcome.returns none) = false
is_resolved_anchor _ = true

-- The services of the daemon, with the anchors resolved on the blocks of a text.
abbrev pub with_anchors : (Text → List Block) → ℕ → Services → Services
with_anchors parse_blocks fuel services = record services {
  resolves =
      λ anchor content. is_resolved_anchor (resolve_anchor fuel anchor (parse_blocks content));
}

module _ (fuel : ℕ) (anchor : Anchor) (blocks : List Block) where
  module _ (j k : ℕ) (enough : All (λ b. length b.text < fuel) blocks)
      (in_blocks : j < length blocks) (in_text : k < length (text_at blocks j)) where
    exact_tier_standing :
        (quote : Text)
        → (quote == []) ≡ false
        → starts_with quote (drop k (text_at blocks j)) ≡ true
        → (r : ResolvedAnchor) × (exact_tier fuel anchor blocks quote AnchorMatchStrategy.exact
            ≡ some (some r))
    exact_tier_standing [] h t =
        let is_empty : (◌==◌ {A = Text} [] []) ≡ true = ground arith in
        absurd (cc (sym h ∙ is_empty))
    exact_tier_standing (q ∷ qs) h t =
        let (b, e) =
          pick_best-some leb (occurrences anchor q qs 0 blocks) (λ c. true)
            (occurrences-any anchor q qs (λ c. true) 0 j k blocks in_blocks in_text t refl) in
        (
          resolved AnchorMatchStrategy.exact b,
          exact_tier-occurrences fuel anchor blocks q qs AnchorMatchStrategy.exact enough
              ∙ ap (λ o. some (resolve_best AnchorMatchStrategy.exact o)) e,
        )

    -- A quote that stands in a block is found in the first tier.
    resolve_anchor_standing :
        (anchor.quote == []) ≡ false
        → spans_blocks anchor.quote ≡ false
        → starts_with anchor.quote (drop k (text_at blocks j)) ≡ true
        → is_resolved_anchor (resolve_anchor fuel anchor blocks) ≡ true
    unfolding resolve_anchor resolve_in_block or_next
    resolve_anchor_standing some_text inside stands =
        let (r, e) = exact_tier_standing anchor.quote some_text stands in
        rw (some_text, inside, e) refl

-- A comment that the agent did not report, on a quote that is not empty and holds no separator: while
-- the quote still stands in a block of the revised content, the revision leaves the comment as it is,
-- and does not resolve it as drift.
pub address_standing :
    (services : Services) (parse_blocks : Text → List Block) (fuel : ℕ) (reported : List String)
    (type : ArtifactType) (content : Text) (revision : ℕ) (a : Annotation) (j k : ℕ)
    → All (λ b. length b.text < fuel) (parse_blocks content)
    → has reported a.id ≡ false
    → (a.anchor.quote == []) ≡ false
    → spans_blocks a.anchor.quote ≡ false
    → j < length (parse_blocks content)
    → k < length (text_at (parse_blocks content) j)
    → starts_with a.anchor.quote (drop k (text_at (parse_blocks content) j)) ≡ true
    → address (with_anchors parse_blocks fuel services) reported type content revision a ≡ a
unfolding address
address_standing services parse_blocks fuel reported type content revision a j k enough unreported
      some_text inside b c t =
    let found : is_resolved_anchor (resolve_anchor fuel a.anchor (parse_blocks content)) ≡ true =
      resolve_anchor_standing fuel a.anchor (parse_blocks content) j k enough b c some_text inside
        t in
    ground (arith, found)
