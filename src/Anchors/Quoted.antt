-- ===== src/Anchors/Quoted.antt =====
-- Where a text stands in the blocks of a document, read off their characters (for
-- packages/schema/src/anchor.ts).
use cueloop.Prelude.{
  ℕ, suc, ◌≤◌, ◌≡◌, refl, sym, ◌∙◌, Bool, true, false, ◌&&◌, ◌||◌, List, [], ◌∷◌, none, Text, ◌!=◌,
  nat_eq, text_eq, leb, take, length, any, Bool-cases, inl, inr, arith,
}
use cueloop.Types.{Anchor}
use cueloop.Anchors.Blocks.{Block, starts_with}
use cueloop.Anchors.Exact.{exact_candidate, pick_best}
use cueloop.Anchors.Matches.{positions, occurrences, here, any-map, any-append}
use cueloop.Anchors.Picks.{pick_best-some}

-- A text stands at some character of another one.
unfoldable pub occurs_in : Text → Text → Bool
occurs_in quote [] = false
occurs_in quote (c ∷ s) = starts_with quote (c ∷ s) || occurs_in quote s

-- A text that is not empty stands in some block.
unfoldable pub is_quoted : Text → List Block → Bool
is_quoted quote blocks = quote != [] && any (λ b. occurs_in quote b.text) blocks

-- A quote that stands at the head of a text.
pub starts_with-take :
    (quote s : Text)
    → starts_with quote s ≡ true
    → (take (length quote) s ≡ quote) × (length quote ≤ length s)
unfolding starts_with
starts_with-take [] s h = (refl, omega arith)
starts_with-take (c ∷ q) [] h = cc
starts_with-take (c ∷ q) (d ∷ s) h =
    let rest : starts_with q s ≡ true = ground arith in
    let same : d ≡ c = ground arith in
    let (t, l) = starts_with-take q s rest in (cc (same, t), omega (arith, l))

positions-occurs_in :
    (quote : Text) (i : ℕ) (s : Text) → any (λ k. true) (positions quote i s) ≡ occurs_in quote s
unfolding positions occurs_in
positions-occurs_in quote i [] = refl
positions-occurs_in quote i (c ∷ s) = ground (arith, positions-occurs_in quote (suc i) s)

occurrences-occurs_in :
    (anchor : Anchor) (q : ℕ) (qs : Text) (i : ℕ) (blocks : List Block)
    → any (λ c. true) (occurrences anchor q qs i blocks)
      ≡ any (λ b. occurs_in (q ∷ qs) b.text) blocks
occurrences-occurs_in anchor q qs i [] = refl
occurrences-occurs_in anchor q qs i (b ∷ bs) =
    any-append (λ c. true) (here anchor q qs i b) (occurrences anchor q qs (suc i) bs)
    ∙ cc (
      any-map (λ c. true) (exact_candidate anchor (q ∷ qs) i b) (positions (q ∷ qs) 0 b.text)
          ∙ positions-occurs_in (q ∷ qs) 0 b.text,
      occurrences-occurs_in anchor q qs (suc i) bs,
    )

-- Nothing is picked only when the quote stands in no block.
pub pick_best-none :
    (anchor : Anchor) (q : ℕ) (qs : Text) (blocks : List Block)
    → pick_best leb (occurrences anchor q qs 0 blocks) ≡ none
    → is_quoted (q ∷ qs) blocks ≡ false
unfolding is_quoted
pick_best-none anchor q qs blocks h =
    elim (Bool-cases (any (λ b. occurs_in (q ∷ qs) b.text) blocks)) [
      | inl t ↦
          let (b, e) =
            pick_best-some leb (occurrences anchor q qs 0 blocks) (λ c. true)
              (occurrences-occurs_in anchor q qs 0 blocks ∙ t) in
          absurd (cc (sym h ∙ e))
      | inr f ↦ ground (arith, f)
    ]

pub is_quoted-nil : (blocks : List Block) → is_quoted [] blocks ≡ false
unfolding is_quoted
is_quoted-nil blocks = ground arith
