-- ===== src/Anchors/Matches.antt =====
-- The loop over `indexOf` in packages/schema/src/anchor.ts visits every occurrence of a quote.
use cueloop.Prelude.{
  ℕ, zero, suc, ◌+◌, ◌≤◌, ◌<◌, min, ◌≡◌, refl, ap, ◌∙◌, subst, Bool, true, ◌||◌, List, [], ◌∷◌,
  ◌++◌, map, none, some, Text, if◌then◌else◌, drop, length, get_or, any, All, All-append,
  Bool-cases, inl, inr, arith,
}
use cueloop.Types.{Anchor}
use cueloop.Anchors.Blocks.{Block, no_block, starts_with}
use cueloop.Anchors.Exact.{
  Candidate, index_from, index_of, matches_from, matches, exact_candidate, exact_from,
}

-- The places at which a quote stands in what is left of a text from `i` on.
unfoldable pub positions : Text → ℕ → Text → List ℕ
positions quote i [] = []
positions quote i (c ∷ s) =
    let rest = positions quote (suc i) s in if starts_with quote (c ∷ s) then i ∷ rest else rest

drop-suc : {c : ℕ} {s : Text} (i : ℕ) (text : Text) → drop i text ≡ c ∷ s → drop (suc i) text ≡ s
drop-suc zero [] h = cc
drop-suc zero (d ∷ text) h = cc
drop-suc (suc i) [] h = cc
drop-suc (suc i) (d ∷ text) h = drop-suc i text h

module _ {ℓ} {A : Type ℓ} (text : Text) (q : ℕ) (qs : Text) (candidate : ℕ → A) where
  abbrev the_quote : Text
  the_quote = q ∷ qs

  index_of_next :
      (i : ℕ) (s : Text)
      → drop (suc i) text ≡ s
      → suc i ≤ length text
      → index_of text the_quote (i + 1) ≡ index_from s the_quote (suc i)
  unfolding index_of
  index_of_next i s d h =
      let next : i + 1 ≡ suc i = omega arith in
      let low : min (suc i) (length text) ≡ suc i = omega arith in
      ap (λ k. index_from (drop k text) the_quote (min k (length text))) next
      ∙ (ap (λ k. index_from (drop (suc i) text) the_quote k) low
          ∙ ap (λ r. index_from r the_quote (suc i)) d)

  matches_from_end : (fuel : ℕ) → matches_from (suc fuel) text the_quote candidate none ≡ some []
  unfolding matches_from
  matches_from_end fuel = refl

  matches_from_hit :
      (fuel i : ℕ) (rest : List A)
      → matches_from fuel text the_quote candidate (index_of text the_quote (i + 1)) ≡ some rest
      → matches_from (suc fuel) text the_quote candidate (some i) ≡ some (candidate i ∷ rest)
  unfolding matches_from
  matches_from_hit fuel i rest h = rw h refl

  matches_from-positions :
      (fuel i : ℕ) (s : Text)
      → drop i text ≡ s
      → i + length s ≡ length text
      → length s < fuel
      → matches_from fuel text the_quote candidate (index_from s the_quote i)
        ≡ some (map candidate (positions the_quote i s))
  unfolding index_from positions starts_with
  matches_from-positions zero i s d e h = absurd (omega arith)
  matches_from-positions (suc fuel) i [] d e h = matches_from_end fuel
  matches_from-positions (suc fuel) i (c ∷ s) d e h =
      let after : drop (suc i) text ≡ s = drop-suc i text d in
      elim (Bool-cases (starts_with the_quote (c ∷ s))) [
        | inl t ↦
            ap (matches_from (suc fuel) text the_quote candidate) (rw t refl)
            ∙ (matches_from_hit fuel i _ (
                  ap (matches_from fuel text the_quote candidate)
                    (index_of_next i s after (omega arith))
                  ∙ matches_from-positions fuel (suc i) s after (omega arith) (omega arith))
                ∙ rw t refl)
        | inr f ↦
            rw f (matches_from-positions (suc fuel) (suc i) s after (omega arith) (omega arith))
      ]

  -- With more fuel than there are characters, the loop ends with every occurrence.
  pub matches-positions :
      (fuel : ℕ)
      → length text < fuel
      → matches fuel text the_quote candidate ≡ some (map candidate (positions the_quote 0 text))
  unfolding index_of
  matches-positions fuel h =
      let low : min 0 (length text) ≡ 0 = omega arith in
      ap (λ k. matches_from fuel text the_quote candidate (index_from text the_quote k)) low
      ∙ matches_from-positions fuel 0 text refl (omega arith) h

-- The places that are listed are those at which the quote stands.
positions-All {ℓ} :
    (P : ℕ → Type ℓ) (quote : Text) (i : ℕ) (s : Text)
    → ((j : ℕ) → j < length s → starts_with quote (drop j s) ≡ true → P (i + j))
    → All P (positions quote i s)
unfolding positions
positions-All P quote i [] h = tt
positions-All P quote i (c ∷ s) h =
    let rest : All P (positions quote (suc i) s) =
      positions-All P quote (suc i) s
        (λ j b t. subst P (omega arith) (h (suc j) (omega arith) t)) in
    elim (Bool-cases (starts_with quote (c ∷ s))) [
      | inl t ↦ rw t (subst P (omega arith) (h 0 (omega arith) t), rest)
      | inr f ↦ rw f rest
    ]

positions-any :
    (p : ℕ → Bool) (quote : Text) (i j : ℕ) (s : Text)
    → j < length s
    → starts_with quote (drop j s) ≡ true
    → p (i + j) ≡ true
    → any p (positions quote i s) ≡ true
unfolding positions
positions-any p quote i j [] b t h = absurd (omega arith)
positions-any p quote i zero (c ∷ s) b t h =
    let here : p i ≡ true = subst (λ k. p k ≡ true) (omega arith) h in rw t (ground (arith, here))
positions-any p quote i (suc j) (c ∷ s) b t h =
    let rest : any p (positions quote (suc i) s) ≡ true =
      positions-any p quote (suc i) j s (omega arith) t (subst (λ k. p k ≡ true) (omega arith) h) in
    elim (Bool-cases (starts_with quote (c ∷ s))) [
      | inl u ↦ rw u (ground (arith, rest))
      | inr f ↦ rw f rest
    ]

map-All {ℓ} :
    {A B : Type 0} (P : B → Type ℓ) (f : A → B) (xs : List A)
    → All (λ a. P (f a)) xs
    → All P (map f xs)
map-All P f [] h = tt
map-All P f (x ∷ xs) h = (h.0, map-All P f xs h.1)

pub any-map :
    {A B : Type 0} (p : B → Bool) (f : A → B) (xs : List A)
    → any p (map f xs) ≡ any (λ a. p (f a)) xs
any-map p f [] = refl
any-map p f (x ∷ xs) = ap (λ (b : Bool). p (f x) || b) (any-map p f xs)

pub any-append :
    {A : Type 0} (p : A → Bool) (xs ys : List A) → any p (xs ++ ys) ≡ any p xs || any p ys
any-append p [] ys = refl
any-append p (x ∷ xs) ys = ground (arith, any-append p xs ys)

module _ (anchor : Anchor) (q : ℕ) (qs : Text) where
  abbrev pub here : ℕ → Block → List (Candidate ℕ)
  here i block = map (exact_candidate anchor (q ∷ qs) i block) (positions (q ∷ qs) 0 block.text)

  -- The candidates at the occurrences in each block, from the block `i` on.
  abbrev pub occurrences : ℕ → List Block → List (Candidate ℕ)
  occurrences i [] = []
  occurrences i (block ∷ blocks) = here i block ++ occurrences (suc i) blocks

  pub exact_from-occurrences :
      (fuel i : ℕ) (blocks : List Block)
      → All (λ b. length b.text < fuel) blocks
      → exact_from fuel anchor (q ∷ qs) i blocks ≡ some (occurrences i blocks)
  unfolding exact_from
  exact_from-occurrences fuel i [] h = refl
  exact_from-occurrences fuel i (block ∷ blocks) h = ground (
    arith,
    matches-positions block.text q qs (exact_candidate anchor (q ∷ qs) i block) fuel h.0,
    exact_from-occurrences fuel (suc i) blocks h.1,
  )

  -- Every candidate is an occurrence.
  pub occurrences-All {ℓ} :
      (P : Candidate ℕ → Type ℓ) (i : ℕ) (blocks : List Block)
      → ((j k : ℕ)
          → j < length blocks
          → k < length (get_or blocks j no_block).text
          → starts_with (q ∷ qs) (drop k (get_or blocks j no_block).text) ≡ true
          → P (exact_candidate anchor (q ∷ qs) (i + j) (get_or blocks j no_block) k))
      → All P (occurrences i blocks)
  occurrences-All P i [] h = tt
  occurrences-All P i (block ∷ blocks) h =
      All-append P (here i block) (occurrences (suc i) blocks)
        (map-All P (exact_candidate anchor (q ∷ qs) i block) (positions (q ∷ qs) 0 block.text) (
          positions-All _ (q ∷ qs) 0 block.text (λ k b t.
            subst (λ n. P (exact_candidate anchor (q ∷ qs) i block n)) (omega arith)
              (subst (λ n. P (exact_candidate anchor (q ∷ qs) n block k)) (omega arith)
                (h 0 k (omega arith) b t)))))
        (occurrences-All P (suc i) blocks (λ j k b c t.
          subst (λ n. P (exact_candidate anchor (q ∷ qs) n (get_or blocks j no_block) k))
            (omega arith) (h (suc j) k (omega arith) c t)))

  -- Every occurrence is a candidate.
  pub occurrences-any :
      (p : Candidate ℕ → Bool) (i j k : ℕ) (blocks : List Block)
      → j < length blocks
      → k < length (get_or blocks j no_block).text
      → starts_with (q ∷ qs) (drop k (get_or blocks j no_block).text) ≡ true
      → p (exact_candidate anchor (q ∷ qs) (i + j) (get_or blocks j no_block) k) ≡ true
      → any p (occurrences i blocks) ≡ true
  occurrences-any p i j k [] b c t h = absurd (omega arith)
  occurrences-any p i zero k (block ∷ blocks) b c t h =
      let found : any p (here i block) ≡ true =
        any-map p (exact_candidate anchor (q ∷ qs) i block) (positions (q ∷ qs) 0 block.text)
        ∙ positions-any _ (q ∷ qs) 0 k block.text c t (
            subst (λ n. p (exact_candidate anchor (q ∷ qs) i block n) ≡ true) (omega arith)
              (subst (λ n. p (exact_candidate anchor (q ∷ qs) n block k) ≡ true) (omega arith)
                h)) in
      any-append p (here i block) (occurrences (suc i) blocks) ∙ ground (arith, found)
  occurrences-any p i (suc j) k (block ∷ blocks) b c t h =
      let found : any p (occurrences (suc i) blocks) ≡ true =
        occurrences-any p (suc i) j k blocks (omega arith) c t (
          subst (λ n. p (exact_candidate anchor (q ∷ qs) n (get_or blocks j no_block) k) ≡ true)
            (omega arith) h) in
      any-append p (here i block) (occurrences (suc i) blocks) ∙ ground (arith, found)
