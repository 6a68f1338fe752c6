-- ===== src/Anchors/Located.antt =====
-- The joined document of packages/schema/src/anchor.ts, and where its offsets stand in the blocks.
use cueloop.Prelude.{
  ℕ, zero, suc, ◌+◌, ◌-◌, ◌≤◌, ◌<◌, min, ◌≡◌, refl, sym, ap, ◌∙◌, true, false, List, [], ◌∷◌, some,
  ◌++◌, append_assoc, append-nil, Text, ◌==◌, nat_eq, leb, ltb, if◌then◌else◌, length,
  length-append, get_or, arith,
}
use cueloop.Anchors.Blocks.{Block, text_at, block_separator}
use cueloop.Anchors.Spans.{join_onto, join_blocks, Edge, last_start, locate_in_blocks}

-- The starts of blocks that are joined from the offset `p` on.
unfoldable pub starts_from : ℕ → List Block → List ℕ
starts_from p [] = []
starts_from p (b ∷ bs) = p ∷ starts_from (p + length b.text + 2) bs

-- What stands behind a document that is not empty.
abbrev pub tail_text : List Block → Text
tail_text [] = []
tail_text (b ∷ bs) = block_separator ++ b.text ++ tail_text bs

join_onto-starts :
    (text : Text) (s : ℕ) (ss : List ℕ) (blocks : List Block)
    → join_onto (record { text = text; starts = s ∷ ss }) blocks ≡ record {
      text = text ++ tail_text blocks;
      starts = (s ∷ ss) ++ starts_from (length text + 2) blocks;
    }
unfolding join_onto starts_from
join_onto-starts text s ss [] = cc (append-nil text, append-nil ss)
join_onto-starts text s ss (b ∷ bs) =
    let opened : length (text ++ block_separator) ≡ length text + 2 =
      length-append text block_separator in
    let grown : length ((text ++ block_separator) ++ b.text) ≡ length text + 2 + length b.text =
      omega (arith, length-append (text ++ block_separator) b.text, opened) in
    let texts : ((text ++ block_separator) ++ b.text) ++ tail_text bs
        ≡ text ++ (block_separator ++ (b.text ++ tail_text bs)) =
      append_assoc (text ++ block_separator) b.text (tail_text bs)
      ∙ append_assoc text block_separator (b.text ++ tail_text bs) in
    join_onto-starts ((text ++ block_separator) ++ b.text) s
      (ss ++ length (text ++ block_separator) ∷ []) bs
    ∙ cc (
      opened,
      grown,
      texts,
      append_assoc ss (length (text ++ block_separator) ∷ [])
          (starts_from (length text + 2 + length b.text + 2) bs),
    )

pub join_blocks-starts :
    (b : Block) (bs : List Block)
    → join_blocks (b ∷ bs)
      ≡ record { text = b.text ++ tail_text bs; starts = starts_from 0 (b ∷ bs) }
unfolding join_blocks join_onto starts_from
join_blocks-starts b bs =
    let first : length b.text + 2 ≡ 0 + length b.text + 2 = omega arith in
    join_onto-starts b.text 0 [] bs
    ∙ ap (λ n. record { text = b.text ++ tail_text bs; starts = 0 ∷ starts_from n bs }) first

-- Starts that come later than an offset are not found.
last_start-later :
    (p : ℕ) (blocks : List Block) (offset i found : ℕ)
    → offset < p
    → last_start (starts_from p blocks) offset i found ≡ found
unfolding last_start starts_from
last_start-later p [] offset i found h = refl
last_start-later p (b ∷ bs) offset i found h =
    ground (arith, last_start-later (p + length b.text + 2) bs offset (suc i) found)

abbrev start_at : ℕ → List Block → ℕ → ℕ
start_at p blocks i = get_or (starts_from p blocks) i 0

start_at-ge : (p : ℕ) (blocks : List Block) (i : ℕ) → i < length blocks → p ≤ start_at p blocks i
unfolding starts_from
start_at-ge p [] i h = absurd (omega arith)
start_at-ge p (b ∷ bs) zero h = omega arith
start_at-ge p (b ∷ bs) (suc i) h =
    omega (arith, start_at-ge (p + length b.text + 2) bs i (omega arith))

-- The block of an offset that is not behind its end.
last_start-at :
    (p : ℕ) (blocks : List Block) (i k j found : ℕ)
    → i < length blocks
    → k ≤ length (text_at blocks i)
    → last_start (starts_from p blocks) (start_at p blocks i + k) j found ≡ j + i
unfolding last_start starts_from
last_start-at p [] i k j found h g = absurd (omega arith)
last_start-at p (b ∷ bs) zero k j found h g =
    let later : last_start (starts_from (p + length b.text + 2) bs) (p + k) (suc j) j ≡ j =
      last_start-later (p + length b.text + 2) bs (p + k) (suc j) j (omega arith) in
    let reached : (if leb p (p + k) then j else found) ≡ j = ground arith in
    ap (last_start (starts_from (p + length b.text + 2) bs) (p + k) (suc j)) reached
    ∙ (later ∙ omega arith)
last_start-at p (b ∷ bs) (suc i) k j found h g =
    let q : ℕ = p + length b.text + 2 in
    last_start-at q bs i k (suc j) (if leb p (start_at q bs i + k) then j else found) (omega arith)
      g
    ∙ omega arith

get_or-append_left : (xs ys : Text) (n : ℕ) → n < length xs → get_or (xs ++ ys) n 0 ≡ get_or xs n 0
get_or-append_left [] ys n h = absurd (omega arith)
get_or-append_left (x ∷ xs) ys zero h = refl
get_or-append_left (x ∷ xs) ys (suc n) h = get_or-append_left xs ys n (omega arith)

get_or-append_right :
    (xs ys : Text) (m n : ℕ) → m ≡ length xs + n → get_or (xs ++ ys) m 0 ≡ get_or ys n 0
get_or-append_right [] ys m n e = ap (λ k. get_or ys k 0) (omega (arith, e))
get_or-append_right (x ∷ xs) ys zero n e = absurd (omega (arith, e))
get_or-append_right (x ∷ xs) ys (suc m) n e = get_or-append_right xs ys m n (omega (arith, e))

-- The character of a block stands in the document at the start of the block and its offset.
char_at :
    (p : ℕ) (front : Text) (b : Block) (bs : List Block) (i k : ℕ)
    → length front ≡ p
    → i < length (b ∷ bs)
    → k < length (text_at (b ∷ bs) i)
    → get_or (front ++ (b.text ++ tail_text bs)) (start_at p (b ∷ bs) i + k) 0
      ≡ get_or (text_at (b ∷ bs) i) k 0
unfolding starts_from
char_at p front b bs zero k e h g =
    get_or-append_right front (b.text ++ tail_text bs) (p + k) k (omega (arith, e))
    ∙ get_or-append_left b.text (tail_text bs) k g
char_at p front b [] (suc i) k e h g = absurd (omega arith)
char_at p front b (c ∷ cs) (suc i) k e h g =
    let moved : length (front ++ (b.text ++ block_separator)) ≡ p + length b.text + 2 = omega (
      arith,
      e,
      length-append front (b.text ++ block_separator),
      length-append b.text block_separator,
    ) in
    let texts : front ++ (b.text ++ (block_separator ++ (c.text ++ tail_text cs)))
        ≡ (front ++ (b.text ++ block_separator)) ++ (c.text ++ tail_text cs) =
      ap (λ (t : Text). front ++ t)
        (sym (append_assoc b.text block_separator (c.text ++ tail_text cs)))
      ∙ sym (append_assoc front (b.text ++ block_separator) (c.text ++ tail_text cs)) in
    ap (λ (t : Text). get_or t (start_at (p + length b.text + 2) (c ∷ cs) i + k) 0) texts
    ∙ char_at (p + length b.text + 2) (front ++ (b.text ++ block_separator)) c cs i k moved
        (omega arith) g

module _ (blocks : List Block) (starts : List ℕ) (i k : ℕ) (in_blocks : i < length blocks)
    (inside : k < length (text_at blocks i)) where
  locate_start :
      last_start starts (get_or starts i 0 + k) 0 0 ≡ i
      → locate_in_blocks blocks starts (get_or starts i 0 + k) Edge.start_edge
        ≡ some (record { block_index = i; offset = k })
  unfolding locate_in_blocks
  locate_start found =
      let before : leb (get_or starts i 0 + length (text_at blocks i)) (get_or starts i 0 + k)
          ≡ false =
        ground arith in
      let offset : min (get_or starts i 0 + k) (get_or starts i 0 + length (text_at blocks i))
            - get_or starts i 0
          ≡ k =
        omega arith in
      let there : ltb i (length blocks) ≡ true = ground arith in
      rw (found, there, before)
        (ap (λ (n : ℕ). some (record { block_index = i; offset = n })) offset)

  locate_end :
      last_start starts (get_or starts i 0 + suc k) 0 0 ≡ i
      → locate_in_blocks blocks starts (get_or starts i 0 + suc k) Edge.end_edge
        ≡ some (record { block_index = i; offset = suc k })
  unfolding locate_in_blocks
  locate_end found =
      let behind : (get_or starts i 0 + suc k == get_or starts i 0) ≡ false = ground arith in
      let offset : min (get_or starts i 0 + suc k) (get_or starts i 0 + length (text_at blocks i))
            - get_or starts i 0
          ≡ suc k =
        omega arith in
      let there : ltb i (length blocks) ≡ true = ground arith in
      rw (found, there, behind)
        (ap (λ (n : ℕ). some (record { block_index = i; offset = n })) offset)

-- The document of blocks holds the character `k` of the block `i` at its offset behind the start of
-- the block; a range that opens in front of it is located at `k` in the block `i`, and one that
-- closes behind it at `k + 1`.
pub locate_in_blocks-join_blocks :
    (blocks : List Block) (i k : ℕ)
    → i < length blocks
    → k < length (text_at blocks i)
    → (get_or (join_blocks blocks).text (get_or (join_blocks blocks).starts i 0 + k) 0
        ≡ get_or (text_at blocks i) k 0)
      × (locate_in_blocks blocks
            (join_blocks blocks).starts
            (get_or (join_blocks blocks).starts i 0 + k)
            Edge.start_edge
          ≡ some (record { block_index = i; offset = k }))
      × (locate_in_blocks blocks
            (join_blocks blocks).starts
            (get_or (join_blocks blocks).starts i 0 + suc k)
            Edge.end_edge
          ≡ some (record { block_index = i; offset = suc k }))
locate_in_blocks-join_blocks [] i k h g = absurd (omega arith)
locate_in_blocks-join_blocks (b ∷ bs) i k h g =
    rw (join_blocks-starts b bs) (char_at 0 [] b bs i k refl h g, opening, closing)
  where
    opening :
        locate_in_blocks
          (b ∷ bs)
          (starts_from 0 (b ∷ bs))
          (start_at 0 (b ∷ bs) i + k)
          Edge.start_edge
        ≡ some (record { block_index = i; offset = k })
    opening =
        locate_start (b ∷ bs) (starts_from 0 (b ∷ bs)) i k h g
          (last_start-at 0 (b ∷ bs) i k 0 0 h (omega arith) ∙ omega arith)

    closing :
        locate_in_blocks
          (b ∷ bs)
          (starts_from 0 (b ∷ bs))
          (start_at 0 (b ∷ bs) i + suc k)
          Edge.end_edge
        ≡ some (record { block_index = i; offset = suc k })
    closing =
        locate_end (b ∷ bs) (starts_from 0 (b ∷ bs)) i k h g
          (last_start-at 0 (b ∷ bs) i (suc k) 0 0 h (omega arith) ∙ omega arith)
