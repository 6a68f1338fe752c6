-- ===== src/Anchors/Blocks.antt =====
-- Blocks and the anchors made on them: packages/schema/src/anchor.ts, and the leading markers of
-- packages/schema/src/markdown.ts.
use cueloop.Prelude.{
  ℕ, suc, ◌+◌, ◌-◌, Bool, true, false, ◌&&◌, List, [], ◌∷◌, ◌++◌, Option, none, some, String, Text,
  ◌==◌, nat_eq, leb, if◌then◌else◌, drop, length, get_or,
}
use cueloop.Types.{Anchor}
use cueloop.Anchors.Fuzzy.{slice}

pub data BlockKind : Type 0 where
  h1 h2 h3 p li oli quote code hr table frontmatter : BlockKind

pub record Block : Type 0 where
  pub kind : BlockKind
  pub text : Text
  pub lang : Option String
  pub line_start : ℕ
  pub line_end : ℕ

abbrev pub no_block : Block
no_block = record { kind = BlockKind.p; text = []; lang = none; line_start = 0; line_end = 0 }

abbrev pub text_at : List Block → ℕ → Text
text_at blocks i = (get_or blocks i no_block).text

abbrev pub anchor_context_chars : ℕ
anchor_context_chars = 24

abbrev pub block_separator : Text
block_separator = 10 ∷ 10 ∷ []

-- `text.startsWith(prefix)`
unfoldable pub starts_with : Text → Text → Bool
starts_with [] s = true
starts_with (c ∷ q) [] = false
starts_with (c ∷ q) (d ∷ s) = c == d && starts_with q s

-- What stands behind a prefix.
abbrev pub behind : Text → Text → Option Text
behind prefix line = if starts_with prefix line then some (drop (length prefix) line) else none

abbrev pub is_digit : ℕ → Bool
is_digit c = leb b'0' c && leb c b'9'

-- What stands behind the digits and `. ` of an ordered item; `\d+` takes all digits.
unfoldable pub behind_digits : Text → Option Text
unfolding starts_with
behind_digits [] = none
behind_digits (c ∷ s) =
    let rest = behind_digits s in if is_digit c then rest else behind (b'.' ∷ b' ' ∷ []) (c ∷ s)

abbrev pub behind_ordered : Text → Option Text
behind_ordered [] = none
behind_ordered (c ∷ s) = if is_digit c then behind_digits s else none

abbrev pub first_of : List (Option Text) → Text → Text
first_of [] line = line
first_of (none ∷ os) line = first_of os line
first_of (some s ∷ os) line = s

-- The alternatives of `LEADING_BLOCK_MARKER`, of which at most one matches.
unfoldable pub strip_leading_block_marker : Text → Text
unfolding starts_with behind_digits
strip_leading_block_marker line =
    first_of
      (behind (b'#' ∷ b' ' ∷ []) line
        ∷ behind (b'#' ∷ b'#' ∷ b' ' ∷ []) line
        ∷ behind (b'#' ∷ b'#' ∷ b'#' ∷ b' ' ∷ []) line
        ∷ behind (b'-' ∷ b' ' ∷ []) line
        ∷ behind_ordered line
        ∷ behind (b'>' ∷ b' ' ∷ []) line
        ∷ [])
      line

-- `parts.join(BLOCK_SEPARATOR)`
unfoldable pub join_texts : List Text → Text
join_texts [] = []
join_texts (t ∷ []) = t
join_texts (t ∷ u ∷ us) = t ++ block_separator ++ join_texts (u ∷ us)

-- The quoted parts of `count` blocks, from the one at `offset` on.
unfoldable pub quoted_parts : ℕ → ℕ → ℕ → ℕ → List Block → List Text
quoted_parts start end count offset [] = []
quoted_parts start end count offset (block ∷ blocks) =
    slice block.text (if offset == 0 then start else 0)
      (if offset + 1 == count then end else length block.text)
    ∷ quoted_parts start end count (suc offset) blocks

abbrev pub prefix_of : Text → ℕ → Text
prefix_of text start = slice text (start - anchor_context_chars) start

abbrev pub suffix_of : Text → ℕ → Text
suffix_of text end = slice text end (end + anchor_context_chars)

unfoldable pub make_anchor : List Block → ℕ → ℕ → ℕ → ℕ → Anchor
unfolding join_texts quoted_parts
make_anchor blocks block_index start end end_block_index =
    let spanned : List Block = slice blocks block_index (end_block_index + 1) in
    record {
      quote = join_texts (quoted_parts start end (length spanned) 0 spanned);
      prefix = prefix_of (text_at blocks block_index) start;
      suffix = suffix_of (text_at blocks end_block_index) end;
      block_index = some block_index;
      end_block_index = if end_block_index == block_index then none else some end_block_index;
      start = some start;
      end = some end;
      selector = none;
    }
