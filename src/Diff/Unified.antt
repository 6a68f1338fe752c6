-- ===== src/Diff/Unified.antt =====
-- `unifiedDiff`, `unifiedDiffText` and `editStats` of packages/schema/src/diff.ts.
use cueloop.Prelude.{
  ℕ, zero, suc, ◌+◌, ◌-◌, min, Bool, true, false, not, List, [], ◌∷◌, ◌++◌, map, Option, none, some,
  Text, ◌==◌, text_eq, if◌then◌else◌, length, filter, any, set, replicate, split_lines, join_lines,
  decimal,
}
use cueloop.Diff.Lcs.{DiffOp, lcs_diff}

pub data LineKind : Type 0 where
  ctx del add hunk : LineKind

pub record UnifiedLine : Type 0 where
  pub kind : LineKind
  pub text : Text

-- A numbered operation; `none` is null.
pub record Row : Type 0 where
  pub kind : LineKind
  pub text : Text
  pub old_line : Option ℕ
  pub new_line : Option ℕ

-- `op.kind !== "ctx"`
abbrev pub is_edit {ℓ} : {A : Type ℓ} → DiffOp A → Bool
is_edit (DiffOp.ctx _ _) = false
is_edit (DiffOp.del _) = true
is_edit (DiffOp.add _) = true

-- The loop that numbers the lines; both counters start at 1.
unfoldable pub number_rows : ℕ → ℕ → List (DiffOp Text) → List Row
number_rows old new [] = []
number_rows old new (DiffOp.ctx a b ∷ ops) =
    record { kind = LineKind.ctx; text = a; old_line = some old; new_line = some new }
    ∷ number_rows (old + 1) (new + 1) ops
number_rows old new (DiffOp.del a ∷ ops) =
    record { kind = LineKind.del; text = a; old_line = some old; new_line = none }
    ∷ number_rows (old + 1) new ops
number_rows old new (DiffOp.add b ∷ ops) =
    record { kind = LineKind.add; text = b; old_line = none; new_line = some new }
    ∷ number_rows old (new + 1) ops

abbrev pub is_ctx : LineKind → Bool
is_ctx LineKind.ctx = true
is_ctx LineKind.del = false
is_ctx LineKind.add = false
is_ctx LineKind.hunk = false

abbrev pub is_add : LineKind → Bool
is_add LineKind.add = true
is_add LineKind.ctx = false
is_add LineKind.del = false
is_add LineKind.hunk = false

abbrev pub is_del : LineKind → Bool
is_del LineKind.del = true
is_del LineKind.ctx = false
is_del LineKind.add = false
is_del LineKind.hunk = false

-- `keep[i] = true` for `n` indices from `i` on.
unfoldable pub mark : List Bool → ℕ → ℕ → List Bool
mark keep i zero = keep
mark keep i (suc n) = mark (set keep i true) (suc i) n

-- Around each changed row, `context` rows are kept on both sides, within the `total` rows.
unfoldable pub mark_rows : ℕ → ℕ → List Row → ℕ → List Bool → List Bool
mark_rows context total [] i keep = keep
mark_rows context total (r ∷ rs) i keep = mark_rows context total rs (suc i) (
    if is_ctx r.kind
    then keep
    else mark keep (i - context) (suc (min (total - 1) (i + context)) - (i - context)))

abbrev pub close : Option (List Row) → List (List Row)
close none = []
close (some rows) = rows ∷ []

-- The runs of kept rows; `open` is the hunk that the next row joins.
unfoldable pub group : List Row → List Bool → Option (List Row) → List (List Row)
group [] keep current = close current
group (r ∷ rs) [] current = close current
group (r ∷ rs) (false ∷ keep) current = close current ++ group rs keep none
group (r ∷ rs) (true ∷ keep) current =
    group rs keep (some (elim current [ none ↦ r ∷ [] | some rows ↦ rows ++ r ∷ [] ]))

abbrev pub first_line : (Row → Option ℕ) → List Row → ℕ
first_line line [] = 1
first_line line (r ∷ rs) = elim (line r) [ some n ↦ n | none ↦ first_line line rs ]

-- `@@ -${oldStart},${oldCount} +${newStart},${newCount} @@`
unfoldable pub hunk_header : List Row → UnifiedLine
hunk_header rows = record {
  kind = LineKind.hunk;
  text =
      b'@' ∷ b'@' ∷ b' ' ∷ b'-' ∷ decimal (first_line (λ r. r.old_line) rows)
      ++ b',' ∷ decimal (length (filter (λ r. not (is_add r.kind)) rows))
      ++ b' ' ∷ b'+' ∷ decimal (first_line (λ r. r.new_line) rows)
      ++ b',' ∷ decimal (length (filter (λ r. not (is_del r.kind)) rows))
      ++ b' ' ∷ b'@' ∷ b'@' ∷ [];
}

abbrev pub sign : LineKind → ℕ
sign LineKind.add = b'+'
sign LineKind.del = b'-'
sign LineKind.ctx = b' '
sign LineKind.hunk = b' '

unfoldable pub row_line : Row → UnifiedLine
row_line r = record { kind = r.kind; text = sign r.kind ∷ r.text }

unfoldable pub hunk_lines : List (List Row) → List UnifiedLine
hunk_lines [] = []
hunk_lines (h ∷ hs) = hunk_header h ∷ map row_line h ++ hunk_lines hs

unfoldable pub line_ops : Text → Text → List (DiffOp Text)
line_ops old new = lcs_diff (λ a b. a == b) (split_lines old) (split_lines new)

-- The lines of the operations, once they are known to hold an edit.
unfoldable pub unified_lines : ℕ → List (DiffOp Text) → List UnifiedLine
unified_lines context ops =
    let rows = number_rows 1 1 ops in
    let total = length rows in
    hunk_lines (group rows (mark_rows context total rows 0 (replicate total false)) none)

unfoldable pub unified_diff : Text → Text → ℕ → Option (List UnifiedLine)
unified_diff old new context =
    let ops = line_ops old new in if any is_edit ops then some (unified_lines context ops) else none

-- The file headers, each with its path.
unfoldable pub unified_diff_text : Text → Text → Text → ℕ → Option Text
unified_diff_text old new path context = elim (unified_diff old new context) [
  | none ↦ none
  | some lines ↦ some (
      join_lines (
        (b'-' ∷ b'-' ∷ b'-' ∷ b' ' ∷ b'a' ∷ b'/' ∷ path)
        ∷ (b'+' ∷ b'+' ∷ b'+' ∷ b' ' ∷ b'b' ∷ b'/' ∷ path)
        ∷ map (λ l. l.text) lines))
]

pub record EditStats : Type 0 where
  pub added : ℕ
  pub removed : ℕ

unfoldable pub edit_stats : Text → Text → EditStats
edit_stats old new = elim (unified_diff old new 0) [
  | none ↦ record { added = 0; removed = 0 }
  | some lines ↦ record {
    added = length (filter (λ l. is_add l.kind) lines);
    removed = length (filter (λ l. is_del l.kind) lines);
  }
]
