-- ===== src/Diff/Marks.antt =====
-- The rows that `unifiedDiff` keeps: every changed row is among them.
use cueloop.Prelude.{
  ℕ, zero, suc, ◌+◌, ◌-◌, ◌<◌, min, ◌≡◌, refl, sym, subst, ◌∙◌, ap, Bool, true, false, List, [],
  ◌∷◌, ◌++◌, Option, none, some, arith, if◌then◌else◌, length, filter, set, get_or, replicate,
  Bool-cases, inl, inr, map,
}
use cueloop.Diff.Unified.{
  LineKind, Row, is_ctx, mark, mark_rows, close, group, hunk_header, row_line, hunk_lines,
  UnifiedLine,
}

length-set : (l : List Bool) (i : ℕ) → length (set l i true) ≡ length l
length-set [] i = refl
length-set (b ∷ l) zero = refl
length-set (b ∷ l) (suc i) = ap suc (length-set l i)

set_keeps :
    (l : List Bool) (i k : ℕ) → get_or l k false ≡ true → get_or (set l i true) k false ≡ true
set_keeps [] i k h = h
set_keeps (b ∷ l) zero zero h = refl
set_keeps (b ∷ l) zero (suc k) h = h
set_keeps (b ∷ l) (suc i) zero h = h
set_keeps (b ∷ l) (suc i) (suc k) h = set_keeps l i k h

set_hits : (l : List Bool) (i : ℕ) → i < length l → get_or (set l i true) i false ≡ true
set_hits [] i h = absurd (omega arith)
set_hits (b ∷ l) zero h = refl
set_hits (b ∷ l) (suc i) h = set_hits l i (omega arith)

length-mark : (l : List Bool) (i n : ℕ) → length (mark l i n) ≡ length l
unfolding mark
length-mark l i zero = refl
length-mark l i (suc n) = length-mark (set l i true) (suc i) n ∙ length-set l i

mark_keeps :
    (l : List Bool) (i n k : ℕ) → get_or l k false ≡ true → get_or (mark l i n) k false ≡ true
unfolding mark
mark_keeps l i zero k h = h
mark_keeps l i (suc n) k h = mark_keeps (set l i true) (suc i) n k (set_keeps l i k h)

mark_hits :
    (l : List Bool) (i n d : ℕ)
    → d < n
    → i + d < length l
    → get_or (mark l i n) (i + d) false ≡ true
unfolding mark
mark_hits l i zero d h k = absurd (omega arith)
mark_hits l i (suc n) zero h k =
    let e : i + 0 ≡ i = omega arith in
    mark_keeps (set l i true) (suc i) n (i + 0) (rw e (set_hits l i (omega arith)))
mark_hits l i (suc n) (suc d) h k =
    let e : i + suc d ≡ suc i + d = omega arith in
    rw e (mark_hits (set l i true) (suc i) n d (omega arith) (omega (arith, length-set l i)))

step_keeps :
    (context total i k : ℕ) (r : Row) (keep : List Bool)
    → get_or keep k false ≡ true
    → get_or
        (if is_ctx r.kind
          then keep
          else mark keep (i - context) (suc (min (total - 1) (i + context)) - (i - context)))
        k
        false
      ≡ true
step_keeps context total i k r keep h = elim (Bool-cases (is_ctx r.kind)) [
  | inl c ↦ rw c h
  | inr n ↦ rw n (mark_keeps keep _ _ k h)
]

mark_rows_keeps :
    (context total : ℕ) (rs : List Row) (i k : ℕ) (keep : List Bool)
    → get_or keep k false ≡ true
    → get_or (mark_rows context total rs i keep) k false ≡ true
unfolding mark_rows
mark_rows_keeps context total [] i k keep h = h
mark_rows_keeps context total (r ∷ rs) i k keep h =
    mark_rows_keeps context total rs (suc i) k _ (step_keeps context total i k r keep h)

window_hits :
    (context total i : ℕ) (keep : List Bool)
    → length keep ≡ total
    → i < total
    → get_or (mark keep (i - context) (suc (min (total - 1) (i + context)) - (i - context))) i false
      ≡ true
window_hits context total i keep h k =
    let e : i ≡ (i - context) + (i - (i - context)) = omega arith in
    subst
      (λ (j : ℕ).
        get_or (mark keep (i - context) (suc (min (total - 1) (i + context)) - (i - context))) j
          false
        ≡ true)
      (sym e) (mark_hits keep (i - context) _ (i - (i - context)) (omega arith) (omega arith))

-- Every changed row has its mark.
abbrev pub Marked : List Row → List Bool → ℕ → Type 0
Marked [] keep i = Unit
Marked (r ∷ rs) keep i =
    (is_ctx r.kind ≡ false → get_or keep i false ≡ true) × Marked rs keep (suc i)

mark_rows-Marked :
    (context total : ℕ) (rs : List Row) (i : ℕ) (keep : List Bool)
    → length keep ≡ total
    → i + length rs ≡ total
    → Marked rs (mark_rows context total rs i keep) i
unfolding mark_rows
mark_rows-Marked context total [] i keep h k = tt
mark_rows-Marked context total (r ∷ rs) i keep h k = (
  (λ c.
      mark_rows_keeps context total rs (suc i) i _
        (rw c (window_hits context total i keep h (omega arith)))),
  mark_rows-Marked context total rs (suc i) _
      (ground (
        arith,
        h,
        length-mark keep (i - context) (suc (min (total - 1) (i + context)) - (i - context)),
      ))
      (omega arith),
)

Marked-tail :
    (rs : List Row) (b : Bool) (keep : List Bool) (i : ℕ)
    → Marked rs (b ∷ keep) (suc i)
    → Marked rs keep i
Marked-tail [] b keep i h = tt
Marked-tail (r ∷ rs) b keep i h = (h.0, Marked-tail rs b keep (suc i) h.1)

pub marked :
    (context : ℕ) (rs : List Row)
    → Marked rs (mark_rows context (length rs) rs 0 (replicate (length rs) false)) 0
marked context rs =
    mark_rows-Marked context (length rs) rs 0 _ (length-replicate (length rs)) (omega arith)
  where
    length-replicate : (n : ℕ) → length (replicate n false) ≡ n
    length-replicate zero = refl
    length-replicate (suc n) = ap suc (length-replicate n)

-- A kind of line that is neither context nor a header.
module _ (is_kind : LineKind → Bool) (edits : is_kind LineKind.ctx ≡ false)
    (no_header : is_kind LineKind.hunk ≡ false) where
  abbrev pub count_rows : List Row → ℕ
  count_rows rs = length (filter (λ r. is_kind r.kind) rs)

  abbrev pub count_lines : List UnifiedLine → ℕ
  count_lines ls = length (filter (λ l. is_kind l.kind) ls)

  abbrev count_hunks : List (List Row) → ℕ
  count_hunks [] = 0
  count_hunks (h ∷ hs) = count_rows h + count_hunks hs

  ctx_only : (k : LineKind) → is_ctx k ≡ true → is_kind k ≡ false
  ctx_only LineKind.ctx h = edits
  ctx_only LineKind.del h = cc
  ctx_only LineKind.add h = cc
  ctx_only LineKind.hunk h = cc

  unmarked : (k : LineKind) → (is_ctx k ≡ false → false ≡ true) → is_kind k ≡ false
  unmarked k h = elim (Bool-cases (is_ctx k)) [ inl c ↦ ctx_only k c | inr n ↦ cc (h n) ]

  count_unmarked : (rs : List Row) (i : ℕ) → Marked rs [] i → count_rows rs ≡ 0
  count_unmarked [] i h = refl
  count_unmarked (r ∷ rs) i h = ground (arith, unmarked r.kind h.0, count_unmarked rs (suc i) h.1)

  count-append : (xs ys : List Row) → count_rows (xs ++ ys) ≡ count_rows xs + count_rows ys
  count-append [] ys = omega arith
  count-append (x ∷ xs) ys = ground (arith, count-append xs ys)

  count-close :
      (o : Option (List Row)) (hs : List (List Row))
      → count_hunks (close o ++ hs) ≡ count_hunks (close o) + count_hunks hs
  count-close none hs = omega arith
  count-close (some rows) hs = omega arith

  -- The hunks hold every row of the kind.
  count-group :
      (rs : List Row) (keep : List Bool) (o : Option (List Row))
      → Marked rs keep 0
      → count_hunks (group rs keep o) ≡ count_hunks (close o) + count_rows rs
  unfolding group
  count-group [] keep o h = omega arith
  count-group (r ∷ rs) [] o h = omega (arith, count_unmarked (r ∷ rs) 0 h)
  count-group (r ∷ rs) (false ∷ keep) o h =
      let skip : is_kind r.kind ≡ false = unmarked r.kind h.0 in
      count-close o (group rs keep none)
      ∙ ground (arith, count-group rs keep none (Marked-tail rs false keep 0 h.1))
  count-group (r ∷ rs) (true ∷ keep) none h =
      count-group rs keep (some (r ∷ [])) (Marked-tail rs true keep 0 h.1) ∙ ground arith
  count-group (r ∷ rs) (true ∷ keep) (some rows) h =
      count-group rs keep (some (rows ++ r ∷ [])) (Marked-tail rs true keep 0 h.1)
      ∙ ground (arith, count-append rows (r ∷ []))

  count-map : (rs : List Row) → count_lines (map row_line rs) ≡ count_rows rs
  unfolding row_line
  count-map [] = refl
  count-map (r ∷ rs) = ground (arith, count-map rs)

  count_lines-append :
      (xs ys : List UnifiedLine) → count_lines (xs ++ ys) ≡ count_lines xs + count_lines ys
  count_lines-append [] ys = omega arith
  count_lines-append (x ∷ xs) ys = ground (arith, count_lines-append xs ys)

  count-hunk_lines : (hs : List (List Row)) → count_lines (hunk_lines hs) ≡ count_hunks hs
  unfolding hunk_lines hunk_header
  count-hunk_lines [] = refl
  count-hunk_lines (h ∷ hs) = rw no_header (
      count_lines-append (map row_line h) (hunk_lines hs)
      ∙ omega (arith, count-map h, count-hunk_lines hs))

  -- The output has as many lines of the kind as the operations have rows of it.
  pub count-unified :
      (context : ℕ) (rs : List Row)
      → count_lines (
          hunk_lines
            (group rs (mark_rows context (length rs) rs 0 (replicate (length rs) false)) none))
        ≡ count_rows rs
  count-unified context rs =
      count-hunk_lines _ ∙ (count-group rs _ none (marked context rs) ∙ omega arith)
