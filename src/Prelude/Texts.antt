-- ===== src/Prelude/Texts.antt =====
-- Texts of UTF-16 code units: lines, and numbers in decimal.
use Prim.Native.Nat.{ℕ, zero, suc, ◌+◌, ◌/◌, ◌%◌}
use mathlib.Core.Path.{◌≡◌, refl, sym, ◌∙◌, ap}
use mathlib.Core.Logic.{inl, inr}
use mathlib.Core.List.{List, [], ◌∷◌, ◌++◌}
use native.Mathlib.Omega.{arith}
use cueloop.Prelude.Tests.{Text, if◌then◌else◌, ◌==◌, nat_eq, Bool-cases, ltb}

abbrev pub newline : ℕ
newline = 10

push : ℕ → List Text → List Text
push c [] = (c ∷ []) ∷ []
push c (l ∷ ls) = (c ∷ l) ∷ ls

-- `text.split("\n")`
unfoldable pub split_lines : Text → List Text
unfolding push
split_lines [] = [] ∷ []
split_lines (c ∷ s) = let rest = split_lines s in if c == newline then [] ∷ rest else push c rest

-- `lines.join("\n")`
unfoldable pub join_lines : List Text → Text
join_lines [] = []
join_lines (l ∷ []) = l
join_lines (l ∷ m ∷ ms) = l ++ newline ∷ join_lines (m ∷ ms)

split_lines_cons : (s : Text) → (l : Text) × (ls : List Text) × (split_lines s ≡ l ∷ ls)
unfolding split_lines
split_lines_cons [] = ([], [], refl)
split_lines_cons (c ∷ s) = elim (Bool-cases (c == newline)) [
  | inl n ↦ ([], split_lines s, rw n)
  | inr o ↦ let (l, ls, e) = split_lines_cons s in (c ∷ l, ls, rw (o, e))
]

join_cons :
    (c : ℕ) (l : Text) (ls : List Text) → join_lines ((c ∷ l) ∷ ls) ≡ c ∷ join_lines (l ∷ ls)
unfolding join_lines
join_cons c l [] = refl
join_cons c l (m ∷ ms) = refl

pub join_lines-split_lines : (s : Text) → join_lines (split_lines s) ≡ s
unfolding join_lines split_lines
join_lines-split_lines [] = refl
join_lines-split_lines (c ∷ s) =
    let (l, ls, e) = split_lines_cons s in
    elim (Bool-cases (c == newline)) [
      | inl n ↦ ground (arith, join_lines-split_lines s)
      | inr o ↦ ground (arith, join_lines-split_lines s, join_cons c l ls)
    ]

pub split_lines-injective : (s t : Text) → split_lines s ≡ split_lines t → s ≡ t
split_lines-injective s t e =
    sym (join_lines-split_lines s) ∙ (ap join_lines e ∙ join_lines-split_lines t)

digits_onto : ℕ → ℕ → Text → Text
digits_onto zero n acc = acc
digits_onto (suc fuel) n acc =
    let rest = digits_onto fuel (n / 10) ((b'0' + n % 10) ∷ acc) in
    if ltb n 10 then (b'0' + n) ∷ acc else rest

-- `${n}`: each round drops a digit, so `n + 1` rounds are enough.
unfoldable pub decimal : ℕ → Text
unfolding digits_onto
decimal n = digits_onto (suc n) n []
