-- ===== src/WorkingCopy/Merge.antt =====
-- `mergeTextCut` and `restoreTextCut` keep cuts normal, and cut, or give back, the range they are
-- given (packages/schema/src/working-copy.ts).
use cueloop.Prelude.{
  ℕ, suc, ◌≤◌, ◌<◌, min, max, ◌≡◌, ◌↔◌, refl, subst, ◌∙◌, Bool, true, ◌&&◌, ◌||◌, not, List, [],
  ◌∷◌, ◌++◌, map, none, some, Text, ◌==◌, nat_eq, if◌then◌else◌, length, ltb, leb, any, Bool-cases,
  Option-cases, inl, inr, arith,
}
use cueloop.Types.{TextCut}
use cueloop.WorkingCopy.Cuts.{
  Range, with_quote, merge_text_cut, restore_in, restore_text_cut, apply_text_cuts,
}
use cueloop.WorkingCopy.Ranges.{covers, Apart, joined-Apart, joined-covers}
use cueloop.WorkingCopy.Outside.{outside, outside_same}
use cueloop.WorkingCopy.Apply.{IsNormal, IsNormal-le, is_cut, not_cut_below, apply_text_cuts_lem}

abbrev pub is_in : ℕ → ℕ → ℕ → Bool
is_in start end k = leb start k && ltb k end

quoted-IsNormal :
    (source : Text) (low : ℕ) (rs : List Range)
    → Apart (length source) low rs
    → IsNormal source low (map (with_quote source) rs)
quoted-IsNormal source low [] a = tt
quoted-IsNormal source low (r ∷ rs) a =
    (a.0, a.1, a.2, refl, quoted-IsNormal source (suc r.end) rs a.3)

quoted_is_cut :
    (source : Text) (rs : List Range) (k : ℕ)
    → is_cut (map (with_quote source) rs) k ≡ any (covers k) rs
quoted_is_cut source [] k = refl
quoted_is_cut source (r ∷ rs) k = ground (arith, quoted_is_cut source rs k)

merged-IsNormal :
    (source : Text) (cuts : List TextCut) (start end : ℕ)
    → IsNormal source 0 cuts
    → IsNormal source 0 (merge_text_cut source cuts start end)
unfolding merge_text_cut
merged-IsNormal source cuts start end v =
    let s = min start (length source) in
    let e = max s (min end (length source)) in
    elim (Bool-cases (e == s)) [
      | inl t ↦ rw t v
      | inr f ↦
          rw f
            (quoted-IsNormal source 0 _ (joined-Apart source cuts (record { start = s; end = e })))
    ]

merged_is_cut :
    (source : Text) (cuts : List TextCut) (start end k : ℕ)
    → k < length source
    → is_cut (merge_text_cut source cuts start end) k ≡ is_cut cuts k || is_in start end k
unfolding merge_text_cut
merged_is_cut source cuts start end k h =
    let s = min start (length source) in
    let e = max s (min end (length source)) in
    elim (Bool-cases (e == s)) [
      | inl t ↦ rw t (ground arith)
      | inr f ↦ rw f (
          quoted_is_cut source _ k
          ∙ (joined-covers source cuts (record { start = s; end = e }) k h ∙ ground arith))
    ]

-- On normal cuts `mergeTextCut` gives normal cuts, and to apply them leaves exactly the
-- characters that are in no earlier cut and not in the new range.
pub merge_text_cut_lem :
    (source : Text) (cuts : List TextCut) (start end : ℕ)
    → IsNormal source 0 cuts
    → IsNormal source 0 (merge_text_cut source cuts start end)
      × (apply_text_cuts source (merge_text_cut source cuts start end)
          ≡ outside (λ k. is_cut cuts k || is_in start end k) 0 source)
merge_text_cut_lem source cuts start end v =
    let v' = merged-IsNormal source cuts start end v in
    (
      v',
      apply_text_cuts_lem source (merge_text_cut source cuts start end) v'
          ∙ outside_same _ _ 0 source
              (λ j a b. merged_is_cut source cuts start end j (omega arith)),
    )

-- What stands in place of the cut that held the range.
abbrev remains : Text → TextCut → ℕ → ℕ → List TextCut → List TextCut
remains source cut start end cuts =
    (if ltb cut.start start
      then with_quote source (record { start = cut.start; end = start }) ∷ []
      else [])
    ++ (if ltb end cut.end
        then with_quote source (record { start = end; end = cut.end }) ∷ []
        else [])
    ++ cuts

abbrev Restored : Text → ℕ → List TextCut → ℕ → ℕ → List TextCut → Type 0
Restored source low cuts start end r =
    (low ≤ start)
    × IsNormal source low r
    × ((k : ℕ) → is_cut r k ≡ is_cut cuts k && not (is_in start end k))

remains-Restored :
    (source : Text) (low : ℕ) (cut : TextCut) (start end : ℕ) (cuts : List TextCut)
    → cut.start ≤ start
    → end ≤ cut.end
    → start < end
    → IsNormal source low (cut ∷ cuts)
    → Restored source low (cut ∷ cuts) start end (remains source cut start end cuts)
remains-Restored source low cut start end cuts h k l (a, b, c, q, v) =
    elim (Bool-cases (ltb cut.start start)) [
      | inl t ↦ elim (Bool-cases (ltb end cut.end)) [
        | inl u ↦
            rw (t, u)
              (
                omega arith,
                (a, ground arith, omega arith, refl, (omega arith, ground arith, c, refl, v)),
                λ j. ground (arith, not_cut_below source (suc cut.end) cuts j v),
              )
        | inr u ↦
            rw (t, u)
              (
                omega arith,
                (
                  a,
                  ground arith,
                  omega arith,
                  refl,
                  IsNormal-le source (suc cut.end) (suc start) cuts (omega arith) v,
                ),
                λ j. ground (arith, not_cut_below source (suc cut.end) cuts j v),
              )
      ]
      | inr t ↦ elim (Bool-cases (ltb end cut.end)) [
        | inl u ↦
            rw (t, u)
              (
                omega arith,
                (omega arith, ground arith, c, refl, v),
                λ j. ground (arith, not_cut_below source (suc cut.end) cuts j v),
              )
        | inr u ↦
            rw (t, u)
              (
                omega arith,
                IsNormal-le source (suc cut.end) low cuts (omega arith) v,
                λ j. ground (arith, not_cut_below source (suc cut.end) cuts j v),
              )
      ]
    ]

restore_in-Restored :
    (source : Text) (low start end : ℕ) (cuts : List TextCut) {r : List TextCut}
    → start < end
    → IsNormal source low cuts
    → restore_in source start end cuts ≡ some r
    → Restored source low cuts start end r
unfolding restore_in
restore_in-Restored source low start end [] l v q = absurd (ground arith)
restore_in-Restored source low start end (cut ∷ cuts) {r} l v q =
    elim (Bool-cases (leb cut.start start && leb end cut.end)) [
      | inl t ↦
          let same : remains source cut start end cuts ≡ r = ground arith in
          subst (Restored source low (cut ∷ cuts) start end) same
            (remains-Restored source low cut start end cuts (ground arith) (ground arith) l v)
      | inr f ↦ elim (Option-cases (restore_in source start end cuts)) [
        | inl n ↦ absurd (ground arith)
        | inr (r', e) ↦
            let (from, v', c) = restore_in-Restored source (suc cut.end) start end cuts l v.4 e in
            let same : cut ∷ r' ≡ r = ground arith in
            subst (Restored source low (cut ∷ cuts) start end) same
              (omega (arith, v.0, v.1), (v.0, v.1, v.2, v.3, v'), λ k. ground (arith, c k, from))
      ]
    ]

-- Where `restoreTextCut` gives cuts, from normal ones they are normal, and to apply them leaves
-- exactly the characters that are in no earlier cut or in the range that is given back.
pub restore_text_cut_lem :
    (source : Text) (cuts r : List TextCut) (start end : ℕ)
    → IsNormal source 0 cuts
    → restore_text_cut source cuts start end ≡ some r
    → IsNormal source 0 r
      × (apply_text_cuts source r
          ≡ outside (λ k. is_cut cuts k && not (is_in start end k)) 0 source)
unfolding restore_text_cut
restore_text_cut_lem source cuts r start end v q = elim (Bool-cases (leb end start)) [
  | inl t ↦ absurd (ground arith)
  | inr f ↦
      let (_, v', c) =
        restore_in-Restored source 0 start end cuts {r = r} (ground arith) v (rw f at q) in
      (v', apply_text_cuts_lem source r v' ∙ outside_same _ _ 0 source (λ j a b. c j))
]

-- `restoreTextCut` gives null exactly when the range is empty or no single cut holds it.
pub restore_text_cut-eq-none_iff :
    (source : Text) (cuts : List TextCut) (start end : ℕ)
    → (restore_text_cut source cuts start end ≡ none)
      ↔ ((leb end start || not (any (λ c. leb c.start start && leb end c.end) cuts)) ≡ true)
unfolding restore_text_cut restore_in
restore_text_cut-eq-none_iff source cuts start end = go cuts
  where
    go :
        (cuts : List TextCut)
        → ((if leb end start then none else restore_in source start end cuts) ≡ none)
          ↔ ((leb end start || not (any (λ c. leb c.start start && leb end c.end) cuts)) ≡ true)
    go [] = ground arith
    go (cut ∷ cuts) = ground (arith, go cuts)
