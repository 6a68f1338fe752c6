-- ===== src/WorkingCopy/Apply.antt =====
-- What `applyTextCuts` leaves of a text (packages/schema/src/working-copy.ts).
use cueloop.Prelude.{
  ℕ, suc, ◌+◌, ◌-◌, ◌≤◌, ◌<◌, ◌≡◌, refl, sym, ap, ◌∙◌, Bool, false, List, [], ◌∷◌, ◌++◌, map, Text,
  nat_eq, text_eq, length, drop, any, arith,
}
use cueloop.Prelude.Sort.{to_sorted_of_IsSorted, IsSorted}
use cueloop.Types.{TextCut}
use cueloop.WorkingCopy.Cuts.{slice, range_of, is_stale, apply_from, cut_before, apply_text_cuts}
use cueloop.WorkingCopy.Ranges.{covers}
use cueloop.WorkingCopy.Outside.{
  outside, outside_same, outside_all, outside-take, outside-drop, drop-drop,
}

-- Cuts of the source, in order, that hold something, with a gap between each two; the quote of
-- each is the text that it cuts.
abbrev pub IsNormal : Text → ℕ → List TextCut → Type 0
IsNormal source low [] = Unit
IsNormal source low (cut ∷ cuts) =
    (low ≤ cut.start)
    × (cut.start < cut.end)
    × (cut.end ≤ length source)
    × (cut.quote ≡ slice source cut.start cut.end)
    × IsNormal source (suc cut.end) cuts

-- Some cut holds the position.
abbrev pub is_cut : List TextCut → ℕ → Bool
is_cut cuts k = any (covers k) (map range_of cuts)

pub IsNormal-le :
    (source : Text) (low low' : ℕ) (cuts : List TextCut)
    → low' ≤ low
    → IsNormal source low cuts
    → IsNormal source low' cuts
IsNormal-le source low low' [] h v = tt
IsNormal-le source low low' (cut ∷ cuts) h v = (omega (arith, v.0), v.1, v.2, v.3, v.4)

IsNormal-IsSorted :
    (source : Text) (low : ℕ) (cuts : List TextCut)
    → IsNormal source low cuts
    → IsSorted cut_before cuts
IsNormal-IsSorted source low [] v = tt
IsNormal-IsSorted source low (cut ∷ []) v = tt
IsNormal-IsSorted source low (cut ∷ next ∷ cuts) (_, h, _, _, v) =
    (ground (arith, h, v.0), IsNormal-IsSorted source (suc cut.end) (next ∷ cuts) v)

pub not_cut_below :
    (source : Text) (low : ℕ) (cuts : List TextCut) (k : ℕ)
    → IsNormal source low cuts
    → k < low
    → is_cut cuts k ≡ false
not_cut_below source low [] k v h = refl
not_cut_below source low (cut ∷ cuts) k (a, b, c, q, v) h =
    ground (arith, not_cut_below source (suc cut.end) cuts k v (omega arith))

-- The characters from the cursor on.
abbrev rest_of : Text → List TextCut → ℕ → Text
rest_of source cuts i = outside (is_cut cuts) i (drop i source)

rest_of_cut :
    (source : Text) (cursor : ℕ) (cut : TextCut) (cuts : List TextCut)
    → IsNormal source cursor (cut ∷ cuts)
    → rest_of source (cut ∷ cuts) cursor
      ≡ slice source cursor cut.start ++ rest_of source cuts cut.end
rest_of_cut source cursor cut cuts (low, full, within, quote, v) =
    let n = cut.start - cursor in
    let m = cut.end - cut.start in
    let at : cursor + n ≡ cut.start = omega arith in
    let to : cut.start + m ≡ cut.end = omega arith in
    let tail = drop n (drop cursor source) in
    let here : tail ≡ drop cut.start source =
      drop-drop cursor n source ∙ ap (λ (k : ℕ). drop k source) at in
    let before_cut =
      outside-take (is_cut (cut ∷ cuts)) cursor n (drop cursor source)
        (λ j a b. ground (arith, not_cut_below source (suc cut.end) cuts j v (omega arith))) in
    let the_cut =
      outside-drop (is_cut (cut ∷ cuts)) cut.start m (drop cut.start source)
        (λ j a b. ground arith) in
    let behind_cut =
      outside_same (is_cut (cut ∷ cuts)) (is_cut cuts) cut.end (drop cut.end source)
        (λ j a b. ground arith) in
    let skipped : drop m (drop cut.start source) ≡ drop cut.end source =
      drop-drop cut.start m source ∙ ap (λ (k : ℕ). drop k source) to in
    before_cut
    ∙ ap (λ (s : Text). slice source cursor cut.start ++ s)
        (ap (λ (i : ℕ). outside (is_cut (cut ∷ cuts)) i tail) at
          ∙ (ap (outside (is_cut (cut ∷ cuts)) cut.start) here
              ∙ (the_cut
                  ∙ (ap
                        (λ (i : ℕ).
                          outside (is_cut (cut ∷ cuts)) i (drop m (drop cut.start source)))
                        to
                      ∙ (ap (outside (is_cut (cut ∷ cuts)) cut.end) skipped ∙ behind_cut)))))

normal_not_stale :
    (source : Text) (cursor : ℕ) (cut : TextCut) (cuts : List TextCut)
    → IsNormal source cursor (cut ∷ cuts)
    → is_stale source cursor cut ≡ false
normal_not_stale source cursor cut cuts (low, full, within, quote, v) =
    ground (arith, low, full, within, quote)

apply_from-rest :
    (source : Text) (cursor : ℕ) (cuts : List TextCut)
    → IsNormal source cursor cuts
    → apply_from source cursor cuts ≡ rest_of source cuts cursor
unfolding apply_from
apply_from-rest source cursor [] v =
    sym (outside_all (is_cut []) cursor (drop cursor source) (λ j a. refl))
apply_from-rest source cursor (cut ∷ cuts) v =
    rw
      (
        normal_not_stale source cursor cut cuts v,
        apply_from-rest source cut.end cuts
            (IsNormal-le source (suc cut.end) cut.end cuts (omega arith) v.4),
      )
      (sym (rest_of_cut source cursor cut cuts v))

-- `applyTextCuts` on normal cuts leaves exactly the characters that no cut holds, in order.
pub apply_text_cuts_lem :
    (source : Text) (cuts : List TextCut)
    → IsNormal source 0 cuts
    → apply_text_cuts source cuts ≡ outside (is_cut cuts) 0 source
unfolding apply_text_cuts
apply_text_cuts_lem source [] v = sym (outside_all (is_cut []) 0 source (λ j a. refl))
apply_text_cuts_lem source (cut ∷ cuts) v =
    rw (to_sorted_of_IsSorted cut_before (cut ∷ cuts) (IsNormal-IsSorted source 0 (cut ∷ cuts) v))
      (apply_from-rest source 0 (cut ∷ cuts) v)
