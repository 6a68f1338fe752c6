-- ===== src/Anchors/Best.antt =====
-- What the search of packages/schema/src/fuzzy.ts finds.
use cueloop.Prelude.{
  ℕ, zero, suc, ◌+◌, ◌≤◌, ◌<◌, ◌≡◌, sym, ap, ◌∙◌, subst, true, false, ◌||◌, [], none, Text, ◌==◌,
  nat_eq, text_eq, leb, length, Bool-cases, inl, inr, arith,
}
use cueloop.Anchors.Fuzzy.{
  Ratio, Scan, minimum_window_length, maximum_window_length, scan_lengths, scan_starts,
  fuzzy_find_best_match,
}
use cueloop.Anchors.Windows.{
  tried, IsFound, IsBeaten, try_window-IsFound, try_window-IsBeaten, try_window-IsBeaten_other,
}
use cueloop.Anchors.Rounds.{
  scan_spent, scan_on, at_start, starts_spent, starts_on, scan_lengths-keeps, scan_starts-keeps,
}

module _ (needle text : Text) (floor : Ratio) where
  abbrev IsBeatenBy : ℕ → ℕ → Scan → Type 0
  IsBeatenBy s l scan =
      IsFound needle text floor scan.best × IsBeaten needle text floor scan.best s l

  tried-IsBeatenBy :
      (s l start k : ℕ) (scan : Scan)
      → 0 < k
      → start + k ≤ length text
      → IsBeatenBy s l scan
      → IsBeatenBy s l (tried needle text floor start k scan)
  tried-IsBeatenBy s l start k scan p q h = (
    try_window-IsFound needle text floor start k scan p q h.0,
    try_window-IsBeaten_other needle text floor start k scan s l h.0 h.1,
  )

  -- A round of the inner loop whose length is reached leaves its window beaten.
  scan_lengths-IsBeaten :
      (start rounds first l : ℕ) (scan : Scan)
      → 0 < first
      → first ≤ l
      → l < first + rounds
      → start + l ≤ length text
      → ((scan_lengths needle text floor start rounds first scan).remaining == 0) ≡ false
      → IsFound needle text floor scan.best
      → IsBeatenBy start l (scan_lengths needle text floor start rounds first scan)
  unfolding scan_lengths
  scan_lengths-IsBeaten start zero first l scan p a b q h k = absurd (omega arith)
  scan_lengths-IsBeaten start (suc rounds) first l scan p a b q h k =
      let fits : leb (start + first) (length text) ≡ true = ground arith in
      let found : IsFound needle text floor (tried needle text floor start first scan).best =
        try_window-IsFound needle text floor start first scan p (omega arith) k in
      elim (Bool-cases ((tried needle text floor start first scan).remaining == 0)) [
        | inl e ↦ absurd (
            cc (
              sym e
              ∙ (ap (λ (x : Scan). x.remaining == 0)
                    (sym (scan_spent needle text floor start rounds first scan fits e))
                  ∙ h)))
        | inr e ↦
            subst (IsBeatenBy start l)
              (sym (scan_on needle text floor start rounds first scan fits e))
              (elim (Bool-cases (first == l)) [
                | inl t ↦
                    let same : first ≡ l = ground arith in
                    scan_lengths-keeps needle text floor (IsBeatenBy start l)
                      (tried-IsBeatenBy start l) start rounds (suc first)
                      (tried needle text floor start first scan) (omega arith)
                      (
                        found,
                        subst
                            (IsBeaten needle text floor
                              (tried needle text floor start first scan).best start)
                            same (try_window-IsBeaten needle text floor start first scan e),
                      )
                | inr f ↦
                    scan_lengths-IsBeaten start rounds (suc first) l
                      (tried needle text floor start first scan) (omega arith) (ground arith)
                      (omega arith) q
                      (ap (λ (x : Scan). x.remaining == 0)
                          (sym (scan_on needle text floor start rounds first scan fits e))
                        ∙ h)
                      found
              ])
      ]

  scan_starts-IsBeaten :
      (rounds first s l : ℕ) (scan : Scan)
      → first ≤ s
      → s < first + rounds
      → minimum_window_length needle ≤ l
      → l ≤ maximum_window_length needle
      → s + l ≤ length text
      → ((scan_starts needle text floor rounds first scan).remaining == 0) ≡ false
      → IsFound needle text floor scan.best
      → IsBeatenBy s l (scan_starts needle text floor rounds first scan)
  scan_starts-IsBeaten zero first s l scan a b c d q h k = absurd (omega arith)
  scan_starts-IsBeaten (suc rounds) first s l scan a b c d q h k =
      elim (Bool-cases ((at_start needle text floor first scan).remaining == 0)) [
        | inl e ↦ absurd (
            cc (
              sym e
              ∙ (ap (λ (x : Scan). x.remaining == 0)
                    (sym (starts_spent needle text floor first rounds scan e))
                  ∙ h)))
        | inr e ↦
            subst (IsBeatenBy s l) (sym (starts_on needle text floor first rounds scan e))
              (elim (Bool-cases (first == s)) [
                | inl t ↦
                    let same : first ≡ s = ground arith in
                    scan_starts-keeps needle text floor (IsBeatenBy s l) (tried-IsBeatenBy s l)
                      rounds (suc first) (at_start needle text floor first scan)
                      (subst (λ x. IsBeatenBy x l (at_start needle text floor first scan)) same
                        (scan_lengths-IsBeaten first _ (minimum_window_length needle) l scan
                          (omega arith) c (omega arith) (omega arith) e k))
                | inr f ↦
                    scan_starts-IsBeaten rounds (suc first) s l
                      (at_start needle text floor first scan) (ground arith) (omega arith) c d q
                      (ap (λ (x : Scan). x.remaining == 0)
                          (sym (starts_on needle text floor first rounds scan e))
                        ∙ h)
                      (scan_lengths-keeps needle text floor (λ x. IsFound needle text floor x.best)
                        (λ i j x. try_window-IsFound needle text floor i j x) first _
                        (minimum_window_length needle) scan (omega arith) k)
              ])
      ]

  -- What the search finds is a window of the text that is not empty, has the similarity that is
  -- reported with it, and reaches the floor.
  pub fuzzy_find_best_match-IsFound :
      (budget : ℕ) → IsFound needle text floor (fuzzy_find_best_match needle text floor budget).best
  unfolding fuzzy_find_best_match
  fuzzy_find_best_match-IsFound budget = elim (Bool-cases (needle == [] || text == [])) [
    | inl t ↦ rw t tt
    | inr f ↦ rw f (
        scan_starts-keeps needle text floor (λ x. IsFound needle text floor x.best)
          (λ i j x. try_window-IsFound needle text floor i j x) (length text) 0
          (record { remaining = budget; best = none }) tt)
  ]

  -- A search of two texts that are not empty that ends with budget left: every window of the
  -- text of a length that is tried needle text floor is below the floor or not more similar than what is found.
  pub fuzzy_find_best_match-IsBeaten :
      (budget s l : ℕ)
      → (needle == [] || text == []) ≡ false
      → 0 < (fuzzy_find_best_match needle text floor budget).remaining
      → minimum_window_length needle ≤ l
      → l ≤ maximum_window_length needle
      → s + l ≤ length text
      → IsBeaten needle text floor (fuzzy_find_best_match needle text floor budget).best s l
  unfolding fuzzy_find_best_match
  fuzzy_find_best_match-IsBeaten budget s l f h a b q = rw f (
      (scan_starts-IsBeaten (length text) 0 s l (record { remaining = budget; best = none })
        (omega arith) (omega arith) a b q (positive (rw f at h)) tt).1)
    where
      positive : {n : ℕ} → 0 < n → (n == 0) ≡ false
      positive h = ground arith
