-- ===== src/Anchors/Rounds.antt =====
-- The rounds of `fuzzyFindBestMatch` (packages/schema/src/fuzzy.ts).
use cueloop.Prelude.{
  ℕ, zero, suc, ◌+◌, ◌-◌, ◌≤◌, ◌<◌, ◌≡◌, sym, subst, true, false, Text, ◌==◌, nat_eq, text_eq, leb,
  length, Bool-cases, inl, inr, arith,
}
use cueloop.Anchors.Fuzzy.{
  Ratio, Scan, minimum_window_length, maximum_window_length, scan_lengths, scan_starts,
}
use cueloop.Anchors.Windows.{tried}

module _ (needle text : Text) (floor : Ratio) where
  module _ (start rounds l : ℕ) (scan : Scan) where
    pub scan_past :
        leb (start + l) (length text) ≡ false
        → scan_lengths needle text floor start (suc rounds) l scan ≡ scan
    unfolding scan_lengths
    scan_past f = ground arith

    pub scan_spent :
        leb (start + l) (length text) ≡ true
        → ((tried needle text floor start l scan).remaining == 0) ≡ true
        → scan_lengths needle text floor start (suc rounds) l scan
          ≡ tried needle text floor start l scan
    unfolding scan_lengths
    scan_spent t e = ground arith

    pub scan_on :
        leb (start + l) (length text) ≡ true
        → ((tried needle text floor start l scan).remaining == 0) ≡ false
        → scan_lengths needle text floor start (suc rounds) l scan
          ≡ scan_lengths needle text floor start rounds
              (suc l)
              (tried needle text floor start l scan)
    unfolding scan_lengths
    scan_on t e = ground arith

  abbrev pub at_start : ℕ → Scan → Scan
  at_start start scan =
      scan_lengths needle text floor start
        (suc (maximum_window_length needle) - minimum_window_length needle)
        (minimum_window_length needle) scan

  module _ (start rounds : ℕ) (scan : Scan) where
    pub starts_spent :
        ((at_start start scan).remaining == 0) ≡ true
        → scan_starts needle text floor (suc rounds) start scan ≡ at_start start scan
    unfolding scan_starts
    starts_spent e = ground arith

    pub starts_on :
        ((at_start start scan).remaining == 0) ≡ false
        → scan_starts needle text floor (suc rounds) start scan
          ≡ scan_starts needle text floor rounds (suc start) (at_start start scan)
    unfolding scan_starts
    starts_on e = ground arith

  -- What every window that is tried needle text floor keeps, the search keeps.
  module _ (P : Scan → Type 0)
      (keep : (start l : ℕ) (scan : Scan)
        → 0 < l
        → start + l ≤ length text
        → P scan
        → P (tried needle text floor start l scan)) where
    pub scan_lengths-keeps :
        (start rounds l : ℕ) (scan : Scan)
        → 0 < l
        → P scan
        → P (scan_lengths needle text floor start rounds l scan)
    unfolding scan_lengths
    scan_lengths-keeps start zero l scan p h = h
    scan_lengths-keeps start (suc rounds) l scan p h =
        elim (Bool-cases (leb (start + l) (length text))) [
          | inl t ↦
              let next : P (tried needle text floor start l scan) =
                keep start l scan p (ground arith) h in
              elim (Bool-cases ((tried needle text floor start l scan).remaining == 0)) [
                | inl e ↦ subst P (sym (scan_spent start rounds l scan t e)) next
                | inr e ↦ subst P (sym (scan_on start rounds l scan t e)) (
                    scan_lengths-keeps start rounds (suc l) (tried needle text floor start l scan)
                      (omega arith) next)
              ]
          | inr f ↦ subst P (sym (scan_past start rounds l scan f)) h
        ]

    pub scan_starts-keeps :
        (rounds start : ℕ) (scan : Scan)
        → P scan
        → P (scan_starts needle text floor rounds start scan)
    unfolding scan_starts
    scan_starts-keeps zero start scan h = h
    scan_starts-keeps (suc rounds) start scan h =
        elim (Bool-cases ((at_start start scan).remaining == 0)) [
          | inl e ↦ subst P (sym (starts_spent start rounds scan e)) next
          | inr e ↦
              subst P (sym (starts_on start rounds scan e))
                (scan_starts-keeps rounds (suc start) (at_start start scan) next)
        ]
      where
        next : P (at_start start scan)
        next = scan_lengths-keeps start _ (minimum_window_length needle) scan (omega arith) h
