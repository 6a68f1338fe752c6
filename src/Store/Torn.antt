-- ===== src/Store/Torn.antt =====
-- A crash in the middle of a write (packages/daemon/src/store.ts, `readThread`).
use cueloop.Prelude.{
  ℕ, ◌+◌, ◌≡◌, refl, sym, ◌∙◌, ap, Bool, true, false, not, List, [], ◌∷◌, ◌++◌, Option, none, some,
  String, filter, length, length-append, Option-cases, inl, inr, arith,
}
use cueloop.Types.{Thread}
use cueloop.History.Linear.{with_history}
use cueloop.Store.Logs.{Codec, ReadThread, all_lines, last_valid, read_thread, is_followed, decode}

module _ {Line : Type 0} (codec : Codec Line) (fragment : Line)
    (torn : decode codec fragment ≡ none) where
  last_valid-none :
      (xs : List Line) → last_valid codec xs ≡ none → last_valid codec (xs ++ fragment ∷ []) ≡ none
  unfolding last_valid
  last_valid-none [] h = rw (last_valid, torn) refl
  last_valid-none (x ∷ xs) h = elim (Option-cases (last_valid codec xs)) [
    | inl n ↦ elim (Option-cases (decode codec x)) [
      | inl m ↦ rw (last_valid-none xs n, m) refl
      | inr (t, q) ↦ absurd (ground (arith, n, q))
    ]
    | inr (r, q) ↦ absurd (ground (arith, q))
  ]

  followed : (xs : List Line) → is_followed codec (xs ++ fragment ∷ []) ≡ true
  followed [] = refl
  followed (x ∷ xs) = refl

  last_valid-torn :
      (xs : List Line) {t : Thread} {b : Bool}
      → last_valid codec xs ≡ some (t, b)
      → last_valid codec (xs ++ fragment ∷ []) ≡ some (t, true)
  unfolding last_valid
  last_valid-torn [] h = cc
  last_valid-torn (x ∷ xs) {t} {b} h = elim (Option-cases (last_valid codec xs)) [
    | inl n ↦ elim (Option-cases (decode codec x)) [
      | inl m ↦ absurd (ground (arith, n, m))
      | inr (u, q) ↦
          let same : with_history u ≡ t = ground (arith, n, q) in
          rw (last_valid-none xs n, q, followed xs) (ap (λ (w : Thread). some (w, true)) same)
    ]
    | inr (r, q) ↦
        let same : r.0 ≡ t = ground (arith, q) in
        rw (last_valid-torn xs {t = r.0} {b = r.1} q) (ap (λ (w : Thread). some (w, true)) same)
  ]

  module _ (shows : codec.is_blank fragment ≡ false)
      (empty : codec.is_blank codec.empty ≡ true) where
    filter-torn :
        (xs : List Line)
        → filter (λ x. not (codec.is_blank x)) (xs ++ fragment ∷ [])
          ≡ filter (λ x. not (codec.is_blank x)) (xs ++ codec.empty ∷ []) ++ fragment ∷ []
    filter-torn [] = rw (shows, empty) refl
    filter-torn (x ∷ xs) = ground (arith, filter-torn xs)

    -- For a log that ends in a line break and can be read, and a fragment that is not blank and
    -- cannot be read: once a crash has left the fragment behind it, the log is read as the same
    -- session, one line longer, and as torn, so that it is rewritten before the next line.
    pub read_thread-torn :
        (path : String) (lines : List Line) {r : ReadThread}
        → read_thread codec (record { path = path; lines = lines; tail = codec.empty }) ≡ some r
        → read_thread codec (record { path = path; lines = lines; tail = fragment })
          ≡ some (record { session = r.session; lines = r.lines + 1; torn = true })
    unfolding read_thread all_lines
    read_thread-torn path lines {r} h = elim (Option-cases (last_valid codec kept)) [
      | inl n ↦ absurd (cc (sym (ap (with_length kept) n) ∙ h))
      | inr (p, q) ↦
          let read : some (reading p.0 (length kept) p.1) ≡ some r =
            sym (ap (with_length kept) q) ∙ h in
          let same : reading p.0 (length kept) p.1 ≡ r = ground (arith, read) in
          ap read_lines (filter-torn lines)
          ∙ (ap (with_length (kept ++ fragment ∷ [])) (last_valid-torn kept {t = p.0} {b = p.1} q)
              ∙ (ap (λ n. some (reading p.0 n true)) (length-append kept (fragment ∷ []))
                  ∙ ap (λ (x : ReadThread). some (reading x.session (x.lines + 1) true)) same))
    ]
      where
        kept : List Line
        kept = filter (λ x. not (codec.is_blank x)) (lines ++ codec.empty ∷ [])

        reading : Thread → ℕ → Bool → ReadThread
        reading t n b = record { session = t; lines = n; torn = b }

        with_length : List Line → Option (Thread × Bool) → Option ReadThread
        with_length ls o = elim o [ none ↦ none | some p ↦ some (reading p.0 (length ls) p.1) ]

        read_lines : List Line → Option ReadThread
        read_lines ls = with_length ls (last_valid codec ls)
