-- ===== src/WorkingCopy/Outside.antt =====
-- A text without the characters at some of its positions.
use cueloop.Prelude.{
  ℕ, zero, suc, ◌+◌, ◌-◌, ◌≤◌, ◌<◌, ◌≡◌, refl, sym, ap, ◌∙◌, Bool, true, false, [], ◌∷◌, ◌++◌, Text,
  if◌then◌else◌, length, take, drop, arith,
}

-- The characters of the text that starts at position `i`, at the positions that `p` rejects.
abbrev pub outside : (ℕ → Bool) → ℕ → Text → Text
outside p i [] = []
outside p i (c ∷ s) = let rest = outside p (suc i) s in if p i then rest else c ∷ rest

pub outside_same :
    (p q : ℕ → Bool) (i : ℕ) (s : Text)
    → ((j : ℕ) → i ≤ j → j < i + length s → p j ≡ q j)
    → outside p i s ≡ outside q i s
outside_same p q i [] h = refl
outside_same p q i (c ∷ s) h = ground (
  arith,
  h i (omega arith) (omega arith),
  outside_same p q (suc i) s (λ j a b. h j (omega arith) (omega arith)),
)

pub outside_all :
    (p : ℕ → Bool) (i : ℕ) (s : Text) → ((j : ℕ) → i ≤ j → p j ≡ false) → outside p i s ≡ s
outside_all p i [] h = refl
outside_all p i (c ∷ s) h =
    ground (arith, h i (omega arith), outside_all p (suc i) s (λ j a. h j (omega arith)))

pub outside-take :
    (p : ℕ → Bool) (i n : ℕ) (s : Text)
    → ((j : ℕ) → i ≤ j → j < i + n → p j ≡ false)
    → outside p i s ≡ take n s ++ outside p (i + n) (drop n s)
outside-take p i zero s h = ap (λ (k : ℕ). outside p k s) (omega arith)
outside-take p i (suc n) [] h = refl
outside-take p i (suc n) (c ∷ s) h =
    let shift : suc i + n ≡ i + suc n = omega arith in
    rw (h i (omega arith) (omega arith)) (
      ap (◌∷◌ c) (
        outside-take p (suc i) n s (λ j a b. h j (omega arith) (omega arith))
        ∙ ap (λ (k : ℕ). take n s ++ outside p k (drop n s)) shift))

pub outside-drop :
    (p : ℕ → Bool) (i n : ℕ) (s : Text)
    → ((j : ℕ) → i ≤ j → j < i + n → p j ≡ true)
    → outside p i s ≡ outside p (i + n) (drop n s)
outside-drop p i zero s h = ap (λ (k : ℕ). outside p k s) (omega arith)
outside-drop p i (suc n) [] h = refl
outside-drop p i (suc n) (c ∷ s) h =
    let shift : suc i + n ≡ i + suc n = omega arith in
    rw (h i (omega arith) (omega arith)) (
      outside-drop p (suc i) n s (λ j a b. h j (omega arith) (omega arith))
      ∙ ap (λ (k : ℕ). outside p k (drop n s)) shift)

drop-nil : (n : ℕ) → drop {A = ℕ} n [] ≡ []
drop-nil zero = refl
drop-nil (suc n) = refl

pub drop-drop : (m n : ℕ) (s : Text) → drop n (drop m s) ≡ drop (m + n) s
drop-drop zero n s = ap (λ (k : ℕ). drop k s) (omega arith)
drop-drop (suc m) n [] = drop-nil n ∙ sym (drop-nil (suc m + n))
drop-drop (suc m) n (c ∷ s) =
    let shift : suc m + n ≡ suc (m + n) = omega arith in
    drop-drop m n s ∙ ap (λ (k : ℕ). drop k (c ∷ s)) (sym shift)

pub length-drop : (n : ℕ) (s : Text) → length (drop n s) ≡ length s - n
length-drop zero s = omega arith
length-drop (suc n) [] = omega arith
length-drop (suc n) (c ∷ s) = ground (arith, length-drop n s)
