-- ===== src/Prelude/Sort.antt =====
-- `array.toSorted(compare)`: a stable sort.
use mathlib.Core.Path.{◌≡◌, refl, ap, ◌∙◌}
use mathlib.Core.Bool.{Bool, true, false, ◌||◌}
use mathlib.Core.Logic.{inl, inr}
use mathlib.Core.List.{List, [], ◌∷◌}
use native.Mathlib.Omega.{arith}
use cueloop.Prelude.Tests.{if◌then◌else◌, Bool-cases}
use cueloop.Prelude.Lists.{any, All}

module _ {ℓ} {A : Type ℓ} (le : A → A → Bool) where
  -- `x` goes in front of the elements that it does not come after.
  unfoldable pub insert : A → List A → List A
  insert x [] = x ∷ []
  insert x (y ∷ ys) = if le x y then x ∷ y ∷ ys else y ∷ insert x ys

  unfoldable pub to_sorted : List A → List A
  unfolding insert
  to_sorted [] = []
  to_sorted (x ∷ xs) = insert x (to_sorted xs)

  -- Neighbours are in order.
  abbrev pub IsSorted : List A → Type 0
  IsSorted [] = Unit
  IsSorted (x ∷ []) = Unit
  IsSorted (x ∷ y ∷ ys) = (le x y ≡ true) × IsSorted (y ∷ ys)

  IsSorted-tail : (x : A) (xs : List A) → IsSorted (x ∷ xs) → IsSorted xs
  IsSorted-tail x [] h = tt
  IsSorted-tail x (y ∷ ys) h = h.1

  pub to_sorted_of_IsSorted : (xs : List A) → IsSorted xs → to_sorted xs ≡ xs
  unfolding to_sorted
  to_sorted_of_IsSorted [] h = refl
  to_sorted_of_IsSorted (x ∷ []) h = refl
  to_sorted_of_IsSorted (x ∷ y ∷ ys) h = rw (to_sorted_of_IsSorted (y ∷ ys) h.1, h.0)

  pub any-to_sorted : (p : A → Bool) (xs : List A) → any p (to_sorted xs) ≡ any p xs
  unfolding to_sorted
  any-to_sorted p [] = refl
  any-to_sorted p (x ∷ xs) =
      any-insert x (to_sorted xs) ∙ ap (λ (b : Bool). p x || b) (any-to_sorted p xs)
    where
      any-insert : (x : A) (ys : List A) → any p (insert x ys) ≡ p x || any p ys
      any-insert x [] = refl
      any-insert x (y ∷ ys) = ground (arith, any-insert x ys)

  pub All-to_sorted : (P : A → Type 0) (xs : List A) → All P xs → All P (to_sorted xs)
  unfolding to_sorted
  All-to_sorted P [] h = tt
  All-to_sorted P (x ∷ xs) h = All-insert x (to_sorted xs) h.0 (All-to_sorted P xs h.1)
    where
      All-insert : (x : A) (ys : List A) → P x → All P ys → All P (insert x ys)
      All-insert x [] k h = (k, tt)
      All-insert x (y ∷ ys) k h = elim (Bool-cases (le x y)) [
        | inl t ↦ rw t (k, h)
        | inr f ↦ rw f (h.0, All-insert x ys k h.1)
      ]

  module _ (total : (x y : A) → le x y ≡ false → le y x ≡ true) where
    insert-IsSorted : (x : A) (ys : List A) → IsSorted ys → IsSorted (insert x ys)
    unfolding insert
    insert-IsSorted x [] h = tt
    insert-IsSorted x (y ∷ []) h = elim (Bool-cases (le x y)) [
      | inl t ↦ rw t (t, tt)
      | inr f ↦ rw f (total x y f, tt)
    ]
    insert-IsSorted x (y ∷ z ∷ zs) h = elim (Bool-cases (le x y)) [
      | inl t ↦ rw t (t, h)
      | inr f ↦ rw f (behind x y z zs f h.0 (insert-IsSorted x (z ∷ zs) h.1))
    ]
      where
        behind :
            (x y z : A) (zs : List A)
            → le x y ≡ false
            → le y z ≡ true
            → IsSorted (insert x (z ∷ zs))
            → IsSorted (y ∷ insert x (z ∷ zs))
        behind x y z zs f g k = elim (Bool-cases (le x z)) [
          | inl t ↦ rw t (total x y f, (rw t at k))
          | inr n ↦ rw n (g, (rw n at k))
        ]

    pub to_sorted-IsSorted : (xs : List A) → IsSorted (to_sorted xs)
    unfolding to_sorted
    to_sorted-IsSorted [] = tt
    to_sorted-IsSorted (x ∷ xs) = insert-IsSorted x (to_sorted xs) (to_sorted-IsSorted xs)
