-- ===== src/Prelude/Keyed.antt =====
-- Lists whose elements are pairwise apart, and what `put` and `filter` do to them.
use Prim.Native.String.{String}
use mathlib.Core.Path.{◌≡◌, refl, ◌∙◌, sym, ap, subst}
use mathlib.Core.Logic.{inl, inr}
use mathlib.Core.Bool.{Bool, true, false}
use mathlib.Core.List.{List, [], ◌∷◌, ◌++◌, append-nil, append_assoc}
use mathlib.Core.Option.{none, some}
use native.Mathlib.Omega.{arith}
use cueloop.Prelude.Tests.{◌==◌, string_eq, if◌then◌else◌, Bool-cases}
use cueloop.Prelude.Lists.{find, filter, All, All-imp, All-append}
use cueloop.Prelude.Maps.{put, map_of}

module _ {ℓ} {A : Type ℓ} where
  -- No two elements are the same.
  abbrev pub Apart : (A → A → Bool) → List A → Type 0
  Apart same [] = Unit
  Apart same (x ∷ xs) = All (λ y. same x y ≡ false) xs × Apart same xs

  pub find-none : (p : A → Bool) (xs : List A) → find p xs ≡ none → All (λ x. p x ≡ false) xs
  find-none p [] h = tt
  find-none p (x ∷ xs) h = (ground arith, find-none p xs (ground arith))

  pub find-All :
      (P : A → Type 0) (p : A → Bool) (xs : List A) {a : A} → All P xs → find p xs ≡ some a → P a
  find-All P p [] h q = cc
  find-All P p (x ∷ xs) {a} h q = elim (Bool-cases (p x)) [
    | inl t ↦ subst P (ground arith) h.0
    | inr f ↦ find-All P p xs h.1 (rw f at q)
  ]

  pub find_holds : (p : A → Bool) (xs : List A) {a : A} → find p xs ≡ some a → p a ≡ true
  find_holds p [] q = cc
  find_holds p (x ∷ xs) {a} q = elim (Bool-cases (p x)) [
    | inl t ↦ subst (λ (y : A). p y ≡ true) (ground arith) t
    | inr f ↦ find_holds p xs (rw f at q)
  ]

  pub All-filter : (P : A → Type 0) (p : A → Bool) (xs : List A) → All P xs → All P (filter p xs)
  All-filter P p [] h = tt
  All-filter P p (x ∷ xs) h = elim (Bool-cases (p x)) [
    | inl t ↦ rw t (h.0, All-filter P p xs h.1)
    | inr f ↦ rw f (All-filter P p xs h.1)
  ]

  pub Apart-filter :
      (same : A → A → Bool) (p : A → Bool) (xs : List A) → Apart same xs → Apart same (filter p xs)
  Apart-filter same p [] h = tt
  Apart-filter same p (x ∷ xs) h = elim (Bool-cases (p x)) [
    | inl t ↦ rw t (All-filter (λ y. same x y ≡ false) p xs h.0, Apart-filter same p xs h.1)
    | inr f ↦ rw f (Apart-filter same p xs h.1)
  ]

  pub Apart-append :
      (same : A → A → Bool) (x : A) (xs : List A)
      → Apart same xs
      → All (λ y. same y x ≡ false) xs
      → Apart same (xs ++ x ∷ [])
  Apart-append same x [] h k = (tt, tt)
  Apart-append same x (y ∷ ys) h k =
      (All-append (λ z. same y z ≡ false) ys (x ∷ []) h.0 (k.0, tt), Apart-append same x ys h.1 k.1)

  module _ (id : A → String) where
    -- A new id goes behind the others.
    pub put_new :
        (x : A) (xs : List A) → All (λ y. (id y == id x) ≡ false) xs → put id x xs ≡ xs ++ x ∷ []
    unfolding put
    put_new x [] h = refl
    put_new x (y ∷ ys) h = rw h.0 (ap (◌∷◌ y) (put_new x ys h.1))

    -- What a `Map` holds under an id after a write.
    pub find-put :
        (x : A) (xs : List A) (i : String)
        → find (λ y. id y == i) (put id x xs)
          ≡ (if id x == i then some x else find (λ y. id y == i) xs)
    unfolding put
    find-put x [] i = refl
    find-put x (y ∷ ys) i = ground (arith, find-put x ys i)

    All-put : (P : A → Type 0) (x : A) (xs : List A) → P x → All P xs → All P (put id x xs)
    unfolding put
    All-put P x [] new h = (new, tt)
    All-put P x (y ∷ ys) new h = elim (Bool-cases (id y == id x)) [
      | inl t ↦ rw t (new, h.1)
      | inr f ↦ rw f (h.0, All-put P x ys new h.1)
    ]

    -- To replace an element by one that is the same as the same others leaves all apart.
    pub Apart-put :
        (same : A → A → Bool) (x old : A) (xs : List A)
        → ((z : A) → (same x z ≡ same old z) × (same z x ≡ same z old))
        → find (λ y. id y == id x) xs ≡ some old
        → Apart same xs
        → Apart same (put id x xs)
    unfolding put
    Apart-put same x old [] like found h = cc
    Apart-put same x old (y ∷ ys) like found h = elim (Bool-cases (id y == id x)) [
      | inl t ↦
          rw t
            (All-imp (λ z k. (like z).0 ∙ (ap (λ (w : A). same w z) (old_is_y t) ∙ k)) ys h.0, h.1)
      | inr f ↦ rw f (
        All-put (λ z. same y z ≡ false) x ys
            ((like y).1 ∙ find-All (λ z. same y z ≡ false) _ ys h.0 (rw f at found)) h.0,
        Apart-put same x old ys like (rw f at found) h.1,
      )
    ]
      where
        old_is_y : (id y == id x) ≡ true → old ≡ y
        old_is_y t = ground arith

    Apart-split :
        (same : A → A → Bool) (xs : List A) (y : A) (ys : List A)
        → Apart same (xs ++ y ∷ ys)
        → All (λ x. same x y ≡ false) xs
    Apart-split same [] y ys h = tt
    Apart-split same (x ∷ xs) y ys h = (All-last xs h.0, Apart-split same xs y ys h.1)
      where
        All-last : (xs : List A) → All (λ z. same x z ≡ false) (xs ++ y ∷ ys) → same x y ≡ false
        All-last [] k = k.0
        All-last (z ∷ zs) k = All-last zs k.1

    -- Values with distinct ids are the map's values, in their order.
    pub map_of-Apart :
        (done xs : List A)
        → Apart (λ a b. id a == id b) (done ++ xs)
        → map_of id done xs ≡ done ++ xs
    unfolding map_of
    map_of-Apart done [] h = sym (append-nil done)
    map_of-Apart done (x ∷ xs) h =
        rw (put_new x done (Apart-split (λ a b. id a == id b) done x xs h)) (
          map_of-Apart (done ++ x ∷ []) xs (rw (append_assoc done (x ∷ []) xs) h)
          ∙ append_assoc done (x ∷ []) xs)
