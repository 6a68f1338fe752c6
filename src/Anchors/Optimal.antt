-- ===== src/Anchors/Optimal.antt =====
-- `levenshteinDistance` of packages/schema/src/fuzzy.ts counts the least edits.
use cueloop.Prelude.{
  ℕ, suc, ◌+◌, ◌≤◌, min, max, ◌≡◌, refl, ap, ◌∙◌, List, [], ◌∷◌, Text, length, leb, Bool-cases,
  subst, inl, inr, arith,
}
use cueloop.Diff.Lcs.{DiffOp, old_side, new_side}
use cueloop.Anchors.Distance.{
  levenshtein_distance, edits, dist, dist-nil, onto, levenshtein_distance-dist,
}

dist_del : (a : ℕ) (xs ys : Text) → dist (a ∷ xs) ys ≤ suc (dist xs ys)
unfolding dist
dist_del a xs [] = omega (arith, dist-nil xs)
dist_del a xs (y ∷ ys) = ground arith

dist_add : (b : ℕ) (xs ys : Text) → dist xs (b ∷ ys) ≤ suc (dist xs ys)
unfolding dist
dist_add b [] ys = ground arith
dist_add b (x ∷ xs) ys = ground arith

dist-le-edits : (ops : List (DiffOp ℕ)) → dist (old_side ops) (new_side ops) ≤ edits ops
unfolding dist
dist-le-edits [] = omega arith
dist-le-edits (DiffOp.ctx a b ∷ ops) = omega (arith, dist-le-edits ops)
dist-le-edits (DiffOp.del a ∷ ops) =
    omega (arith, dist-le-edits ops, dist_del a (old_side ops) (new_side ops))
dist-le-edits (DiffOp.add b ∷ ops) =
    omega (arith, dist-le-edits ops, dist_add b (old_side ops) (new_side ops))

abbrev IsPriced : Text → Text → ℕ → Type 0
IsPriced xs ys n =
    (ops : List (DiffOp ℕ)) × (old_side ops ≡ xs) × (new_side ops ≡ ys) × (edits ops ≡ n)

IsPriced-min :
    {xs ys : Text} (m n : ℕ) → IsPriced xs ys m → IsPriced xs ys n → IsPriced xs ys (min m n)
IsPriced-min {xs} {ys} m n p q = elim (Bool-cases (leb m n)) [
  | inl t ↦ subst (IsPriced xs ys) (ground arith) p
  | inr f ↦ subst (IsPriced xs ys) (ground arith) q
]

-- Some script has as few edits as the recursion says.
dist-IsPriced : (xs ys : Text) → IsPriced xs ys (dist xs ys)
unfolding dist
dist-IsPriced [] [] = ([], refl, refl, refl)
dist-IsPriced [] (y ∷ ys) =
    let (o, p, q, e) = dist-IsPriced [] ys in (DiffOp.add y ∷ o, p, ap (◌∷◌ y) q, ap suc e)
dist-IsPriced (x ∷ xs) [] =
    let (o, p, q, e) = dist-IsPriced xs [] in
    (DiffOp.del x ∷ o, ap (◌∷◌ x) p, q, omega (arith, dist-nil xs))
dist-IsPriced (x ∷ xs) (y ∷ ys) =
    let (a, pa, qa, ea) = dist-IsPriced (x ∷ xs) ys in
    let (d, pd, qd, ed) = dist-IsPriced xs (y ∷ ys) in
    let (c, pc, qc, ec) = dist-IsPriced xs ys in
    IsPriced-min _ _
      (IsPriced-min _ _ (DiffOp.add y ∷ a, pa, ap (◌∷◌ y) qa, omega (arith, ea))
        (DiffOp.del x ∷ d, ap (◌∷◌ x) pd, qd, omega (arith, ed)))
      (DiffOp.ctx x y ∷ c, ap (◌∷◌ x) pc, ap (◌∷◌ y) qc, omega (arith, ec))

-- A script that is read backwards.
old_side-onto :
    (ops acc : List (DiffOp ℕ)) → old_side (onto ops acc) ≡ onto (old_side ops) (old_side acc)
unfolding onto
old_side-onto [] acc = refl
old_side-onto (DiffOp.ctx a b ∷ ops) acc = old_side-onto ops (DiffOp.ctx a b ∷ acc)
old_side-onto (DiffOp.del a ∷ ops) acc = old_side-onto ops (DiffOp.del a ∷ acc)
old_side-onto (DiffOp.add b ∷ ops) acc = old_side-onto ops (DiffOp.add b ∷ acc)

new_side-onto :
    (ops acc : List (DiffOp ℕ)) → new_side (onto ops acc) ≡ onto (new_side ops) (new_side acc)
unfolding onto
new_side-onto [] acc = refl
new_side-onto (DiffOp.ctx a b ∷ ops) acc = new_side-onto ops (DiffOp.ctx a b ∷ acc)
new_side-onto (DiffOp.del a ∷ ops) acc = new_side-onto ops (DiffOp.del a ∷ acc)
new_side-onto (DiffOp.add b ∷ ops) acc = new_side-onto ops (DiffOp.add b ∷ acc)

edits-onto : (ops acc : List (DiffOp ℕ)) → edits (onto ops acc) ≡ edits ops + edits acc
unfolding onto
edits-onto [] acc = omega arith
edits-onto (DiffOp.ctx a b ∷ ops) acc = omega (arith, edits-onto ops (DiffOp.ctx a b ∷ acc))
edits-onto (DiffOp.del a ∷ ops) acc = omega (arith, edits-onto ops (DiffOp.del a ∷ acc))
edits-onto (DiffOp.add b ∷ ops) acc = omega (arith, edits-onto ops (DiffOp.add b ∷ acc))

onto-onto : (xs acc : Text) → onto (onto xs acc) [] ≡ onto acc xs
unfolding onto
onto-onto [] acc = refl
onto-onto (x ∷ xs) acc = onto-onto xs (x ∷ acc)

pub edits-ge-levenshtein_distance :
    (ops : List (DiffOp ℕ)) → levenshtein_distance (old_side ops) (new_side ops) ≤ edits ops
edits-ge-levenshtein_distance ops =
    omega (arith, levenshtein_distance-dist (old_side ops) (new_side ops), backwards)
  where
    backwards : dist (onto (old_side ops) []) (onto (new_side ops) []) ≤ edits ops
    backwards =
        rw (← old_side-onto ops [], ← new_side-onto ops [])
          (omega (arith, dist-le-edits (onto ops []), edits-onto ops []))

pub levenshtein_distance-IsPriced :
    (left right : Text)
    → (ops : List (DiffOp ℕ)) × (old_side ops ≡ left)
      × (new_side ops ≡ right)
      × (edits ops ≡ levenshtein_distance left right)
unfolding onto
levenshtein_distance-IsPriced left right =
    let (o, p, q, e) = dist-IsPriced (onto left []) (onto right []) in
    (
      onto o [],
      old_side-onto o [] ∙ (ap (λ l. onto l []) p ∙ onto-onto left []),
      new_side-onto o [] ∙ (ap (λ l. onto l []) q ∙ onto-onto right []),
      omega (arith, edits-onto o [], e, levenshtein_distance-dist left right),
    )

-- The distance of two texts is the number of edits of some script between them, and no script
-- between them has fewer: every text pair is the sides of a script.
pub levenshtein_distance-optimal :
    (ops : List (DiffOp ℕ))
    → (levenshtein_distance (old_side ops) (new_side ops) ≤ edits ops)
      × ((best : List (DiffOp ℕ)) × (old_side best ≡ old_side ops)
          × (new_side best ≡ new_side ops)
          × (edits best ≡ levenshtein_distance (old_side ops) (new_side ops)))
levenshtein_distance-optimal ops =
    (edits-ge-levenshtein_distance ops, levenshtein_distance-IsPriced (old_side ops) (new_side ops))

-- The pairs of two texts, and what is left of the longer one.
pub levenshtein_distance-le :
    (left right : Text) → levenshtein_distance left right ≤ max (length left) (length right)
levenshtein_distance-le left right =
    let (o, p, q, e) = zipped left right in
    omega (
      arith,
      ap length p,
      e,
      subst (λ l. levenshtein_distance l right ≤ edits o) p
          (subst (λ r. levenshtein_distance (old_side o) r ≤ edits o) q
            (edits-ge-levenshtein_distance o)),
    )
  where
    zipped :
        (xs ys : Text)
        → (ops : List (DiffOp ℕ)) × (old_side ops ≡ xs)
          × (new_side ops ≡ ys)
          × (edits ops ≤ max (length xs) (length ys))
    zipped [] [] = ([], refl, refl, omega arith)
    zipped [] (y ∷ ys) =
        let (o, p, q, e) = zipped [] ys in (DiffOp.add y ∷ o, p, ap (◌∷◌ y) q, omega (arith, e))
    zipped (x ∷ xs) [] =
        let (o, p, q, e) = zipped xs [] in (DiffOp.del x ∷ o, ap (◌∷◌ x) p, q, omega (arith, e))
    zipped (x ∷ xs) (y ∷ ys) =
        let (o, p, q, e) = zipped xs ys in
        (DiffOp.ctx x y ∷ o, ap (◌∷◌ x) p, ap (◌∷◌ y) q, ground (arith, e))
