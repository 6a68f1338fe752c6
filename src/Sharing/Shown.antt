-- ===== src/Sharing/Shown.antt =====
-- What the view of a path shows and shelves (packages/schema/src/path-view.ts).
use cueloop.Prelude.{
  ℕ, ◌+◌, ◌≡◌, refl, ◌∙◌, Bool, true, false, not, ◌&&◌, List, [], ◌∷◌, map, none, some, String,
  ◌==◌, string_eq, text_eq, find, filter, has, length, All, All-imp, Bool-cases, Option-cases, inl,
  inr, arith,
}
use cueloop.Prelude.Maps.{map_of}
use cueloop.Prelude.Keyed.{Apart, Apart-filter, find_holds, map_of-Apart}
use cueloop.Types.{Annotation, SessionHistory}
use cueloop.History.Defs.{ok, Result-cases, path_of}
use cueloop.History.Derive.{DerivedPath, derive_path}
use cueloop.Sharing.PathView.{PathView, annotation_id, without, pick, view_of_path}

abbrev pub same_id : Annotation → Annotation → Bool
same_id a b = annotation_id a == annotation_id b

abbrev pub count : (Annotation → Bool) → List Annotation → ℕ
count p as' = length (filter p as')

without_others :
    (id : String) (xs : List Annotation) → All (λ a. (a.id == id) ≡ false) xs → without id xs ≡ xs
without_others id [] h = refl
without_others id (x ∷ xs) h = ground (arith, without_others id xs h.1)

count-without :
    (p : Annotation → Bool) (id : String) (known : List Annotation) {a : Annotation}
    → Apart same_id known
    → find (λ b. b.id == id) known ≡ some a
    → count p (a ∷ without id known) ≡ count p known
count-without p id [] d h = cc
count-without p id (x ∷ xs) {a} d h = elim (Bool-cases (x.id == id)) [
  | inl t ↦
      let e : x ≡ a = ground arith in
      let others : All (λ y. (y.id == id) ≡ false) xs = All-imp (λ y k. ground arith) xs d.0 in
      ground (arith, without_others id xs others)
  | inr f ↦ ground (arith, count-without p id xs {a = a} d.1)
]

count-pick :
    (p : Annotation → Bool) (known : List Annotation) (ids : List String)
    → Apart same_id known
    → count p (pick known ids).0 + count p (pick known ids).1 ≡ count p known
unfolding pick
count-pick p known [] d = omega arith
count-pick p known (id ∷ ids) d = elim (Option-cases (find (λ a. a.id == id) known)) [
  | inl n ↦ rw (n, pick) (count-pick p known ids d)
  | inr (a, f) ↦
      rw (f, pick)
        (ground (
          arith,
          count-pick p (without id known) ids (Apart-filter same_id _ known d),
          count-without p id known {a = a} d f,
        ))
]

has-without :
    (id i : String) (known : List Annotation)
    → has (map annotation_id (without id known)) i
      ≡ not (id == i) && has (map annotation_id known) i
has-without id i [] = ground arith
has-without id i (x ∷ xs) = ground (arith, has-without id i xs)

find-has :
    (id : String) (known : List Annotation) {a : Annotation}
    → find (λ b. b.id == id) known ≡ some a
    → has (map annotation_id known) id ≡ true
find-has id [] h = cc
find-has id (x ∷ xs) {a} h = ground (arith, find-has id xs {a = a})

none-has :
    (id : String) (known : List Annotation)
    → find (λ b. b.id == id) known ≡ none
    → has (map annotation_id known) id ≡ false
none-has id [] h = refl
none-has id (x ∷ xs) h = ground (arith, none-has id xs)

has-pick :
    (known : List Annotation) (ids : List String) (i : String)
    → has (map annotation_id (pick known ids).0) i ≡ has ids i && has (map annotation_id known) i
unfolding pick
has-pick known [] i = refl
has-pick known (id ∷ ids) i = elim (Option-cases (find (λ a. a.id == id) known)) [
  | inl n ↦ rw (n, pick) (has-pick known ids i ∙ ground (arith, none-has id known n))
  | inr (a, f) ↦
      let e : a.id ≡ id = ground (arith, find_holds (λ (b : Annotation). b.id == id) known f) in
      rw (f, pick)
        (ground (
          arith,
          e,
          has-pick (without id known) ids i,
          has-without id i known,
          find-has id known f,
        ))
]

-- What a view says of the path that it was made from.
pub view_of_path-picks :
    (history : SessionHistory) (known : List Annotation) {view : PathView}
    → view_of_path history known ≡ ok view
    → (derived : DerivedPath) × (derive_path history ≡ ok derived)
      × ((view.annotations, view.shelved_annotations)
          ≡ pick (map_of annotation_id [] known) derived.annotation_ids)
unfolding view_of_path
view_of_path-picks history known {view} h = elim (Result-cases (derive_path history)) [
  | inr (x, e) ↦ absurd (ground arith)
  | inl (derived, d) ↦ elim (Result-cases (path_of history)) [
    | inr (x, e) ↦ absurd (ground arith)
    | inl (path, p) ↦ (derived, d, ground arith)
  ]
]

-- Where the ids of the known comments are distinct, the view of a path neither loses nor doubles
-- one: whatever property the comments are counted by, the shown and the shelved add up.
pub view_of_path-count :
    (history : SessionHistory) (known : List Annotation) {view : PathView} (p : Annotation → Bool)
    → Apart same_id known
    → view_of_path history known ≡ ok view
    → count p view.annotations + count p view.shelved_annotations ≡ count p known
view_of_path-count history known {view} p d h =
    let (derived, _, same) = view_of_path-picks history known {view = view} h in
    let c = count-pick p known derived.annotation_ids d in
    let m = map_of-Apart annotation_id [] known d in ground (arith, same, m, c)

-- Where the ids of the known comments are distinct, the view of a path shows a comment exactly when
-- the path leaves it open and it is known.
pub view_of_path-shows :
    (history : SessionHistory) (known : List Annotation) {view : PathView} {derived : DerivedPath}
    (id : String)
    → Apart same_id known
    → view_of_path history known ≡ ok view
    → derive_path history ≡ ok derived
    → has (map annotation_id view.annotations) id
      ≡ has derived.annotation_ids id && has (map annotation_id known) id
view_of_path-shows history known {view} {derived} id d h k =
    let (derived', e, same) = view_of_path-picks history known {view = view} h in
    let c = has-pick known derived.annotation_ids id in
    let m = map_of-Apart annotation_id [] known d in
    let one : derived' ≡ derived = ground arith in ground (arith, same, m, c, one)
