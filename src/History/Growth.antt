-- ===== src/History/Growth.antt =====
-- What an entry behind the last one changes for the chains of parents
-- (`appendEntry` of packages/schema/src/history.ts).
use cueloop.Prelude.{
  ◌≡◌, ◌≢◌, refl, subst, ◌||◌, true, false, List, [], ◌∷◌, ◌++◌, Option, none, some, String, ◌==◌,
  string_eq, if◌then◌else◌, has, All, All-imp, All-append, arith, Bool-cases, Option-cases, inl,
  inr,
}
use cueloop.Types.{SessionEntry, Dictionary}
use cueloop.History.Defs.{by_id, parent_of, lookup, insert}
use cueloop.History.Walks.{Walk, stop, step, IsFound, by_id-IsFound, parent_of-IsFound}
use cueloop.History.Valid.{ids_of, Unique, ParentExists}

pub by_id-append :
    (es : List SessionEntry) (x : SessionEntry) (i : String)
    → by_id (es ++ x ∷ []) i ≡ (if x.id == i then some x else by_id es i)
by_id-append [] x i = refl
by_id-append (e ∷ es) x i = ground (arith, by_id-append es x i)

pub has-append :
    (es : List SessionEntry) (x : SessionEntry) (i : String)
    → has (ids_of (es ++ x ∷ [])) i ≡ has (ids_of es) i || x.id == i
has-append [] x i = ground arith
has-append (e ∷ es) x i = ground (arith, has-append es x i)

pub All-by_id :
    (P : SessionEntry → Type 0) (es : List SessionEntry) (i : String) {e : SessionEntry}
    → All P es
    → by_id es i ≡ some e
    → P e
All-by_id P [] i h q = cc
All-by_id P (x ∷ es) i {e} h q = elim (Option-cases (by_id es i)) [
  | inl n ↦ subst P (ground arith) h.0
  | inr (y, s) ↦ All-by_id P es i h.1 (ground arith)
]

pub lookup-insert :
    (k j v : String) (m : Dictionary)
    → lookup j (insert k v m) ≡ (if k == j then some v else lookup j m)
lookup-insert k j v [] = refl
lookup-insert k j v ((i, w) ∷ m) = ground (arith, lookup-insert k j v m)

pub All-insert :
    (P : String → Type 0) (k v : String) (m : Dictionary)
    → P v
    → All (λ t. P t.1) m
    → All (λ t. P t.1) (insert k v m)
All-insert P k v [] new h = (new, tt)
All-insert P k v ((i, w) ∷ m) new h = elim (Bool-cases (i == k)) [
  | inl s ↦ rw s (new, h.1)
  | inr n ↦ rw n (h.0, All-insert P k v m new h.1)
]

pub All-lookup :
    (P : String → Type 0) (k : String) (m : Dictionary) {v : String}
    → All (λ t. P t.1) m
    → lookup k m ≡ some v
    → P v
All-lookup P k [] h q = cc
All-lookup P k ((i, w) ∷ m) {v} h q = elim (Bool-cases (i == k)) [
  | inl s ↦ subst P (ground arith) h.0
  | inr n ↦ All-lookup P k m h.1 (ground arith)
]

pub has-ids : (es : List SessionEntry) → All (λ e. has (ids_of es) e.id ≡ true) es
has-ids [] = tt
has-ids (e ∷ es) = (ground arith, All-imp (λ y k. ground arith) es (has-ids es))

module _ (es : List SessionEntry) (x : SessionEntry) (fresh : has (ids_of es) x.id ≡ false) where
  pub by_id-append_old :
      (i : String) → has (ids_of es) i ≡ true → by_id (es ++ x ∷ []) i ≡ by_id es i
  by_id-append_old i h = ground (arith, by_id-append es x i)

  pub parent_of-append :
      (e : SessionEntry) → ParentExists (ids_of es) e → parent_of (es ++ x ∷ []) e ≡ parent_of es e
  parent_of-append e k = from e.parent_id k
    where
      from :
          (o : Option String)
          → ((p : String) → o ≡ some p → has (ids_of es) p ≡ true)
          → ◌≡◌ {A = Option SessionEntry}
              (elim o [ none ↦ none | some p ↦ if p == "" then none else by_id (es ++ x ∷ []) p ])
              (elim o [ none ↦ none | some p ↦ if p == "" then none else by_id es p ])
      from none k = refl
      from (some p) k = rw (by_id-append_old p (k p refl))

  module _ (parents : All (ParentExists (ids_of es)) es) where
    pub Walk-append :
        {o : Option SessionEntry} {p : List SessionEntry}
        → IsFound es o
        → Walk es o p
        → Walk (es ++ x ∷ []) o p
    Walk-append found stop = stop
    Walk-append found (step {e} w) = step (
        rw (parent_of-append e (All-by_id (ParentExists (ids_of es)) es e.id parents found))
          (Walk-append (parent_of-IsFound es e) w))

    pub Walk-append_id :
        (i : String) {p : List SessionEntry}
        → has (ids_of es) i ≡ true
        → Walk es (by_id es i) p
        → Walk (es ++ x ∷ []) (by_id (es ++ x ∷ []) i) p
    Walk-append_id i k w = rw (by_id-append_old i k) (Walk-append (by_id-IsFound es i) w)

    -- The new entry's chain is its parent's, with the entry in front.
    pub Walk-append_new :
        (t : String) {p : List SessionEntry}
        → x.parent_id ≡ some t
        → t ≢ ""
        → has (ids_of es) t ≡ true
        → Walk es (by_id es t) p
        → Walk (es ++ x ∷ []) (by_id (es ++ x ∷ []) x.id) (x ∷ p)
    Walk-append_new t {p} e n k w =
        subst (λ (o : Option SessionEntry). Walk (es ++ x ∷ []) o (x ∷ p))
          (ground (arith, by_id-append es x x.id))
          (step (
            subst (λ (o : Option SessionEntry). Walk (es ++ x ∷ []) o p) (ground arith)
              (Walk-append_id t k w)))

    pub ParentExists-append :
        (e : SessionEntry) → ParentExists (ids_of es) e → ParentExists (ids_of (es ++ x ∷ [])) e
    ParentExists-append e k p q = rw (has-append es x p, k p q)

  Unique-append :
      (ys : List SessionEntry) → Unique ys → All (λ y. y.id ≢ x.id) ys → Unique (ys ++ x ∷ [])
  Unique-append [] u h = (tt, tt)
  Unique-append (y ∷ ys) u h =
      (All-append (λ z. y.id ≢ z.id) ys (x ∷ []) u.0 (h.0, tt), Unique-append ys u.1 h.1)

  not-has : (ys : List SessionEntry) → has (ids_of ys) x.id ≡ false → All (λ y. y.id ≢ x.id) ys
  not-has [] h = tt
  not-has (y ∷ ys) h = (ground arith, not-has ys (ground arith))

  pub Unique-append_fresh : Unique es → Unique (es ++ x ∷ [])
  Unique-append_fresh u = Unique-append es u (not-has es fresh)
