-- ===== src/History/Valid.antt =====
-- The graph invariants of a history, and that `validateHistory` (packages/schema/src/history.ts)
-- checks them.
use cueloop.Prelude.{
  ◌≡◌, ◌≢◌, ◌↔◌, refl, ◌||◌, true, false, List, [], ◌∷◌, map, Option, none, some, String, string_eq,
  if◌then◌else◌, any, has, All, All-imp, All-of, All-imp2, arith, inl, inr,
}
use cueloop.Types.{SessionEntry, SessionHistory, Dictionary}
use cueloop.History.Defs.{Result-cases, ok, by_id, lookup, main_branch, path_from, is_revision}
use cueloop.History.Validate.{
  Invalid, ◌orelse◌, check_ids, check_parent, check_parents, check_defined, check_tip, check_tips,
  check_walk, check_walks, validate_history,
}
use cueloop.History.Walks.{Walk, rev_onto, path_from-iff_Walk}

abbrev pub ids_of : List SessionEntry → List String
ids_of = map (λ e. e.id)

-- No id stands twice.
abbrev pub Unique : List SessionEntry → Type 0
Unique [] = Unit
Unique (e ∷ es) = All (λ x. e.id ≢ x.id) es × Unique es

abbrev pub ParentExists : List String → SessionEntry → Type 0
ParentExists ids e = (p : String) → e.parent_id ≡ some p → has ids p ≡ true

-- The chain of parents from an id ends at a root.
abbrev pub IsRooted : List SessionEntry → String → Type 0
IsRooted es i = (q : List SessionEntry) × Walk es (by_id es i) q

-- It has a revision on the way.
abbrev pub ReachesRevision : List SessionEntry → String → Type 0
ReachesRevision es i = (q : List SessionEntry) × Walk es (by_id es i) q × (any is_revision q ≡ true)

pub record IsValid (h : SessionHistory) : Type 0 where
  pub unique : Unique h.entries
  pub parents : All (ParentExists (ids_of h.entries)) h.entries
  pub main : lookup main_branch h.tips ≢ none
  pub current : lookup h.branch h.tips ≢ none
  pub tips : All (λ t. (has (ids_of h.entries) t.1 ≡ true) × ReachesRevision h.entries t.1) h.tips
  pub rooted : All (λ e. IsRooted h.entries e.id) h.entries

any-rev_onto :
    (q acc : List SessionEntry)
    → any is_revision (rev_onto q acc) ≡ any is_revision q || any is_revision acc
any-rev_onto [] acc = refl
any-rev_onto (e ∷ q) acc = ground (arith, any-rev_onto q (e ∷ acc))

check_ids_lem :
    (seen : List String) (es : List SessionEntry)
    → (check_ids seen es ≡ none) ↔ (All (λ e. has seen e.id ≡ false) es × Unique es)
unfolding check_ids
check_ids_lem seen es = (to seen es, from seen es)
  where
    to :
        (seen : List String) (es : List SessionEntry)
        → check_ids seen es ≡ none
        → All (λ e. has seen e.id ≡ false) es × Unique es
    to seen [] h = (tt, tt)
    to seen (e ∷ es) h =
        let rest : All (λ x. has (e.id ∷ seen) x.id ≡ false) es × Unique es =
          to (e.id ∷ seen) es (ground arith) in
        (
          (ground arith, All-imp (λ x k. ground arith) es rest.0),
          (All-imp (λ x k q. ground arith) es rest.0, rest.1),
        )

    from :
        (seen : List String) (es : List SessionEntry)
        → All (λ e. has seen e.id ≡ false) es × Unique es
        → check_ids seen es ≡ none
    from seen [] h = refl
    from seen (e ∷ es) h =
        rw h.0.0 (from (e.id ∷ seen) es (All-imp2 (λ x k q. ground arith) es h.0.1 h.1.0, h.1.1))

orelse_none : (a b : Option Invalid) → ((a orelse b) ≡ none) ↔ ((a ≡ none) × (b ≡ none))
orelse_none none b = (λ h. (refl, h), λ h. h.1)
orelse_none (some e) b = (λ h. cc, λ h. cc)

check_parent_lem :
    (ids : List String) (e : SessionEntry) → (check_parent ids e ≡ none) ↔ ParentExists ids e
unfolding check_parent
check_parent_lem ids e = (λ h p q. ground arith, λ h. from e.parent_id h)
  where
    from :
        (o : Option String)
        → ((p : String) → o ≡ some p → has ids p ≡ true)
        → elim o [
          | none ↦ none
          | some p ↦ if has ids p then none else some (Invalid.missing_parent e.id p)
        ]
          ≡ none
    from none k = refl
    from (some p) k = rw (k p refl)

check_parents_lem :
    (ids : List String) (es : List SessionEntry)
    → (check_parents ids es ≡ none) ↔ All (ParentExists ids) es
unfolding check_parents
check_parents_lem ids [] = (λ h. tt, λ h. refl)
check_parents_lem ids (e ∷ es) =
    let o = orelse_none (check_parent ids e) (check_parents ids es) in
    let one = check_parent_lem ids e in
    let rest = check_parents_lem ids es in
    (λ h. (one.0 (o.0 h).0, rest.0 (o.0 h).1), λ h. o.1 (one.1 h.0, rest.1 h.1))

check_defined_lem :
    (tips : Dictionary) (b : String) (e : Invalid)
    → (check_defined tips b e ≡ none) ↔ (lookup b tips ≢ none)
unfolding check_defined
check_defined_lem tips b e = (λ h q. ground arith, λ h. ground arith)

check_tip_lem :
    (h : SessionHistory) (b t : String)
    → (check_tip h (ids_of h.entries) b t ≡ none)
      ↔ ((has (ids_of h.entries) t ≡ true) × ReachesRevision h.entries t)
unfolding check_tip
check_tip_lem h b t = (to, from)
  where
    to :
        check_tip h (ids_of h.entries) b t ≡ none
        → (has (ids_of h.entries) t ≡ true) × ReachesRevision h.entries t
    to k = elim (Result-cases (path_from h t)) [
      | inl (p, e) ↦
          let (q, w, r) = (path_from-iff_Walk h t p).1 e in
          (ground arith, (q, w, ground (arith, any-rev_onto q [])))
      | inr (x, e) ↦ absurd (ground arith)
    ]

    from :
        (has (ids_of h.entries) t ≡ true) × ReachesRevision h.entries t
        → check_tip h (ids_of h.entries) b t ≡ none
    from (k, (q, w, r)) =
        let e : path_from h t ≡ ok (rev_onto q []) =
          (path_from-iff_Walk h t (rev_onto q [])).0 (q, w, refl) in
        ground (arith, any-rev_onto q [])

check_tips_lem :
    (h : SessionHistory) (ts : Dictionary)
    → (check_tips h (ids_of h.entries) ts ≡ none)
      ↔ All (λ t. (has (ids_of h.entries) t.1 ≡ true) × ReachesRevision h.entries t.1) ts
unfolding check_tips
check_tips_lem h [] = (λ h. tt, λ h. refl)
check_tips_lem h ((b, t) ∷ ts) =
    let o = orelse_none (check_tip h (ids_of h.entries) b t) (check_tips h (ids_of h.entries) ts) in
    let one = check_tip_lem h b t in
    let rest = check_tips_lem h ts in
    (λ k. (one.0 (o.0 k).0, rest.0 (o.0 k).1), λ k. o.1 (one.1 k.0, rest.1 k.1))

check_walk_lem :
    (h : SessionHistory) (e : SessionEntry) → (check_walk h e ≡ none) ↔ IsRooted h.entries e.id
unfolding check_walk
check_walk_lem h e = (to, from)
  where
    to : check_walk h e ≡ none → IsRooted h.entries e.id
    to k = elim (Result-cases (path_from h e.id)) [
      | inl (p, ok') ↦ let (q, w, r) = (path_from-iff_Walk h e.id p).1 ok' in (q, w)
      | inr (x, bad) ↦ absurd (ground arith)
    ]

    from : IsRooted h.entries e.id → check_walk h e ≡ none
    from (q, w) = rw ((path_from-iff_Walk h e.id (rev_onto q [])).0 (q, w, refl), check_walk)

check_walks_lem :
    (h : SessionHistory) (es : List SessionEntry)
    → (check_walks h es ≡ none) ↔ All (λ e. IsRooted h.entries e.id) es
unfolding check_walks
check_walks_lem h [] = (λ h. tt, λ h. refl)
check_walks_lem h (e ∷ es) =
    let o = orelse_none (check_walk h e) (check_walks h es) in
    let one = check_walk_lem h e in
    let rest = check_walks_lem h es in
    (λ k. (one.0 (o.0 k).0, rest.0 (o.0 k).1), λ k. o.1 (one.1 k.0, rest.1 k.1))

-- `validateHistory` returns null exactly for the histories that keep the invariants: ids are
-- unique, parents exist, `main` and the current branch have tips, every tip's chain of parents
-- ends and holds a revision, and every entry's chain of parents ends.
pub validate_history-iff_IsValid : (h : SessionHistory) → (validate_history h ≡ none) ↔ IsValid h
unfolding validate_history
validate_history-iff_IsValid h = (to, from)
  where
    ids : List String
    ids = ids_of h.entries

    to : validate_history h ≡ none → IsValid h
    to k =
        let a = (orelse_none _ _).0 k in
        let b = (orelse_none _ _).0 a.1 in
        let c = (orelse_none _ _).0 b.1 in
        let d = (orelse_none _ _).0 c.1 in
        let e = (orelse_none _ _).0 d.1 in
        record {
          unique = ((check_ids_lem [] h.entries).0 a.0).1;
          parents = (check_parents_lem ids h.entries).0 b.0;
          main = (check_defined_lem h.tips main_branch Invalid.no_main).0 c.0;
          current = (check_defined_lem h.tips h.branch (Invalid.no_current h.branch)).0 d.0;
          tips = (check_tips_lem h h.tips).0 e.0;
          rooted = (check_walks_lem h h.entries).0 e.1;
        }

    from : IsValid h → validate_history h ≡ none
    from v = (orelse_none _ _).1 (
      (check_ids_lem [] h.entries).1 (All-of (λ x. refl) h.entries, v.unique),
      (orelse_none _ _).1 (
        (check_parents_lem ids h.entries).1 v.parents,
        (orelse_none _ _).1 (
          (check_defined_lem h.tips main_branch Invalid.no_main).1 v.main,
          (orelse_none _ _).1 (
            (check_defined_lem h.tips h.branch (Invalid.no_current h.branch)).1 v.current,
            (orelse_none _ _).1
                ((check_tips_lem h h.tips).1 v.tips, (check_walks_lem h h.entries).1 v.rooted),
          ),
        ),
      ),
    )
