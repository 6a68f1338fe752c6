-- ===== src/History/Moves.antt =====
-- `navigateTo`, `createBranch`, `switchBranch` and `labelTip` of packages/schema/src/history.ts.
use cueloop.Prelude.{
  ◌≡◌, ◌≢◌, refl, sym, ◌∙◌, ap, subst, true, List, [], ◌∷◌, ◌++◌, Option, none, some, String, ◌==◌,
  string_eq, any, has, All, arith, Bool-cases, Option-cases, inl, inr, append-nil, append_assoc,
}
use cueloop.Types.{SessionEntry, SessionHistory}
use cueloop.History.Defs.{ok, by_id, parent_of, lookup, insert, path_from, main_branch, is_revision}
use cueloop.History.Walks.{
  rev_onto-append, Walk, stop, step, IsFound, by_id-IsFound, parent_of-IsFound, rev_onto,
  path_from-iff_Walk,
}
use cueloop.History.Valid.{ids_of, IsRooted, ReachesRevision, IsValid}
use cueloop.History.Growth.{lookup-insert, All-insert, All-by_id}
use cueloop.History.Writes.{after}

rev_onto-rev_onto :
    (q acc : List SessionEntry) → rev_onto (rev_onto q acc) [] ≡ rev_onto acc [] ++ q
rev_onto-rev_onto [] acc = rw append-nil
rev_onto-rev_onto (e ∷ q) acc =
    rev_onto-rev_onto q (e ∷ acc) ∙ rw (rev_onto-append acc [] (e ∷ []), append_assoc)

-- `after` splits the path at the first entry with the id.
after_lem :
    (t : String) (p : List SessionEntry) {ab : List SessionEntry}
    → after t p ≡ some ab
    → (kept : List SessionEntry) × (e : SessionEntry) × (p ≡ kept ++ e ∷ ab) × (e.id ≡ t)
unfolding after
after_lem t [] h = cc
after_lem t (e ∷ p) {ab} h = elim (Bool-cases (e.id == t)) [
  | inl s ↦ ([], e, ground arith, ground arith)
  | inr n ↦
      let (kept, x, q, i) = after_lem t p {ab = ab} (ground arith) in (e ∷ kept, x, ap (◌∷◌ e) q, i)
]

-- The chain of an entry that stands on a chain is what follows it there.
Walk-split :
    {es : List SessionEntry} (a : List SessionEntry) (e : SessionEntry) (b : List SessionEntry)
    {o : Option SessionEntry} {q : List SessionEntry}
    → q ≡ a ++ e ∷ b
    → IsFound es o
    → Walk es o q
    → (by_id es e.id ≡ some e) × Walk es (some e) (e ∷ b)
Walk-split [] e b h f stop = absurd (ground arith)
Walk-split (y ∷ a) e b h f stop = absurd (ground arith)
Walk-split {es} [] e b h f (step {e = x} {p} w) =
    let head : x ≡ e = ground arith in
    let rest : p ≡ b = ground arith in
    (
      subst (λ (z : SessionEntry). by_id es z.id ≡ some z) head f,
      subst (λ (z : SessionEntry). Walk es (some z) (z ∷ b)) head
          (subst (λ (l : List SessionEntry). Walk es (some x) (x ∷ l)) rest (step w)),
    )
Walk-split {es} (y ∷ a) e b h f (step {e = x} w) =
    Walk-split a e b (ground arith) (parent_of-IsFound es x) w

module _ (h : SessionHistory) (from target : String) {path ab : List SessionEntry}
    (on : path_from h from ≡ ok path) (found : after target path ≡ some ab) where
  -- The path to an entry on a path is the part of it up to the entry.
  pub path_from-after :
      (kept : List SessionEntry) × (e : SessionEntry) × (path ≡ kept ++ e ∷ ab)
      × (e.id ≡ target)
      × (path_from h target ≡ ok (kept ++ e ∷ []))
      × (by_id h.entries target ≡ some e)
  path_from-after =
      let (kept, e, split, named) = after_lem target path {ab = ab} found in
      let (q, w, r) = (path_from-iff_Walk h from path).1 on in
      let turned : q ≡ rev_onto ab [] ++ e ∷ rev_onto kept [] =
        sym (rev_onto-rev_onto q [])
        ∙ (ap (λ (l : List SessionEntry). rev_onto l []) (sym r ∙ split) ∙ turn kept e ab []) in
      let (at, v) =
        Walk-split (rev_onto ab []) e (rev_onto kept []) turned (by_id-IsFound h.entries from) w in
      (
        kept,
        e,
        split,
        named,
        (path_from-iff_Walk h target _).0 (
          e ∷ rev_onto kept [],
          subst (λ (o : Option SessionEntry). Walk h.entries o (e ∷ rev_onto kept []))
              (sym at ∙ ap (by_id h.entries) named) v,
          sym (
              rev_onto-append (rev_onto kept []) [] (e ∷ [])
              ∙ ap (λ (l : List SessionEntry). l ++ e ∷ []) (rev_onto-rev_onto kept [])),
        ),
        sym (ap (by_id h.entries) named) ∙ at,
      )
    where
      turn :
          (k : List SessionEntry) (x : SessionEntry) (b acc : List SessionEntry)
          → rev_onto (k ++ x ∷ b) acc ≡ rev_onto b [] ++ x ∷ rev_onto k acc
      turn [] x b acc = rev_onto-append b [] (x ∷ acc)
      turn (y ∷ k) x b acc = turn k x b (y ∷ acc)

-- Every entry with no parent is a revision.
abbrev pub IsGrounded : List SessionEntry → Type 0
IsGrounded es = All (λ e. parent_of es e ≡ none → is_revision e ≡ true) es

-- So every chain holds a revision.
pub Walk-revision :
    {es : List SessionEntry}
    → IsGrounded es
    → {o : Option SessionEntry} {p : List SessionEntry} → IsFound es o
    → o ≢ none
    → Walk es o p
    → any is_revision p ≡ true
Walk-revision g found some_entry stop = absurd (some_entry refl)
Walk-revision {es} g found some_entry (step {e} w) = elim (Option-cases (parent_of es e)) [
  | inl n ↦ rw (All-by_id (λ x. parent_of es x ≡ none → is_revision x ≡ true) es e.id g found n)
  | inr (x, s) ↦ ground (arith, Walk-revision g (parent_of-IsFound es e) (λ q. cc (sym s ∙ q)) w)
]

pub by_id-ne-none :
    (es : List SessionEntry) (i : String) → has (ids_of es) i ≡ true → by_id es i ≢ none
by_id-ne-none [] i h = cc
by_id-ne-none (e ∷ es) i h = ground (arith, by_id-ne-none es i)

pub has_of_by_id :
    (es : List SessionEntry) (i : String) {e : SessionEntry}
    → by_id es i ≡ some e
    → has (ids_of es) i ≡ true
has_of_by_id [] i h = cc
has_of_by_id (x ∷ es) i {e} h = ground (arith, has_of_by_id es i {e = e})

module _ (h : SessionHistory) (v : IsValid h) (g : IsGrounded h.entries) where
  -- A tip may be set to any entry.
  pub insert-IsValid :
      (b t current : String)
      → has (ids_of h.entries) t ≡ true
      → lookup current (insert b t h.tips) ≢ none
      → IsValid (record h { tips = insert b t h.tips; branch = current })
  insert-IsValid b t current k c = record {
    unique = v.unique;
    parents = v.parents;
    main = λ q. v.main (ground (arith, lookup-insert b main_branch t h.tips));
    current = c;
    tips =
        All-insert Good b t h.tips
          (
            k,
            (
              walk.0,
              walk.1,
              Walk-revision g (by_id-IsFound h.entries t) (by_id-ne-none h.entries t k) walk.1,
            ),
          )
          v.tips;
    rooted = v.rooted;
  }
    where
      Good : String → Type 0
      Good i = (has (ids_of h.entries) i ≡ true) × ReachesRevision h.entries i

      rooted_at :
          (es : List SessionEntry)
          → All (λ e. IsRooted h.entries e.id) es
          → has (ids_of es) t ≡ true
          → IsRooted h.entries t
      rooted_at [] r q = cc
      rooted_at (e ∷ es) r q = elim (Bool-cases (e.id == t)) [
        | inl s ↦ subst (IsRooted h.entries) (ground arith) r.0
        | inr n ↦ rooted_at es r.1 (ground arith)
      ]

      walk : IsRooted h.entries t
      walk = rooted_at h.entries v.rooted k
