-- ===== src/History/Append.antt =====
-- `appendEntry` of packages/schema/src/history.ts.
use cueloop.Prelude.{
  ◌≡◌, ◌≢◌, refl, sym, true, false, List, [], ◌∷◌, ◌++◌, some, String, string_eq, has, All-imp,
  All-append, All-imp2, arith, Option-cases, inl, inr,
}
use cueloop.Types.{SessionEntry, SessionHistory}
use cueloop.History.Defs.{ok, by_id, lookup, tip_of, path_from, path_of, main_branch}
use cueloop.History.Walks.{rev_onto-append, Walk, rev_onto, path_from-iff_Walk}
use cueloop.History.Valid.{ids_of, ParentExists, IsRooted, ReachesRevision, IsValid}
use cueloop.History.Growth.{
  has-ids, has-append, lookup-insert, All-insert, All-lookup, Walk-append_id, Walk-append_new,
  ParentExists-append, Unique-append_fresh,
}
use cueloop.History.Writes.{NewEntry, new_id, full_entry, with_entry, append_entry}

-- A valid history has a tip, and its entry is there.
pub tip_of-IsValid :
    (h : SessionHistory)
    → IsValid h
    → (t : String) × (tip_of h h.branch ≡ ok t) × (lookup h.branch h.tips ≡ some t)
unfolding tip_of
tip_of-IsValid h v = elim (Option-cases (lookup h.branch h.tips)) [
  | inl n ↦ absurd (v.current n)
  | inr (t, s) ↦ (t, ground arith, s)
]

module _ (h : SessionHistory) (v : IsValid h) (x : SessionEntry) (t : String)
    (tip : lookup h.branch h.tips ≡ some t) (parent : x.parent_id ≡ some t) (named : t ≢ "")
    (fresh : has (ids_of h.entries) x.id ≡ false) where
  tip_good : (has (ids_of h.entries) t ≡ true) × ReachesRevision h.entries t
  tip_good =
      All-lookup (λ i. (has (ids_of h.entries) i ≡ true) × ReachesRevision h.entries i) h.branch
        h.tips v.tips tip

  longer_chain :
      {q : List SessionEntry}
      → Walk h.entries (by_id h.entries t) q
      → Walk (h.entries ++ x ∷ []) (by_id (h.entries ++ x ∷ []) x.id) (x ∷ q)
  longer_chain = Walk-append_new h.entries x fresh v.parents t parent named tip_good.0

  -- `with_entry` keeps the invariants, for an entry with a new id behind the tip.
  pub with_entry-IsValid : IsValid (with_entry h x)
  unfolding with_entry
  with_entry-IsValid = record {
    unique = Unique-append_fresh h.entries x fresh v.unique;
    parents =
        All-append (ParentExists (ids_of es)) h.entries (x ∷ [])
          (All-imp (ParentExists-append h.entries x fresh v.parents) h.entries v.parents)
          (λ p q. rw has-append (ground (arith, tip_good.0)), tt);
    main = λ q. v.main (ground (arith, lookup-insert h.branch main_branch x.id h.tips));
    current = ground (arith, lookup-insert h.branch h.branch x.id h.tips);
    tips = All-insert Good h.branch x.id h.tips new (All-imp (λ i k. old i.1 k) h.tips v.tips);
    rooted =
        All-append (λ e. IsRooted es e.id) h.entries (x ∷ [])
          (All-imp2 (λ e k r. (r.0, Walk-append_id h.entries x fresh v.parents e.id k r.1))
            h.entries (has-ids h.entries) v.rooted)
          ((x ∷ tip_good.1.0, longer_chain tip_good.1.1), tt);
  }
    where
      es : List SessionEntry
      es = h.entries ++ x ∷ []

      Good : String → Type 0
      Good i = (has (ids_of es) i ≡ true) × ReachesRevision es i

      old : (i : String) → (has (ids_of h.entries) i ≡ true) × ReachesRevision h.entries i → Good i
      old i (k, (q, w, r)) = (
        rw (has-append h.entries x i, k),
        (q, Walk-append_id h.entries x fresh v.parents i k w, r),
      )

      new : Good x.id
      new = (
        ground (arith, has-append h.entries x x.id),
        (x ∷ tip_good.1.0, longer_chain tip_good.1.1, ground arith),
      )

  -- The path of the longer history is the path, and the entry behind it.
  pub path_of-with_entry :
      (p : List SessionEntry) × (path_of h ≡ ok p) × (path_of (with_entry h x) ≡ ok (p ++ x ∷ []))
  unfolding path_of tip_of with_entry
  path_of-with_entry =
      let (q, w, r) = tip_good.1 in
      let old : path_from h t ≡ ok (rev_onto q []) = (path_from-iff_Walk h t _).0 (q, w, refl) in
      let new : path_from (with_entry h x) x.id ≡ ok (rev_onto q [] ++ x ∷ []) =
        (path_from-iff_Walk (with_entry h x) x.id _).0
          (x ∷ q, longer_chain w, sym (rev_onto-append q [] (x ∷ []))) in
      (
        rev_onto q [],
        ground (arith, old),
        ground (arith, lookup-insert h.branch h.branch x.id h.tips, new),
      )

-- On a valid history, with an id that is new and a tip that is not the empty id, `appendEntry`
-- succeeds; the result is valid, its entries are the old ones and the new one, and its path is
-- the old path with the new entry behind it.
pub append_entry_lem :
    (minted : String) (h : SessionHistory) (n : NewEntry)
    → IsValid h
    → lookup h.branch h.tips ≢ some ""
    → has (ids_of h.entries) (new_id minted n) ≡ false
    → (h' : SessionHistory) × (e : SessionEntry) × (p : List SessionEntry) × (append_entry minted h
          n
        ≡ ok (h', e))
      × IsValid h'
      × (h'.entries ≡ h.entries ++ e ∷ [])
      × (path_of h ≡ ok p)
      × (path_of h' ≡ ok (p ++ e ∷ []))
unfolding append_entry full_entry with_entry
append_entry_lem minted h n v named fresh =
    let (t, tip, found) = tip_of-IsValid h v in
    let x = full_entry minted t n in
    let some_named : t ≢ "" = λ e. named (ground arith) in
    let (p, old, new) = path_of-with_entry h v x t found refl some_named fresh in
    (
      with_entry h x,
      x,
      p,
      rw tip,
      with_entry-IsValid h v x t found refl some_named fresh,
      refl,
      old,
      new,
    )
