-- ===== src/Sharing/Followed.antt =====
-- What a share carries of a Thread (packages/schema/src/path-view.ts).
use cueloop.Prelude.{
  ◌≡◌, ◌≢◌, refl, sym, ◌∙◌, subst, ◌⊎◌, Option-cases, ◌&&◌, map, Option, none, some, String,
  string_eq, has, inl, inr, arith,
}
use cueloop.Prelude.Keyed.{Apart}
use cueloop.Types.{Thread, SessionHistory}
use cueloop.History.Defs.{ok, Result-cases, lookup, main_branch}
use cueloop.History.Derive.{DerivedPath, derive_path}
use cueloop.History.Writes.{follow_branch}
use cueloop.Sharing.PathView.{
  annotation_id, view_of_path, apply_path_view, asked_branch, followed_branch, known_annotations,
  view_following,
}
use cueloop.Sharing.Carried.{IsBranchOf, follow_branch-IsBranchOf}
use cueloop.Sharing.Shown.{same_id, view_of_path-shows, view_of_path-picks}

-- The branch that a share follows: the one asked for, or `main` when it has no tip.
abbrev pub IsChosen : SessionHistory → String → String → Type 0
IsChosen own asked name =
    ((lookup asked own.tips ≢ none) × (name ≡ asked))
    ⊎ ((lookup asked own.tips ≡ none) × (name ≡ main_branch))

-- The record carries the history of the branch that it follows and shows exactly the known comments
-- that the branch's path leaves open.
pub record IsShareOf (session : Thread) (own : SessionHistory) (branch : Option String)
    (shared : Thread) : Type 0 where
  pub history : SessionHistory
  pub derived : DerivedPath
  pub name : String
  pub chosen : IsChosen own (asked_branch session branch) name
  pub followed : IsBranchOf own name history
  pub carried : shared.history ≡ some history
  pub path : derive_path history ≡ ok derived
  pub no_shelf : shared.shelved_annotations ≡ none
  pub shown :
      (id : String)
      → has (map annotation_id shared.annotations) id
        ≡ has derived.annotation_ids id && has (map annotation_id (known_annotations session)) id

followed_branch-IsChosen :
    (own : SessionHistory) (asked : String) → IsChosen own asked (followed_branch own asked)
unfolding followed_branch
followed_branch-IsChosen own asked = elim (Option-cases (lookup asked own.tips)) [
  | inl n ↦ inr (n, rw (n, followed_branch) refl)
  | inr (tip, t) ↦ inl (λ n. cc (sym n ∙ t), rw (t, followed_branch) refl)
]

-- Of a Thread with a history and distinct ids of comments, a share carries the history of the
-- branch that it follows: the chain of parents from the branch's tip, that tip and no other, and
-- the labels of the chain's entries. It shows exactly those known comments that the branch's path
-- leaves open, and carries no shelved comment.
pub view_following-IsShareOf :
    (session shared : Thread) (own : SessionHistory) (branch : Option String)
    → session.history ≡ some own
    → Apart same_id (known_annotations session)
    → view_following session branch ≡ ok shared
    → IsShareOf session own branch shared
unfolding view_following apply_path_view
view_following-IsShareOf session shared own branch h d q =
    elim (Result-cases (follow_branch own (followed_branch own (asked_branch session branch)))) [
      | inr (x, e) ↦ absurd (ground arith)
      | inl (history, f) ↦ elim (Result-cases (view_of_path history (known_annotations session))) [
        | inr (x, e) ↦ absurd (ground arith)
        | inl (view, v) ↦
            let (derived, p, _) =
              view_of_path-picks history (known_annotations session) {view = view} v in
            let same : record (apply_path_view (record session { history = some history }) view) {
              shelved_annotations = none;
            }
                ≡ shared =
              ground arith in
            subst (IsShareOf session own branch) same (record {
              history = history;
              derived = derived;
              name = followed_branch own (asked_branch session branch);
              chosen = followed_branch-IsChosen own (asked_branch session branch);
              followed = follow_branch-IsBranchOf own _ f;
              carried = refl;
              path = p;
              no_shelf = refl;
              shown = λ id.
                  view_of_path-shows history (known_annotations session) {view = view}
                    {derived = derived} id d v p;
            })
      ]
    ]
