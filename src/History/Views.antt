-- ===== src/History/Views.antt =====
-- What navigation, a share and `derivePath` show of a history (packages/schema/src/history.ts).
use cueloop.Prelude.{
  ◌≡◌, ◌≢◌, refl, sym, ◌∙◌, ap, subst, ◌||◌, ◌&&◌, not, Bool, List, [], ◌∷◌, ◌++◌, none, String,
  ◌==◌, string_eq, has, get_last?, arith, Option-cases, inl, inr,
}
use cueloop.Types.{SessionEntry, SessionHistory, EntryBody}
use cueloop.History.Defs.{ok, Result-cases, lookup, insert, tip_of, path_of, path_from, main_branch}
use cueloop.History.Growth.{lookup-insert}
use cueloop.History.Moves.{path_from-after}
use cueloop.History.Steps.{navigate_to-ok}
use cueloop.History.Valid.{validate_history-iff_IsValid}
use cueloop.History.Validate.{validate_history}
use cueloop.History.Derive.{add, delete, open_step, open_from}
use cueloop.History.Writes.{move_tip, summarize, navigate_to, follow_branch}

path_of-tip :
    (h : SessionHistory) (t : String) → tip_of h h.branch ≡ ok t → path_of h ≡ path_from h t
unfolding path_of
path_of-tip h t q = rw (q, path_of)

moved_path :
    (h : SessionHistory) (target : String) → path_of (move_tip h target) ≡ path_from h target
unfolding path_from move_tip tip_of
moved_path h target =
    path_of-tip (record h { tips = insert h.branch target h.tips }) target
      (ground (arith, lookup-insert h.branch h.branch target h.tips))

-- A navigation without a summary that succeeds cuts the path behind its target, and leaves every
-- entry in the tree.
pub navigate_to-path :
    (minted target : String) (h : SessionHistory) {h' : SessionHistory}
    → navigate_to minted h target none ≡ ok h'
    → (kept ab : List SessionEntry) × (e : SessionEntry) × (e.id ≡ target)
      × (path_of h ≡ ok (kept ++ e ∷ ab))
      × (path_of h' ≡ ok (kept ++ e ∷ []))
      × (h'.entries ≡ h.entries)
unfolding summarize move_tip
navigate_to-path minted target h {h'} q =
    let (tip, path, ab, t, other, p, a, r) = navigate_to-ok minted target h none q in
    let (kept, e, split, named, back, at) = path_from-after h tip target p a in
    let moved : move_tip h target ≡ h' = ground arith in
    (
      kept,
      ab,
      e,
      named,
      path_of-tip h tip t ∙ (p ∙ ap ok split),
      subst (λ (k : SessionHistory). path_of k ≡ ok (kept ++ e ∷ [])) moved
          (moved_path h target ∙ back),
      ap (λ (k : SessionHistory). k.entries) (sym moved),
    )

only_tip :
    (h : SessionHistory) (b : String) {h' : SessionHistory}
    → follow_branch h b ≡ ok h'
    → b ≢ main_branch
    → lookup main_branch h'.tips ≡ none
unfolding follow_branch
only_tip h b {h'} f other = elim (Result-cases (tip_of h b)) [
  | inr (x, t) ↦ absurd (ground arith)
  | inl (tip, t) ↦ elim (Result-cases (path_from h tip)) [
    | inr (x, p) ↦ absurd (ground arith)
    | inl (path, p) ↦ elim (Option-cases (get_last? path)) [
      | inl n ↦ absurd (ground arith)
      | inr (last, l) ↦ ground arith
    ]
  ]
]

-- A share that follows a branch other than `main` carries a history that `validateHistory`
-- refuses: its only tip is that branch's.
pub follow_branch-refused :
    (h : SessionHistory) (b : String) {h' : SessionHistory}
    → follow_branch h b ≡ ok h'
    → b ≢ main_branch
    → validate_history h' ≢ none
follow_branch-refused h b {h'} f other q =
    ((validate_history-iff_IsValid h').0 q).main (only_tip h b f other)

-- Whether a comment is open once the entries have been read: it is opened by its `comment` entry
-- and closed by its `comment-removed` entry, and the last of them decides.
abbrev pub said : String → EntryBody → Bool → Bool
said a (EntryBody.comment b) before = b == a || before
said a (EntryBody.comment_removed b) before = not (b == a) && before
said a _ before = before

abbrev pub is_open : String → Bool → List SessionEntry → Bool
is_open a before [] = before
is_open a before (e ∷ es) = is_open a (said a e.body before) es

has-snoc : (ids : List String) (b a : String) → has (ids ++ b ∷ []) a ≡ has ids a || b == a
has-snoc [] b a = ground arith
has-snoc (x ∷ ids) b a = ground (arith, has-snoc ids b a)

has-delete : (ids : List String) (b a : String) → has (delete ids b) a ≡ not (b == a) && has ids a
unfolding delete
has-delete [] b a = ground arith
has-delete (x ∷ ids) b a = ground (arith, has-delete ids b a)

open_step-said :
    (ids : List String) (body : EntryBody) (a : String)
    → has (open_step ids body) a ≡ said a body (has ids a)
unfolding open_step add
open_step-said ids (EntryBody.comment b) a = ground (arith, has-snoc ids b a)
open_step-said ids (EntryBody.comment_removed b) a = has-delete ids b a
open_step-said ids (EntryBody.revision _ _ _) a = refl
open_step-said ids (EntryBody.message _) a = refl
open_step-said ids (EntryBody.branch_summary _ _) a = refl

-- The set of open comments that `derivePath` folds holds an id exactly when the last entry on the
-- path about it opens it.
pub open_from-is_open :
    (ids : List String) (path : List SessionEntry) (a : String)
    → has (open_from ids path) a ≡ is_open a (has ids a) path
unfolding open_from
open_from-is_open ids [] a = refl
open_from-is_open ids (e ∷ es) a =
    open_from-is_open (open_step ids e.body) es a
    ∙ ap (λ (b : Bool). is_open a b es) (open_step-said ids e.body a)
