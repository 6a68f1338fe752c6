-- ===== src/Sharing/PathView.antt =====
-- packages/schema/src/path-view.ts.
use cueloop.Prelude.{
  Bool, true, false, List, [], ◌∷◌, ◌++◌, Option, none, some, String, Text, ◌==◌, ◌!=◌, string_eq,
  text_eq, if◌then◌else◌, find, filter, get_last?,
}
use cueloop.Prelude.Maps.{map_of}
use cueloop.Types.{Annotation, TextCut, Thread, EntryBody, EntryAuthor, SessionHistory, ShareLink}
use cueloop.History.Defs.{Result, ok, ◌>>=◌, lookup, main_branch, path_of, by_agent}
use cueloop.History.Derive.{derive_path}
use cueloop.History.Writes.{follow_branch}

pub record PathView : Type 0 where
  pub content : Text
  pub working_copy : Option Text
  pub text_cuts : Option (List TextCut)
  pub annotations : List Annotation
  pub shelved_annotations : List Annotation

abbrev pub annotation_id : Annotation → String
annotation_id a = a.id

-- `byId.delete(id)`
abbrev pub without : String → List Annotation → List Annotation
without id known = filter (λ a. a.id != id) known

-- The loop over the ids that the path shows: the comments it pushes, and what is left in `byId`.
unfoldable pub pick : List Annotation → List String → List Annotation × List Annotation
pick known [] = ([], known)
pick known (id ∷ ids) = elim (find (λ a. a.id == id) known) [
  | none ↦ pick known ids
  | some a ↦ let (shown, left) = pick (without id known) ids in (a ∷ shown, left)
]

abbrev pub content_of : EntryBody → Text
content_of (EntryBody.revision _ content _) = content
content_of _ = []

-- The cuts of a head that the reviewer wrote.
abbrev pub cuts_of : EntryBody → Option (List TextCut)
cuts_of (EntryBody.revision EntryAuthor.reviewer _ cuts) = cuts
cuts_of _ = none

unfoldable pub view_of_path : SessionHistory → List Annotation → Result PathView
view_of_path history known = do
  derived ← derive_path history
  path ← path_of history
  let head = content_of derived.head.body
  let content : Text = elim (get_last? (filter by_agent path)) [
    | some e ↦ content_of e.body
    | none ↦ head
  ]
  let picked = pick (map_of annotation_id [] known) derived.annotation_ids
  ok (record {
    content = content;
    working_copy = if head == content then none else some head;
    text_cuts = cuts_of derived.head.body;
    annotations = picked.0;
    shelved_annotations = picked.1;
  })

abbrev pub non_empty {ℓ} : {A : Type ℓ} → List A → Option (List A)
non_empty [] = none
non_empty (x ∷ xs) = some (x ∷ xs)

unfoldable pub apply_path_view : Thread → PathView → Thread
apply_path_view session view = record session {
  artifact = record session.artifact { content = view.content };
  annotations = view.annotations;
  text_cuts = elim view.text_cuts [ none ↦ none | some cuts ↦ non_empty cuts ];
  working_copy = view.working_copy;
  shelved_annotations = non_empty view.shelved_annotations;
}

abbrev pub or_else {ℓ} : {A : Type ℓ} → Option A → A → A
or_else none a = a
or_else (some b) a = b

-- `branch ?? session.shares?.at(-1)?.shareBranch ?? MAIN_BRANCH`
unfoldable pub asked_branch : Thread → Option String → String
asked_branch session (some branch) = branch
asked_branch session none = elim (get_last? (or_else session.shares [])) [
  | none ↦ main_branch
  | some link ↦ or_else link.share_branch main_branch
]

unfoldable pub followed_branch : SessionHistory → String → String
followed_branch history asked = elim (lookup asked history.tips) [
  | none ↦ main_branch
  | some _ ↦ asked
]

abbrev pub known_annotations : Thread → List Annotation
known_annotations session = session.annotations ++ or_else session.shelved_annotations []

unfoldable pub view_following : Thread → Option String → Result Thread
unfolding asked_branch followed_branch apply_path_view
view_following session branch = elim session.history [
  | none ↦ ok session
  | some own ↦ do
    history ← follow_branch own (followed_branch own (asked_branch session branch))
    view ← view_of_path history (known_annotations session)
    ok (record (apply_path_view (record session { history = some history }) view) {
      shelved_annotations = none;
    })
]

-- `SharePolicy & Pick<ShareLink, "shareBranch">`
pub record Publication : Type 0 where
  pub require_auth : Bool
  pub allowlist : List Text
  pub agent_enabled : Option Bool
  pub share_branch : Option String

abbrev pub branch_of : Option SessionHistory → Option String
branch_of none = none
branch_of (some history) = some history.branch

abbrev pub first_of {ℓ} : {A : Type ℓ} → Option A → Option A → Option A
first_of none b = b
first_of (some a) b = some a

abbrev pub published_link : Thread → Thread → Publication → ShareLink
published_link session shared publication = record {
  id = session.id;
  name = none;
  require_auth = publication.require_auth;
  allowlist = if publication.require_auth then publication.allowlist else [];
  agent_enabled = if or_else publication.agent_enabled false then some true else none;
  owner = none;
  share_branch =
      some (or_else (first_of (branch_of shared.history) publication.share_branch) main_branch);
}

unfoldable pub share_publication_view : Thread → Publication → Result Thread
share_publication_view session publication = do
  shared ← view_following session (first_of publication.share_branch (branch_of session.history))
  ok (record shared { shares = some (published_link session shared publication ∷ []) })
