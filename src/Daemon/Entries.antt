-- ===== src/Daemon/Entries.antt =====
-- The private methods of `DaemonCore` that write the history of a session
-- (packages/daemon/src/api.ts). Each gives the session that it leaves, or the error that it throws.
use cueloop.Prelude.{
  ℕ, Bool, true, false, ◌&&◌, List, [], ◌∷◌, ◌++◌, Option, none, some, String, Text, ◌==◌, ◌!=◌,
  string_eq, text_eq, if◌then◌else◌, find, filter, any, leb, ltb, length,
}
use cueloop.Agents.Receipts.{given}
use cueloop.Routing.Store.{distinct}
use cueloop.WorkingCopy.Cuts.{slice, apply_text_cuts}
use cueloop.Sharing.Participants.{register_participant, non_blank}
use cueloop.Types.{Thread, SessionHistory, EntryBody, EntryAuthor, TextCut, ShareLink, Annotation}
use cueloop.History.Defs.{Result, ok, ◌>>=◌, main_branch, lookup}
use cueloop.History.Writes.{NewEntry, append_entry, switch_branch}
use cueloop.History.Linear.{with_history}
use cueloop.Sharing.PathView.{view_of_path, apply_path_view, known_annotations, or_else, non_empty}

-- `record`: a session without a head has no history to extend.
unfoldable pub recorded : String → Thread → NewEntry → Result (Thread × Option String)
recorded minted session entry = elim (with_history session).history [
  | none ↦ ok (session, none)
  | some h ↦ do
    (h', e) ← append_entry minted h entry
    ok (record session { history = some h' }, some e.id)
]

-- `recordOn`: on a named branch, leaving the current branch where it is.
unfoldable pub recorded_on : String → Thread → String → NewEntry → Result (Thread × Option String)
recorded_on minted session branch entry = elim (with_history session).history [
  | none ↦ ok (session, none)
  | some h ↦ do
    standing ← switch_branch h branch
    (h', e) ← append_entry minted standing entry
    ok (record session { history = some (record h' { branch = h.branch }) }, some e.id)
]

abbrev pub entry : String → EntryBody → NewEntry
entry now body = record { id = none; created_at = now; body = body }

-- The first half of `applyWorkingCopy`: the session with its copy and its cuts set or cleared.
unfoldable pub with_copy : Thread → Option Text → Option (List TextCut) → Thread
with_copy session copy cuts = record session {
  text_cuts = elim cuts [ none ↦ none | some cs ↦ non_empty cs ];
  working_copy = elim copy [
    | none ↦ none
    | some text ↦ if text == session.artifact.content then none else some text
  ];
}

abbrev pub shown_text : Thread → Text
shown_text session = or_else session.working_copy session.artifact.content

-- `applyWorkingCopy`: the new session is kept when the entry cannot be appended.
unfoldable pub apply_working_copy :
    String
    → String
    → Thread
    → Option Text
    → Option (List TextCut)
    → Thread × Result (Thread × Option String)
unfolding with_copy
apply_working_copy minted now session copy cuts =
    let next = with_copy session copy cuts in
    (
      next,
      if shown_text next == shown_text session
          then ok (next, none)
          else recorded minted next (
              entry now (EntryBody.revision EntryAuthor.reviewer (shown_text next) next.text_cuts)),
    )

-- `refreshView`, without the write to the store.
unfoldable pub refreshed : Thread → SessionHistory → Result Thread
refreshed session history = do
  view ← view_of_path history (known_annotations session)
  ok (apply_path_view (record session { history = some history }) view)

unfoldable pub share_branch_of : Thread → Option String → Option String
share_branch_of session share =
    let link : Option ShareLink = elim share [
      | none ↦ none
      | some id ↦ find (λ l. l.id == id) (or_else session.shares [])
    ] in
    elim share [
      | none ↦ some (existing main_branch)
      | some _ ↦ elim link [
        | none ↦ none
        | some l ↦ some (existing (or_else l.share_branch main_branch))
      ]
    ]
  where
    existing : String → String
    existing branch = elim session.history [
      | none ↦ main_branch
      | some h ↦ elim (lookup branch h.tips) [ none ↦ main_branch | some _ ↦ branch ]
    ]

-- `full`, with the time at which it is made.
abbrev pub at_time : String → Annotation → Annotation
at_time now annotation = record annotation { created_at = now }

-- `session.annotations[existing] = ...`, at the first annotation of the id.
unfoldable pub replace_annotation : Annotation → List Annotation → List Annotation
replace_annotation full [] = []
replace_annotation full (a ∷ as') =
    if a.id == full.id
    then record full { created_at = a.created_at } ∷ as'
    else a ∷ replace_annotation full as'

-- An empty id or name is false.
unfoldable pub with_author : Thread → Option String → Option Text → Thread
with_author session author name = elim (given author) [
  | none ↦ session
  | some a ↦ elim (non_blank name) [
    | none ↦ session
    | some n ↦ register_participant session a (some n) none
  ]
]

-- What `sessionAnnotate` does to the session: what it has written before the entry, then the rest.
unfoldable pub annotated :
    String → String → Thread → Annotation → Option Text → Thread × Result (Thread × Option String)
unfolding with_author
annotated minted now session annotation author_name =
    let full = at_time now annotation in
    let replaced = record session { annotations = replace_annotation full session.annotations } in
    let pushed = record session { annotations = session.annotations ++ full ∷ [] } in
    if any (λ a. a.id == annotation.id) session.annotations
    then (replaced, ok (with_author replaced annotation.author author_name, none))
    else (
      pushed,
      do
        (s, id) ← recorded minted pushed (entry now (EntryBody.comment full.id))
        ok (with_author s annotation.author author_name, id),
    )

abbrev pub shelve : Thread → Annotation → Thread
shelve session target = record session {
  shelved_annotations = some (or_else session.shelved_annotations [] ++ target ∷ []);
}

-- What `sessionRemoveAnnotation` does to the session.
unfoldable pub annotation_removed :
    String → String → Thread → String → Thread × Result (Thread × Option String)
annotation_removed minted now session id =
    let left = record session { annotations = filter (λ a. a.id != id) session.annotations } in
    elim (find (λ a. a.id == id) session.annotations) [
      | none ↦ (left, ok (left, none))
      | some target ↦ (
        shelve left target,
        recorded minted (shelve left target) (entry now (EntryBody.comment_removed id)),
      )
    ]

-- The loop of `assertTextCuts`.
unfoldable pub cuts_match : Text → ℕ → List TextCut → Bool
cuts_match source previous [] = true
cuts_match source previous (cut ∷ cuts) =
    let rest = cuts_match source cut.end cuts in
    leb previous cut.start
    && ltb cut.start cut.end
    && leb cut.end (length source)
    && slice source cut.start cut.end == cut.quote
    && rest

unfoldable pub text_cuts_hold : Text → Option Text → List TextCut → Bool
unfolding cuts_match
text_cuts_hold source copy cuts =
    cuts_match source 0 cuts
    && elim copy [ none ↦ false | some text ↦ apply_text_cuts source cuts == text ]

-- `[...new Set([...(session.viewedPaths ?? []), ...viewedPaths])]`
unfoldable pub viewed : Thread → List String → Thread
viewed session [] = record session { viewed_paths = none }
viewed session (p ∷ ps) = record session {
  viewed_paths = some (distinct [] (or_else session.viewed_paths [] ++ p ∷ ps));
}
