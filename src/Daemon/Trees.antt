-- ===== src/Daemon/Trees.antt =====
-- The operations of `DaemonCore` (packages/daemon/src/api.ts) on the tree of a session: to move
-- through it, to fork it, and to merge what a share has collected.
use cueloop.Prelude.{
  ℕ, suc, List, [], ◌∷◌, map, Option, none, some, String, Text, ◌==◌, string_eq, text_eq, nat_eq,
  if◌then◌else◌, filter, find,
}
use cueloop.Types.{Thread, SessionHistory, SessionEntry, SessionStatus, Annotation, Revision}
use cueloop.History.Defs as H
use cueloop.History.Defs.{lookup, is_revision}
use cueloop.History.Writes.{navigate_to, create_branch, switch_branch, label_tip, fork_history}
use cueloop.Sharing.PathView.{view_of_path, known_annotations, content_of, PathView}
use cueloop.Daemon.Core.{
  Call, ◌>>=◌, ◌>>◌, pure, throw, keep, upsert, emit, session_get, mutable_session, of_history,
  tree, history_of, session_created, session_updated, inbox_changed, not_found,
}
use cueloop.Daemon.Entries.{refreshed, share_branch_of}
use cueloop.Daemon.Merging.{SharedMerge, merged, merge_result}
use cueloop.Daemon.Tracking.{track_live_diff_session}
use cueloop.Daemon.Operations.{schema_version}

-- `refreshView`: the history is written before the view of its path can fail.
unfoldable pub refresh_view : Thread → SessionHistory → Call Thread
refresh_view session history = do
  keep (record session { history = some history })
  shown ← of_history (refreshed session history)
  upsert shown
  pure shown

-- What a move ends with: the view of the moved history is stored and announced.
unfoldable pub show_moved :
    String → Thread → (SessionHistory → Option String) → H.Result SessionHistory → Call Thread
show_moved id session entry_id result = do
  next ← tree result
  shown ← refresh_view session next
  emit session_updated id (entry_id next)
  pure shown

-- The move of `sessionNavigate`.
unfoldable pub moved :
    String
    → String
    → SessionHistory
    → String
    → Option Text
    → Option String
    → H.Result SessionHistory
moved minted now history target summary branch =
    let summary_at : Option (Text × String) = elim summary [
      | none ↦ none
      | some text ↦ some (text, now)
    ] in
    elim branch [
      | none ↦ navigate_to minted history target summary_at
      | some b ↦ elim (switch_branch history b) [
        | H.ok standing ↦ navigate_to minted standing target summary_at
        | H.err e ↦ H.err e
      ]
    ]

-- The id that the event names: the tip, unless it is the target.
abbrev pub moved_entry : SessionHistory → String → Option String
moved_entry h target = elim (lookup h.branch h.tips) [
  | none ↦ none
  | some tip ↦ if tip == target then none else some tip
]

unfoldable pub navigate_in :
    String → String → String → String → Option Text → Option String → Thread → Call Thread
navigate_in minted now id target summary branch session = do
  history ← history_of session
  show_moved id session (λ h. moved_entry h target) (moved minted now history target summary branch)

unfoldable pub session_navigate :
    String → String → String → String → Option Text → Option String → Call Thread
session_navigate minted now id target summary branch =
    mutable_session id >>= navigate_in minted now id target summary branch

unfoldable pub branch_in : String → String → Thread → Call Thread
branch_in id name session = do
  history ← history_of session
  show_moved id session (λ _. none) (create_branch history name)

unfoldable pub session_branch : String → String → Call Thread
session_branch id name = mutable_session id >>= branch_in id name

unfoldable pub switch_in : String → String → Thread → Call Thread
switch_in id branch session = do
  history ← history_of session
  show_moved id session (λ _. none) (switch_branch history branch)

unfoldable pub session_switch : String → String → Call Thread
session_switch id branch = mutable_session id >>= switch_in id branch

unfoldable pub label_in : String → String → Thread → Call Thread
label_in id label session = do
  history ← history_of session
  labelled ← of_history (label_tip history label)
  let final : Thread = record session { history = some labelled }
  upsert final
  emit session_updated id none
  pure final

unfoldable pub session_label : String → String → Call Thread
session_label id label = mutable_session id >>= label_in id label

-- A mark that a comment is addressed follows the text of its revision.
unfoldable pub forked_annotation : Annotation → List Revision → List Revision → Annotation
forked_annotation annotation source fork = elim annotation.resolution [
  | none ↦ annotation
  | some resolution ↦ elim (find (λ r. r.revision == resolution.revision) source) [
    | none ↦ record annotation { resolution = none }
    | some addressed_by ↦ elim (find (λ r. r.content == addressed_by.content) fork) [
      | none ↦ record annotation { resolution = none }
      | some in_fork ↦ record annotation {
        resolution = some (record { revision = in_fork.revision; source = resolution.source });
      }
    ]
  ]
]

-- The revisions of a fork, numbered anew.
unfoldable pub fork_revisions : ℕ → List SessionEntry → List Revision
fork_revisions n [] = []
fork_revisions n (e ∷ es) =
    record {
      revision = n;
      content = content_of e.body;
      submitted_at = e.created_at;
      source = none;
      files = none;
    }
    ∷ fork_revisions (suc n) es

unfoldable pub fork_of : String → String → Thread → SessionHistory → PathView → Thread
fork_of id now source history view =
    let revisions = fork_revisions 1 (filter is_revision history.entries) in
    record {
      schema_version = schema_version;
      id = id;
      workspace = source.workspace;
      artifact = record source.artifact { content = view.content };
      revisions = revisions;
      annotations = map (λ a. forked_annotation a source.revisions revisions) view.annotations;
      history = some history;
      curation = none;
      working_copy = none;
      text_cuts = none;
      viewed_paths = none;
      message_operations = none;
      message = none;
      status = SessionStatus.pending;
      created_at = now;
      shelved_annotations = none;
      parent_session_id = some source.id;
      shares = none;
      participants = source.participants;
      agent_snapshot = none;
    }

unfoldable pub fork_with : String → String → Thread → SessionHistory → PathView → Call Thread
fork_with minted now source forked view = do
  let fork : Thread = fork_of minted now source forked view
  upsert fork
  track_live_diff_session fork
  emit session_created fork.id none
  emit inbox_changed fork.id none
  pure fork

unfoldable pub fork_in : String → String → Thread → Call Thread
fork_in minted now source = do
  history ← history_of source
  forked ← tree (fork_history history)
  view ← of_history (view_of_path forked (known_annotations source))
  fork_with minted now source forked view

unfoldable pub session_fork : String → String → String → Call Thread
session_fork minted now id = session_get id >>= fork_in minted now

abbrev pub branch_or : Option String → Option String → Call String
branch_or none share = throw (not_found (elim share [ none ↦ "" | some id ↦ id ]))
branch_or (some branch) share = pure branch

-- `minted` gives the id of the entry of each comment.
unfoldable pub merge_shared_in : (String → String) → String → SharedMerge → Thread → Call Thread
merge_shared_in minted id incoming session = do
  branch ← branch_or (share_branch_of session incoming.share_id) incoming.share_id
  let (written, result) = merge_result (merged branch minted session incoming) incoming
  keep written
  final ← of_history result
  upsert final
  emit session_updated id none
  pure final

unfoldable pub session_merge_shared : (String → String) → String → SharedMerge → Call Thread
session_merge_shared minted id incoming = mutable_session id >>= merge_shared_in minted id incoming
