-- ===== src/Daemon/Operations/Edits.antt =====
-- The edits of a session: `sessionAnnotate`, `sessionRemoveAnnotation` and the setters of
-- packages/daemon/src/api.ts.
use cueloop.Prelude.{
  Bool, true, false, not, List, [], ◌∷◌, Option, none, some, String, Text, ◌==◌, ◌!=◌, string_eq,
  nat_eq, find,
}
use cueloop.Types.{Thread, Annotation, AnnotationTarget, annotation_target, ShareLink, TextCut}
use cueloop.Agents.Receipts.{given}
use cueloop.Sharing.Participants.{register_participant}
use cueloop.Daemon.Core.{
  Call, ◌>>=◌, ◌>>◌, pure, require, upsert, emit, mutable_session, inbox_changed, forbidden,
  invalid_params,
}
use cueloop.Daemon.Entries.{
  annotated, annotation_removed, text_cuts_hold, apply_working_copy, viewed,
}
use cueloop.Daemon.Operations.Sessions.{update, unlogged}

unfoldable pub annotate_in :
    String → String → String → Annotation → Option Text → Thread → Call Thread
annotate_in minted now id annotation author_name session = elim (annotation_target annotation) [
  | AnnotationTarget.welcome ↦ pure session
  | _ ↦ update id (annotated minted now session annotation author_name)
]

unfoldable pub session_annotate : String → String → String → Annotation → Option Text → Call Thread
session_annotate minted now id annotation author_name =
    mutable_session id >>= annotate_in minted now id annotation author_name

-- Whether `onBehalfOf` names another than the author of the comment.
unfoldable pub is_of_another : Thread → String → Option String → Bool
is_of_another session annotation on_behalf_of = elim on_behalf_of [
  | none ↦ false
  | some author ↦ elim (find (λ a. a.id == annotation) session.annotations) [
    | none ↦ false
    | some target ↦ elim target.author [ none ↦ true | some other ↦ other != author ]
  ]
]

unfoldable pub remove_annotation_in :
    String → String → String → String → Option String → Thread → Call Thread
remove_annotation_in minted now id annotation on_behalf_of session = do
  require (not (is_of_another session annotation on_behalf_of)) (forbidden annotation)
  update id (annotation_removed minted now session annotation)

unfoldable pub session_remove_annotation :
    String → String → String → String → Option String → Call Thread
session_remove_annotation minted now id annotation on_behalf_of =
    mutable_session id >>= remove_annotation_in minted now id annotation on_behalf_of

unfoldable pub set_participant_name_in : String → String → Text → Thread → Call Thread
set_participant_name_in id author name session =
    update id (unlogged (register_participant session author (some name) none))

unfoldable pub session_set_participant_name : String → String → Text → Call Thread
session_set_participant_name id author name =
    mutable_session id >>= set_participant_name_in id author name

abbrev pub cuts_refused : Thread → Option Text → Option (List TextCut) → Bool
cuts_refused session copy none = false
cuts_refused session copy (some []) = false
cuts_refused session copy (some (cut ∷ cuts)) =
    not (text_cuts_hold session.artifact.content copy (cut ∷ cuts))

unfoldable pub set_working_copy_in :
    String → String → String → Option Text → Option (List TextCut) → Thread → Call Thread
set_working_copy_in minted now id copy cuts session = do
  require (not (cuts_refused session copy cuts)) invalid_params
  update id (apply_working_copy minted now session copy cuts)

unfoldable pub session_set_working_copy :
    String → String → String → Option Text → Option (List TextCut) → Call Thread
session_set_working_copy minted now id copy cuts =
    mutable_session id >>= set_working_copy_in minted now id copy cuts

unfoldable pub set_viewed_in : String → List String → Thread → Call Thread
set_viewed_in id paths session = update id (unlogged (viewed session paths))

unfoldable pub session_set_viewed : String → List String → Call Thread
session_set_viewed id paths = mutable_session id >>= set_viewed_in id paths

abbrev pub titled : Thread → Option String → Thread
titled s title = record s {
  artifact = record s.artifact { meta = record s.artifact.meta { title = title } };
}

-- `trim` is that of the language.
unfoldable pub set_title_in : (String → String) → String → String → Thread → Call Thread
set_title_in trim id title session = do
  let named : Thread = titled session (given (some (trim title)))
  upsert named
  emit inbox_changed id none
  pure named

unfoldable pub session_set_title : (String → String) → String → String → Call Thread
session_set_title trim id title = mutable_session id >>= set_title_in trim id title

unfoldable pub set_shares_in : String → List ShareLink → Thread → Call Thread
set_shares_in id shares session = update id (unlogged (record session { shares = some shares }))

unfoldable pub session_set_shares : String → List ShareLink → Call Thread
session_set_shares id shares = mutable_session id >>= set_shares_in id shares
