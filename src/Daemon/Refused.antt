-- ===== src/Daemon/Refused.antt =====
-- What the daemon refuses (packages/daemon/src/api.ts).
use cueloop.Prelude.{◌≡◌, true, some, String}
use cueloop.Types.{Thread}
use cueloop.Daemon.Core.{
  Core, err, stored, is_resolved, mutable_session, already_resolved, DaemonError,
}
use cueloop.Daemon.Operations.{
  session_annotate, session_remove_annotation, session_set_participant_name,
  session_set_working_copy, session_set_viewed, session_set_title, session_set_shares, annotate_in,
  remove_annotation_in, set_participant_name_in, set_working_copy_in, set_viewed_in, set_title_in,
  set_shares_in,
}
use cueloop.Daemon.Trees.{
  session_navigate, session_branch, session_switch, session_label, session_merge_shared,
  merge_shared_in, navigate_in, branch_in, switch_in, label_in,
}
use cueloop.Daemon.Calls.{mutable_session-resolved, bind-err}
use cueloop.Daemon.Changes.{
  Fresh, Change, apply_change, annotate, remove_annotation, set_participant_name, set_working_copy,
  set_viewed, set_title, set_shares, merge_shared, navigate, start_branch, switch_to, label,
}

module _ (f : Fresh) (id : String) (c : Core) {e : DaemonError}
    (refused : mutable_session id c ≡ (err e, c)) where
  pub apply_change-refused : (change : Change) → apply_change f id change c ≡ (err e, c)
  unfolding apply_change session_annotate session_remove_annotation session_set_participant_name
      session_set_working_copy session_set_viewed session_set_title session_set_shares
      session_navigate session_branch session_switch session_label session_merge_shared
  apply_change-refused (annotate a name) =
      bind-err (mutable_session id) (annotate_in f.minted f.now id a name) c c refused
  apply_change-refused (remove_annotation a author) =
      bind-err (mutable_session id) (remove_annotation_in f.minted f.now id a author) c c refused
  apply_change-refused (set_participant_name author name) =
      bind-err (mutable_session id) (set_participant_name_in id author name) c c refused
  apply_change-refused (set_working_copy copy cuts) =
      bind-err (mutable_session id) (set_working_copy_in f.minted f.now id copy cuts) c c refused
  apply_change-refused (set_viewed paths) =
      bind-err (mutable_session id) (set_viewed_in id paths) c c refused
  apply_change-refused (set_title title) =
      bind-err (mutable_session id) (set_title_in f.trim id title) c c refused
  apply_change-refused (set_shares shares) =
      bind-err (mutable_session id) (set_shares_in id shares) c c refused
  apply_change-refused (merge_shared incoming) =
      bind-err (mutable_session id) (merge_shared_in f.minted_for id incoming) c c refused
  apply_change-refused (navigate entry summary branch) =
      bind-err (mutable_session id) (navigate_in f.minted f.now id entry summary branch) c c refused
  apply_change-refused (start_branch name) =
      bind-err (mutable_session id) (branch_in id name) c c refused
  apply_change-refused (switch_to branch) =
      bind-err (mutable_session id) (switch_in id branch) c c refused
  apply_change-refused (label name) = bind-err (mutable_session id) (label_in id name) c c refused

-- For any fresh ids and time and any stored session that is resolved, a request to annotate it, to
-- remove an annotation, to set its working copy, its viewed files, its title, its shares or a
-- participant's name, to merge shared comments, to navigate, to start, switch or label a branch is
-- answered with the error for a resolved session, and the state of the daemon stays as it is:
-- nothing is written, announced, answered or delivered.
pub apply_change-already_resolved :
    (f : Fresh) (change : Change) (c : Core) (id : String) {s : Thread}
    → stored c id ≡ some s
    → is_resolved s ≡ true
    → apply_change f id change c ≡ (err (already_resolved id), c)
apply_change-already_resolved f change c id q t =
    apply_change-refused f id c (mutable_session-resolved c id q t) change
