-- ===== src/Daemon/Changes.antt =====
-- Twelve requests that edit an open session, as packages/daemon/src/server.ts hands them to
-- packages/daemon/src/api.ts for the owner. The cuts of blocks and the curation are not modelled.
use cueloop.Prelude.{List, Option, String, Text}
use cueloop.Types.{Thread, Annotation, ShareLink, TextCut}
use cueloop.Daemon.Core.{Call}
use cueloop.Daemon.Merging.{SharedMerge}
use cueloop.Daemon.Operations.{
  session_annotate, session_remove_annotation, session_set_participant_name,
  session_set_working_copy, session_set_viewed, session_set_title, session_set_shares,
}
use cueloop.Daemon.Trees.{
  session_navigate, session_branch, session_switch, session_label, session_merge_shared,
}

pub data Change : Type 0 where
  annotate : Annotation → Option Text → Change
  remove_annotation : String → Option String → Change
  set_participant_name : String → Text → Change
  set_working_copy : Option Text → Option (List TextCut) → Change
  set_viewed : List String → Change
  set_title : String → Change
  set_shares : List ShareLink → Change
  merge_shared : SharedMerge → Change
  navigate : String → Option Text → Option String → Change
  start_branch : String → Change
  switch_to : String → Change
  label : String → Change

-- What a request uses that the program does not compute: the ids that it makes, the present time,
-- and String.prototype.trim.
pub record Fresh : Type 0 where
  pub minted : String
  pub minted_for : String → String
  pub now : String
  pub trim : String → String

unfoldable pub apply_change : Fresh → String → Change → Call Thread
apply_change f id (annotate a name) = session_annotate f.minted f.now id a name
apply_change f id (remove_annotation a author) =
    session_remove_annotation f.minted f.now id a author
apply_change f id (set_participant_name author name) = session_set_participant_name id author name
apply_change f id (set_working_copy copy cuts) =
    session_set_working_copy f.minted f.now id copy cuts
apply_change f id (set_viewed paths) = session_set_viewed id paths
apply_change f id (set_title title) = session_set_title f.trim id title
apply_change f id (set_shares shares) = session_set_shares id shares
apply_change f id (merge_shared incoming) = session_merge_shared f.minted_for id incoming
apply_change f id (navigate entry summary branch) =
    session_navigate f.minted f.now id entry summary branch
apply_change f id (start_branch name) = session_branch id name
apply_change f id (switch_to branch) = session_switch id branch
apply_change f id (label name) = session_label id name
