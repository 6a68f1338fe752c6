-- ===== src/Examples/SharingExamples.antt =====
-- A Thread with one comment on its path (packages/schema/src/path-view.ts,
-- packages/schema/src/participants.ts).
use cueloop.Prelude.{
  ◌+◌, ◌≡◌, refl, [], ◌∷◌, none, some, String, string_dec, text_dec, string_eq, ◌==◌, find,
}
use cueloop.Prelude.Maps.{put, map_of}
use cueloop.Types.{
  Thread, ArtifactType, ArtifactMeta, Annotation, Anchor, EntryBody, EntryAuthor, SessionEntry,
  SessionHistory, SessionStatus, Identity, Provider,
}
use cueloop.History.Defs.{path_of, path_from, walk, tip_of}
use cueloop.History.Derive.{
  derive_path, derive_from, open_from, open_step, add, delete, messages_on,
}
use cueloop.History.Writes.{follow_branch, labels_of}
use cueloop.Sharing.PathView.{
  PathView, pick, view_of_path, apply_path_view, asked_branch, followed_branch, view_following,
}
use cueloop.Sharing.Shown.{count, view_of_path-count}
use cueloop.Sharing.Followed.{IsShareOf, view_following-IsShareOf}
use cueloop.Sharing.Participants.{
  trim_start, trim_end, register_participant, next_identity, replaced, participants_of,
  is_participant, same_identity, register_participant_lem, register_participant-blank_name,
}
use cueloop.Prelude.Keyed.{Apart}

program : Unit {0}
unfolding string_dec text_dec native.Mathlib.Decide.ℕ_discrete put map_of path_of path_from walk
    tip_of derive_path derive_from open_from open_step add delete messages_on follow_branch
    labels_of pick view_of_path apply_path_view asked_branch followed_branch view_following
    trim_start trim_end register_participant next_identity replaced
program = tt

abbrev anchor : Anchor
anchor = record {
  quote = [];
  prefix = [];
  suffix = [];
  block_index = none;
  end_block_index = none;
  start = none;
  end = none;
  selector = none;
}

abbrev pub note : String → Annotation
note id = record {
  id = id;
  kind = "comment";
  anchor = anchor;
  target = none;
  body = [];
  orphan = none;
  author = none;
  review_comment = none;
  reply_to = none;
  resolution = none;
  created_at = "t";
}

abbrev root : SessionEntry
root = record {
  id = "e1";
  parent_id = none;
  created_at = "t1";
  body = EntryBody.revision EntryAuthor.agent (1 ∷ []) none;
}

abbrev commented : SessionEntry
commented = record {
  id = "e2";
  parent_id = some "e1";
  created_at = "t2";
  body = EntryBody.comment "a1";
}

abbrev pub history : SessionHistory
history = record {
  entries = root ∷ commented ∷ [];
  tips = ("main", "e2") ∷ [];
  branch = "main";
  labels = [];
}

abbrev view : PathView
view = record {
  content = 1 ∷ [];
  working_copy = none;
  text_cuts = none;
  annotations = note "a1" ∷ [];
  shelved_annotations = note "a2" ∷ [];
}

view_of_path-count_example :
    count (λ a. a.id == "a1") (note "a1" ∷ []) + count (λ a. a.id == "a1") (note "a2" ∷ [])
    ≡ count (λ a. a.id == "a1") (note "a2" ∷ note "a1" ∷ [])
unfolding program
view_of_path-count_example =
    view_of_path-count history (note "a2" ∷ note "a1" ∷ []) {view = view} (λ a. a.id == "a1")
      ((refl, tt), (tt, tt)) refl

abbrev empty_meta : ArtifactMeta
empty_meta = record {
  workflow = none;
  cwd = none;
  vcs = none;
  vcs_change_id = none;
  vcs_revision_id = none;
  agent = none;
  agent_session_id = none;
  plan_path = none;
  prototype_path = none;
  pr = none;
  pr_brief = none;
  pr_base_sha = none;
  pr_head_sha = none;
  pr_refresh_base_sha = none;
  pr_refresh_head_sha = none;
  pr_url = none;
  herdr_pane = none;
  title = none;
  workbench = none;
  snapshot = none;
}

abbrev pub session : Thread
session = record {
  schema_version = "1";
  id = "t1";
  workspace = record { repo_root = "/"; branch = "main"; root_commit = none; remote = none };
  artifact = record { type = ArtifactType.plan; content = 1 ∷ []; meta = empty_meta; files = none };
  revisions = [];
  annotations = note "a1" ∷ [];
  history = some history;
  curation = none;
  working_copy = none;
  text_cuts = none;
  viewed_paths = none;
  message_operations = none;
  message = none;
  status = SessionStatus.pending;
  created_at = "t1";
  shelved_annotations = some (note "a2" ∷ []);
  parent_session_id = none;
  shares = none;
  participants =
      some
        (record { id = "p1"; provider = Provider.ssh; name = some (65 ∷ []); handle = none } ∷ []);
  agent_snapshot = none;
}

-- A second branch that forks behind the root, and labels on both.
abbrev drafted : SessionEntry
drafted = record {
  id = "e3";
  parent_id = some "e1";
  created_at = "t3";
  body = EntryBody.comment "a2";
}

abbrev branched : SessionHistory
branched = record {
  entries = root ∷ commented ∷ drafted ∷ [];
  tips = ("main", "e2") ∷ ("draft", "e3") ∷ [];
  branch = "main";
  labels = ("e2", "on main") ∷ ("e1", "root") ∷ [];
}

abbrev draft_only : SessionHistory
draft_only = record {
  entries = root ∷ drafted ∷ [];
  tips = ("draft", "e3") ∷ [];
  branch = "draft";
  labels = ("e1", "root") ∷ [];
}

abbrev branched_session : Thread
branched_session = record session { history = some branched }

abbrev draft_share : Thread
draft_share = record session {
  history = some draft_only;
  annotations = note "a2" ∷ [];
  shelved_annotations = none;
}

view_following-IsShareOf_example : IsShareOf branched_session branched (some "draft") draft_share
unfolding program
view_following-IsShareOf_example =
    view_following-IsShareOf branched_session draft_share branched (some "draft") refl
      ((refl, tt), (tt, tt)) refl

register_participant_lem_example :
    let after = participants_of (register_participant session "guest" none none) in
    Apart same_identity after
    × ((next : Identity) × (find (is_participant "guest") after ≡ some next))
    × (find (is_participant "p1") after ≡ find (is_participant "p1") (participants_of session))
register_participant_lem_example =
    register_participant_lem session "guest" "p1" none none (tt, tt) (λ q. cc)

register_participant-blank_name_example :
    (next : Identity) × (find (is_participant "p1") (
        participants_of (
          register_participant session "p1"
            (some (32 ∷ []))
            (some (record { provider = Provider.github; handle = some "h" }))))
      ≡ some next)
    × (next.name ≡ none)
unfolding program
register_participant-blank_name_example =
    register_participant-blank_name session "p1" (32 ∷ [])
      (record { provider = Provider.github; handle = some "h" }) refl refl
