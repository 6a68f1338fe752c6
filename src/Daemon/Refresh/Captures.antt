-- ===== src/Daemon/Refresh/Captures.antt =====
-- The start of a refresh, and the end of one of a working tree: `sessionRefreshDiff` of
-- packages/daemon/src/api.ts.
use cueloop.Prelude.{
  ℕ, ◌+◌, Bool, true, false, not, ◌&&◌, ◌||◌, List, [], ◌∷◌, ◌++◌, Option, none, some, String, Text,
  ◌==◌, ◌!=◌, string_eq, text_eq, nat_eq, if◌then◌else◌, find, length,
}
use cueloop.Prelude.Maps.{put}
use cueloop.Types.{Thread, DiffSource, DiffFileContents, Revision, EntryBody, EntryAuthor}
use cueloop.History.Defs as H
use cueloop.History.Defs.{main_branch}
use cueloop.History.Linear.{with_history}
use cueloop.History.Writes.{recapture_main_head}
use cueloop.Agents.Receipts.{given}
use cueloop.Sharing.PathView.{or_else, first_of}
use cueloop.Daemon.Core.{
  Core, Generation, Call, ok, ◌>>=◌, ◌>>◌, pure, keep, upsert, emit, stored, is_resolved,
  mutable_session, of_history, session_updated,
}
use cueloop.Daemon.Entries.{recorded_on, entry}
use cueloop.Daemon.Tracking.{is_diff, is_workbench, is_set}

-- What a capture of a working tree gives.
pub record VcsDiffSnapshot : Type 0 where
  pub vcs : String
  pub patch : Text
  pub files : Option (List DiffFileContents)
  pub source : Option DiffSource

-- The capture that is awaited, and its generation.
pub data Capture : Type 0 where
  change : String → Capture
  working_tree : Capture
  pull_request : String → Capture

pub record Ticket : Type 0 where
  pub generation : ℕ
  pub capture : Capture

abbrev pub generation_id : Generation → String
generation_id g = g.session_id

unfoldable pub generation_of : Core → String → Option ℕ
generation_of c id = elim (find (λ g. generation_id g == id) c.generations) [
  | none ↦ none
  | some g ↦ some g.generation
]

unfoldable pub next_generation : String → Call ℕ
unfolding generation_of
next_generation id c =
    let n = or_else (generation_of c id) 0 + 1 in
    (
      ok n,
      record c {
        generations = put generation_id (record { session_id = id; generation = n }) c.generations;
      },
    )

unfoldable pub pinned_change : Thread → Option String
pinned_change s = if is_workbench s.artifact.meta then none else given s.artifact.meta.vcs_change_id

abbrev pub ticket : String → Capture → Call (Option Ticket)
ticket id capture =
    next_generation id >>= λ n. pure (some (record { generation = n; capture = capture }))

-- `sessionRefreshPrDiff` up to the pull.
unfoldable pub refresh_pr_start : String → Call (Option Ticket)
refresh_pr_start id c = elim (stored c id) [
  | none ↦ (ok none, c)
  | some s ↦ elim (first_of s.artifact.meta.pr_url s.artifact.meta.pr) [
    | none ↦ (ok none, c)
    | some pr ↦
        if is_resolved s || not (is_diff s)
        then (ok none, c)
        else ticket id (Capture.pull_request pr) c
  ]
]

abbrev pub diff_capture : Thread → Capture
diff_capture s = elim (pinned_change s) [
  | none ↦ Capture.working_tree
  | some id ↦ Capture.change id
]

unfoldable pub refresh_in : String → Thread → Call (Option Ticket)
refresh_in id s c =
    if not (is_diff s)
    then (ok none, c)
    else if is_set s.artifact.meta.pr
    then refresh_pr_start id c
    else ticket id (diff_capture s) c

-- `sessionRefreshDiff` up to the capture.
unfoldable pub refresh_diff_start : String → Call (Option Ticket)
refresh_diff_start id = mutable_session id >>= refresh_in id

-- The session that a capture may still write: its generation is the last, and it is open.
unfoldable pub live_session : Core → String → ℕ → Option Thread
live_session c id generation = elim (generation_of c id) [
  | none ↦ none
  | some n ↦ if n != generation then none else elim (stored c id) [
    | none ↦ none
    | some s ↦ if is_resolved s || not (is_diff s) then none else some s
  ]
]

abbrev pub same_option : Option String → Option String → Bool
same_option none none = true
same_option (some a) (some b) = a == b
same_option _ _ = false

abbrev source_change : Option DiffSource → Option String
source_change source = elim source [ none ↦ none | some s ↦ s.change_id ]

abbrev pub source_revision : Option DiffSource → Option String
source_revision source = elim source [ none ↦ none | some s ↦ s.revision_id ]

abbrev captured_source : VcsDiffSnapshot → Option DiffSource
captured_source diff = elim diff.source [
  | none ↦ none
  | some s ↦ some (record {
    vcs = diff.vcs;
    change_id = s.change_id;
    revision_id = s.revision_id;
    base_revision_id = none;
  })
]

unfoldable pub with_capture : Thread → VcsDiffSnapshot → Thread
with_capture s diff = record s {
  artifact = record s.artifact {
    content = diff.patch;
    files = diff.files;
    meta = record s.artifact.meta {
      vcs = some diff.vcs;
      vcs_change_id = source_change diff.source;
      vcs_revision_id = source_revision diff.source;
    };
  };
}

-- `session.revisions.at(-1)` takes the live capture.
unfoldable pub recapture_last : VcsDiffSnapshot → List Revision → List Revision
recapture_last diff [] = []
recapture_last diff (r ∷ []) =
    record r { content = diff.patch; files = diff.files; source = captured_source diff } ∷ []
recapture_last diff (r ∷ q ∷ rs) = r ∷ recapture_last diff (q ∷ rs)

abbrev pinned_revision : String → ℕ → VcsDiffSnapshot → Revision
pinned_revision now number diff = record {
  revision = number;
  content = diff.patch;
  submitted_at = now;
  files = diff.files;
  source = some (record {
    vcs = diff.vcs;
    change_id = source_change diff.source;
    revision_id = source_revision diff.source;
    base_revision_id = none;
  });
}

-- `recordCapturedDiffRevision`, for a capture that has changed: the session that it leaves behind
-- when it fails, and its result.
unfoldable pub record_captured_diff_revision :
    String → String → Thread → VcsDiffSnapshot → Bool → Thread × H.Result Thread
record_captured_diff_revision minted now s diff true =
    let grown : Thread = record s {
      revisions = s.revisions ++ pinned_revision now (length s.revisions + 1) diff ∷ [];
    } in
    (
      grown,
      elim (recorded_on minted grown main_branch
          (entry now (EntryBody.revision EntryAuthor.agent diff.patch none))) [
            | H.ok (final, _) ↦ H.ok final
            | H.err e ↦ H.err e
          ],
    )
record_captured_diff_revision minted now s diff false =
    let live : Thread = record s { revisions = recapture_last diff s.revisions } in
    (
      s,
      elim (with_history s).history [
        | none ↦ H.ok live
        | some h ↦ elim (recapture_main_head h diff.patch) [
          | H.ok h' ↦ H.ok (record live { history = some h' })
          | H.err e ↦ H.err e
        ]
      ],
    )

-- The session is written as far as it goes, stored, and announced.
unfoldable pub write_captured : String → Thread × H.Result Thread → Bool → Call Bool
write_captured id (left, result) changed = do
  keep left
  final ← of_history result
  upsert final
  emit session_updated id none
  pure changed

-- The source or the patch has moved since the session was written.
unfoldable pub finish_diff : String → String → String → Bool → VcsDiffSnapshot → Thread → Call Bool
finish_diff minted now id pinned diff s c =
    if not (diff.patch != s.artifact.content)
      && same_option (source_revision diff.source) s.artifact.meta.vcs_revision_id
    then (ok false, c)
    else write_captured id
        (record_captured_diff_revision minted now (with_capture s diff) diff pinned)
        (diff.patch != s.artifact.content) c

-- `sessionRefreshDiff` after the capture: whether the patch has changed.
unfoldable pub refresh_diff_finish :
    String → String → String → ℕ → Bool → VcsDiffSnapshot → Call Bool
refresh_diff_finish minted now id generation pinned diff c = elim (live_session c id generation) [
  | none ↦ (ok false, c)
  | some s ↦ finish_diff minted now id pinned diff s c
]
