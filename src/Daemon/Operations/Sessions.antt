-- ===== src/Daemon/Operations/Sessions.antt =====
-- Sessions are made, listed, waited for and deleted: `sessionCreate`, `sessionList`, `sessionWait` and
-- `sessionDelete` of packages/daemon/src/api.ts.
use cueloop.Prelude.{
  ℕ, Bool, true, false, not, ◌&&◌, List, [], ◌∷◌, ◌++◌, map, Option, none, some, String, ◌==◌, ◌!=◌,
  string_eq, nat_eq, if◌then◌else◌, filter, any,
}
use cueloop.Prelude.Sort.{to_sorted}
use cueloop.Types.{Thread, WorkspaceKey, Artifact, ArtifactType, SessionStatus, DiffSource}
use cueloop.History.Defs as H
use cueloop.History.Linear.{history_from_linear, not_later}
use cueloop.Agents.Receipts.{given}
use cueloop.Routing.Store.{delete_thread_state}
use cueloop.Daemon.Core.{
  Core, Call, ok, ◌>>=◌, ◌>>◌, pure, keep, upsert, emit, session_get, is_resolved, of_history,
  session_created, session_updated, session_deleted, inbox_changed,
}
use cueloop.Daemon.Tracking.{
  track_live_diff_session, untrack_live_diff_session, reconcile_deliveries,
}

-- What the operations end with: the session is written as far as it goes, stored, and announced.
unfoldable pub update : String → Thread × H.Result (Thread × Option String) → Call Thread
update id (written, result) = do
  keep written
  (session, entry_id) ← of_history result
  upsert session
  emit session_updated id entry_id
  pure session

abbrev pub unlogged : Thread → Thread × H.Result (Thread × Option String)
unlogged session = (session, H.ok (session, none))

-- The source of the first revision.
unfoldable pub first_source : Artifact → Option DiffSource
first_source artifact = elim (given artifact.meta.pr_head_sha) [
  | some head ↦ some (record {
    vcs = "git";
    change_id = none;
    revision_id = some head;
    base_revision_id = artifact.meta.pr_base_sha;
  })
  | none ↦ elim (given artifact.meta.vcs_revision_id) [
    | none ↦ none
    | some revision ↦ elim (given artifact.meta.vcs) [
      | none ↦ none
      | some vcs ↦ some (record {
        vcs = vcs;
        change_id = artifact.meta.vcs_change_id;
        revision_id = some revision;
        base_revision_id = none;
      })
    ]
  ]
]

abbrev pub schema_version : String
schema_version = "1"

unfoldable pub new_session : String → String → WorkspaceKey → Artifact → Thread
unfolding first_source
new_session id now workspace artifact = record {
  schema_version = schema_version;
  id = id;
  workspace = workspace;
  artifact = artifact;
  revisions =
      record {
        revision = 1;
        content = artifact.content;
        submitted_at = now;
        source = first_source artifact;
        files = elim artifact.type [ ArtifactType.diff ↦ artifact.files | _ ↦ none ];
      }
      ∷ [];
  annotations = [];
  history = none;
  curation = none;
  working_copy = none;
  text_cuts = none;
  viewed_paths = none;
  message_operations = none;
  message = none;
  status = SessionStatus.pending;
  created_at = now;
  shelved_annotations = none;
  parent_session_id = none;
  shares = none;
  participants = none;
  agent_snapshot = none;
}

unfoldable pub session_create : String → String → String → WorkspaceKey → Artifact → Call Thread
session_create id minted now workspace artifact = do
  history ← of_history (history_from_linear (new_session id now workspace artifact))
  let session : Thread = record (new_session id now workspace artifact) { history = some history }
  upsert session
  reconcile_deliveries minted now session
  track_live_diff_session session
  emit session_created session.id none
  emit inbox_changed session.id none
  pure session

pub record SessionFilter : Type 0 where
  pub status : Option SessionStatus
  pub repo_root : Option String
  pub branch : Option String

abbrev same_status : SessionStatus → SessionStatus → Bool
same_status SessionStatus.pending SessionStatus.pending = true
same_status SessionStatus.resolved SessionStatus.resolved = true
same_status _ _ = false

unfoldable pub passes : SessionFilter → Thread → Bool
passes f s =
    elim f.status [ none ↦ true | some t ↦ same_status s.status t ]
    && elim (given f.repo_root) [ none ↦ true | some r ↦ s.workspace.repo_root == r ]
    && elim (given f.branch) [ none ↦ true | some b ↦ s.workspace.branch == b ]

-- `ThreadStore.list`
abbrev pub oldest_first : List Thread → List Thread
oldest_first = to_sorted (λ a b. not_later a.created_at b.created_at)

unfoldable pub session_list : SessionFilter → Core → List Thread
session_list f c = filter (passes f) (oldest_first c.sessions)

unfoldable pub has_pending_sessions : Core → Bool
has_pending_sessions c = any (λ s. not (is_resolved s)) (oldest_first c.sessions)

-- The answer, or `none` when the caller is parked under `number`.
unfoldable pub wait_in : String → ℕ → Thread → Call (Option Thread)
wait_in id number current c = if is_resolved current then (ok (some current), c) else (
  ok none,
  record c { waiters = c.waiters ++ record { session_id = id; number = number } ∷ [] },
)

unfoldable pub session_wait : String → ℕ → Call (Option Thread)
session_wait id number = session_get id >>= wait_in id number

-- The timer of a wait: a waiter that is answered is no longer parked.
unfoldable pub wait_timeout : ℕ → Core → Core
wait_timeout number c =
    if any (λ w. w.number == number) c.waiters
    then record c {
      waiters = filter (λ w. w.number != number) c.waiters;
      answered = c.answered ++ record { number = number; session = none } ∷ [];
    }
    else c

-- `this.waiters.delete(id)` and the calls of the parked waiters.
unfoldable pub answer_waiters : String → Option Thread → Call (Unit {0})
answer_waiters id session c = (
  ok tt,
  record c {
    waiters = filter (λ w. w.session_id != id) c.waiters;
    answered =
        c.answered
        ++ map (λ w. record { number = w.number; session = session })
            (filter (λ w. w.session_id == id) c.waiters);
  },
)

abbrev pub forget : String → Call (Unit {0})
forget id c = (
  ok tt,
  record c {
    sessions = filter (λ s. s.id != id) c.sessions;
    generations = filter (λ g. g.session_id != id) c.generations;
    routing = (delete_thread_state c.routing id).0;
  },
)

unfoldable pub delete_in : String → Thread → Call (Unit {0})
delete_in id session = do
  forget id
  untrack_live_diff_session session
  answer_waiters id none
  emit session_deleted id none
  emit inbox_changed id none

unfoldable pub session_delete : String → Call (Unit {0})
session_delete id = session_get id >>= delete_in id
