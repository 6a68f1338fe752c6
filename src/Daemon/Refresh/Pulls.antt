-- ===== src/Daemon/Refresh/Pulls.antt =====
-- The end of a refresh of a pull request: `sessionRefreshPrDiff` of packages/daemon/src/api.ts.
use cueloop.Prelude.{
  ℕ, ◌+◌, Bool, false, not, ◌&&◌, ◌||◌, [], ◌∷◌, ◌++◌, Option, none, some, String, Text, ◌==◌, ◌!=◌,
  string_eq, text_eq, nat_eq, if◌then◌else◌, length,
}
use cueloop.Types.{Thread, ArtifactMeta, EntryBody, EntryAuthor}
use cueloop.History.Defs as H
use cueloop.History.Defs.{main_branch}
use cueloop.Daemon.Core.{Call, ok, ◌>>◌, upsert, emit, stored, is_resolved, session_updated}
use cueloop.Daemon.Entries.{recorded_on, entry}
use cueloop.Daemon.Tracking.{is_set}
use cueloop.Daemon.Refresh.Captures.{live_session, same_option, write_captured}

-- What the pull of a pull request gives.
pub record PrSnapshot : Type 0 where
  pub patch : Text
  pub base_sha : String
  pub head_sha : String

unfoldable pub with_pull : Thread → PrSnapshot → Thread
with_pull s snapshot = record s {
  artifact = record s.artifact {
    content = snapshot.patch;
    meta = record s.artifact.meta {
      pr_base_sha = some snapshot.base_sha;
      pr_head_sha = some snapshot.head_sha;
      pr_refresh_base_sha = none;
      pr_refresh_head_sha = none;
    };
  };
}

abbrev pub is_at : ArtifactMeta → String → String → Bool
is_at meta base head =
    same_option (some base) meta.pr_base_sha && same_option (some head) meta.pr_head_sha

unfoldable pub pulled : String → String → Thread → PrSnapshot → Thread × H.Result Thread
unfolding with_pull
pulled minted now s snapshot =
    let pulled_in : Thread = with_pull s snapshot in
    let grown : Thread = record pulled_in {
      revisions =
          pulled_in.revisions
          ++ record {
            revision = length pulled_in.revisions + 1;
            content = snapshot.patch;
            submitted_at = now;
            source = some (record {
              vcs = "git";
              change_id = none;
              revision_id = some snapshot.head_sha;
              base_revision_id = some snapshot.base_sha;
            });
            files = none;
          }
            ∷ [];
    } in
    if snapshot.patch == s.artifact.content
      && is_at s.artifact.meta snapshot.base_sha snapshot.head_sha
    then (pulled_in, H.ok pulled_in)
    else (
      grown,
      elim (recorded_on minted grown main_branch
          (entry now (EntryBody.revision EntryAuthor.agent snapshot.patch none))) [
            | H.ok (final, _) ↦ H.ok final
            | H.err e ↦ H.err e
          ],
    )

unfoldable pub finish_pr : String → String → String → PrSnapshot → Thread → Call Bool
finish_pr minted now id snapshot s c =
    if not (snapshot.patch != s.artifact.content)
      && is_at s.artifact.meta snapshot.base_sha snapshot.head_sha
      && not (is_set s.artifact.meta.pr_refresh_base_sha)
      && not (is_set s.artifact.meta.pr_refresh_head_sha)
    then (ok false, c)
    else write_captured id (pulled minted now s snapshot) (snapshot.patch != s.artifact.content) c

-- `sessionRefreshPrDiff` after the pull, which gives nothing when the host cannot be reached.
unfoldable pub refresh_pr_finish : String → String → String → ℕ → Option PrSnapshot → Call Bool
refresh_pr_finish minted now id generation none c = (ok false, c)
refresh_pr_finish minted now id generation (some snapshot) c = elim (live_session c id generation) [
  | none ↦ (ok false, c)
  | some s ↦ finish_pr minted now id snapshot s c
]

abbrev pub with_refs : Thread → String → String → Thread
with_refs s base head = record s {
  artifact = record s.artifact {
    meta = record s.artifact.meta {
      pr_refresh_base_sha = some base;
      pr_refresh_head_sha = some head;
    };
  };
}

unfoldable pub mark_in : String → String → String → Thread → Call (Unit {0})
mark_in id base head s c =
    if is_resolved s || not (is_set s.artifact.meta.pr) || is_at s.artifact.meta base head
    then (ok tt, c)
    else (upsert (with_refs s base head) >> emit session_updated id none) c

-- `markPrRefreshAvailable`
unfoldable pub mark_pr_refresh_available : String → String → String → Call (Unit {0})
mark_pr_refresh_available id base head c = elim (stored c id) [
  | none ↦ (ok tt, c)
  | some s ↦ mark_in id base head s c
]
