-- ===== src/Daemon/Ends/Revised.antt =====
-- `sessionSubmitRevision` and `sessionFork` of packages/daemon/src/api.ts keep the invariant.
use cueloop.Prelude.{
  ℕ, ◌+◌, ◌≡◌, refl, ◌∙◌, ap, false, Option, none, some, String, ◌==◌, string_eq, arith, length,
}
use cueloop.Prelude.Keyed.{find_holds}
use cueloop.Types.{Thread, SessionHistory}
use cueloop.History.Defs as H
use cueloop.History.Defs.{main_branch}
use cueloop.History.Writes.{fork_history}
use cueloop.Sharing.PathView.{PathView, view_of_path, known_annotations}
use cueloop.Daemon.Core.{
  Core, Call, ◌>>=◌, ◌>>◌, pure, keep, emit, of_history, tree, stored, is_resolved, session_revised,
  inbox_changed,
}
use cueloop.Daemon.Tracking.{track_live_diff_session}
use cueloop.Daemon.Entries.{recorded_on}
use cueloop.Daemon.Messages.{
  Services, RevisionInput, session_submit_revision, revise_in, with_revision, reopened,
}
use cueloop.Daemon.Trees.{session_fork, fork_in, fork_with, fork_of}
use cueloop.Daemon.Sound.{IsSound, keep-IsSound, keep_same-IsSound}
use cueloop.Daemon.Kept.{session_get-IsSound}
use cueloop.Daemon.Preserved.{history_of-IsSound}

with_revision_same :
    (services : Services) (now : String) (s : Thread) (input : RevisionInput)
    → ((with_revision services now s input).id ≡ s.id)
      × ((with_revision services now s input).status ≡ s.status)
unfolding with_revision
with_revision_same services now s input = (refl, refl)

reopened_open :
    (services : Services) (s : Thread) (n : ℕ) (input : RevisionInput)
    → is_resolved (reopened services s n input) ≡ false
unfolding reopened
reopened_open services s n input = refl

fork_open :
    (minted now : String) (s : Thread) (h : SessionHistory) (view : PathView)
    → is_resolved (fork_of minted now s h view) ≡ false
unfolding fork_of
fork_open minted now s h view = refl

module _ (c : Core) (v : IsSound c) where
  pub session_submit_revision-IsSound :
      (services : Services) (minted now : String) (input : RevisionInput)
      → IsSound (session_submit_revision services minted now input c).1
  unfolding session_submit_revision revise_in
  session_submit_revision-IsSound services minted now input =
      session_get-IsSound c v input.session_id (revise_in services minted now input)
        (λ s q. revised-IsSound s q)
    where
      rest : Thread → H.Result (Thread × Option String) → Call Thread
      rest s r = do
        (logged, e) ← of_history r
        let final : Thread = reopened services logged (length s.revisions + 1) input
        keep final
        emit session_revised input.session_id e
        emit inbox_changed input.session_id none
        pure final

      revised-IsSound :
          (s : Thread)
          → stored c input.session_id ≡ some s
          → IsSound (revise_in services minted now input s c).1
      revised-IsSound s q =
          go (recorded_on minted (with_revision services now s input) main_branch _)
        where
          kept : IsSound (keep (with_revision services now s input) c).1
          kept =
              let same = with_revision_same services now s input in
              keep_same-IsSound c v (with_revision services now s input) s
                (ap (stored c) (
                    same.0
                    ∙ ground (arith, find_holds (λ x. x.id == input.session_id) c.sessions q))
                  ∙ q)
                same.1

          go :
              (r : H.Result (Thread × Option String))
              → IsSound (rest s r (keep (with_revision services now s input) c).1).1
          go (H.err e) = kept
          go (H.ok (logged, e)) =
              let w =
                keep-IsSound (keep (with_revision services now s input) c).1 kept
                  (reopened services logged (length s.revisions + 1) input)
                  (reopened_open services logged _ input) in
              record { distinct = w.distinct; parked = w.parked }

  pub session_fork-IsSound : (minted now id : String) → IsSound (session_fork minted now id c).1
  unfolding session_fork fork_in fork_with track_live_diff_session
  session_fork-IsSound minted now id =
      session_get-IsSound c v id (fork_in minted now) (λ s q. forks s)
    where
      shown : Thread → SessionHistory → H.Result PathView → Call Thread
      shown s forked r = of_history r >>= fork_with minted now s forked

      viewed : Thread → H.Result SessionHistory → Call Thread
      viewed s r = tree r >>= λ forked. shown s forked (view_of_path forked (known_annotations s))

      added :
          (s : Thread) (h : SessionHistory) (view : PathView)
          → IsSound (fork_with minted now s h view c).1
      added s h view =
          let k = keep-IsSound c v (fork_of minted now s h view) (fork_open minted now s h view) in
          record { distinct = k.distinct; parked = k.parked }

      on_view :
          (s : Thread) (h : SessionHistory) (r : H.Result PathView) → IsSound (shown s h r c).1
      on_view s h (H.err e) = v
      on_view s h (H.ok view) = added s h view

      on_fork : (s : Thread) (r : H.Result SessionHistory) → IsSound (viewed s r c).1
      on_fork s (H.err e) = v
      on_fork s (H.ok h) = on_view s h (view_of_path h (known_annotations s))

      forks : (s : Thread) → IsSound (fork_in minted now s c).1
      forks s =
          history_of-IsSound c v id s (λ h. viewed s (fork_history h))
            (λ h. on_fork s (fork_history h))
