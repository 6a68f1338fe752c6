-- ===== src/Daemon/Steps.antt =====
-- The daemon as a state machine: the requests and the timers of packages/daemon/src/api.ts, one at
-- a time, in any order. The captures of a hot reload are two events, between which others come.
use cueloop.Prelude.{ℕ, Bool, true, false, Option, String, Text, ◌≡◌}
use cueloop.Types.{WorkspaceKey, Artifact}
use cueloop.Routing.Store.{BindInput}
use cueloop.Daemon.Core.{Core, Call, Reply, ok, err, ◌>>◌, pure, uncaught}
use cueloop.Daemon.Operations.{session_create, session_wait, wait_timeout, session_delete}
use cueloop.Daemon.Changes.{Fresh, Change, apply_change}
use cueloop.Daemon.Messages.{
  Services, Sending, Minted, RevisionInput, session_send_message, session_submit_revision,
}
use cueloop.Daemon.Trees.{session_fork}
use cueloop.Daemon.Harness.{harness_bind, harness_consume_approved_retry, delivery_acknowledge}
use cueloop.Daemon.Refresh.{
  VcsDiffSnapshot, PrSnapshot, refresh_diff_start, refresh_pr_start, refresh_diff_finish,
  refresh_pr_finish, mark_pr_refresh_available,
}

pub data Event : Type 0 where
  create : WorkspaceKey → Artifact → Event
  change : String → Change → Event
  send : Sending → Event
  revise : RevisionInput → Event
  fork : String → Event
  delete : String → Event
  wait : String → ℕ → Event
  timeout : ℕ → Event
  refresh_diff : String → Event
  refresh_pr : String → Event
  captured : String → ℕ → Bool → VcsDiffSnapshot → Event
  pulled : String → ℕ → Option PrSnapshot → Event
  moved_refs : String → String → String → Event
  bind : BindInput → Event
  retry : String → String → Text → Event
  acknowledge : String → Event

abbrev pub done : {A : Type 0} → Call A → Call (Unit {0})
done m = m >> pure tt

-- `fresh` has the id and the times of the event, `minted` those of the message and the delivery
-- that it may make.
unfoldable pub run : Services → Fresh → Minted → Event → Call (Unit {0})
run services fresh minted (create workspace artifact) =
    done (session_create fresh.minted minted.delivery_id fresh.now workspace artifact)
run services fresh minted (change id edit) = done (apply_change fresh id edit)
run services fresh minted (send input) = done (session_send_message services minted input)
run services fresh minted (revise input) =
    done (session_submit_revision services fresh.minted fresh.now input)
run services fresh minted (fork id) = done (session_fork fresh.minted fresh.now id)
run services fresh minted (delete id) = session_delete id
run services fresh minted (wait id number) = done (session_wait id number)
run services fresh minted (timeout number) = λ c. (ok tt, wait_timeout number c)
run services fresh minted (refresh_diff id) = done (refresh_diff_start id)
run services fresh minted (refresh_pr id) = done (refresh_pr_start id)
run services fresh minted (captured id generation pinned diff) =
    done (refresh_diff_finish fresh.minted fresh.now id generation pinned diff)
run services fresh minted (pulled id generation snapshot) =
    done (refresh_pr_finish fresh.minted fresh.now id generation snapshot)
run services fresh minted (moved_refs id base head) = mark_pr_refresh_available id base head
run services fresh minted (bind input) =
    done (harness_bind fresh.minted minted.delivery_id fresh.now input)
run services fresh minted (retry id message content) =
    done (harness_consume_approved_retry id message content)
run services fresh minted (acknowledge id) = done (delivery_acknowledge fresh.now id)

-- An error of the history that nothing has caught.
abbrev pub is_crash : {A : Type 0} → Reply A → Bool
is_crash (ok a) = false
is_crash (err (uncaught e)) = true
is_crash (err e) = false

-- The states that events lead to from a start, as long as none of them fails with an uncaught
-- error of the history.
pub data Runs (services : Services) (start : Core) : Core → Type 0 where
  here : Runs services start start
  step :
      {c : Core}
      → Runs services start c
      → (fresh : Fresh) → (minted : Minted) → (event : Event)
      → is_crash (run services fresh minted event c).0 ≡ false
      → Runs services start (run services fresh minted event c).1
