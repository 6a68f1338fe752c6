-- ===== src/Examples/DaemonExamples.antt =====
-- A daemon with one open review, its waits and its messages (packages/daemon/src/api.ts).
use cueloop.Prelude.{
  Text, List, arith, ℕ, ◌≡◌, refl, true, false, [], ◌∷◌, none, some, string_dec, text_dec,
}
use cueloop.Prelude.Maps.{put, map_of}
use cueloop.Prelude.Sort.{to_sorted}
use cueloop.Types.{Thread, MessageOutcome, SessionStatus, ArtifactType, Annotation}
use cueloop.History.Defs.{tip_of}
use cueloop.History.Writes.{append_entry, with_entry, full_entry}
use cueloop.History.Linear.{with_history}
use cueloop.Agents.Receipts.{find_operation_receipt}
use cueloop.Routing.Store.{submitting_binding, enqueue, persist}
use cueloop.Daemon.Core.{Core, ok, err, session_get, mutable_session, already_resolved}
use cueloop.Daemon.Tracking.{reconcile_deliveries, delivered, untrack_live_diff_session}
use cueloop.Daemon.Entries.{recorded}
use cueloop.Daemon.Operations.{session_wait, wait_in, answer_waiters}
use cueloop.Daemon.Changes.{Fresh, apply_change, set_viewed}
use cueloop.Daemon.Messages.{
  Services, Sending, Minted, session_send_message, send_in, replayed_or_sent, receipt_for,
  with_message, new_message, message_stored, announced, closed, message_fingerprint, undelivered,
  annotation_delivery_fingerprint, all_sent, last_sent,
}
use cueloop.Daemon.Steps.{here, step, run, wait, send}
use cueloop.Daemon.Refresh.{
  VcsDiffSnapshot, Ticket, Capture, refresh_diff_start, refresh_in, refresh_diff_finish,
  next_generation, generation_of, pinned_change,
}
use cueloop.Daemon.Sending.{sent}
use cueloop.Daemon.Sound.{IsSound}
use cueloop.Daemon.Refused.{apply_change-already_resolved}
use cueloop.Daemon.Invariant.{Runs-IsSound}
use cueloop.Daemon.Decided.{IsDecided, session_send_message-IsDecided}
use cueloop.Daemon.Retried.{session_send_message-again}
use cueloop.Daemon.Stale.{refresh_diff_finish-stale}
use cueloop.Anchors.Blocks.{Block, BlockKind, starts_with}
use cueloop.Anchors.Exact.{index_from, index_of}
use cueloop.Anchors.Resolve.{spans_blocks}
use cueloop.Daemon.Messages.{address}
use cueloop.Daemon.Drift.{with_anchors, address_standing}
use cueloop.Examples.SharingExamples.{session, history, note}

program : Unit {0}
unfolding string_dec text_dec native.Mathlib.Decide.ℕ_discrete put map_of to_sorted tip_of
    append_entry with_entry full_entry with_history find_operation_receipt submitting_binding
    enqueue persist session_get mutable_session reconcile_deliveries delivered
    untrack_live_diff_session recorded session_wait wait_in answer_waiters session_send_message
    send_in replayed_or_sent receipt_for with_message new_message message_stored announced closed
    message_fingerprint undelivered annotation_delivery_fingerprint all_sent last_sent run
    refresh_diff_start refresh_in refresh_diff_finish next_generation generation_of pinned_change
program = tt

abbrev services : Services
services = record {
  digest = λ fields. "digest";
  stringify = λ fields. "fields";
  feedback = λ s outcome summary bodies annotations. summary;
  resolves = λ anchor content. true;
}

abbrev fresh : Fresh
fresh = record { minted = "n1"; minted_for = λ id. id; now = "t9"; trim = λ s. s }

abbrev minted : Minted
minted = record { message_id = "m1"; entry_id = "e3"; delivery_id = "d1"; now = "t9" }

abbrev core : Core
core = record {
  sessions = session ∷ [];
  routing = record {
    bindings =
        record {
          id = "b1";
          thread_id = "t1";
          harness = "claude";
          harness_session_id = "h1";
          created_at = "t0";
          approved_retry_message_id = none;
        }
        ∷ [];
    deliveries = [];
    saved = none;
  };
  waiters = record { session_id = "t1"; number = 7 } ∷ [];
  answered = [];
  events = [];
  tracked = [];
  generations = [];
}

core-IsSound : IsSound core
unfolding program
core-IsSound = record { distinct = (tt, tt); parked = (refl, tt) }

abbrev approval : Sending
approval = record {
  session_id = "t1";
  outcome = MessageOutcome.approved;
  summary = 65 ∷ [];
  bodies = none;
  operation_id = some "op1";
}

abbrev closed_session : Thread
closed_session = record session { status = SessionStatus.resolved }

abbrev closed_core : Core
closed_core = record core { sessions = closed_session ∷ []; waiters = [] }

apply_change-already_resolved_example :
    apply_change fresh "t1" (set_viewed ("a.ts" ∷ [])) closed_core
    ≡ (err (already_resolved "t1"), closed_core)
unfolding program
apply_change-already_resolved_example =
    apply_change-already_resolved fresh (set_viewed ("a.ts" ∷ [])) closed_core "t1"
      {s = closed_session} refl refl

session_send_message-IsDecided_example :
    ((session_send_message services minted approval core).0
      ≡ ok (sent services minted approval session history "e2"))
    × IsDecided minted core
        (session_send_message services minted approval core).1
        "t1"
        (new_message services minted session approval)
        (sent services minted approval session history "e2")
unfolding program
session_send_message-IsDecided_example =
    session_send_message-IsDecided services minted approval core {s = session} {h = history}
      {tip = "e2"} refl refl refl refl refl refl

session_send_message-again_example :
    session_send_message services minted approval
      (session_send_message services minted approval core).1
    ≡ (
      ok (sent services minted approval session history "e2"),
      (session_send_message services minted approval core).1,
    )
unfolding program
session_send_message-again_example =
    session_send_message-again services minted minted approval core {s = session} {h = history}
      {tip = "e2"} {op = "op1"} refl refl refl refl refl refl

Runs-IsSound_example :
    IsSound
      (run services fresh minted (send approval) (run services fresh minted (wait "t1" 8) core).1).1
unfolding program
Runs-IsSound_example =
    Runs-IsSound {services = services} {start = core} core-IsSound
      (step (step here fresh minted (wait "t1" 8) refl) fresh minted (send approval) refl)

abbrev diff_session : Thread
diff_session = record session { artifact = record session.artifact { type = ArtifactType.diff } }

abbrev diff_core : Core
diff_core = record core { sessions = diff_session ∷ [] }

abbrev captured : VcsDiffSnapshot
captured = record { vcs = "git"; patch = 66 ∷ []; files = none; source = none }

abbrev tree_ticket : ℕ → Ticket
tree_ticket n = record { generation = n; capture = Capture.working_tree }

abbrev issued : ℕ → Core
issued n = record diff_core { generations = record { session_id = "t1"; generation = n } ∷ [] }

refresh_diff_finish-stale_example :
    refresh_diff_finish "n1" "t9" "t1" 1 false captured (issued 2) ≡ (ok false, issued 2)
unfolding program
refresh_diff_finish-stale_example =
    refresh_diff_finish-stale "n1" "t9" "t1" false captured (tree_ticket 1) (tree_ticket 2)
      diff_core (issued 1) (issued 1) (issued 2) (issued 2) refl refl refl refl

-- A comment on "b", and the content "abc" as one block.
abbrev on_b : Annotation
on_b = record (note "a1") { anchor = record (note "a1").anchor { quote = 98 ∷ [] } }

abbrev one_block : Text → List Block
one_block content =
    record { kind = BlockKind.p; text = content; lang = none; line_start = 0; line_end = 0 } ∷ []

address_standing_example :
    address
      (with_anchors one_block 9 services)
      ("a2" ∷ [])
      ArtifactType.plan
      (97 ∷ 98 ∷ 99 ∷ [])
      2
      on_b
    ≡ on_b
unfolding program starts_with index_from index_of spans_blocks text_dec
address_standing_example =
    address_standing services one_block 9 ("a2" ∷ []) ArtifactType.plan (97 ∷ 98 ∷ 99 ∷ []) 2 on_b 0
      1 (omega arith, tt) refl refl refl (omega arith) (omega arith) refl
