-- ===== src/Daemon/Ends/Sent.antt =====
-- `sessionSendMessage` of packages/daemon/src/api.ts keeps the invariant.
use cueloop.Prelude.{
  ◌≡◌, refl, sym, ◌∙◌, subst, Bool, true, false, Option, none, some, String, ◌==◌, string_eq,
  Option-cases, inl, inr, arith, if◌then◌else◌,
}
use cueloop.Prelude.Keyed.{find_holds}
use cueloop.Types.{Thread, SessionStatus, MessageOutcome, OperationReceipt, Message}
use cueloop.History.Defs as H
use cueloop.History.Defs.{main_branch}
use cueloop.Agents.Receipts as A
use cueloop.Agents.Receipts.{given}
use cueloop.Daemon.Core.{
  Core, Call, Reply, ◌>>=◌, pure, keep, emit, of_history, stored, session_get, mutable_session,
  is_resolved, message_sent,
}
use cueloop.Daemon.Tracking.{reconcile_deliveries, untrack_live_diff_session, is_set}
use cueloop.Daemon.Entries.{recorded}
use cueloop.Daemon.Operations.{answer_waiters}
use cueloop.Daemon.Messages.{
  Services, Sending, Minted, session_send_message, send_in, replayed_or_sent, receipt_for,
  with_message, message_stored, announced, closed, is_comment,
}
use cueloop.Daemon.Calls.{bind-ok, bind-err, mutable_session-cases, session_get-none}
use cueloop.Daemon.Stay.{KeepsStatus, KeepsId, recorded-KeepsStatus, recorded-id}
use cueloop.Daemon.Sound.{IsSound, keep-IsSound, after}
use cueloop.Daemon.Parting.{IsSoundBut, IsSoundBut-IsSound, keep-IsSoundBut, answer_waiters-IsSound}
use cueloop.Daemon.Sending.{session_send_message-stored}
use cueloop.Daemon.Preserved.{open_of}
use cueloop.Daemon.Steps.{is_crash}

abbrev stored_then : Minted → String → Thread → Option String → Call (Unit {0}) → Call Thread
stored_then minted id final e say = keep final >>= λ _.
    reconcile_deliveries minted.delivery_id minted.now final >>= λ _.
    emit message_sent id e >>= λ _. say >>= λ _. pure final

closed-IsSound :
    (minted : Minted) (id : String) (final : Thread) (e : Option String) (c : Core)
    → final.id ≡ id
    → IsSoundBut id c
    → IsSound (stored_then minted id final e (closed id final) c).1
unfolding closed reconcile_deliveries untrack_live_diff_session answer_waiters
closed-IsSound minted id final e c q but =
    let k = keep-IsSoundBut id c final q but in
    let v = answer_waiters-IsSound id (keep final c).1 none k in
    record { distinct = v.distinct; parked = v.parked }

-- The message is stored while the session may already count as resolved.
message_stored-IsSound :
    (minted : Minted) (id : String) (final : Thread) (e : Option String) (c : Core)
    → final.id ≡ id
    → IsSoundBut id c
    → (o : MessageOutcome) → (is_comment o ≡ true → IsSound (keep final c).1)
    → IsSound (stored_then minted id final e (announced o id final e) c).1
unfolding announced reconcile_deliveries
message_stored-IsSound minted id final e c q but MessageOutcome.comment still =
    let v = still refl in record { distinct = v.distinct; parked = v.parked }
message_stored-IsSound minted id final e c q but MessageOutcome.approved still =
    closed-IsSound minted id final e c q but
message_stored-IsSound minted id final e c q but MessageOutcome.changes_requested still =
    closed-IsSound minted id final e c q but

module _ (services : Services) (minted : Minted) (input : Sending) (c : Core) (v : IsSound c) where
  module _ (s : Thread) (q : stored c input.session_id ≡ some s) (o : is_resolved s ≡ false) where
    abbrev written : Thread
    written = with_message services minted s input

    abbrev first_kept : Thread
    first_kept = if is_set (given input.operation_id) then s else written

    named : s.id ≡ input.session_id
    named = ground (arith, find_holds (λ x. x.id == input.session_id) c.sessions q)

    written_pending : is_comment input.outcome ≡ true → written.status ≡ SessionStatus.pending
    unfolding with_message
    written_pending d = rw d refl

    written_named : written.id ≡ input.session_id
    unfolding with_message
    written_named = named

    first_named : first_kept.id ≡ input.session_id
    first_named = go (is_set (given input.operation_id))
      where
        go : (b : Bool) → (if b then s else written).id ≡ input.session_id
        go true = named
        go false = written_named

    first_pending : is_comment input.outcome ≡ true → is_resolved first_kept ≡ false
    first_pending d = go (is_set (given input.operation_id))
      where
        go : (b : Bool) → is_resolved (if b then s else written) ≡ false
        go true = o
        go false = open_of written (written_pending d)

    send_in-IsSound :
        is_crash (send_in services minted input s c).0 ≡ false
        → IsSound (send_in services minted input s c).1
    unfolding send_in message_stored
    send_in-IsSound alive =
        go (recorded minted.entry_id written _) (recorded-KeepsStatus minted.entry_id written _)
          (recorded-id minted.entry_id written _) alive
      where
        rest : H.Result (Thread × Option String) → Call Thread
        rest r = of_history r >>= λ p. message_stored minted input p.0 p.1

        go :
            (r : H.Result (Thread × Option String))
            → KeepsStatus written.status r
            → KeepsId written.id r
            → is_crash (rest r (keep first_kept c).1).0 ≡ false
            → IsSound (rest r (keep first_kept c).1).1
        go (H.err e) st i alive = cc
        go (H.ok (final, e)) st i alive =
            message_stored-IsSound minted input.session_id final e (keep first_kept c).1
              (i ∙ written_named)
              (keep-IsSoundBut input.session_id c first_kept first_named
                (IsSoundBut-IsSound input.session_id c v))
              input.outcome
              (λ d.
                keep-IsSound (keep first_kept c).1 (keep-IsSound c v first_kept (first_pending d))
                  final (open_of final (st ∙ written_pending d)))

  sent-IsSound :
      (s : Thread) (r : A.Result (Option (OperationReceipt Message)))
      → is_crash (replayed_or_sent services minted input s r c).0 ≡ false
      → IsSound (replayed_or_sent services minted input s r c).1
  unfolding replayed_or_sent
  sent-IsSound s (A.err A.operation_conflict) alive = v
  sent-IsSound s (A.err A.operation_capacity) alive = v
  sent-IsSound s (A.err A.invalid_params) alive = v
  sent-IsSound s (A.ok (some r)) alive = v
  sent-IsSound s (A.ok none) alive =
      let send : Call Thread = mutable_session input.session_id >>= send_in services minted input in
      elim (mutable_session-cases c input.session_id) [
        | inl (e, r) ↦
            after c v
              (sym
                (bind-err (mutable_session input.session_id) (send_in services minted input) c c r))
              v
        | inr (t, q, o, r) ↦
            let run : send c ≡ send_in services minted input t c =
              bind-ok (mutable_session input.session_id) (send_in services minted input) c c r in
            after c v (sym run) (
              send_in-IsSound t q o
                (subst (λ (p : Reply Thread × Core). is_crash p.0 ≡ false) run alive))
      ]

  pub session_send_message-IsSound :
      is_crash (session_send_message services minted input c).0 ≡ false
      → IsSound (session_send_message services minted input c).1
  unfolding session_send_message
  session_send_message-IsSound alive = elim (Option-cases (stored c input.session_id)) [
    | inl n ↦
        after c v
          (sym (
            bind-err (session_get input.session_id) to c c (session_get-none c input.session_id n)))
          v
    | inr (s, q) ↦
        let run = session_send_message-stored services minted input c q in
        after c v (sym run) (
          sent-IsSound s (receipt_for services input s)
            (subst (λ (p : Reply Thread × Core). is_crash p.0 ≡ false) run alive))
  ]
    where
      to : Thread → Call Thread
      to current =
          replayed_or_sent services minted input current (receipt_for services input current)
