-- ===== src/Daemon/Retried.antt =====
-- A send that is repeated with its operation id (packages/daemon/src/api.ts,
-- `sessionSendMessage`).
use cueloop.Prelude.{
  ◌≡◌, refl, ◌∙◌, ap, true, false, List, [], ◌∷◌, ◌++◌, Option, none, some, String, ◌==◌, string_eq,
  find, Option-cases, inl, inr, arith, if◌then◌else◌,
}
use cueloop.Types.{Thread, Message, MessageOutcome, SessionHistory, OperationReceipt}
use cueloop.History.Defs.{lookup}
use cueloop.Agents.Receipts as A
use cueloop.Agents.Receipts.{given, listed, find_operation_receipt}
use cueloop.Daemon.Core.{Core, ok, ◌>>=◌, keep, emit, pure, message_sent, stored, is_resolved}
use cueloop.Daemon.Tracking.{reconcile_deliveries, untrack_live_diff_session, is_set}
use cueloop.Daemon.Operations.{answer_waiters}
use cueloop.Daemon.Messages.{
  Services, Sending, Minted, session_send_message, with_message, new_message, message_stored,
  closed, announced, receipt_for, message_fingerprint, message_receipt, replayed_or_sent,
}
use cueloop.Daemon.Sound.{find-put}
use cueloop.Daemon.Sending.{session_send_message-stored, sent}
use cueloop.Daemon.Decided.{session_send_message-message_stored, same_id}

stands_after :
    (minted : Minted) (o : MessageOutcome) (id : String) (final : Thread) (e : Option String)
    (c : Core)
    → final.id ≡ id
    → (((keep final >>= λ _. reconcile_deliveries minted.delivery_id minted.now final >>= λ _.
            emit message_sent id e >>= λ _. announced o id final e >>= λ _. pure final)
          c).0
        ≡ ok final)
      × (stored
            ((keep final >>= λ _. reconcile_deliveries minted.delivery_id minted.now final >>= λ _.
                emit message_sent id e >>= λ _. announced o id final e >>= λ _. pure final)
              c).1
            id
          ≡ some final)
unfolding announced closed reconcile_deliveries untrack_live_diff_session answer_waiters
stands_after minted MessageOutcome.comment id final e c q =
    (refl, find-put final c.sessions id ∙ ground arith)
stands_after minted MessageOutcome.approved id final e c q =
    (refl, find-put final c.sessions id ∙ ground arith)
stands_after minted MessageOutcome.changes_requested id final e c q =
    (refl, find-put final c.sessions id ∙ ground arith)

find_last :
    (id : String) (xs : List (OperationReceipt Message)) (x : OperationReceipt Message)
    → find (λ e. e.operation_id == id) xs ≡ none
    → (x.operation_id == id) ≡ true
    → find (λ e. e.operation_id == id) (xs ++ x ∷ []) ≡ some x
find_last id [] x h k = ground arith
find_last id (y ∷ ys) x h k = ground (arith, find_last id ys x)

find_appended :
    (id : String) (xs : List (OperationReceipt Message)) (x : OperationReceipt Message)
    (operation : Option String)
    → given operation ≡ some id
    → find (λ e. e.operation_id == id) xs ≡ none
    → x.operation_id ≡ id
    → find_operation_receipt message_receipt (some (xs ++ x ∷ [])) operation x.fingerprint
      ≡ A.ok (some x)
unfolding find_operation_receipt
find_appended id xs x operation g h k =
    let found : find (λ e. e.operation_id == id) (xs ++ x ∷ []) ≡ some x =
      find_last id xs x h (ground arith) in
    ground arith

module _ (services : Services) (minted again : Minted) (input : Sending) (c : Core) {s : Thread}
    {h : SessionHistory} {tip op : String} (is_stored : stored c input.session_id ≡ some s)
    (is_pending : is_resolved s ≡ false) (is_operation : given input.operation_id ≡ some op)
    (is_new : receipt_for services input s ≡ A.ok none) (with_tree : s.history ≡ some h)
    (with_tip : lookup h.branch h.tips ≡ some tip) where
  no_receipt : find (λ e. e.operation_id == op) (listed s.message_operations) ≡ none
  unfolding receipt_for find_operation_receipt
  no_receipt =
      elim (Option-cases (find (λ e. e.operation_id == op) (listed s.message_operations))) [
        | inl n ↦ n
        | inr (x, f) ↦ absurd (ground arith)
      ]

  abbrev receipt : OperationReceipt Message
  receipt = record {
    operation_id = op;
    fingerprint = message_fingerprint services input;
    result = new_message services minted s input;
  }

  receipts_after :
      (sent services minted input s h tip).message_operations
      ≡ some (listed s.message_operations ++ receipt ∷ [])
  unfolding sent with_message
  receipts_after = ap (λ (o : Option String). with_receipt o) is_operation
    where
      with_receipt : Option String → Option (List (OperationReceipt Message))
      with_receipt o = elim o [
        | none ↦ s.message_operations
        | some id ↦ some (
            listed s.message_operations
            ++ record {
              operation_id = id;
              fingerprint = message_fingerprint services input;
              result = new_message services minted s input;
            }
              ∷ [])
      ]

  receipt_kept :
      receipt_for services input (sent services minted input s h tip) ≡ A.ok (some receipt)
  unfolding receipt_for
  receipt_kept =
      ap
        (λ ops.
          find_operation_receipt message_receipt ops input.operation_id
            (message_fingerprint services input))
        receipts_after
      ∙ find_appended op (listed s.message_operations) receipt input.operation_id is_operation
          no_receipt refl

  stands :
      stored (session_send_message services minted input c).1 input.session_id
      ≡ some (sent services minted input s h tip)
  unfolding message_stored
  stands =
      let same = same_id services minted input c is_stored is_pending is_new with_tree with_tip in
      let kept =
        (keep
          (if is_set (given input.operation_id) then s else with_message services minted s input)
          c).1 in
      let run =
        session_send_message-message_stored services minted input c is_stored is_pending is_new
          with_tree with_tip in
      ap (λ p. stored p.1 input.session_id) run
      ∙ (stands_after minted input.outcome input.session_id (sent services minted input s h tip)
          (some minted.entry_id) kept same).1

  -- For the first send of an operation id to a stored session that is open, whose history has a
  -- tip on its branch: whatever the outcome, the same send again is answered with the session of
  -- the first reply, and changes nothing: no second message, entry, event or delivery.
  pub session_send_message-again :
      session_send_message services again input (session_send_message services minted input c).1
      ≡ (ok (sent services minted input s h tip), (session_send_message services minted input c).1)
  unfolding replayed_or_sent sent with_message
  session_send_message-again =
      let next = (session_send_message services minted input c).1 in
      session_send_message-stored services again input next stands
      ∙ ap (λ r. replayed_or_sent services again input (sent services minted input s h tip) r next)
          receipt_kept
