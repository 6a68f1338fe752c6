-- ===== src/Daemon/Messages/Sends.antt =====
-- `sessionSendMessage` of packages/daemon/src/api.ts.
use cueloop.Prelude.{
  Bool, true, false, not, ◌&&◌, List, [], ◌∷◌, ◌++◌, Option, none, some, String, Text, ◌==◌, ◌!=◌,
  string_eq, if◌then◌else◌, filter,
}
use cueloop.Prelude.Sort.{to_sorted}
use cueloop.Types.{
  Thread, Annotation, Anchor, AnnotationTarget, ReviewComment, MessageOutcome, Message, EntryBody,
  OperationReceipt, SessionStatus, SessionEntry, is_addressed,
}
use cueloop.History.Linear.{not_later}
use cueloop.Agents.Receipts as A
use cueloop.Agents.Receipts.{Field, find_operation_receipt, listed, given}
use cueloop.Sharing.PathView.{or_else}
use cueloop.Daemon.Core.{
  Call, ◌>>=◌, ◌>>◌, pure, throw, keep, upsert, emit, session_get, mutable_session, of_history,
  message_sent, session_updated, inbox_changed, operation_conflict, operation_capacity,
  invalid_params,
}
use cueloop.Daemon.Entries.{recorded, entry}
use cueloop.Daemon.Tracking.{untrack_live_diff_session, reconcile_deliveries, is_set}
use cueloop.Daemon.Operations.{answer_waiters}

-- The fields of `annotationDeliveryFingerprint`.
pub record DeliveryFields : Type 0 where
  pub kind : String
  pub anchor : Anchor
  pub target : Option AnnotationTarget
  pub body : Text
  pub author : Option String
  pub review_comment : Option ReviewComment
  pub reply_to : Option String

pub record Services : Type 0 where
  pub digest : List Field → String
  pub stringify : DeliveryFields → String
  pub feedback : Thread → MessageOutcome → Text → List (String × Text) → List Annotation → Text
  pub resolves : Anchor → Text → Bool

abbrev pub delivery_fields : Annotation → DeliveryFields
delivery_fields a = record {
  kind = a.kind;
  anchor = a.anchor;
  target = a.target;
  body = a.body;
  author = a.author;
  review_comment = a.review_comment;
  reply_to = a.reply_to;
}

abbrev pub outcome_name : MessageOutcome → String
outcome_name MessageOutcome.comment = "comment"
outcome_name MessageOutcome.approved = "approved"
outcome_name MessageOutcome.changes_requested = "changes_requested"

abbrev pub sent_in : SessionEntry → List Annotation
sent_in e = elim e.body [ EntryBody.message m ↦ or_else m.annotations [] | _ ↦ [] ]

unfoldable pub all_sent : List SessionEntry → List Annotation
all_sent [] = []
all_sent (e ∷ es) = sent_in e ++ all_sent es

-- `sentAnnotations.get(id)`: the last message that carries the annotation wins.
unfoldable pub last_sent : List Annotation → String → Option Annotation
last_sent [] id = none
last_sent (a ∷ as') id = elim (last_sent as' id) [
  | some later ↦ some later
  | none ↦ if a.id == id then some a else none
]

abbrev pub sent_annotations : Thread → List Annotation
sent_annotations s = elim s.history [ none ↦ [] | some h ↦ all_sent h.entries ]

abbrev pub by_key : String × Text → String × Text → Bool
by_key a b = not_later a.0 b.0

abbrev pub is_comment : MessageOutcome → Bool
is_comment outcome = elim outcome [ MessageOutcome.comment ↦ true | _ ↦ false ]

abbrev pub message_receipt : OperationReceipt Message → OperationReceipt Message
message_receipt r = r

pub record Sending : Type 0 where
  pub session_id : String
  pub outcome : MessageOutcome
  pub summary : Text
  pub bodies : Option (List (String × Text))
  pub operation_id : Option String

-- The ids and the time that a send makes.
pub record Minted : Type 0 where
  pub message_id : String
  pub entry_id : String
  pub delivery_id : String
  pub now : String

-- A resolved session is no longer followed, and those who wait for it are answered.
unfoldable pub closed : String → Thread → Call (Unit {0})
closed id session = do
  untrack_live_diff_session session
  answer_waiters id (some session)
  emit inbox_changed id none

-- Only a message that decides ends the review.
unfoldable pub announced : MessageOutcome → String → Thread → Option String → Call (Unit {0})
announced MessageOutcome.comment id session entry_id = emit session_updated id entry_id
announced MessageOutcome.approved id session entry_id = closed id session
announced MessageOutcome.changes_requested id session entry_id = closed id session

-- What follows the entry.
unfoldable pub message_stored : Minted → Sending → Thread → Option String → Call Thread
message_stored minted input session entry_id = do
  upsert session
  reconcile_deliveries minted.delivery_id minted.now session
  emit message_sent input.session_id entry_id
  announced input.outcome input.session_id session entry_id
  pure session

module _ (services : Services) where
  unfoldable pub annotation_delivery_fingerprint : Option Annotation → String
  annotation_delivery_fingerprint none = ""
  annotation_delivery_fingerprint (some a) = services.stringify (delivery_fields a)

  unfoldable pub message_fingerprint : Sending → String
  message_fingerprint input = services.digest (
      Field.name (outcome_name input.outcome)
      ∷ Field.text input.summary
      ∷ Field.pairs (to_sorted by_key (or_else input.bodies []))
      ∷ [])

  -- The open comments that are new or edited since they were sent.
  unfoldable pub undelivered : Thread → List Annotation
  undelivered s =
      filter
        (λ a.
          not (is_addressed a)
          && annotation_delivery_fingerprint (last_sent (sent_annotations s) a.id)
            != annotation_delivery_fingerprint (some a))
        s.annotations

  unfoldable pub new_message : Minted → Thread → Sending → Message
  new_message minted s input = record {
    id = minted.message_id;
    outcome = input.outcome;
    summary = input.summary;
    body =
        services.feedback s input.outcome input.summary (or_else input.bodies []) (undelivered s);
    annotations = some (undelivered s);
    sent_at = minted.now;
  }

  -- The session with its message, its receipt and its status, before the entry.
  unfoldable pub with_message : Minted → Thread → Sending → Thread
  with_message minted s input =
      let m = new_message minted s input in
      record s {
        message_operations = elim (given input.operation_id) [
          | none ↦ s.message_operations
          | some id ↦ some (
              listed s.message_operations
              ++ record { operation_id = id; fingerprint = message_fingerprint input; result = m }
                ∷ [])
        ];
        message = some m;
        status = if is_comment input.outcome then SessionStatus.pending else SessionStatus.resolved;
      }

  -- The send to an open session. With an operation id the session is a clone, which a failed
  -- entry leaves behind.
  unfoldable pub send_in : Minted → Sending → Thread → Call Thread
  send_in minted input session = do
    keep (if is_set (given input.operation_id) then session else with_message minted session input)
    (final, entry_id) ← of_history (
        recorded minted.entry_id (with_message minted session input)
          (entry minted.now (EntryBody.message (new_message minted session input))))
    message_stored minted input final entry_id

  -- The receipt of an earlier send answers in its place.
  unfoldable pub replayed_or_sent :
      Minted → Sending → Thread → A.Result (Option (OperationReceipt Message)) → Call Thread
  replayed_or_sent minted input current (A.err A.operation_conflict) = throw operation_conflict
  replayed_or_sent minted input current (A.err A.operation_capacity) = throw operation_capacity
  replayed_or_sent minted input current (A.err A.invalid_params) = throw invalid_params
  replayed_or_sent minted input current (A.ok (some r)) =
      pure (record current { message = some r.result })
  replayed_or_sent minted input current (A.ok none) =
      mutable_session input.session_id >>= send_in minted input

  unfoldable pub receipt_for : Sending → Thread → A.Result (Option (OperationReceipt Message))
  receipt_for input current =
      find_operation_receipt message_receipt current.message_operations input.operation_id
        (message_fingerprint input)

  unfoldable pub session_send_message : Minted → Sending → Call Thread
  session_send_message minted input = session_get input.session_id >>= λ current.
      replayed_or_sent minted input current (receipt_for input current)
