-- ===== src/Daemon/Sending.antt =====
-- What `sessionSendMessage` of packages/daemon/src/api.ts does on an open session.
use cueloop.Prelude.{◌≡◌, ◌∙◌, ap, false, Option, none, some, String, string_eq, if◌then◌else◌}
use cueloop.Types.{Thread, SessionHistory, EntryBody}
use cueloop.History.Defs as H
use cueloop.History.Defs.{lookup, tip_of}
use cueloop.History.Writes.{NewEntry, with_entry, full_entry}
use cueloop.Agents.Receipts as A
use cueloop.Agents.Receipts.{given}
use cueloop.Daemon.Core.{
  Core, ◌>>=◌, of_history, keep, stored, is_resolved, session_get, mutable_session,
}
use cueloop.Daemon.Tracking.{is_set}
use cueloop.Daemon.Entries.{entry}
use cueloop.Daemon.Messages.{
  Services, Sending, Minted, session_send_message, send_in, replayed_or_sent, receipt_for,
  with_message, new_message, message_stored,
}
use cueloop.Daemon.Calls.{bind-ok, session_get-stored, mutable_session-pending}
use cueloop.Daemon.Recorded.{recorded-some}

module _ (services : Services) (minted : Minted) (input : Sending) (c : Core) {s : Thread}
    (q : stored c input.session_id ≡ some s) where
  -- A send to a stored session is what its receipts make of it.
  pub session_send_message-stored :
      session_send_message services minted input c
      ≡ replayed_or_sent services minted input s (receipt_for services input s) c
  unfolding session_send_message
  session_send_message-stored =
      bind-ok (session_get input.session_id)
        (λ current.
          replayed_or_sent services minted input current (receipt_for services input current))
        c c (session_get-stored c input.session_id q)

  pub session_send_message-new :
      is_resolved s ≡ false
      → receipt_for services input s ≡ A.ok none
      → session_send_message services minted input c ≡ send_in services minted input s c
  unfolding replayed_or_sent
  session_send_message-new o r =
      session_send_message-stored
      ∙ (ap (λ x. replayed_or_sent services minted input s x c) r
          ∙ bind-ok (mutable_session input.session_id) (send_in services minted input) c c
              (mutable_session-pending c input.session_id q o))

module _ (services : Services) (minted : Minted) (input : Sending) where
  abbrev message_entry : Thread → NewEntry
  message_entry s = entry minted.now (EntryBody.message (new_message services minted s input))

  -- The session that a send leaves: its message, its status, and the entry of the message.
  unfoldable pub sent : Thread → SessionHistory → String → Thread
  sent s h tip = record (with_message services minted s input) {
    history = some (with_entry h (full_entry minted.entry_id tip (message_entry s)));
  }

  module _ (s : Thread) (c : Core) {h : SessionHistory} {tip : String} (q : s.history ≡ some h)
      (l : lookup h.branch h.tips ≡ some tip) where
    pub send_in-stored :
        send_in services minted input s c
        ≡ message_stored minted input
            (sent s h tip)
            (some minted.entry_id)
            (keep
              (if is_set (given input.operation_id)
                then s
                else with_message services minted s input)
              c).1
    unfolding send_in sent with_message
    send_in-stored =
        ap
          (λ (r : H.Result (Thread × Option String)).
            (of_history r >>= λ p. message_stored minted input p.0 p.1)
              (keep
                (if is_set (given input.operation_id)
                  then s
                  else with_message services minted s input)
                c).1)
          (recorded-some minted.entry_id (with_message services minted s input) (message_entry s) q
            l)
