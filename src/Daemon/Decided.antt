-- ===== src/Daemon/Decided.antt =====
-- A message that decides a review (packages/daemon/src/api.ts, `sessionSendMessage`).
use cueloop.Prelude.{
  ◌≡◌, refl, sym, ◌∙◌, ap, subst, true, false, List, ◌++◌, map, Option, none, some, String, ◌==◌,
  ◌!=◌, string_eq, find, filter, arith, Option-cases, inl, inr, if◌then◌else◌,
}
use cueloop.Prelude.Keyed.{find_holds}
use cueloop.Types.{Thread, Message, MessageOutcome, SessionHistory}
use cueloop.History.Defs.{lookup}
use cueloop.Routing.Store.{Store, submitting_binding, enqueue}
use cueloop.Routing.Handed.{IsHanded, IsHandedTo, IsRouted, enqueue-IsRouted}
use cueloop.Agents.Receipts as A
use cueloop.Agents.Receipts.{given}
use cueloop.Daemon.Core.{
  Core, Waiter, Answered, Reply, Call, ok, ◌>>=◌, keep, emit, pure, message_sent, stored,
  is_resolved,
}
use cueloop.Daemon.Tracking.{reconcile_deliveries, untrack_live_diff_session, delivered, is_set}
use cueloop.Daemon.Operations.{answer_waiters}
use cueloop.Daemon.Messages.{
  Services, Sending, Minted, session_send_message, with_message, new_message, message_stored,
  closed, announced, receipt_for, is_comment,
}
use cueloop.Daemon.Sound.{find-put}
use cueloop.Daemon.Sending.{session_send_message-new, send_in-stored, sent}

-- Those who wait for the session, and their answers.
abbrev pub waiting : Core → String → List Waiter
waiting c id = filter (λ w. w.session_id == id) c.waiters

abbrev pub others : Core → String → List Waiter
others c id = filter (λ w. w.session_id != id) c.waiters

abbrev pub answers : Thread → List Waiter → List Answered
answers s ws = map (λ w. record { number = w.number; session = some s }) ws

-- What a decision leaves: the review is stored as resolved with its message, nobody waits for it
-- any more, everyone who did is answered with it, and there is one delivery of its message to the
-- binding that submitted it, if some binding did.
pub record IsDecided (minted : Minted) (c c' : Core) (id : String) (m : Message) (final : Thread)
    : Type 0 where
  pub stands : stored c' id ≡ some final
  pub resolved : is_resolved final ≡ true
  pub carries : final.message ≡ some m
  pub parked : c'.waiters ≡ others c id
  pub told : c'.answered ≡ c.answered ++ answers final (waiting c id)
  pub routed : IsHanded minted.delivery_id minted.now id m.id c.routing c'.routing

delivered-IsHanded :
    (minted now : String) (s : Thread) (routing : Store) {m : Message}
    → s.message ≡ some m
    → IsHanded minted now s.id m.id routing (delivered minted now s routing)
unfolding delivered submitting_binding
delivered-IsHanded minted now s routing {m} e =
    elim (Option-cases (find (λ b. b.thread_id == s.id) routing.bindings)) [
      | inl n ↦
          let quiet : delivered minted now s routing ≡ routing = ground (arith, e, n) in
          subst (λ o. IsHandedTo o minted now m.id routing (delivered minted now s routing)) (sym n)
            quiet
      | inr (b, f) ↦
          let made : delivered minted now s routing
              ≡ (enqueue minted now routing (record { binding_id = b.id; message_id = m.id })).0 =
            ground (arith, e, f) in
          subst (λ o. IsHandedTo o minted now m.id routing (delivered minted now s routing)) (sym f)
            (subst (IsRouted minted now m.id b routing) (sym made)
              (enqueue-IsRouted minted now m.id b routing))
    ]

announced-closed :
    (o : MessageOutcome) (id : String) (s : Thread) (e : Option String)
    → is_comment o ≡ false
    → announced o id s e ≡ closed id s
unfolding announced
announced-closed MessageOutcome.comment id s e d = cc
announced-closed MessageOutcome.approved id s e d = refl
announced-closed MessageOutcome.changes_requested id s e d = refl

module _ (minted : Minted) (input : Sending) (final : Thread) (e : Option String) (c : Core)
    {m : Message} (decides : is_comment input.outcome ≡ false) (named : final.id ≡ input.session_id)
    (resolved : is_resolved final ≡ true) (carries : final.message ≡ some m) where
  abbrev told : Call (Unit {0}) → Reply Thread × Core
  told say =
      (keep final >>= λ _. reconcile_deliveries minted.delivery_id minted.now final >>= λ _.
      emit message_sent input.session_id e >>= λ _. say >>= λ _. pure final)
        c

  message_stored-closed :
      message_stored minted input final e c ≡ told (closed input.session_id final)
  unfolding message_stored
  message_stored-closed = ap told (announced-closed input.outcome input.session_id final e decides)

  told-IsDecided :
      ((told (closed input.session_id final)).0 ≡ ok final)
      × IsDecided minted c (told (closed input.session_id final)).1 input.session_id m final
  unfolding closed reconcile_deliveries untrack_live_diff_session answer_waiters
  told-IsDecided = (
    refl,
    record {
      stands = find-put final c.sessions input.session_id ∙ ground arith;
      resolved = resolved;
      carries = carries;
      parked = refl;
      told = refl;
      routed =
          subst
            (λ i.
              IsHanded minted.delivery_id minted.now i m.id c.routing
                (delivered minted.delivery_id minted.now final c.routing))
            named (delivered-IsHanded minted.delivery_id minted.now final c.routing carries);
    },
  )

module _ (services : Services) (minted : Minted) (input : Sending) (c : Core) {s : Thread}
    {h : SessionHistory} {tip : String} (is_stored : stored c input.session_id ≡ some s)
    (is_pending : is_resolved s ≡ false) (is_new : receipt_for services input s ≡ A.ok none)
    (with_tree : s.history ≡ some h) (with_tip : lookup h.branch h.tips ≡ some tip) where
  abbrev before : Core
  before =
      (keep (if is_set (given input.operation_id) then s else with_message services minted s input)
        c).1

  abbrev final : Thread
  final = sent services minted input s h tip

  pub session_send_message-message_stored :
      session_send_message services minted input c
      ≡ message_stored minted input final (some minted.entry_id) before
  session_send_message-message_stored =
      session_send_message-new services minted input c is_stored is_pending is_new
      ∙ send_in-stored services minted input s c with_tree with_tip

  pub same_id : final.id ≡ input.session_id
  unfolding sent with_message
  same_id = ground (arith, find_holds (λ x. x.id == input.session_id) c.sessions is_stored)

  decided_resolved : is_comment input.outcome ≡ false → is_resolved final ≡ true
  unfolding sent with_message
  decided_resolved d = rw d refl

  abbrev message : Message
  message = new_message services minted s input

  has_message : final.message ≡ some message
  unfolding sent with_message
  has_message = refl

  -- For a stored session that is open, whose history has a tip on its branch, and a new operation
  -- whose outcome decides: the reply is the session with the message and its entry, it is stored
  -- as resolved, nobody is parked for it any more, everyone who was is answered with it, and its
  -- message is handed to the first binding of its thread: a delivery of the message to it is in the
  -- store, the one that was there, with the store as it was, or a new one that is pending, of the
  -- present time and saved. The bindings and the other deliveries are kept, and with no binding
  -- nothing changes.
  pub session_send_message-IsDecided :
      is_comment input.outcome ≡ false
      → ((session_send_message services minted input c).0 ≡ ok final)
        × IsDecided minted c
            (session_send_message services minted input c).1
            input.session_id
            message
            final
  session_send_message-IsDecided d =
      let told =
        told-IsDecided minted input final (some minted.entry_id) before d same_id
          (decided_resolved d) has_message in
      let eq =
        session_send_message-message_stored
        ∙ message_stored-closed minted input final (some minted.entry_id) before d same_id
            (decided_resolved d) has_message in
      subst
        (λ (p : Reply Thread × Core).
          (p.0 ≡ ok final) × IsDecided minted c p.1 input.session_id message final)
        (sym eq) (told.0, before-IsDecided told.1)
    where
      before-IsDecided :
          {c' : Core}
          → IsDecided minted before c' input.session_id message final
          → IsDecided minted c c' input.session_id message final
      before-IsDecided d = record {
        stands = d.stands;
        resolved = d.resolved;
        carries = d.carries;
        parked = d.parked;
        told = d.told;
        routed = d.routed;
      }
