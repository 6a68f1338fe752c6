-- ===== src/Daemon/Invariant.antt =====
-- What holds in every state that the daemon reaches (packages/daemon/src/api.ts).
use cueloop.Prelude.{
  ◌≡◌, refl, Bool, true, false, Option, none, some, String, Text, string_eq, if◌then◌else◌,
}
use cueloop.Types.{Thread, HarnessBinding, Delivery}
use cueloop.Routing.Store as R
use cueloop.Routing.Store.{
  BindInput, bind, binding, consume_approved_retry, delivery, acknowledge, Store,
}
use cueloop.Daemon.Core.{
  Core, Call, Reply, ok, err, ◌>>=◌, pure, session_get, not_found, invalid_state,
}
use cueloop.Daemon.Tracking.{reconcile_deliveries}
use cueloop.Daemon.Harness.{
  harness_bind, bind_in, harness_get_binding, harness_consume_approved_retry, retry_in, consume_in,
  delivery_acknowledge, is_approved_retry,
}
use cueloop.Daemon.Changes.{Fresh, apply_change}
use cueloop.Daemon.Messages.{Services, Minted, session_send_message, session_submit_revision}
use cueloop.Daemon.Sound.{IsSound}
use cueloop.Daemon.Preserved.{apply_change-IsSound}
use cueloop.Daemon.Operations.{session_create, session_wait}
use cueloop.Daemon.Trees.{session_fork}
use cueloop.Daemon.Refresh.{
  refresh_diff_start, refresh_pr_start, refresh_diff_finish, refresh_pr_finish,
}
use cueloop.Daemon.Kept.{
  session_create-IsSound, session_get-IsSound, session_wait-IsSound, wait_timeout-IsSound,
  session_delete-IsSound,
}
use cueloop.Daemon.Ends.{
  session_send_message-IsSound, session_submit_revision-IsSound, session_fork-IsSound,
}
use cueloop.Daemon.Hot.{
  refresh_diff_start-IsSound, refresh_pr_start-IsSound, refresh_diff_finish-IsSound,
  refresh_pr_finish-IsSound, mark_pr_refresh_available-IsSound,
}
use cueloop.Daemon.Steps.{
  Event, run, done, is_crash, Runs, here, step, create, change, send, revise, fork, delete, wait,
  timeout, refresh_diff, refresh_pr, captured, pulled, moved_refs, acknowledge as ack, retry,
}

module _ {A : Type 0} (m : Call A) (c : Core) where
  done-IsSound : IsSound (m c).1 → IsSound (done m c).1
  done-IsSound v = go (m c) v
    where
      go : (p : Reply A × Core) → IsSound p.1 → IsSound (done (λ _. p) c).1
      go (ok a, d) v = v
      go (err e, d) v = v

  done-alive : is_crash (done m c).0 ≡ false → is_crash (m c).0 ≡ false
  done-alive h = go (m c) h
    where
      go :
          (p : Reply A × Core)
          → is_crash (done (λ (_ : Core). p) c).0 ≡ false
          → is_crash p.0 ≡ false
      go (ok a, d) h = refl
      go (err e, d) h = h

module _ (c : Core) (v : IsSound c) where
  routed-IsSound : (routing : Store) → IsSound (record c { routing = routing })
  routed-IsSound routing = record { distinct = v.distinct; parked = v.parked }

  harness_bind-IsSound :
      (minted minted_delivery now : String) (input : BindInput)
      → IsSound (harness_bind minted minted_delivery now input c).1
  unfolding harness_bind bind_in reconcile_deliveries
  harness_bind-IsSound minted minted_delivery now input =
      session_get-IsSound c v input.thread_id
        (λ first.
          bind_in minted now input first >>= λ bound. session_get input.thread_id >>= told bound)
        (λ first q.
          session_get-IsSound bound_core (routed-IsSound (bind minted now c.routing input).0)
            input.thread_id (told _)
            (λ session r. record { distinct = v.distinct; parked = v.parked }))
    where
      bound_core : Core
      bound_core = record c { routing = (bind minted now c.routing input).0 }

      told : HarnessBinding → Thread → Call HarnessBinding
      told bound session = reconcile_deliveries minted_delivery now session >>= λ _. pure bound

  consume_in-IsSound : (id message : String) → IsSound (consume_in id message c).1
  unfolding consume_in
  consume_in-IsSound id message = go (consume_approved_retry c.routing id message)
    where
      go :
          (r : R.Result (Store × Bool))
          → (let p : Reply Bool × Core = elim r [
            | R.ok (routing, consumed) ↦ (ok consumed, record c { routing = routing })
            | R.err _ ↦ (err (not_found id), c)
          ] in
              IsSound p.1)
      go (R.ok (routing, consumed)) = routed-IsSound routing
      go (R.err e) = v

  retry_in-IsSound :
      (id message : String) (content : Text) (s : Thread)
      → IsSound (retry_in id message content s c).1
  unfolding retry_in
  retry_in-IsSound id message content s = go (is_approved_retry c s id message content)
    where
      go :
          (b : Bool)
          → (let p : Reply Bool × Core =
                if b then consume_in id message c else (err invalid_state, c) in
              IsSound p.1)
      go true = consume_in-IsSound id message
      go false = v

  retry-IsSound :
      (id message : String) (content : Text)
      → IsSound (harness_consume_approved_retry id message content c).1
  unfolding harness_consume_approved_retry harness_get_binding
  retry-IsSound id message content = on_binding (binding c.routing id)
    where
      get : HarnessBinding → Call Bool
      get b = session_get b.thread_id >>= retry_in id message content

      on_binding :
          (o : Option HarnessBinding)
          → (let r : Reply HarnessBinding × Core = elim o [
            | some b ↦ (ok b, c)
            | none ↦ (err (not_found id), c)
          ] in
              IsSound (((λ (_ : Core). r) >>= get) c).1)
      on_binding none = v
      on_binding (some b) =
          session_get-IsSound c v b.thread_id (retry_in id message content)
            (λ s q. retry_in-IsSound id message content s)

  acknowledge-IsSound : (now id : String) → IsSound (delivery_acknowledge now id c).1
  unfolding delivery_acknowledge
  acknowledge-IsSound now id = on_delivery (delivery c.routing id)
    where
      settled : R.Result (Store × Delivery) → Reply Delivery × Core
      settled r = elim r [
        | R.ok (routing, d) ↦ (ok d, record c { routing = routing })
        | R.err _ ↦ (err (not_found id), c)
      ]

      settled-IsSound : (r : R.Result (Store × Delivery)) → IsSound (settled r).1
      settled-IsSound (R.ok (routing, d)) = routed-IsSound routing
      settled-IsSound (R.err e) = v

      on_delivery :
          (o : Option Delivery)
          → (let r : Reply Delivery × Core = elim o [
            | none ↦ (err (not_found id), c)
            | some _ ↦ settled (acknowledge c.routing id now)
          ] in
              IsSound r.1)
      on_delivery none = v
      on_delivery (some d) = settled-IsSound (acknowledge c.routing id now)

  run-IsSound :
      (services : Services) (fresh : Fresh) (minted : Minted) (event : Event)
      → is_crash (run services fresh minted event c).0 ≡ false
      → IsSound (run services fresh minted event c).1
  unfolding run
  run-IsSound services fresh minted (create workspace artifact) alive =
      done-IsSound (session_create fresh.minted minted.delivery_id fresh.now workspace artifact) c
        (session_create-IsSound c v fresh.minted minted.delivery_id fresh.now workspace artifact)
  run-IsSound services fresh minted (change id edit) alive =
      done-IsSound (apply_change fresh id edit) c (apply_change-IsSound fresh id edit c v)
  run-IsSound services fresh minted (send input) alive =
      done-IsSound (session_send_message services minted input) c (
        session_send_message-IsSound services minted input c v
          (done-alive (session_send_message services minted input) c alive))
  run-IsSound services fresh minted (revise input) alive =
      done-IsSound (session_submit_revision services fresh.minted fresh.now input) c
        (session_submit_revision-IsSound c v services fresh.minted fresh.now input)
  run-IsSound services fresh minted (fork id) alive =
      done-IsSound (session_fork fresh.minted fresh.now id) c
        (session_fork-IsSound c v fresh.minted fresh.now id)
  run-IsSound services fresh minted (delete id) alive = session_delete-IsSound c v id
  run-IsSound services fresh minted (wait id number) alive =
      done-IsSound (session_wait id number) c (session_wait-IsSound c v id number)
  run-IsSound services fresh minted (timeout number) alive = wait_timeout-IsSound c v number
  run-IsSound services fresh minted (refresh_diff id) alive =
      done-IsSound (refresh_diff_start id) c (refresh_diff_start-IsSound c v id)
  run-IsSound services fresh minted (refresh_pr id) alive =
      done-IsSound (refresh_pr_start id) c (refresh_pr_start-IsSound c v id)
  run-IsSound services fresh minted (captured id generation pinned diff) alive =
      done-IsSound (refresh_diff_finish fresh.minted fresh.now id generation pinned diff) c
        (refresh_diff_finish-IsSound c v fresh.minted fresh.now id generation pinned diff)
  run-IsSound services fresh minted (pulled id generation snapshot) alive =
      done-IsSound (refresh_pr_finish fresh.minted fresh.now id generation snapshot) c
        (refresh_pr_finish-IsSound c v fresh.minted fresh.now id generation snapshot)
  run-IsSound services fresh minted (moved_refs id base head) alive =
      mark_pr_refresh_available-IsSound c v id base head
  run-IsSound services fresh minted (Event.bind input) alive =
      done-IsSound (harness_bind fresh.minted minted.delivery_id fresh.now input) c
        (harness_bind-IsSound fresh.minted minted.delivery_id fresh.now input)
  run-IsSound services fresh minted (retry id message content) alive =
      done-IsSound (harness_consume_approved_retry id message content) c
        (retry-IsSound id message content)
  run-IsSound services fresh minted (ack id) alive =
      done-IsSound (delivery_acknowledge fresh.now id) c (acknowledge-IsSound fresh.now id)

-- For a start in which the ids of the sessions are distinct and whoever is parked waits for a
-- stored session that is open, both hold in every state that the events lead to, in any order, as
-- long as none fails with an uncaught error of the history: no wait is left behind for a session
-- that is resolved, deleted or was never there.
pub Runs-IsSound :
    {services : Services} {start c : Core} → IsSound start → Runs services start c → IsSound c
Runs-IsSound v here = v
Runs-IsSound v (step {c} r fresh minted event alive) =
    run-IsSound c (Runs-IsSound v r) _ fresh minted event alive
