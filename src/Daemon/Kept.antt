-- ===== src/Daemon/Kept.antt =====
-- The requests of packages/daemon/src/api.ts that make, decide, revise and delete a session keep
-- the ids of the sessions distinct, and nobody parked for a session that is not open.
use cueloop.Prelude.{
  ℕ, ◌≡◌, refl, sym, ◌∙◌, ap, true, Option, none, some, String, ◌==◌, ◌!=◌, nat_eq, string_eq, any,
  All-append, Bool-cases, Option-cases, inl, inr,
}
use cueloop.Prelude.Keyed.{All-filter}
use cueloop.Types.{Thread, WorkspaceKey, Artifact, SessionHistory}
use cueloop.History.Defs as H
use cueloop.History.Defs.{main_branch}
use cueloop.History.Linear.{history_from_linear}
use cueloop.Daemon.Core.{
  Core, Waiter, Call, Reply, ok, err, ◌>>=◌, ◌>>◌, pure, keep, emit, of_history, stored,
  session_get, mutable_session, is_resolved, DaemonError, message_sent,
}
use cueloop.Daemon.Tracking.{
  reconcile_deliveries, track_live_diff_session, untrack_live_diff_session,
}
use cueloop.Daemon.Operations.{
  session_create, new_session, session_wait, wait_in, delete_in, wait_timeout, session_delete,
  answer_waiters, forget,
}
use cueloop.Daemon.Calls.{bind-ok, bind-err, session_get-stored, session_get-none}
use cueloop.Daemon.Sound.{IsSound, is_open, opens, keep-IsSound, after}
use cueloop.Daemon.Parting.{answer_waiters-IsSound, forget-IsSoundBut}

module _ (c : Core) (v : IsSound c) where
  pub session_create-IsSound :
      (id minted now : String) (workspace : WorkspaceKey) (artifact : Artifact)
      → IsSound (session_create id minted now workspace artifact c).1
  unfolding session_create new_session reconcile_deliveries track_live_diff_session
  session_create-IsSound id minted now workspace artifact =
      go (history_from_linear (new_session id now workspace artifact))
    where
      rest : SessionHistory → Call Thread
      rest history = do
        let session : Thread = record (new_session id now workspace artifact) {
          history = some history;
        }
        keep session
        reconcile_deliveries minted now session
        track_live_diff_session session
        emit cueloop.Daemon.Core.session_created session.id none
        emit cueloop.Daemon.Core.inbox_changed session.id none
        pure session

      go : (r : H.Result SessionHistory) → IsSound ((of_history r >>= rest) c).1
      go (H.err e) = v
      go (H.ok h) =
          let k =
            keep-IsSound c v (record (new_session id now workspace artifact) { history = some h })
              refl in
          record { distinct = k.distinct; parked = k.parked }

  pub session_get-IsSound :
      {A : Type 0} (id : String) (k : Thread → Call A)
      → ((s : Thread) → stored c id ≡ some s → IsSound (k s c).1)
      → IsSound ((session_get id >>= k) c).1
  session_get-IsSound id k h = elim (Option-cases (stored c id)) [
    | inl n ↦ after c v (sym (bind-err (session_get id) k c c (session_get-none c id n))) v
    | inr (s, q) ↦
        after c v (sym (bind-ok (session_get id) k c c (session_get-stored c id q))) (h s q)
  ]

  pub wait_timeout-IsSound : (number : ℕ) → IsSound (wait_timeout number c)
  unfolding wait_timeout
  wait_timeout-IsSound number = elim (Bool-cases (any (λ w. w.number == number) c.waiters)) [
    | inl t ↦ rw t (record {
      distinct = v.distinct;
      parked =
          All-filter (λ (w : Waiter). is_open c.sessions w.session_id ≡ true)
            (λ w. w.number != number) c.waiters v.parked;
    })
    | inr f ↦ rw f v
  ]

  pub session_wait-IsSound : (id : String) (number : ℕ) → IsSound (session_wait id number c).1
  unfolding session_wait wait_in
  session_wait-IsSound id number = session_get-IsSound id (wait_in id number) (λ s q.
      elim (Bool-cases (is_resolved s)) [
        | inl t ↦ rw t v
        | inr f ↦ rw f (record {
          distinct = v.distinct;
          parked =
              All-append (λ (w : Waiter). is_open c.sessions w.session_id ≡ true) c.waiters _
                v.parked (ap (λ (o : Option Thread). opens o) q ∙ rw f refl, tt);
        })
      ])

  pub session_delete-IsSound : (id : String) → IsSound (session_delete id c).1
  unfolding session_delete delete_in untrack_live_diff_session answer_waiters
  session_delete-IsSound id = session_get-IsSound id (delete_in id) (λ s q. gone s)
    where
      gone : (s : Thread) → IsSound (delete_in id s c).1
      gone s =
          let but = forget-IsSoundBut id c v in
          let left : Core = ((forget id >>= λ _. untrack_live_diff_session s) c).1 in
          let k =
            answer_waiters-IsSound id left none
              (record { distinct = but.distinct; parked = but.parked }) in
          record { distinct = k.distinct; parked = k.parked }
