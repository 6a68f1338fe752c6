-- ===== src/Daemon/Core.antt =====
-- The state of `DaemonCore` (packages/daemon/src/api.ts) and its private methods. A method is a
-- `Call`: it gives the state back also when it throws, since what was written stays written. A
-- session is an object that the store's map holds, and `keep` is a write to that object.
use cueloop.Prelude.{
  ℕ, Bool, true, false, not, List, [], ◌∷◌, ◌++◌, Option, none, some, String, ◌==◌, string_eq,
  nat_eq, if◌then◌else◌, find,
}
use cueloop.Prelude.Maps.{put}
use cueloop.Types.{Thread, SessionHistory, SessionStatus}
use cueloop.History.Defs as H
use cueloop.History.Defs.{HistoryError, main_branch, lookup}
use cueloop.History.Linear.{with_history}
use cueloop.Routing.Store.{Store}

pub data EventName : Type 0 where
  session_created session_updated session_deleted message_sent session_revised inbox_changed :
      EventName

pub record DaemonEvent : Type 0 where
  pub event : EventName
  pub session_id : String
  pub entry_id : Option String

-- The wait that a caller holds, and what its promise has resolved to.
pub record Waiter : Type 0 where
  pub session_id : String
  pub number : ℕ

pub record Answered : Type 0 where
  pub number : ℕ
  pub session : Option Thread

-- The capture generation of a diff session.
pub record Generation : Type 0 where
  pub session_id : String
  pub generation : ℕ

-- `tracked` are the sessions that the diff watcher or the poller follows.
pub record Core : Type 0 where
  pub sessions : List Thread
  pub routing : Store
  pub waiters : List Waiter
  pub answered : List Answered
  pub events : List DaemonEvent
  pub tracked : List String
  pub generations : List Generation

pub data DaemonError : Type 0 where
  not_found : String → DaemonError
  already_resolved : String → DaemonError
  forbidden : String → DaemonError
  invalid_params invalid_state operation_conflict operation_capacity : DaemonError
  -- An error of the history that nothing catches.
  uncaught : HistoryError → DaemonError

pub data Reply (A : Type 0) : Type 0 where
  ok : A → Reply A
  err : DaemonError → Reply A

abbrev pub Call : Type 0 → Type 0
Call A = Core → Reply A × Core

infixl 5 ◌>>=◌ ◌>>◌
abbrev pub ◌>>=◌ : {A B : Type 0} → Call A → (A → Call B) → Call B
◌>>=◌ m f c = let (r, c') = m c in elim r [ ok a ↦ f a c' | err e ↦ (err e, c') ]

abbrev pub ◌>>◌ : {A B : Type 0} → Call A → Call B → Call B
m >> k = m >>= λ _. k

abbrev pub pure : {A : Type 0} → A → Call A
pure a c = (ok a, c)

abbrev pub throw : {A : Type 0} → DaemonError → Call A
throw e c = (err e, c)

abbrev pub require : Bool → DaemonError → Call (Unit {0})
require b e c = (if b then ok tt else err e, c)

abbrev pub session_id : Thread → String
session_id t = t.id

abbrev pub keep : Thread → Call (Unit {0})
keep session c = (ok tt, record c { sessions = put session_id session c.sessions })

-- `this.store.upsert(session)`: the file is modelled with the store.
abbrev pub upsert : Thread → Call (Unit {0})
upsert = keep

abbrev pub emit : EventName → String → Option String → Call (Unit {0})
emit event id entry c = (
  ok tt,
  record c {
    events = c.events ++ record { event = event; session_id = id; entry_id = entry } ∷ [];
  },
)

abbrev pub stored : Core → String → Option Thread
stored c id = find (λ s. s.id == id) c.sessions

unfoldable pub session_get : String → Call Thread
session_get id c = elim (stored c id) [ some s ↦ (ok s, c) | none ↦ (err (not_found id), c) ]

abbrev pub is_resolved : Thread → Bool
is_resolved s = elim s.status [ SessionStatus.resolved ↦ true | SessionStatus.pending ↦ false ]

unfoldable pub mutable_session : String → Call Thread
unfolding session_get
mutable_session id = do
  session ← session_get id
  require (not (is_resolved session)) (already_resolved id)
  pure session

-- A result of the history, whose error nothing catches.
abbrev pub of_history : {A : Type 0} → H.Result A → Call A
of_history (H.ok a) = pure a
of_history (H.err e) = throw (uncaught e)

-- `tree`: a refused move is the caller's mistake.
abbrev pub tree : {A : Type 0} → H.Result A → Call A
tree (H.ok a) = pure a
tree (H.err e) = throw invalid_params

unfoldable pub history_of : Thread → Call SessionHistory
history_of session = elim (with_history session).history [
  | some h ↦ pure h
  | none ↦ throw invalid_params
]
