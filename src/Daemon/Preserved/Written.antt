-- ===== src/Daemon/Preserved/Written.antt =====
-- What the edits of packages/daemon/src/api.ts end with keeps the invariant.
use cueloop.Prelude.{◌≡◌, refl, ◌∙◌, ap, true, false, Option, none, some, String}
use cueloop.Types.{Thread, SessionHistory, SessionStatus}
use cueloop.History.Defs as H
use cueloop.History.Linear.{with_history}
use cueloop.Daemon.Core.{
  Core, Call, ok, err, ◌>>=◌, keep, emit, is_resolved, history_of, of_history, session_updated,
  invalid_params,
}
use cueloop.Daemon.Entries.{refreshed}
use cueloop.Daemon.Operations.{update}
use cueloop.Daemon.Trees.{show_moved, refresh_view}
use cueloop.Daemon.Stay.{Holds, StaysPair, refreshed-Holds}
use cueloop.Daemon.Sound.{IsSound, keep-IsSound, emit-IsSound}

pub pending_status : (s : Thread) → is_resolved s ≡ false → s.status ≡ SessionStatus.pending
pending_status s f = go s.status f
  where
    go :
        (t : SessionStatus)
        → (elim t [ SessionStatus.resolved ↦ true | SessionStatus.pending ↦ false ]) ≡ false
        → t ≡ SessionStatus.pending
    go SessionStatus.pending q = refl
    go SessionStatus.resolved q = cc

pub open_of : (s : Thread) → s.status ≡ SessionStatus.pending → is_resolved s ≡ false
open_of s q = ap (λ t. elim t [ SessionStatus.resolved ↦ true | SessionStatus.pending ↦ false ]) q

module _ (c : Core) (v : IsSound c) (id : String) where
  pub update-IsSound :
      (p : Thread × H.Result (Thread × Option String))
      → StaysPair SessionStatus.pending p
      → IsSound (update id p c).1
  unfolding update
  update-IsSound (w, H.ok (s, e)) h =
      let kept = keep-IsSound c v w (open_of w h.0) in
      let stored = keep-IsSound (keep w c).1 kept s (open_of s h.1) in
      emit-IsSound (keep s (keep w c).1).1 stored session_updated id e
  update-IsSound (w, H.err e) h = keep-IsSound c v w (open_of w h.0)

  pub show_moved-IsSound :
      (s : Thread) (e : SessionHistory → Option String) (r : H.Result SessionHistory)
      → s.status ≡ SessionStatus.pending
      → IsSound (show_moved id s e r c).1
  unfolding show_moved refresh_view
  show_moved-IsSound s e (H.err x) q = v
  show_moved-IsSound s e (H.ok h) q = go (refreshed s h) (refreshed-Holds s h)
    where
      left : Thread
      left = record s { history = some h }

      go :
          (r : H.Result Thread)
          → Holds (λ t. t.status ≡ s.status) r
          → IsSound
              (((keep left >>= λ _. of_history r >>= λ t. keep t >>= λ _. (λ d. (ok t, d))) >>= λ t.
                  emit session_updated id (e h) >>= λ _. (λ d. (ok t, d)))
                c).1
      go (H.err x) k = keep-IsSound c v left (open_of left q)
      go (H.ok t) k =
          let kept = keep-IsSound c v left (open_of left q) in
          let stored = keep-IsSound (keep left c).1 kept t (open_of t (k ∙ q)) in
          emit-IsSound (keep t (keep left c).1).1 stored session_updated id (e h)

  pub history_of-IsSound :
      {A : Type 0} (s : Thread) (k : SessionHistory → Call A)
      → ((h : SessionHistory) → IsSound (k h c).1)
      → IsSound ((history_of s >>= k) c).1
  unfolding history_of
  history_of-IsSound s k h = go (with_history s).history
    where
      go :
          (o : Option SessionHistory)
          → IsSound
              (((elim o [ some x ↦ (λ d. (ok x, d)) | none ↦ (λ d. (err invalid_params, d)) ])
                  >>= k)
                c).1
      go none = v
      go (some x) = h x
