-- ===== src/Daemon/Hot/Kept.antt =====
-- The steps of a hot reload keep the invariant (packages/daemon/src/api.ts).
use cueloop.Prelude.{
  ℕ, ◌≡◌, refl, sym, subst, Bool, true, false, not, ◌&&◌, ◌||◌, Option, none, some, String, ◌!=◌,
  string_eq, text_eq, nat_eq, Bool-cases, inl, inr, arith, if◌then◌else◌,
}
use cueloop.Types.{Thread, SessionStatus}
use cueloop.History.Defs as H
use cueloop.History.Defs.{main_branch}
use cueloop.Sharing.PathView.{first_of}
use cueloop.Daemon.Core.{Core, Reply, ok, keep, stored, mutable_session, is_resolved}
use cueloop.Daemon.Tracking.{is_diff, is_set}
use cueloop.Daemon.Refresh.{
  VcsDiffSnapshot, PrSnapshot, Ticket, refresh_diff_start, refresh_pr_start, next_generation,
  ticket, diff_capture, with_refs, is_at, same_option, source_revision, Capture, refresh_in,
  generation_of, live_session, with_capture, record_captured_diff_revision, write_captured,
  refresh_diff_finish, finish_diff, pulled, refresh_pr_finish, finish_pr, mark_pr_refresh_available,
  mark_in,
}
use cueloop.Daemon.Calls.{bind-ok, bind-err, mutable_session-cases}
use cueloop.Daemon.Stay.{Stays}
use cueloop.Daemon.Sound.{IsSound, keep-IsSound, after}
use cueloop.Daemon.Preserved.{pending_status, open_of}
use cueloop.Daemon.Hot.Stays.{record_captured-Stays, pulled-Stays}

module _ (c : Core) (v : IsSound c) where
  write_captured-IsSound :
      (id : String) (p : Thread × H.Result Thread) (b : Bool)
      → Stays (λ t. t) SessionStatus.pending p
      → IsSound (write_captured id p b c).1
  unfolding write_captured
  write_captured-IsSound id (w, H.err e) b h = keep-IsSound c v w (open_of w h.0)
  write_captured-IsSound id (w, H.ok t) b h =
      let k = keep-IsSound (keep w c).1 (keep-IsSound c v w (open_of w h.0)) t (open_of t h.1) in
      record { distinct = k.distinct; parked = k.parked }

  finish_diff-IsSound :
      (minted now id : String) (pinned : Bool) (diff : VcsDiffSnapshot) (s : Thread)
      → s.status ≡ SessionStatus.pending
      → IsSound (finish_diff minted now id pinned diff s c).1
  unfolding finish_diff with_capture
  finish_diff-IsSound minted now id pinned diff s p =
      elim (Bool-cases (
        not (diff.patch != s.artifact.content)
        && same_option (source_revision diff.source) s.artifact.meta.vcs_revision_id)) [
          | inl t ↦ rw t v
          | inr f ↦ rw f (
              write_captured-IsSound id
                (record_captured_diff_revision minted now (with_capture s diff) diff pinned) _
                (subst
                  (λ (t : SessionStatus).
                    Stays (λ u. u) t
                      (record_captured_diff_revision minted now (with_capture s diff) diff pinned))
                  p (record_captured-Stays minted now (with_capture s diff) diff pinned)))
        ]

  finish_pr-IsSound :
      (minted now id : String) (snapshot : PrSnapshot) (s : Thread)
      → s.status ≡ SessionStatus.pending
      → IsSound (finish_pr minted now id snapshot s c).1
  unfolding finish_pr
  finish_pr-IsSound minted now id snapshot s p =
      elim (Bool-cases (
        not (snapshot.patch != s.artifact.content)
        && is_at s.artifact.meta snapshot.base_sha snapshot.head_sha
        && not (is_set s.artifact.meta.pr_refresh_base_sha)
        && not (is_set s.artifact.meta.pr_refresh_head_sha))) [
          | inl t ↦ rw t v
          | inr f ↦ rw f (
              write_captured-IsSound id (pulled minted now s snapshot) _ (
                subst (λ (t : SessionStatus). Stays (λ u. u) t (pulled minted now s snapshot)) p
                  (pulled-Stays minted now s snapshot)))
        ]

  -- A capture is only written to a session that is open.
  live_session-pending :
      (id : String) (n : ℕ) (s : Thread)
      → live_session c id n ≡ some s
      → s.status ≡ SessionStatus.pending
  unfolding live_session
  live_session-pending id n s q = pending_status s (go (generation_of c id) (stored c id) q)
    where
      go :
          (g : Option ℕ) (o : Option Thread)
          → (let r : Option Thread = elim g [
            | none ↦ none
            | some m ↦ if m != n then none else elim o [
              | none ↦ none
              | some t ↦ if is_resolved t || not (is_diff t) then none else some t
            ]
          ] in
              r ≡ some s)
          → is_resolved s ≡ false
      go none o q = cc
      go (some m) none q = ground arith
      go (some m) (some t) q = elim (Bool-cases (is_resolved t)) [
        | inl r ↦ absurd (ground arith)
        | inr f ↦
            (let same : t ≡ s = ground arith in
              subst (λ (u : Thread). is_resolved u ≡ false) same f)
      ]

  pub refresh_diff_finish-IsSound :
      (minted now id : String) (n : ℕ) (pinned : Bool) (diff : VcsDiffSnapshot)
      → IsSound (refresh_diff_finish minted now id n pinned diff c).1
  unfolding refresh_diff_finish
  refresh_diff_finish-IsSound minted now id n pinned diff =
      go (live_session c id n) (live_session-pending id n)
    where
      go :
          (o : Option Thread)
          → ((s : Thread) → o ≡ some s → s.status ≡ SessionStatus.pending)
          → (let r : Reply Bool × Core = elim o [
            | none ↦ (ok false, c)
            | some s ↦ finish_diff minted now id pinned diff s c
          ] in
              IsSound r.1)
      go none h = v
      go (some s) h = finish_diff-IsSound minted now id pinned diff s (h s refl)

  pub refresh_pr_finish-IsSound :
      (minted now id : String) (n : ℕ) (snapshot : Option PrSnapshot)
      → IsSound (refresh_pr_finish minted now id n snapshot c).1
  unfolding refresh_pr_finish
  refresh_pr_finish-IsSound minted now id n none = v
  refresh_pr_finish-IsSound minted now id n (some snapshot) =
      go (live_session c id n) (live_session-pending id n)
    where
      go :
          (o : Option Thread)
          → ((s : Thread) → o ≡ some s → s.status ≡ SessionStatus.pending)
          → (let r : Reply Bool × Core = elim o [
            | none ↦ (ok false, c)
            | some s ↦ finish_pr minted now id snapshot s c
          ] in
              IsSound r.1)
      go none h = v
      go (some s) h = finish_pr-IsSound minted now id snapshot s (h s refl)

  mark_in-IsSound : (id base head : String) (s : Thread) → IsSound (mark_in id base head s c).1
  unfolding mark_in
  mark_in-IsSound id base head s =
      elim (Bool-cases
        (is_resolved s || not (is_set s.artifact.meta.pr) || is_at s.artifact.meta base head)) [
          | inl t ↦ rw t v
          | inr f ↦ rw f (
              let k = keep-IsSound c v (with_refs s base head) (ground arith) in
              record { distinct = k.distinct; parked = k.parked })
        ]

  pub mark_pr_refresh_available-IsSound :
      (id base head : String) → IsSound (mark_pr_refresh_available id base head c).1
  unfolding mark_pr_refresh_available
  mark_pr_refresh_available-IsSound id base head = go (stored c id)
    where
      go :
          (o : Option Thread)
          → (let r : Reply (Unit {0}) × Core = elim o [
            | none ↦ (ok tt, c)
            | some s ↦ mark_in id base head s c
          ] in
              IsSound r.1)
      go none = v
      go (some s) = mark_in-IsSound id base head s

  ticket-IsSound : (id : String) (capture : Capture) → IsSound (ticket id capture c).1
  unfolding next_generation
  ticket-IsSound id capture = record { distinct = v.distinct; parked = v.parked }

  pub refresh_pr_start-IsSound : (id : String) → IsSound (refresh_pr_start id c).1
  unfolding refresh_pr_start next_generation
  refresh_pr_start-IsSound id = go (stored c id)
    where
      pull : (s : Thread) (pr : Option String) → Reply (Option Ticket) × Core
      pull s pr = elim pr [
        | none ↦ (ok none, c)
        | some url ↦
            if is_resolved s || not (is_diff s)
            then (ok none, c)
            else ticket id (Capture.pull_request url) c
      ]

      go_pr : (s : Thread) (pr : Option String) → IsSound (pull s pr).1
      go_pr s none = v
      go_pr s (some url) = elim (Bool-cases (is_resolved s || not (is_diff s))) [
        | inl t ↦ rw t v
        | inr f ↦ rw f (ticket-IsSound id (Capture.pull_request url))
      ]

      go :
          (o : Option Thread)
          → (let r : Reply (Option Ticket) × Core = elim o [
            | none ↦ (ok none, c)
            | some s ↦ pull s (first_of s.artifact.meta.pr_url s.artifact.meta.pr)
          ] in
              IsSound r.1)
      go none = v
      go (some s) = go_pr s (first_of s.artifact.meta.pr_url s.artifact.meta.pr)

  refresh_in-IsSound : (id : String) (s : Thread) → IsSound (refresh_in id s c).1
  unfolding refresh_in
  refresh_in-IsSound id s = go (not (is_diff s)) (is_set s.artifact.meta.pr)
    where
      go :
          (a b : Bool)
          → (let r : Reply (Option Ticket) × Core =
                if a
                then (ok none, c)
                else if b
                then refresh_pr_start id c
                else ticket id (diff_capture s) c in
              IsSound r.1)
      go true b = v
      go false true = refresh_pr_start-IsSound id
      go false false = ticket-IsSound id (diff_capture s)

  pub refresh_diff_start-IsSound : (id : String) → IsSound (refresh_diff_start id c).1
  unfolding refresh_diff_start
  refresh_diff_start-IsSound id = elim (mutable_session-cases c id) [
    | inl (e, r) ↦ after c v (sym (bind-err (mutable_session id) (refresh_in id) c c r)) v
    | inr (s, q, o, r) ↦
        after c v (sym (bind-ok (mutable_session id) (refresh_in id) c c r))
          (refresh_in-IsSound id s)
  ]
