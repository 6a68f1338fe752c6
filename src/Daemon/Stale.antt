-- ===== src/Daemon/Stale.antt =====
-- Overlapping captures of a hot reload (packages/daemon/src/api.ts).
use cueloop.Prelude.{
  ℕ, ◌+◌, ◌≡◌, refl, sym, ◌∙◌, ap, subst, Bool, true, false, not, ◌||◌, List, [], ◌∷◌, Option, none,
  some, String, ◌==◌, ◌!=◌, string_eq, nat_eq, Bool-cases, inl, inr, arith, if◌then◌else◌, find,
}
use cueloop.Prelude.Maps.{put}
use cueloop.Types.{Thread}
use cueloop.Sharing.PathView.{or_else, first_of}
use cueloop.Daemon.Core.{Core, Generation, Reply, ok, stored, mutable_session, is_resolved}
use cueloop.Daemon.Tracking.{is_diff, is_set}
use cueloop.Daemon.Refresh.{
  VcsDiffSnapshot, Ticket, Capture, generation_id, generation_of, next_generation, ticket,
  diff_capture, refresh_pr_start, refresh_in, refresh_diff_start, live_session, finish_diff,
  refresh_diff_finish,
}
use cueloop.Daemon.Calls.{bind-ok, bind-err, mutable_session-cases}

find-put_same :
    (g : Generation) (gs : List Generation)
    → find (λ h. generation_id h == generation_id g) (put generation_id g gs) ≡ some g
unfolding put
find-put_same g [] = ground arith
find-put_same g (h ∷ gs) = ground (arith, find-put_same g gs)

abbrev generation_in : Option Generation → Option ℕ
generation_in o = elim o [ none ↦ none | some g ↦ some g.generation ]

-- A ticket that was given carries the generation that the session has from then on.
abbrev IsIssued : Core → String → Reply (Option Ticket) × Core → Type 0
IsIssued c id p =
    (t : Ticket)
    → p.0 ≡ ok (some t)
    → (t.generation ≡ or_else (generation_of c id) 0 + 1)
      × (generation_of p.1 id ≡ some t.generation)

module _ (c : Core) (id : String) where
  ticket-IsIssued : (capture : Capture) → IsIssued c id (ticket id capture c)
  unfolding next_generation generation_of
  ticket-IsIssued capture t q =
      let n : or_else (generation_of c id) 0 + 1 ≡ t.generation = ground arith in
      let g : Generation = record {
        session_id = id;
        generation = or_else (generation_of c id) 0 + 1;
      } in
      (
        sym n,
        ap (λ (o : Option Generation). generation_in o) (find-put_same g c.generations) ∙ ap some n,
      )

  nothing : IsIssued c id (ok none, c)
  nothing t q = absurd (cc)

  refresh_pr_start-IsIssued : IsIssued c id (refresh_pr_start id c)
  unfolding refresh_pr_start
  refresh_pr_start-IsIssued = go (stored c id)
    where
      pull : (s : Thread) (pr : Option String) → Reply (Option Ticket) × Core
      pull s pr = elim pr [
        | none ↦ (ok none, c)
        | some url ↦
            if is_resolved s || not (is_diff s)
            then (ok none, c)
            else ticket id (Capture.pull_request url) c
      ]

      go_pr : (s : Thread) (pr : Option String) → IsIssued c id (pull s pr)
      go_pr s none = nothing
      go_pr s (some url) = elim (Bool-cases (is_resolved s || not (is_diff s))) [
        | inl t ↦ rw t (nothing)
        | inr f ↦ rw f (ticket-IsIssued (Capture.pull_request url))
      ]

      go :
          (o : Option Thread)
          → (let r : Reply (Option Ticket) × Core = elim o [
            | none ↦ (ok none, c)
            | some s ↦ pull s (first_of s.artifact.meta.pr_url s.artifact.meta.pr)
          ] in
              IsIssued c id r)
      go none = nothing
      go (some s) = go_pr s (first_of s.artifact.meta.pr_url s.artifact.meta.pr)

  refresh_in-IsIssued : (s : Thread) → IsIssued c id (refresh_in id s c)
  unfolding refresh_in
  refresh_in-IsIssued s = go (not (is_diff s)) (is_set s.artifact.meta.pr)
    where
      go :
          (a b : Bool)
          → (let r : Reply (Option Ticket) × Core =
                if a
                then (ok none, c)
                else if b
                then refresh_pr_start id c
                else ticket id (diff_capture s) c in
              IsIssued c id r)
      go true b = nothing
      go false true = refresh_pr_start-IsIssued
      go false false = ticket-IsIssued (diff_capture s)

  refresh_diff_start-IsIssued : IsIssued c id (refresh_diff_start id c)
  unfolding refresh_diff_start
  refresh_diff_start-IsIssued = elim (mutable_session-cases c id) [
    | inl (e, r) ↦ λ t q.
        absurd (cc (ap (λ p. p.0) (sym (bind-err (mutable_session id) (refresh_in id) c c r)) ∙ q))
    | inr (s, q, o, r) ↦
        subst (IsIssued c id) (sym (bind-ok (mutable_session id) (refresh_in id) c c r))
          (refresh_in-IsIssued s)
  ]

superseded :
    (c : Core) (id : String) (n m : ℕ)
    → generation_of c id ≡ some m
    → (m != n) ≡ true
    → live_session c id n ≡ none
unfolding live_session
superseded c id n m q d = ap (λ (g : Option ℕ). live g) q ∙ rw d refl
  where
    live : Option ℕ → Option Thread
    live g = elim g [
      | none ↦ none
      | some k ↦ if k != n then none else elim (stored c id) [
        | none ↦ none
        | some s ↦ if is_resolved s || not (is_diff s) then none else some s
      ]
    ]

-- For a refresh of a session that is started, whatever runs next without another refresh of it, a
-- second refresh that is started, and whatever runs then without another: the capture of the
-- first is discarded, and the state stays as it is.
pub refresh_diff_finish-stale :
    (minted now id : String) (pinned : Bool) (diff : VcsDiffSnapshot) (first second : Ticket)
    (c c1 d d1 final : Core)
    → refresh_diff_start id c ≡ (ok (some first), c1)
    → generation_of d id ≡ generation_of c1 id
    → refresh_diff_start id d ≡ (ok (some second), d1)
    → generation_of final id ≡ generation_of d1 id
    → refresh_diff_finish minted now id first.generation pinned diff final ≡ (ok false, final)
unfolding refresh_diff_finish
refresh_diff_finish-stale minted now id pinned diff first second c c1 d d1 final start same again
      kept =
    let (_, g1) = refresh_diff_start-IsIssued c id first (ap (λ p. p.0) start) in
    let (n2, g2) = refresh_diff_start-IsIssued d id second (ap (λ p. p.0) again) in
    let now_first : generation_of d id ≡ some first.generation =
      same ∙ (ap (λ p. generation_of p.1 id) (sym start) ∙ g1) in
    let now_second : generation_of final id ≡ some second.generation =
      kept ∙ (ap (λ p. generation_of p.1 id) (sym again) ∙ g2) in
    let number : second.generation ≡ first.generation + 1 =
      n2 ∙ ap (λ o. or_else o 0 + 1) now_first in
    let differs : (second.generation != first.generation) ≡ true = ground (arith, number) in
    ap (λ (o : Option Thread). finished o)
      (superseded final id first.generation second.generation now_second differs)
  where
    finished : Option Thread → Reply Bool × Core
    finished o = elim o [
      | none ↦ (ok false, final)
      | some s ↦ finish_diff minted now id pinned diff s final
    ]
