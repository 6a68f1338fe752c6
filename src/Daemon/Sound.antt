-- ===== src/Daemon/Sound.antt =====
-- What every operation of packages/daemon/src/api.ts keeps: the sessions have distinct ids, and
-- whoever is parked waits for a session that is stored and open. `put` and the edits of a session
-- are shown to keep it.
use cueloop.Prelude.{
  ◌≡◌, refl, sym, ◌∙◌, ap, subst, Bool, true, false, not, List, [], ◌∷◌, Option, none, some, String,
  ◌==◌, string_eq, if◌then◌else◌, find, All, All-imp, arith, Bool-cases, Option-cases, inl, inr,
}
use cueloop.Prelude.Maps.{put}
use cueloop.Prelude.Keyed.{Apart, Apart-put, Apart-append, put_new, find-none, find_holds}
use cueloop.Types.{Thread}
use cueloop.Daemon.Calls.{
  bind-ok, bind-err, mutable_session-none, mutable_session-resolved, mutable_session-pending,
}
use cueloop.Daemon.Core.{
  Core, Waiter, EventName, Reply, Call, ◌>>=◌, keep, emit, session_id, stored, is_resolved,
  mutable_session,
}

abbrev pub same_session : Thread → Thread → Bool
same_session a b = a.id == b.id

-- Whether the id is that of a stored session that is open.
abbrev pub opens : Option Thread → Bool
opens o = elim o [ none ↦ false | some s ↦ not (is_resolved s) ]

abbrev pub is_open : List Thread → String → Bool
is_open sessions id = opens (find (λ s. s.id == id) sessions)

pub record IsSound (c : Core) : Type 0 where
  pub distinct : Apart same_session c.sessions
  pub parked : All (λ (w : Waiter). is_open c.sessions w.session_id ≡ true) c.waiters

pub find-put :
    (x : Thread) (xs : List Thread) (i : String)
    → find (λ s. s.id == i) (put session_id x xs)
      ≡ (if x.id == i then some x else find (λ s. s.id == i) xs)
unfolding put
find-put x [] i = refl
find-put x (y ∷ ys) i = ground (arith, find-put x ys i)

pub Apart-put_any :
    (x : Thread) (xs : List Thread)
    → Apart same_session xs
    → Apart same_session (put session_id x xs)
Apart-put_any x xs h = elim (Option-cases (find (λ s. s.id == x.id) xs)) [
  | inl n ↦
      rw (put_new session_id x xs (find-none _ xs n))
        (Apart-append same_session x xs h (find-none _ xs n))
  | inr (old, q) ↦
      Apart-put session_id same_session x old xs (λ z. like old z (find_holds _ xs q)) q h
]
  where
    like :
        (old z : Thread)
        → (old.id == x.id) ≡ true
        → (same_session x z ≡ same_session old z) × (same_session z x ≡ same_session z old)
    like old z e =
        let ids : old.id ≡ x.id = ground arith in
        (ap (λ i. i == z.id) (sym ids), ap (λ i. z.id == i) (sym ids))

module _ (c : Core) (v : IsSound c) where
  -- A session may be written if it stays open when it is.
  keep_if-IsSound :
      (s : Thread) → (is_open c.sessions s.id ≡ true → is_resolved s ≡ false) → IsSound (keep s c).1
  keep_if-IsSound s o = record {
    distinct = Apart-put_any s c.sessions v.distinct;
    parked = All-imp (λ w k. still_open w.session_id k) c.waiters v.parked;
  }
    where
      still_open :
          (i : String)
          → is_open c.sessions i ≡ true
          → is_open (put session_id s c.sessions) i ≡ true
      still_open i k =
          subst (λ (x : Option Thread). opens x ≡ true) (sym (find-put s c.sessions i))
            (elim (Bool-cases (s.id == i)) [
              | inl t ↦
                  rw (t, o (subst (λ (x : String). is_open c.sessions x ≡ true) (ground arith) k))
                    refl
              | inr f ↦ rw f k
            ])

  pub keep-IsSound : (s : Thread) → is_resolved s ≡ false → IsSound (keep s c).1
  keep-IsSound s o = keep_if-IsSound s (λ _. o)

  -- A session that is written with the status it is stored with.
  pub keep_same-IsSound :
      (s old : Thread) → stored c s.id ≡ some old → s.status ≡ old.status → IsSound (keep s c).1
  keep_same-IsSound s old q e = keep_if-IsSound s (λ o. pending o)
    where
      pending : is_open c.sessions s.id ≡ true → is_resolved s ≡ false
      pending o =
          let k : not (is_resolved old) ≡ true = ap (λ (x : Option Thread). opens x) (sym q) ∙ o in
          ground (arith, k, e)

  pub emit-IsSound :
      (event : EventName) (id : String) (e : Option String) → IsSound (emit event id e c).1
  emit-IsSound event id e = record { distinct = v.distinct; parked = v.parked }

  pub after : {A : Type 0} {p q : Reply A × Core} → p ≡ q → IsSound p.1 → IsSound q.1
  after {p} e u = subst (λ (r : Reply _ × Core). IsSound r.1) e u

  -- What runs on an open session of the store.
  pub mutable_session-IsSound :
      {A : Type 0} (id : String) (k : Thread → Call A)
      → ((s : Thread) → stored c id ≡ some s → is_resolved s ≡ false → IsSound (k s c).1)
      → IsSound ((mutable_session id >>= k) c).1
  mutable_session-IsSound id k h = elim (Option-cases (stored c id)) [
    | inl n ↦ after (sym (bind-err (mutable_session id) k c c (mutable_session-none c id n))) v
    | inr (s, q) ↦ elim (Bool-cases (is_resolved s)) [
      | inl t ↦
          after (sym (bind-err (mutable_session id) k c c (mutable_session-resolved c id q t))) v
      | inr f ↦
          after (sym (bind-ok (mutable_session id) k c c (mutable_session-pending c id q f)))
            (h s q f)
    ]
  ]
