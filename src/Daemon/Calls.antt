-- ===== src/Daemon/Calls.antt =====
-- How the calls of packages/daemon/src/api.ts compute: the next call after a reply, and the
-- sessions that `sessionGet` and `mutable` find.
use cueloop.Prelude.{
  ◌≡◌, refl, ap, ◌⊎◌, inl, inr, Bool-cases, Option-cases, ◌∙◌, true, false, not, Option, none, some,
  String,
}
use cueloop.Types.{Thread}
use cueloop.Daemon.Core.{
  Core, Reply, Call, ok, err, ◌>>=◌, ◌>>◌, pure, require, stored, is_resolved, session_get,
  mutable_session, not_found, already_resolved, DaemonError,
}

module _ {A B : Type 0} (m : Call A) (k : A → Call B) (c d : Core) where
  after : Reply A × Core → Reply B × Core
  after (ok a, d) = k a d
  after (err e, d) = (err e, d)

  pub bind-ok : {a : A} → m c ≡ (ok a, d) → (m >>= k) c ≡ k a d
  unfolding after
  bind-ok q = ap (λ (p : Reply A × Core). elim p.0 [ ok a ↦ k a p.1 | err e ↦ (err e, p.1) ]) q

  pub bind-err : {e : DaemonError} → m c ≡ (err e, d) → (m >>= k) c ≡ (err e, d)
  unfolding after
  bind-err q = ap (λ (p : Reply A × Core). elim p.0 [ ok a ↦ k a p.1 | err e ↦ (err e, p.1) ]) q

module _ (c : Core) (id : String) where
  abbrev found : Option Thread → Reply Thread × Core
  found o = elim o [ some s ↦ (ok s, c) | none ↦ (err (not_found id), c) ]

  abbrev if_open : Thread → Call Thread
  if_open s = require (not (is_resolved s)) (already_resolved id) >> pure s

  pub session_get-stored : {s : Thread} → stored c id ≡ some s → session_get id c ≡ (ok s, c)
  unfolding session_get
  session_get-stored q = ap found q

  pub session_get-none : stored c id ≡ none → session_get id c ≡ (err (not_found id), c)
  unfolding session_get
  session_get-none q = ap found q

  pub mutable_session-none : stored c id ≡ none → mutable_session id c ≡ (err (not_found id), c)
  unfolding mutable_session
  mutable_session-none q = bind-err (session_get id) if_open c c (session_get-none q)

  module _ {s : Thread} (q : stored c id ≡ some s) where
    pub mutable_session-resolved :
        is_resolved s ≡ true → mutable_session id c ≡ (err (already_resolved id), c)
    unfolding mutable_session
    mutable_session-resolved t =
        bind-ok (session_get id) if_open c c (session_get-stored q) ∙ rw t refl

    pub mutable_session-pending : is_resolved s ≡ false → mutable_session id c ≡ (ok s, c)
    unfolding mutable_session
    mutable_session-pending f =
        bind-ok (session_get id) if_open c c (session_get-stored q) ∙ rw f refl

  -- Either the call is refused and changes nothing, or the session is stored and open.
  pub mutable_session-cases :
      ((e : DaemonError) × (mutable_session id c ≡ (err e, c)))
      ⊎ ((s : Thread) × (stored c id ≡ some s)
          × (is_resolved s ≡ false)
          × (mutable_session id c ≡ (ok s, c)))
  mutable_session-cases = elim (Option-cases (stored c id)) [
    | inl n ↦ inl (not_found id, mutable_session-none n)
    | inr (s, q) ↦ elim (Bool-cases (is_resolved s)) [
      | inl t ↦ inl (already_resolved id, mutable_session-resolved q t)
      | inr f ↦ inr (s, q, f, mutable_session-pending q f)
    ]
  ]
