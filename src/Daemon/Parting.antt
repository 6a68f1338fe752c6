-- ===== src/Daemon/Parting.antt =====
-- A session on its way out of the open ones (packages/daemon/src/api.ts): between the write that
-- resolves or forgets it and the answers to those who wait for it.
use cueloop.Prelude.{
  ◌≡◌, refl, ◌∙◌, ap, Bool, true, false, List, [], ◌∷◌, Option, String, ◌==◌, ◌!=◌, string_eq, find,
  filter, All, All-imp, Bool-cases, inl, inr, arith,
}
use cueloop.Prelude.Maps.{put}
use cueloop.Prelude.Keyed.{Apart, Apart-filter}
use cueloop.Types.{Thread}
use cueloop.Daemon.Core.{Core, Waiter, session_id, keep}
use cueloop.Daemon.Operations.{answer_waiters}
use cueloop.Daemon.Sound.{IsSound, same_session, is_open, opens, find-put, Apart-put_any}

-- Sound, but for those who wait for the session.
pub record IsSoundBut (id : String) (c : Core) : Type 0 where
  pub distinct : Apart same_session c.sessions
  pub parked :
      All
        (λ (w : Waiter). (w.session_id == id) ≡ false → is_open c.sessions w.session_id ≡ true)
        c.waiters

filter_imp :
    (P : Waiter → Type 0) (q : Waiter → Bool) (ws : List Waiter)
    → All (λ w. q w ≡ true → P w) ws
    → All P (filter q ws)
filter_imp P q [] h = tt
filter_imp P q (w ∷ ws) h = elim (Bool-cases (q w)) [
  | inl t ↦ rw t (h.0 t, filter_imp P q ws h.1)
  | inr f ↦ rw f (filter_imp P q ws h.1)
]

find-filter :
    (id i : String) (xs : List Thread)
    → (i == id) ≡ false
    → find (λ s. s.id == i) (filter (λ s. s.id != id) xs) ≡ find (λ s. s.id == i) xs
find-filter id i [] n = refl
find-filter id i (x ∷ xs) n = ground (arith, find-filter id i xs)

module _ (id : String) (c : Core) where
  pub IsSoundBut-IsSound : IsSound c → IsSoundBut id c
  IsSoundBut-IsSound v = record {
    distinct = v.distinct;
    parked = All-imp (λ w k _. k) c.waiters v.parked;
  }

  pub keep-IsSoundBut : (s : Thread) → s.id ≡ id → IsSoundBut id c → IsSoundBut id (keep s c).1
  keep-IsSoundBut s e v = record {
    distinct = Apart-put_any s c.sessions v.distinct;
    parked = All-imp (λ w k n. other w.session_id n (k n)) c.waiters v.parked;
  }
    where
      other :
          (i : String)
          → (i == id) ≡ false
          → is_open c.sessions i ≡ true
          → is_open (put session_id s c.sessions) i ≡ true
      other i n k =
          let apart : (s.id == i) ≡ false = ground arith in
          ap (λ (o : Option Thread). opens o) (find-put s c.sessions i) ∙ rw apart k

  -- Once they are answered, nobody waits for it.
  pub answer_waiters-IsSound :
      (o : Option Thread) → IsSoundBut id c → IsSound (answer_waiters id o c).1
  unfolding answer_waiters
  answer_waiters-IsSound o v = record {
    distinct = v.distinct;
    parked =
        filter_imp (λ w. is_open c.sessions w.session_id ≡ true) (λ w. w.session_id != id) c.waiters
          (All-imp (λ w k t. k (ground arith)) c.waiters v.parked);
  }

  pub forget-IsSoundBut :
      IsSound c → IsSoundBut id (record c { sessions = filter (λ s. s.id != id) c.sessions })
  forget-IsSoundBut v = record {
    distinct = Apart-filter same_session (λ s. s.id != id) c.sessions v.distinct;
    parked =
        All-imp
          (λ w k n.
            ap (λ (o : Option Thread). opens o) (find-filter id w.session_id c.sessions n) ∙ k)
          c.waiters v.parked;
  }
