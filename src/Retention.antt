-- ===== src/Retention.antt =====
-- `isExpired` and `pruneExpiredSessions` of packages/daemon/src/retention.ts. A time is a number of
-- milliseconds; `Date.parse` and the present time are arguments.
use cueloop.Prelude.{
  ℕ, ◌+◌, ◌*◌, ◌≡◌, refl, sym, ap, ◌∙◌, Bool, true, false, not, ◌&&◌, List, [], ◌∷◌, Option, none,
  some, String, ◌==◌, ◌!=◌, string_eq, nat_eq, if◌then◌else◌, ltb, leb, ◌||◌, filter, any, has, All,
  All-imp, All-imp2, Bool-cases, inl, inr, arith,
}
use cueloop.Prelude.Keyed.{Apart}
use cueloop.Types.{Thread, SessionStatus}

abbrev pub milliseconds_per_day : ℕ
milliseconds_per_day = 86400000

abbrev pub is_resolved : SessionStatus → Bool
is_resolved SessionStatus.resolved = true
is_resolved SessionStatus.pending = false

abbrev pub thread_id : Thread → String
thread_id t = t.id

module _ (parse : String → Option ℕ) where
  -- `nowMs - createdMs > periodDays * MILLISECONDS_PER_DAY`
  unfoldable pub is_expired : String → ℕ → ℕ → Bool
  is_expired created_at period_days now =
      if period_days == 0 then false else elim (parse created_at) [
        | none ↦ false
        | some created ↦ ltb (created + period_days * milliseconds_per_day) now
      ]

  abbrev pub is_pruned : ℕ → ℕ → List String → Thread → Bool
  is_pruned period_days now protected_ids session =
      is_resolved session.status
      && not (has protected_ids session.id)
      && is_expired session.created_at period_days now

  -- `store.delete(id)` on the store's records.
  abbrev pub delete : List Thread → String → List Thread
  delete store id = filter (λ t. t.id != id) store

  -- The loop over the listed sessions: the store that it leaves and the ids that it has pruned.
  unfoldable pub prune_from :
      ℕ → ℕ → List String → List Thread → List Thread → List Thread × List String
  prune_from period_days now protected_ids store [] = (store, [])
  prune_from period_days now protected_ids store (session ∷ sessions) =
      if is_pruned period_days now protected_ids session && any (λ t. t.id == session.id) store
      then (let (left, pruned) =
            prune_from period_days now protected_ids (delete store session.id) sessions in
          (left, session.id ∷ pruned))
      else prune_from period_days now protected_ids store sessions

  -- `listed` is `store.list()`: the records of the store, in the order that it lists them.
  unfoldable pub prune_expired_sessions :
      List Thread → List Thread → ℕ → ℕ → List String → List Thread × List String
  prune_expired_sessions store listed period_days now protected_ids =
      if period_days == 0
      then (store, [])
      else prune_from period_days now protected_ids store listed

  module _ (period_days now : ℕ) (protected_ids : List String) where
    -- Some listed session of the same id is pruned.
    goes : List Thread → Thread → Bool
    goes sessions t = any (λ s. s.id == t.id && is_pruned period_days now protected_ids s) sessions

    delete_absent :
        (store : List Thread) (id : String)
        → any (λ t. t.id == id) store ≡ false
        → delete store id ≡ store
    delete_absent [] id h = refl
    delete_absent (t ∷ ts) id h = ground (arith, delete_absent ts id)

    filter-delete :
        (p : Thread → Bool) (store : List Thread) (id : String)
        → filter p (delete store id) ≡ filter (λ t. t.id != id && p t) store
    filter-delete p [] id = refl
    filter-delete p (t ∷ ts) id = ground (arith, filter-delete p ts id)

    filter_same :
        (p q : Thread → Bool) (ts : List Thread)
        → ((t : Thread) → p t ≡ q t)
        → filter p ts ≡ filter q ts
    filter_same p q [] h = refl
    filter_same p q (t ∷ ts) h = ground (arith, h t, filter_same p q ts h)

    filter_gone :
        (p : Thread → Bool) (store : List Thread) (id : String)
        → any (λ t. t.id == id) store ≡ false
        → filter p store ≡ filter (λ t. t.id != id && p t) store
    filter_gone p store id h =
        ap (filter p) (sym (delete_absent store id h)) ∙ filter-delete p store id

    prune_from-goes :
        (store sessions : List Thread)
        → (prune_from period_days now protected_ids store sessions).0
          ≡ filter (λ t. not (goes sessions t)) store
    unfolding prune_from goes
    prune_from-goes store [] = sym (filter_all store)
      where
        filter_all : (ts : List Thread) → filter (λ t. true) ts ≡ ts
        filter_all [] = refl
        filter_all (t ∷ ts) = ap (◌∷◌ t) (filter_all ts)
    prune_from-goes store (s ∷ sessions) =
        elim (Bool-cases (is_pruned period_days now protected_ids s)) [
          | inr f ↦
              rw (f, prune_from)
                (prune_from-goes store sessions ∙ filter_same _ _ store (λ t. ground (arith, f)))
          | inl p ↦ elim (Bool-cases (any (λ t. t.id == s.id) store)) [
            | inl i ↦
                rw (p, i, prune_from)
                  (prune_from-goes (delete store s.id) sessions
                    ∙ (filter-delete _ store s.id ∙ filter_same _ _ store (λ t. ground (arith, p))))
            | inr n ↦
                rw (p, n, prune_from)
                  (prune_from-goes store sessions
                    ∙ (filter_gone _ store s.id n ∙ filter_same _ _ store (λ t. ground (arith, p))))
          ]
        ]

    filter-All :
        (p q : Thread → Bool) (ts : List Thread)
        → All (λ t. p t ≡ q t) ts
        → filter p ts ≡ filter q ts
    filter-All p q [] h = refl
    filter-All p q (t ∷ ts) h = ground (arith, h.0, filter-All p q ts h.1)

    apart_goes :
        (x : Thread) (ts : List Thread) → All (λ t. (x.id == t.id) ≡ false) ts → goes ts x ≡ false
    unfolding goes
    apart_goes x [] h = refl
    apart_goes x (t ∷ ts) h = ground (arith, h.0, apart_goes x ts h.1)

    goes_own :
        (ts : List Thread)
        → Apart (λ a b. a.id == b.id) ts
        → All (λ t. goes ts t ≡ is_pruned period_days now protected_ids t) ts
    unfolding goes
    goes_own [] h = tt
    goes_own (x ∷ xs) h = (
      ground (arith, apart_goes x xs h.0),
      All-imp2 (λ t k m. ground (arith, k, m)) xs h.0 (goes_own xs h.1),
    )

    none_pruned :
        (ts : List Thread)
        → period_days ≡ 0
        → filter (λ t. not (is_pruned period_days now protected_ids t)) ts ≡ ts
    unfolding is_expired
    none_pruned [] z = refl
    none_pruned (t ∷ ts) z = ground (arith, z, none_pruned ts z)

  prune_expired_sessions-is_pruned :
      (store listed : List Thread) (period_days now : ℕ) (protected_ids : List String)
      → Apart (λ a b. a.id == b.id) store
      → ((p : Thread → Bool) → any p listed ≡ any p store)
      → (prune_expired_sessions store listed period_days now protected_ids).0
        ≡ filter (λ t. not (is_pruned period_days now protected_ids t)) store
  unfolding prune_expired_sessions goes
  prune_expired_sessions-is_pruned store listed period_days now protected_ids d same =
      elim (Bool-cases (period_days == 0)) [
        | inl t ↦
            rw (t, prune_expired_sessions)
              (sym (none_pruned period_days now protected_ids store (ground arith)))
        | inr f ↦
            rw (f, prune_expired_sessions)
              (prune_from-goes period_days now protected_ids store listed
                ∙ (filter_same period_days now protected_ids _ _ store (λ t. ap not (same _))
                    ∙ filter-All period_days now protected_ids _ _ store (
                        All-imp (λ t h. ap not h) store
                          (goes_own period_days now protected_ids store d))))
      ]

  -- A session that stays: it is pending, protected, kept for ever, of an unknown date, or not
  -- older than the period.
  abbrev pub stays : ℕ → ℕ → List String → Thread → Bool
  stays period_days now protected_ids t =
      (elim t.status [ SessionStatus.pending ↦ true | SessionStatus.resolved ↦ false ])
      || has protected_ids t.id
      || period_days == 0
      || (elim (parse t.created_at) [
        | none ↦ true
        | some created ↦ leb now (created + period_days * (1000 * 60 * 60 * 24))
      ])

  stays-is_pruned :
      (period_days now : ℕ) (protected_ids : List String) (t : Thread)
      → not (is_pruned period_days now protected_ids t) ≡ stays period_days now protected_ids t
  unfolding is_expired
  stays-is_pruned period_days now protected_ids t =
      split t.status (has protected_ids t.id) (parse t.created_at)
    where
      split :
          (status : SessionStatus) (known : Bool) (date : Option ℕ)
          → not (
              is_resolved status
              && not known
              && (if period_days == 0 then false else elim date [
                | none ↦ false
                | some created ↦ ltb (created + period_days * milliseconds_per_day) now
              ]))
            ≡ (elim status [ SessionStatus.pending ↦ true | SessionStatus.resolved ↦ false ])
              || known
              || period_days == 0
              || (elim date [
                | none ↦ true
                | some created ↦ leb now (created + period_days * (1000 * 60 * 60 * 24))
              ])
      split SessionStatus.pending known date = refl
      split SessionStatus.resolved known none = ground arith
      split SessionStatus.resolved known (some created) = ground arith

  -- `pruneExpiredSessions` leaves exactly the sessions that are pending, protected or not yet
  -- expired, each as it was, in whatever order the store lists its records: a session expires once
  -- its date is known and more than the period before the present, and never for a period of
  -- zero. The ids of the records are distinct, and the list holds what the store holds.
  pub prune_expired_sessions_lem :
      (store listed : List Thread) (period_days now : ℕ) (protected_ids : List String)
      → Apart (λ a b. a.id == b.id) store
      → ((p : Thread → Bool) → any p listed ≡ any p store)
      → (prune_expired_sessions store listed period_days now protected_ids).0
        ≡ filter (stays period_days now protected_ids) store
  prune_expired_sessions_lem store listed period_days now protected_ids d same =
      prune_expired_sessions-is_pruned store listed period_days now protected_ids d same
      ∙ filter_same period_days now protected_ids _ _ store
          (stays-is_pruned period_days now protected_ids)
