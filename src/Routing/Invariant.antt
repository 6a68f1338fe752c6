-- ===== src/Routing/Invariant.antt =====
-- What the methods of `HarnessStateStore` (packages/daemon/src/harness-state-store.ts) keep.
use cueloop.Prelude.{
  ◌≡◌, refl, sym, subst, Bool, ◌&&◌, List, [], ◌∷◌, none, some, String, ◌==◌, string_eq, find,
  arith, Bool-cases, Option-cases, inl, inr, ◌⊎◌,
}
use cueloop.Types.{HarnessBinding, Delivery, DeliveryStatus}
use cueloop.Prelude.Keyed.{
  Apart, find-none, Apart-filter, Apart-append, put_new, Apart-put, find_holds,
}
use cueloop.Prelude.Maps.{put}
use cueloop.Routing.Store.{
  Store, BindInput, EnqueueInput, Result, ok, err, binding_id, delivery_id, persist, is_bound,
  is_routed, is_pending, is_message, new_binding, new_delivery, bind, enqueue, acknowledge,
  consume_approved_retry, delete_bindings_and_deliveries, delete_thread_state,
  delete_orphaned_thread_state, binding, delivery,
}

abbrev pub same_binding_id : HarnessBinding → HarnessBinding → Bool
same_binding_id a b = a.id == b.id

-- The binding of one harness session to one Thread.
abbrev pub same_session : HarnessBinding → HarnessBinding → Bool
same_session a b =
    a.thread_id == b.thread_id
    && a.harness == b.harness
    && a.harness_session_id == b.harness_session_id

abbrev pub same_delivery_id : Delivery → Delivery → Bool
same_delivery_id a b = a.id == b.id

-- The delivery of one Message to one binding.
abbrev pub same_route : Delivery → Delivery → Bool
same_route a b = a.binding_id == b.binding_id && a.message_id == b.message_id

-- What the file holds is what the store holds; a store that has never written is empty.
abbrev pub IsSaved : Store → Type 0
IsSaved s =
    (s.saved ≡ some (record { bindings = s.bindings; deliveries = s.deliveries }))
    ⊎ ((s.saved ≡ none) × (s.bindings ≡ []) × (s.deliveries ≡ []))

pub record IsConsistent (s : Store) : Type 0 where
  pub binding_ids : Apart same_binding_id s.bindings
  pub sessions : Apart same_session s.bindings
  pub delivery_ids : Apart same_delivery_id s.deliveries
  pub routes : Apart same_route s.deliveries
  pub saved : IsSaved s

pub bind-IsConsistent :
    (minted now : String) (s : Store) (input : BindInput)
    → IsConsistent s
    → binding s minted ≡ none
    → IsConsistent (bind minted now s input).0
unfolding bind binding
bind-IsConsistent minted now s input v fresh =
    elim (Option-cases (find (is_bound input) s.bindings)) [
      | inr (b, f) ↦ rw (f, bind) v
      | inl n ↦
          let b = new_binding minted now input in
          rw (n, bind, put_new binding_id b s.bindings (find-none _ s.bindings fresh))
            (record {
              binding_ids =
                  Apart-append same_binding_id b s.bindings v.binding_ids
                    (find-none _ s.bindings fresh);
              sessions =
                  Apart-append same_session b s.bindings v.sessions (find-none _ s.bindings n);
              delivery_ids = v.delivery_ids;
              routes = v.routes;
              saved = inl refl;
            })
    ]

pub enqueue-IsConsistent :
    (minted now : String) (s : Store) (input : EnqueueInput)
    → IsConsistent s
    → delivery s minted ≡ none
    → IsConsistent (enqueue minted now s input).0
unfolding enqueue delivery
enqueue-IsConsistent minted now s input v fresh =
    elim (Option-cases (find (is_routed input) s.deliveries)) [
      | inr (b, f) ↦ rw (f, enqueue) v
      | inl n ↦
          let d = new_delivery minted now input in
          rw (n, enqueue, put_new delivery_id d s.deliveries (find-none _ s.deliveries fresh))
            (record {
              binding_ids = v.binding_ids;
              sessions = v.sessions;
              delivery_ids =
                  Apart-append same_delivery_id d s.deliveries v.delivery_ids
                    (find-none _ s.deliveries fresh);
              routes = Apart-append same_route d s.deliveries v.routes (find-none _ s.deliveries n);
              saved = inl refl;
            })
    ]

pub delete-IsConsistent :
    (s : Store) (ids : List String)
    → IsConsistent s
    → IsConsistent (delete_bindings_and_deliveries s ids).0
unfolding delete_bindings_and_deliveries
delete-IsConsistent s [] v = v
delete-IsConsistent s (i ∷ ids) v = record {
  binding_ids = Apart-filter same_binding_id _ s.bindings v.binding_ids;
  sessions = Apart-filter same_session _ s.bindings v.sessions;
  delivery_ids = Apart-filter same_delivery_id _ s.deliveries v.delivery_ids;
  routes = Apart-filter same_route _ s.deliveries v.routes;
  saved = inl refl;
}

found :
    (s : Store) (id : String) (x : Delivery)
    → find (λ d. d.id == id) s.deliveries ≡ some x
    → find (λ d. d.id == x.id) s.deliveries ≡ some x
found s id x f =
    let e : x.id ≡ id = ground (arith, find_holds (λ (d : Delivery). d.id == id) s.deliveries f) in
    subst (λ (k : String). find (λ d. d.id == k) s.deliveries ≡ some x) (sym e) f

acknowledged-IsConsistent :
    (s : Store) (x : Delivery) (at : String)
    → IsConsistent s
    → find (λ d. d.id == x.id) s.deliveries ≡ some x
    → IsConsistent (
        persist (record s {
          deliveries =
              put delivery_id
                (record x { status = DeliveryStatus.acknowledged; acknowledged_at = some at })
                s.deliveries;
        }))
unfolding persist
acknowledged-IsConsistent s x at v f = record {
  binding_ids = v.binding_ids;
  sessions = v.sessions;
  delivery_ids =
      Apart-put delivery_id same_delivery_id _ x s.deliveries (λ z. (refl, refl)) f v.delivery_ids;
  routes = Apart-put delivery_id same_route _ x s.deliveries (λ z. (refl, refl)) f v.routes;
  saved = inl refl;
}

retried-IsConsistent :
    (s : Store) (x : HarnessBinding) (message : String)
    → IsConsistent s
    → find (λ b. b.id == x.id) s.bindings ≡ some x
    → IsConsistent (
        persist (record s {
          bindings =
              put binding_id (record x { approved_retry_message_id = some message }) s.bindings;
        }))
unfolding persist
retried-IsConsistent s x message v f = record {
  binding_ids =
      Apart-put binding_id same_binding_id _ x s.bindings (λ z. (refl, refl)) f v.binding_ids;
  sessions = Apart-put binding_id same_session _ x s.bindings (λ z. (refl, refl)) f v.sessions;
  delivery_ids = v.delivery_ids;
  routes = v.routes;
  saved = inl refl;
}

pub consume_approved_retry-IsConsistent :
    (s : Store) (id message : String) {s' : Store} {fresh : Bool}
    → IsConsistent s
    → consume_approved_retry s id message ≡ ok (s', fresh)
    → IsConsistent s'
unfolding consume_approved_retry binding
consume_approved_retry-IsConsistent s id message {s'} {fresh} v q =
    elim (Option-cases (find (λ b. b.id == id) s.bindings)) [
      | inl n ↦ absurd (ground arith)
      | inr (x, f) ↦ elim (Bool-cases (is_message x.approved_retry_message_id message)) [
        | inl a ↦ subst IsConsistent (ground arith) v
        | inr p ↦
            let e : x.id ≡ id =
              ground (arith, find_holds (λ (b : HarnessBinding). b.id == id) s.bindings f) in
            subst IsConsistent (ground arith) (
              retried-IsConsistent s x message v
                (subst (λ (k : String). find (λ b. b.id == k) s.bindings ≡ some x) (sym e) f))
      ]
    ]

pub acknowledge-IsConsistent :
    (s : Store) (id at : String) {s' : Store} {d : Delivery}
    → IsConsistent s
    → acknowledge s id at ≡ ok (s', d)
    → IsConsistent s'
unfolding acknowledge delivery
acknowledge-IsConsistent s id at {s'} {d} v q =
    elim (Option-cases (find (λ d. d.id == id) s.deliveries)) [
      | inl n ↦ absurd (ground arith)
      | inr (x, f) ↦ elim (Bool-cases (is_pending x.status)) [
        | inr a ↦ subst IsConsistent (ground arith) v
        | inl p ↦
            subst IsConsistent (ground arith) (acknowledged-IsConsistent s x at v (found s id x f))
      ]
    ]

-- A call of a method that writes; a minted id is new.
pub data Call : Type 0 where
  bound : String → String → BindInput → Call
  queued : String → String → EnqueueInput → Call
  settled : String → String → Call
  retried : String → String → Call
  deleted : String → Call
  swept : List String → Call

-- The state after a call; a method that throws leaves it as it was.
pub after_call : Store → Call → Store
after_call s (bound minted now input) = (bind minted now s input).0
after_call s (queued minted now input) = (enqueue minted now s input).0
after_call s (settled id at) = elim (acknowledge s id at) [ ok (s', _) ↦ s' | err _ ↦ s ]
after_call s (retried id message) = elim (consume_approved_retry s id message) [
  | ok (s', _) ↦ s'
  | err _ ↦ s
]
after_call s (deleted thread) = (delete_thread_state s thread).0
after_call s (swept existing) = (delete_orphaned_thread_state s existing).0

abbrev pub IsFresh : Store → Call → Type 0
IsFresh s (bound minted now input) = binding s minted ≡ none
IsFresh s (queued minted now input) = delivery s minted ≡ none
IsFresh s _ = Unit

-- Every method keeps the store consistent: ids are unique, a harness session is bound to a Thread
-- at most once, a Message has at most one delivery to a binding, and the file holds what the
-- store holds.
pub after_call-IsConsistent :
    (s : Store) (c : Call) → IsConsistent s → IsFresh s c → IsConsistent (after_call s c)
unfolding after_call delete_thread_state delete_orphaned_thread_state
after_call-IsConsistent s (bound minted now input) v f = bind-IsConsistent minted now s input v f
after_call-IsConsistent s (queued minted now input) v f =
    enqueue-IsConsistent minted now s input v f
after_call-IsConsistent s (settled id at) v f = settle (acknowledge s id at) refl
  where
    settle :
        (r : Result (Store × Delivery))
        → acknowledge s id at ≡ r
        → IsConsistent (elim r [ ok (s', _) ↦ s' | err _ ↦ s ])
    settle (ok (s', d)) e = acknowledge-IsConsistent s id at v e
    settle (err x) e = v
after_call-IsConsistent s (retried id message) v f =
    settle (consume_approved_retry s id message) refl
  where
    settle :
        (r : Result (Store × Bool))
        → consume_approved_retry s id message ≡ r
        → IsConsistent (elim r [ ok (s', _) ↦ s' | err _ ↦ s ])
    settle (ok (s', d)) e = consume_approved_retry-IsConsistent s id message v e
    settle (err x) e = v
after_call-IsConsistent s (deleted thread) v f = delete-IsConsistent s _ v
after_call-IsConsistent s (swept existing) v f = delete-IsConsistent s _ v
