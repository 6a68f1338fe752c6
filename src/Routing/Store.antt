-- ===== src/Routing/Store.antt =====
-- `HarnessStateStore` of packages/daemon/src/harness-state-store.ts. A `Map` from ids is the list
-- of its values in the order of their first insertion; `saved` is the file that `persist` writes.
-- A minted id and the present time are arguments.
use cueloop.Prelude.{
  Bool, true, false, not, ◌&&◌, List, [], ◌∷◌, ◌++◌, map, Option, none, some, String, ◌==◌,
  string_eq, if◌then◌else◌, find, filter, any, has,
}
use cueloop.Prelude.Maps.{put, map_of}
use cueloop.Types.{HarnessBinding, Delivery, DeliveryStatus}

pub record Snapshot : Type 0 where
  pub bindings : List HarnessBinding
  pub deliveries : List Delivery

pub record Store : Type 0 where
  pub bindings : List HarnessBinding
  pub deliveries : List Delivery
  pub saved : Option Snapshot

pub record BindInput : Type 0 where
  pub thread_id : String
  pub harness : String
  pub harness_session_id : String

pub record EnqueueInput : Type 0 where
  pub binding_id : String
  pub message_id : String

pub data StoreError : Type 0 where
  no_binding : String → StoreError
  no_delivery : String → StoreError

pub data Result {ℓ} (A : Type ℓ) : Type ℓ where
  ok : A → Result A
  err : StoreError → Result A

abbrev pub binding_id : HarnessBinding → String
binding_id b = b.id

abbrev pub delivery_id : Delivery → String
delivery_id d = d.id

unfoldable pub persist : Store → Store
persist s = record s { saved = some (record { bindings = s.bindings; deliveries = s.deliveries }) }

-- The constructor, on the file as it is.
unfoldable pub load : Option Snapshot → Store
load none = record { bindings = []; deliveries = []; saved = none }
load (some file) = record {
  bindings = map_of binding_id [] file.bindings;
  deliveries = map_of delivery_id [] file.deliveries;
  saved = some file;
}

abbrev pub is_bound : BindInput → HarnessBinding → Bool
is_bound input b =
    b.thread_id == input.thread_id
    && b.harness == input.harness
    && b.harness_session_id == input.harness_session_id

abbrev pub new_binding : String → String → BindInput → HarnessBinding
new_binding minted now input = record {
  id = minted;
  thread_id = input.thread_id;
  harness = input.harness;
  harness_session_id = input.harness_session_id;
  created_at = now;
  approved_retry_message_id = none;
}

unfoldable pub bind : String → String → Store → BindInput → Store × HarnessBinding
unfolding persist
bind minted now s input = elim (find (is_bound input) s.bindings) [
  | some existing ↦ (s, existing)
  | none ↦
      let b = new_binding minted now input in
      (persist (record s { bindings = put binding_id b s.bindings }), b)
]

unfoldable pub binding : Store → String → Option HarnessBinding
binding s id = find (λ b. b.id == id) s.bindings

unfoldable pub bindings_for_session : Store → String → String → List HarnessBinding
bindings_for_session s harness session =
    filter (λ b. b.harness == harness && b.harness_session_id == session) s.bindings

unfoldable pub delete_bindings_and_deliveries : Store → List String → Store × Bool
unfolding persist
delete_bindings_and_deliveries s [] = (s, false)
delete_bindings_and_deliveries s (i ∷ ids) = (
  persist (record s {
    bindings = filter (λ b. not (has (i ∷ ids) b.id)) s.bindings;
    deliveries = filter (λ d. not (has (i ∷ ids) d.binding_id)) s.deliveries;
  }),
  true,
)

unfoldable pub delete_thread_state : Store → String → Store × Bool
delete_thread_state s thread =
    delete_bindings_and_deliveries s
      (map (λ b. b.id) (filter (λ b. b.thread_id == thread) s.bindings))

-- `[...new Set(ids)]`
unfoldable pub distinct : List String → List String → List String
distinct seen [] = []
distinct seen (i ∷ ids) =
    let rest = distinct (i ∷ seen) ids in if has seen i then rest else i ∷ rest

unfoldable pub delete_orphaned_thread_state : Store → List String → Store × List String
delete_orphaned_thread_state s existing =
    let orphaned = filter (λ b. not (has existing b.thread_id)) s.bindings in
    (
      (delete_bindings_and_deliveries s (map (λ b. b.id) orphaned)).0,
      distinct [] (map (λ b. b.thread_id) orphaned),
    )

abbrev pub is_message : Option String → String → Bool
is_message none m = false
is_message (some n) m = n == m

unfoldable pub consume_approved_retry : Store → String → String → Result (Store × Bool)
unfolding persist binding
consume_approved_retry s id message = elim (binding s id) [
  | none ↦ err (no_binding id)
  | some b ↦
      if is_message b.approved_retry_message_id message
      then ok (s, false)
      else ok (
        persist (record s {
          bindings =
              put binding_id (record b { approved_retry_message_id = some message }) s.bindings;
        }),
        true,
      )
]

unfoldable pub submitting_binding : Store → String → Option HarnessBinding
submitting_binding s thread = find (λ b. b.thread_id == thread) s.bindings

abbrev pub is_routed : EnqueueInput → Delivery → Bool
is_routed input d = d.binding_id == input.binding_id && d.message_id == input.message_id

abbrev pub new_delivery : String → String → EnqueueInput → Delivery
new_delivery minted now input = record {
  id = minted;
  message_id = input.message_id;
  binding_id = input.binding_id;
  status = DeliveryStatus.pending;
  created_at = now;
  acknowledged_at = none;
}

unfoldable pub enqueue : String → String → Store → EnqueueInput → Store × Delivery
unfolding persist
enqueue minted now s input = elim (find (is_routed input) s.deliveries) [
  | some existing ↦ (s, existing)
  | none ↦
      let d = new_delivery minted now input in
      (persist (record s { deliveries = put delivery_id d s.deliveries }), d)
]

abbrev pub is_pending : DeliveryStatus → Bool
is_pending DeliveryStatus.pending = true
is_pending DeliveryStatus.acknowledged = false

unfoldable pub pending : Store → String → List Delivery
pending s id = filter (λ d. d.binding_id == id && is_pending d.status) s.deliveries

-- The loop of `pendingThreadIds`, with the set that it has collected.
unfoldable pub pending_threads : Store → List String → List Delivery → List String
unfolding binding
pending_threads s ids [] = ids
pending_threads s ids (d ∷ ds) =
    pending_threads s
      (if is_pending d.status
        then elim (binding s d.binding_id) [
          | none ↦ ids
          | some b ↦ if has ids b.thread_id then ids else ids ++ b.thread_id ∷ []
        ]
        else ids)
      ds

unfoldable pub pending_thread_ids : Store → List String
unfolding pending_threads
pending_thread_ids s = pending_threads s [] s.deliveries

unfoldable pub acknowledged : Store → String → String → Bool
acknowledged s id message =
    any (λ d. d.binding_id == id && d.message_id == message && not (is_pending d.status))
      s.deliveries

unfoldable pub delivery : Store → String → Option Delivery
delivery s id = find (λ d. d.id == id) s.deliveries

unfoldable pub acknowledge : Store → String → String → Result (Store × Delivery)
unfolding persist delivery
acknowledge s id at = elim (delivery s id) [
  | none ↦ err (no_delivery id)
  | some d ↦
      if is_pending d.status
      then (let acked = record d {
        status = DeliveryStatus.acknowledged;
        acknowledged_at = some at;
      } in
          ok (persist (record s { deliveries = put delivery_id acked s.deliveries }), acked))
      else ok (s, d)
]
