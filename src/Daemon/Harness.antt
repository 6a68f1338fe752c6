-- ===== src/Daemon/Harness.antt =====
-- The operations of `DaemonCore` (packages/daemon/src/api.ts) for a harness: its binding to a
-- session, and the messages that it is owed.
use cueloop.Prelude.{
  Bool, true, false, ◌&&◌, List, [], ◌∷◌, Option, none, some, String, Text, ◌==◌, string_eq,
  text_eq, if◌then◌else◌, find,
}
use cueloop.Types.{
  Thread, HarnessBinding, Delivery, Message, message_allows, ArtifactType, SessionEntry, EntryBody,
}
use cueloop.Routing.Store as R
use cueloop.Routing.Store.{
  BindInput, bind, binding, submitting_binding, acknowledged, consume_approved_retry, pending,
  delivery, acknowledge,
}
use cueloop.Daemon.Core.{
  Core, Call, ok, err, ◌>>=◌, ◌>>◌, pure, throw, session_get, is_resolved, not_found, invalid_state,
}
use cueloop.Daemon.Tracking.{reconcile_deliveries}

unfoldable pub bind_in : String → String → BindInput → Thread → Call HarnessBinding
bind_in minted now input session c =
    let (routing, b) = bind minted now c.routing input in (ok b, record c { routing = routing })

unfoldable pub harness_bind : String → String → String → BindInput → Call HarnessBinding
harness_bind minted minted_delivery now input = do
  first ← session_get input.thread_id
  bound ← bind_in minted now input first
  session ← session_get input.thread_id
  reconcile_deliveries minted_delivery now session
  pure bound

unfoldable pub harness_get_binding : String → Call HarnessBinding
harness_get_binding id c = elim (binding c.routing id) [
  | some b ↦ (ok b, c)
  | none ↦ throw (not_found id) c
]

abbrev pub is_plan : Thread → Bool
is_plan s = elim s.artifact.type [ ArtifactType.plan ↦ true | _ ↦ false ]

abbrev pub approved_by : Option Message → String → Bool
approved_by none id = false
approved_by (some m) id = m.id == id && message_allows m.outcome

abbrev pub binds : Option HarnessBinding → String → Bool
binds none id = false
binds (some b) id = b.id == id

-- The plan is approved as it is, and the binding that submitted it has acknowledged the message.
unfoldable pub is_approved_retry : Core → Thread → String → String → Text → Bool
is_approved_retry c session binding_id message_id content =
    is_plan session
    && is_resolved session
    && approved_by session.message message_id
    && session.artifact.content == content
    && binds (submitting_binding c.routing session.id) binding_id
    && acknowledged c.routing binding_id message_id

unfoldable pub consume_in : String → String → Call Bool
consume_in id message_id c = elim (consume_approved_retry c.routing id message_id) [
  | R.ok (routing, consumed) ↦ (ok consumed, record c { routing = routing })
  | R.err _ ↦ (err (not_found id), c)
]

unfoldable pub retry_in : String → String → Text → Thread → Call Bool
retry_in id message_id content session c =
    if is_approved_retry c session id message_id content
    then consume_in id message_id c
    else (err invalid_state, c)

unfoldable pub harness_consume_approved_retry : String → String → Text → Call Bool
harness_consume_approved_retry id message_id content = do
  b ← harness_get_binding id
  session_get b.thread_id >>= retry_in id message_id content

-- The message that the entry holds, if it has the id.
abbrev pub message_in : String → SessionEntry → Bool
message_in id e = elim e.body [ EntryBody.message m ↦ m.id == id | _ ↦ false ]

unfoldable pub message_of : Thread → String → Option Message
message_of s id =
    let historical : Option Message = elim s.history [
      | none ↦ none
      | some h ↦ elim (find (message_in id) h.entries) [
        | none ↦ none
        | some e ↦ elim e.body [ EntryBody.message m ↦ some m | _ ↦ none ]
      ]
    ] in
    elim s.message [ none ↦ historical | some m ↦ if m.id == id then some m else historical ]

unfoldable pub with_messages : Thread → List Delivery → Call (List (Delivery × Message))
with_messages s [] = pure []
with_messages s (d ∷ ds) = elim (message_of s d.message_id) [
  | none ↦ throw (not_found d.message_id)
  | some m ↦ with_messages s ds >>= λ rest. pure ((d, m) ∷ rest)
]

unfoldable pub delivery_pending : String → Call (List (Delivery × Message))
delivery_pending id = do
  b ← harness_get_binding id
  session ← session_get b.thread_id
  (λ c. with_messages session (pending c.routing id) c)

unfoldable pub delivery_acknowledge : String → String → Call Delivery
delivery_acknowledge now id c = elim (delivery c.routing id) [
  | none ↦ throw (not_found id) c
  | some _ ↦ elim (acknowledge c.routing id now) [
    | R.ok (routing, d) ↦ (ok d, record c { routing = routing })
    | R.err _ ↦ throw (not_found id) c
  ]
]
