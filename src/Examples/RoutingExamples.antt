-- ===== src/Examples/RoutingExamples.antt =====
-- A store with one binding and one delivery (packages/daemon/src/harness-state-store.ts).
use cueloop.Prelude.{◌≡◌, refl, true, [], ◌∷◌, none, some, string_dec, string_eq, ◌==◌, inl, find}
use cueloop.Types.{HarnessBinding, Delivery, DeliveryStatus}
use cueloop.Prelude.Maps.{put}
use cueloop.Routing.Store.{
  Store, persist, bind, binding, enqueue, acknowledge, acknowledged, pending, delivery,
}
use cueloop.Routing.Invariant.{IsConsistent, queued, after_call, after_call-IsConsistent}
use cueloop.Routing.Once.{acknowledge-enqueue}

program : Unit {0}
unfolding string_dec put persist bind binding enqueue acknowledge acknowledged pending delivery
program = tt

abbrev owner : HarnessBinding
owner = record {
  id = "b1";
  thread_id = "t1";
  harness = "codex";
  harness_session_id = "s1";
  created_at = "now";
  approved_retry_message_id = none;
}

abbrev queued_delivery : Delivery
queued_delivery = record {
  id = "d1";
  message_id = "m1";
  binding_id = "b1";
  status = DeliveryStatus.pending;
  created_at = "now";
  acknowledged_at = none;
}

abbrev store : Store
store = record {
  bindings = owner ∷ [];
  deliveries = queued_delivery ∷ [];
  saved = some (record { bindings = owner ∷ []; deliveries = queued_delivery ∷ [] });
}

store-IsConsistent : IsConsistent store
store-IsConsistent = record {
  binding_ids = (tt, tt);
  sessions = (tt, tt);
  delivery_ids = (tt, tt);
  routes = (tt, tt);
  saved = inl refl;
}

abbrev settled_delivery : Delivery
settled_delivery = record queued_delivery {
  status = DeliveryStatus.acknowledged;
  acknowledged_at = some "later";
}

abbrev settled_store : Store
settled_store = record {
  bindings = owner ∷ [];
  deliveries = settled_delivery ∷ [];
  saved = some (record { bindings = owner ∷ []; deliveries = settled_delivery ∷ [] });
}

after_call-IsConsistent_example :
    IsConsistent
      (after_call store (queued "d2" "now" (record { binding_id = "b1"; message_id = "m2" })))
unfolding program
after_call-IsConsistent_example =
    after_call-IsConsistent store
      (queued "d2" "now" (record { binding_id = "b1"; message_id = "m2" })) store-IsConsistent refl

acknowledge-enqueue_example :
    (enqueue "d2" "now" settled_store (record { binding_id = "b1"; message_id = "m1" })
      ≡ (settled_store, settled_delivery))
    × (acknowledged settled_store "b1" "m1" ≡ true)
    × (find (λ e. e.message_id == "m1") (pending settled_store "b1") ≡ none)
unfolding program
acknowledge-enqueue_example =
    acknowledge-enqueue store "d1" "later" "d2" "now" store-IsConsistent refl
