-- ===== src/Routing/Handed.antt =====
-- A message that goes to the binding which submitted its thread
-- (packages/daemon/src/harness-state-store.ts, `submittingBinding` and `enqueue`).
use cueloop.Prelude.{
  ◌≡◌, refl, subst, Bool, true, false, List, [], ◌∷◌, Option, none, some, String, ◌==◌, ◌!=◌,
  string_eq, ◌&&◌, find, filter, arith, Option-cases, Bool-cases, inl, inr, ◌⊎◌,
}
use cueloop.Prelude.Maps.{put}
use cueloop.Types.{HarnessBinding, Delivery, DeliveryStatus}
use cueloop.Routing.Store.{
  Store, EnqueueInput, enqueue, is_routed, new_delivery, delivery_id, persist,
}

-- A delivery that is made: it is pending, of the present time, and the file holds the store.
pub record IsMade (minted now : String) (d : Delivery) (after : Store) : Type 0 where
  pub named : d.id ≡ minted
  pub status : d.status ≡ DeliveryStatus.pending
  pub created : d.created_at ≡ now
  pub file :
      after.saved ≡ some (record { bindings = after.bindings; deliveries = after.deliveries })

-- The first delivery of a message to a binding is the one that was there, and nothing else has
-- changed, or there was none, and it is made; the other deliveries and the bindings are as before.
pub record IsRouted (minted now message : String) (b : HarnessBinding) (before after : Store)
    : Type 0 where
  pub delivery : Delivery
  pub to_binding : delivery.binding_id ≡ b.id
  pub of_message : delivery.message_id ≡ message
  pub found :
      find (λ d. d.binding_id == b.id && d.message_id == message) after.deliveries ≡ some delivery
  pub bindings : after.bindings ≡ before.bindings
  pub others :
      filter (λ d. d.id != minted) after.deliveries ≡ filter (λ d. d.id != minted) before.deliveries
  pub once :
      (after ≡ before)
      ⊎ ((find (λ d. d.binding_id == b.id && d.message_id == message) before.deliveries ≡ none)
          × IsMade minted now delivery after)

-- By the first binding of the thread.
abbrev pub IsHandedTo : Option HarnessBinding → String → String → String → Store → Store → Type 0
IsHandedTo none minted now message before after = after ≡ before
IsHandedTo (some b) minted now message before after = IsRouted minted now message b before after

abbrev pub IsHanded : String → String → String → String → Store → Store → Type 0
IsHanded minted now thread message before after =
    IsHandedTo (find (λ b. b.thread_id == thread) before.bindings) minted now message before after

find-put_new :
    (p : Delivery → Bool) (x : Delivery) (xs : List Delivery)
    → p x ≡ true
    → find p xs ≡ none
    → find p (put delivery_id x xs) ≡ some x
unfolding put
find-put_new p x [] h n = ground (arith, h)
find-put_new p x (y ∷ ys) h n =
    let other : p y ≡ false = ground (arith, n) in
    let rest : find p ys ≡ none = ground (arith, n, other) in
    ground (arith, h, other, find-put_new p x ys h rest)

filter-put :
    (x : Delivery) (xs : List Delivery)
    → filter (λ d. d.id != x.id) (put delivery_id x xs) ≡ filter (λ d. d.id != x.id) xs
unfolding put
filter-put x [] = ground arith
filter-put x (y ∷ ys) = ground (arith, filter-put x ys)

find_fields :
    (b m : String) (ds : List Delivery) {d : Delivery}
    → find (λ d. d.binding_id == b && d.message_id == m) ds ≡ some d
    → (d.binding_id ≡ b) × (d.message_id ≡ m)
find_fields b m [] e = cc
find_fields b m (x ∷ xs) {d} e = elim (Bool-cases (x.binding_id == b && x.message_id == m)) [
  | inl t ↦
      let same : x ≡ d = ground (arith, t) in (ground (arith, t, same), ground (arith, t, same))
  | inr f ↦ find_fields b m xs {d = d} (ground (arith, f, e))
]

pub enqueue-IsRouted :
    (minted now message : String) (b : HarnessBinding) (s : Store)
    → IsRouted minted now message b s
        (enqueue minted now s (record { binding_id = b.id; message_id = message })).0
unfolding enqueue persist
enqueue-IsRouted minted now message b s =
    let input : EnqueueInput = record { binding_id = b.id; message_id = message } in
    elim (Option-cases (find (is_routed input) s.deliveries)) [
      | inl n ↦ subst (IsRouted minted now message b s) (rw (n, enqueue) refl) (record {
        delivery = new_delivery minted now input;
        to_binding = refl;
        of_message = refl;
        found =
            find-put_new (is_routed input) (new_delivery minted now input) s.deliveries
              (ground arith) n;
        bindings = refl;
        others = filter-put (new_delivery minted now input) s.deliveries;
        once = inr (n, record { named = refl; status = refl; created = refl; file = refl });
      })
      | inr (d, e) ↦
          let (k, l) = find_fields b.id message s.deliveries e in
          subst (IsRouted minted now message b s) (rw (e, enqueue) refl) (record {
            delivery = d;
            to_binding = k;
            of_message = l;
            found = e;
            bindings = refl;
            others = refl;
            once = inl refl;
          })
    ]
