-- ===== src/Routing/Once.antt =====
-- A Message that a harness has acknowledged is never offered to it again
-- (`acknowledge`, `enqueue` and `pending` of packages/daemon/src/harness-state-store.ts).
use cueloop.Prelude.{
  ◌≡◌, refl, sym, subst, Bool, true, false, ◌&&◌, List, [], ◌∷◌, none, some, String, ◌==◌,
  string_eq, find, filter, any, All, arith, Bool-cases, Option-cases, inl, inr,
}
use cueloop.Types.{Delivery, DeliveryStatus}
use cueloop.Prelude.Keyed.{Apart, find-All, find_holds}
use cueloop.Routing.Invariant.{IsConsistent, same_route, acknowledge-IsConsistent}
use cueloop.Prelude.Maps.{put}
use cueloop.Routing.Store.{
  Store, EnqueueInput, ok, delivery_id, persist, is_pending, enqueue, acknowledge, acknowledged,
  pending, delivery,
}

find-put :
    (x old : Delivery) (xs : List Delivery)
    → find (λ d. d.id == x.id) xs ≡ some old
    → find (λ d. d.id == x.id) (put delivery_id x xs) ≡ some x
unfolding put
find-put x old [] h = cc
find-put x old (y ∷ ys) h = ground (arith, find-put x old ys)

-- The delivery of a route is the only one.
find-route :
    (q : Delivery → Bool) (xs : List Delivery) {d : Delivery}
    → Apart same_route xs
    → find q xs ≡ some d
    → find (λ y. same_route y d) xs ≡ some d
find-route q [] a h = cc
find-route q (y ∷ ys) {d} a h = elim (Bool-cases (q y)) [
  | inl t ↦ ground arith
  | inr f ↦ ground (
    arith,
    find-route q ys {d = d} a.1,
    find-All (λ z. same_route y z ≡ false) q ys {a = d} a.0 (rw f at h),
  )
]

any-find :
    (p q : Delivery → Bool) (xs : List Delivery) {d : Delivery}
    → find q xs ≡ some d
    → p d ≡ true
    → any p xs ≡ true
any-find p q [] h k = cc
any-find p q (y ∷ ys) {d} h k = elim (Bool-cases (q y)) [
  | inl t ↦ ground arith
  | inr f ↦ ground (arith, any-find p q ys {d = d} (rw f at h) k)
]

module _ (d : Delivery) (settled : is_pending d.status ≡ false) where
  others_differ :
      (xs : List Delivery)
      → All (λ z. same_route d z ≡ false) xs
      → find
          (λ e. e.message_id == d.message_id)
          (filter (λ e. e.binding_id == d.binding_id && is_pending e.status) xs)
        ≡ none
  others_differ [] h = refl
  others_differ (y ∷ ys) h = ground (arith, others_differ ys h.1)

  none_pending :
      (q : Delivery → Bool) (xs : List Delivery)
      → Apart same_route xs
      → find q xs ≡ some d
      → find
          (λ e. e.message_id == d.message_id)
          (filter (λ e. e.binding_id == d.binding_id && is_pending e.status) xs)
        ≡ none
  none_pending q [] a h = cc
  none_pending q (y ∷ ys) a h = elim (Bool-cases (q y)) [
    | inl t ↦
        let e : y ≡ d = ground arith in
        ground (
          arith,
          others_differ ys (subst (λ (z : Delivery). All (λ w. same_route z w ≡ false) ys) e a.0),
        )
    | inr f ↦ ground (
      arith,
      none_pending q ys a.1 (rw f at h),
      find-All (λ z. same_route y z ≡ false) q ys {a = d} a.0 (rw f at h),
    )
  ]

abbrev Settled : Store × Delivery → Type 0
Settled r = (is_pending r.1.status ≡ false) × (find (λ y. y.id == r.1.id) r.0.deliveries ≡ some r.1)

-- What `acknowledge` returns is acknowledged, and stands in the store that it leaves.
acknowledge_found :
    (s : Store) (id at : String) {s' : Store} {d : Delivery}
    → acknowledge s id at ≡ ok (s', d)
    → (is_pending d.status ≡ false) × (find (λ y. y.id == d.id) s'.deliveries ≡ some d)
unfolding acknowledge delivery
acknowledge_found s id at {s'} {d} q = elim (Option-cases (find (λ d. d.id == id) s.deliveries)) [
  | inl n ↦ absurd (ground arith)
  | inr (x, f) ↦
      let e : x.id ≡ id =
        ground (arith, find_holds (λ (d : Delivery). d.id == id) s.deliveries f) in
      let g : find (λ d. d.id == x.id) s.deliveries ≡ some x =
        subst (λ (k : String). find (λ d. d.id == k) s.deliveries ≡ some x) (sym e) f in
      elim (Bool-cases (is_pending x.status)) [
        | inr a ↦
            let same : ◌≡◌ {A = Store × Delivery} (s, x) (s', d) = ground arith in
            subst Settled same (a, g)
        | inl p ↦
            let acked : Delivery = record x {
              status = DeliveryStatus.acknowledged;
              acknowledged_at = some at;
            } in
            let same : ◌≡◌ {A = Store × Delivery}
                (persist (record s { deliveries = put delivery_id acked s.deliveries }), acked)
                (s', d) =
              ground arith in
            subst Settled same (refl, find-put acked x s.deliveries g)
      ]
]

-- Once a delivery is acknowledged, its Message is recorded as acknowledged, `pending` does not
-- offer it, and to enqueue it again changes nothing and returns the acknowledged delivery.
pub acknowledge-enqueue :
    (s : Store) (id at minted now : String) {s' : Store} {d : Delivery}
    → IsConsistent s
    → acknowledge s id at ≡ ok (s', d)
    → let input : EnqueueInput = record { binding_id = d.binding_id; message_id = d.message_id } in
      (enqueue minted now s' input ≡ (s', d))
      × (acknowledged s' d.binding_id d.message_id ≡ true)
      × (find (λ e. e.message_id == d.message_id) (pending s' d.binding_id) ≡ none)
unfolding enqueue acknowledged pending
acknowledge-enqueue s id at minted now {s'} {d} v q =
    let (settled, there) = acknowledge_found s id at q in
    let v' = acknowledge-IsConsistent s id at v q in
    (
      rw (find-route _ s'.deliveries v'.routes there, enqueue),
      any-find _ _ s'.deliveries there (ground arith),
      none_pending d settled _ s'.deliveries v'.routes there,
    )
