-- ===== src/Gateway/Feed.antt =====
-- `WatchedShareStore` of packages/gateway/src/store.ts. A `Set` of listeners is an object that the
-- map and the functions that unsubscribe share: it has an address in a heap. A listener is named by
-- a number.
use cueloop.Prelude.{
  ℕ, zero, suc, ◌<◌, ◌≡◌, refl, sym, ap, subst, ◌∙◌, true, List, [], ◌∷◌, ◌++◌, Option, none, some,
  Text, ◌==◌, ◌!=◌, text_eq, nat_eq, if◌then◌else◌, length, length-append, filter, has, get_or, set,
  All, Bool-cases, Option-cases, inl, inr, append-nil, arith,
}

pub record Feed : Type 0 where
  pub sets : List (List ℕ)
  pub listeners : List (Text × ℕ)
  pub microtasks : List ℕ

unfoldable pub set_of : List (Text × ℕ) → Text → Option ℕ
set_of [] id = none
set_of ((i, address) ∷ listeners) id = if i == id then some address else set_of listeners id

unfoldable pub forget : List (Text × ℕ) → Text → List (Text × ℕ)
forget [] id = []
forget ((i, address) ∷ listeners) id =
    let rest = forget listeners id in if i == id then rest else (i, address) ∷ rest

abbrev pub with_listener : List ℕ → ℕ → List ℕ
with_listener members listener = if has members listener then members else members ++ listener ∷ []

-- The function that `subscribe` returns remembers the set.
pub record Subscription : Type 0 where
  pub address : ℕ
  pub id : Text
  pub listener : ℕ

unfoldable pub subscribe : Feed → Text → ℕ → Feed × Subscription
subscribe feed id listener = elim (set_of feed.listeners id) [
  | some address ↦ (
    record feed {
      sets = set feed.sets address (with_listener (get_or feed.sets address []) listener);
    },
    record { address = address; id = id; listener = listener },
  )
  | none ↦ (
    record feed {
      sets = feed.sets ++ (listener ∷ []) ∷ [];
      listeners = feed.listeners ++ (id, length feed.sets) ∷ [];
    },
    record { address = length feed.sets; id = id; listener = listener },
  )
]

unfoldable pub unsubscribe : Feed → Subscription → Feed
unsubscribe feed s =
    let members = filter (λ l. l != s.listener) (get_or feed.sets s.address []) in
    record feed {
      sets = set feed.sets s.address members;
      listeners = elim members [ [] ↦ forget feed.listeners s.id | _ ∷ _ ↦ feed.listeners ];
    }

unfoldable pub members : Feed → Text → List ℕ
members feed id = elim (set_of feed.listeners id) [
  | none ↦ []
  | some address ↦ get_or feed.sets address []
]

-- What `put` and `delete` do once the inner store has taken the write.
unfoldable pub notify : Feed → Text → Feed
unfolding members
notify feed id = record feed { microtasks = feed.microtasks ++ members feed id }

-- The map names sets of the heap.
abbrev pub IsHeap : Feed → Type 0
IsHeap feed = All (λ e. e.1 < length feed.sets) feed.listeners

set_of-last :
    (listeners : List (Text × ℕ)) (id : Text) (address : ℕ)
    → set_of listeners id ≡ none
    → set_of (listeners ++ (id, address) ∷ []) id ≡ some address
unfolding set_of
set_of-last [] id address h = ground arith
set_of-last ((i, a) ∷ listeners) id address h = ground (arith, set_of-last listeners id address)

set_of-lt :
    (listeners : List (Text × ℕ)) (id : Text) (n : ℕ) {address : ℕ}
    → All (λ e. e.1 < n) listeners
    → set_of listeners id ≡ some address
    → address < n
unfolding set_of
set_of-lt [] id n h q = cc
set_of-lt ((i, a) ∷ listeners) id n {address} h q =
    ground (arith, h.0, set_of-lt listeners id n {address = address} h.1)

set_of-forget : (listeners : List (Text × ℕ)) (id : Text) → set_of (forget listeners id) id ≡ none
unfolding set_of forget
set_of-forget [] id = refl
set_of-forget ((i, a) ∷ listeners) id = ground (arith, set_of-forget listeners id)

get_or-last : (sets : List (List ℕ)) (x : List ℕ) → get_or (sets ++ x ∷ []) (length sets) [] ≡ x
get_or-last [] x = refl
get_or-last (s ∷ sets) x = get_or-last sets x

get_or-set :
    (sets : List (List ℕ)) (i : ℕ) (x : List ℕ) → i < length sets → get_or (set sets i x) i [] ≡ x
get_or-set [] i x h = absurd (omega arith)
get_or-set (s ∷ sets) zero x h = refl
get_or-set (s ∷ sets) (suc i) x h = get_or-set sets i x (omega arith)

has-with_listener : (xs : List ℕ) (l : ℕ) → has (with_listener xs l) l ≡ true
has-with_listener xs l = elim (Bool-cases (has xs l)) [
  | inl t ↦ rw (t, with_listener) t
  | inr f ↦ rw (f, with_listener) (has-last xs)
]
  where
    has-last : (xs : List ℕ) → has (xs ++ l ∷ []) l ≡ true
    has-last [] = ground arith
    has-last (x ∷ xs) = ground (arith, has-last xs)

has-append : (xs ys : List ℕ) (l : ℕ) → has ys l ≡ true → has (xs ++ ys) l ≡ true
has-append [] ys l h = h
has-append (x ∷ xs) ys l h = ground (arith, has-append xs ys l h)

-- Where the map names sets of the heap, a listener that subscribes to a share is queued by the next
-- write of it.
pub notify-subscribe :
    (feed : Feed) (id : Text) (listener : ℕ)
    → IsHeap feed
    → has (notify (subscribe feed id listener).0 id).microtasks listener ≡ true
unfolding notify subscribe members
notify-subscribe feed id listener h = elim (Option-cases (set_of feed.listeners id)) [
  | inl n ↦
      rw (n, subscribe)
        (has-append feed.microtasks _ listener (
          ground (
            arith,
            set_of-last feed.listeners id (length feed.sets) n,
            get_or-last feed.sets (listener ∷ []),
          )))
  | inr (address, f) ↦
      let there = set_of-lt feed.listeners id (length feed.sets) {address = address} h f in
      let more = with_listener (get_or feed.sets address []) listener in
      rw (f, subscribe)
        (has-append feed.microtasks _ listener (
          rw (f, members, get_or-set feed.sets address more there)
            (has-with_listener (get_or feed.sets address []) listener)))
]

get_or-append :
    (sets more : List (List ℕ)) (i : ℕ)
    → i < length sets
    → get_or (sets ++ more) i [] ≡ get_or sets i []
get_or-append [] more i h = absurd (omega arith)
get_or-append (s ∷ sets) more zero h = refl
get_or-append (s ∷ sets) more (suc i) h = get_or-append sets more i (omega arith)

length-set : (sets : List (List ℕ)) (i : ℕ) (x : List ℕ) → length (set sets i x) ≡ length sets
length-set [] i x = refl
length-set (s ∷ sets) zero x = refl
length-set (s ∷ sets) (suc i) x = ap suc (length-set sets i x)

-- To give up the last listener of a set takes the share out of the map.
unsubscribe_empty :
    (feed : Feed) (s : Subscription)
    → filter (λ l. l != s.listener) (get_or feed.sets s.address []) ≡ []
    → (set_of (unsubscribe feed s).listeners s.id ≡ none)
      × ((unsubscribe feed s).sets ≡ set feed.sets s.address [])
      × ((unsubscribe feed s).microtasks ≡ feed.microtasks)
unfolding unsubscribe
unsubscribe_empty feed s e =
    (rw (e, unsubscribe) (set_of-forget feed.listeners s.id), rw (e, unsubscribe), refl)

abbrev opened : Feed → Text → ℕ → Feed × Subscription
opened feed id listener = (
  record feed {
    sets = feed.sets ++ (listener ∷ []) ∷ [];
    listeners = feed.listeners ++ (id, length feed.sets) ∷ [];
  },
  record { address = length feed.sets; id = id; listener = listener },
)

subscribe_first :
    (feed : Feed) (id : Text) (listener : ℕ)
    → set_of feed.listeners id ≡ none
    → subscribe feed id listener ≡ opened feed id listener
unfolding subscribe
subscribe_first feed id listener h = rw (h, subscribe) refl

notify_nobody :
    (feed : Feed) (id : Text)
    → set_of feed.listeners id ≡ none
    → (notify feed id).microtasks ≡ feed.microtasks
unfolding notify members
notify_nobody feed id h = rw (h, members, notify) (append-nil feed.microtasks)

-- A subscription to a share that nobody else follows, given up twice with another subscription
-- between, takes the other listener away: the next write of the share queues nothing.
pub notify-unsubscribe_twice :
    (feed : Feed) (id : Text) (first second : ℕ)
    → set_of feed.listeners id ≡ none
    → let (once, subscription) = subscribe feed id first in
      let (again, _) = subscribe (unsubscribe once subscription) id second in
      (notify (unsubscribe again subscription) id).microtasks ≡ feed.microtasks
notify-unsubscribe_twice feed id first second h =
    let n = length feed.sets in
    let (once, given) = opened feed id first in
    let between = unsubscribe once given in
    let (again, _) = opened between id second in
    let alone : filter (λ l. l != first) (get_or once.sets n []) ≡ [] =
      rw (get_or-last feed.sets (first ∷ [])) (ground arith) in
    let (free, left, same) = unsubscribe_empty once given alone in
    let there : n < length once.sets = omega (arith, length-append feed.sets ((first ∷ []) ∷ [])) in
    let empty : get_or between.sets n [] ≡ [] = rw left (get_or-set once.sets n [] there) in
    let kept : n < length between.sets =
      rw left (omega (arith, there, length-set once.sets n [])) in
    let quiet : filter (λ l. l != first) (get_or again.sets n []) ≡ [] =
      rw (get_or-append between.sets ((second ∷ []) ∷ []) n kept, empty) refl in
    let (gone, _, same') = unsubscribe_empty again given quiet in
    subst
      (λ (r : Feed × Subscription).
        (notify (unsubscribe (subscribe (unsubscribe r.0 r.1) id second).0 r.1) id).microtasks
        ≡ feed.microtasks)
      (sym (subscribe_first feed id first h))
      (subst
        (λ (r : Feed × Subscription).
          (notify (unsubscribe r.0 given) id).microtasks ≡ feed.microtasks)
        (sym (subscribe_first between id second free))
        (notify_nobody (unsubscribe again given) id gone ∙ (same' ∙ same)))
