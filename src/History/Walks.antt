-- ===== src/History/Walks.antt =====
-- The loop of `pathOf` (packages/schema/src/history.ts) against the chain of parents as a relation.
use cueloop.Prelude.{
  ℕ, zero, suc, ◌+◌, ◌≤◌, ◌<◌, ◌≡◌, ◌≢◌, refl, sym, subst, ap, true, false, List, [], ◌∷◌, ◌++◌,
  Option, none, some, String, ◌==◌, string_eq, if◌then◌else◌, length, has, arith, Bool-cases,
  Option-cases, ◌↔◌, inl, inr,
}
use cueloop.Types.{SessionEntry, SessionHistory}
use cueloop.History.Defs.{ok, err, out_of_fuel, by_id, parent_of, walk, path_from}

-- The entries from one up to its root, in that order.
pub data Walk (es : List SessionEntry) : Option SessionEntry → List SessionEntry → Type 0 where
  stop : Walk es none []
  step :
      {e : SessionEntry} {p : List SessionEntry}
      → Walk es (parent_of es e) p
      → Walk es (some e) (e ∷ p)

-- `unshift` of each in turn.
abbrev pub rev_onto : List SessionEntry → List SessionEntry → List SessionEntry
rev_onto [] acc = acc
rev_onto (e ∷ p) acc = rev_onto p (e ∷ acc)

pub rev_onto-append :
    (q acc rest : List SessionEntry) → rev_onto q (acc ++ rest) ≡ rev_onto q acc ++ rest
rev_onto-append [] acc rest = refl
rev_onto-append (e ∷ q) acc rest = rev_onto-append q (e ∷ acc) rest

pub by_id-id :
    (es : List SessionEntry) (i : String) {e : SessionEntry} → by_id es i ≡ some e → e.id ≡ i
by_id-id [] i h = cc
by_id-id (x ∷ es) i {e} h = ground (arith, by_id-id es i {e = e})

-- What a walk visits is found under its own id.
abbrev pub IsFound : List SessionEntry → Option SessionEntry → Type 0
IsFound es none = Unit
IsFound es (some e) = by_id es e.id ≡ some e

pub by_id-IsFound : (es : List SessionEntry) (i : String) → IsFound es (by_id es i)
by_id-IsFound es i = elim (Option-cases (by_id es i)) [
  | inl n ↦ rw n tt
  | inr (e, s) ↦ rw s (subst (λ (k : String). by_id es k ≡ some e) (sym (by_id-id es i s)) s)
]

pub parent_of-IsFound : (es : List SessionEntry) (e : SessionEntry) → IsFound es (parent_of es e)
parent_of-IsFound es e = from e.parent_id
  where
    from :
        (o : Option String)
        → IsFound es (elim o [ none ↦ none | some p ↦ if p == "" then none else by_id es p ])
    from none = tt
    from (some p) = elim (Bool-cases (p == "")) [
      | inl t ↦ rw t tt
      | inr f ↦ rw f (by_id-IsFound es p)
    ]

pub Walk-unique :
    {es : List SessionEntry} {o : Option SessionEntry} {p q : List SessionEntry}
    → Walk es o p
    → Walk es o q
    → p ≡ q
Walk-unique stop stop = refl
Walk-unique (step {e} v) (step w) = ap (◌∷◌ e) (Walk-unique v w)

pub walk_sound :
    (f : ℕ) (es : List SessionEntry) (o : Option SessionEntry) (seen : List String)
    (acc : List SessionEntry) {path : List SessionEntry}
    → walk f es o seen acc ≡ ok path
    → (p : List SessionEntry) × Walk es o p × (path ≡ rev_onto p acc)
unfolding walk
walk_sound zero es none seen acc h = ([], stop, cc)
walk_sound (suc f) es none seen acc h = ([], stop, cc)
walk_sound zero es (some e) seen acc h = cc
walk_sound (suc f) es (some e) seen acc h = elim (Bool-cases (has seen e.id)) [
  | inl s ↦ cc (rw s at h)
  | inr n ↦
      let (p, w, q) = walk_sound f es (parent_of es e) (e.id ∷ seen) (e ∷ acc) (rw n at h) in
      (e ∷ p, step w, q)
]

-- The entries whose ids are not yet seen.
remaining : List SessionEntry → List String → ℕ
remaining [] seen = 0
remaining (e ∷ es) seen = (if has seen e.id then 0 else 1) + remaining es seen

remaining-le :
    (es : List SessionEntry) (seen : List String) (i : String)
    → remaining es (i ∷ seen) ≤ remaining es seen
unfolding remaining
remaining-le [] seen i = omega arith
remaining-le (e ∷ es) seen i = ground (arith, remaining-le es seen i)

remaining-lt :
    (es : List SessionEntry) (seen : List String) (i : String) {e : SessionEntry}
    → by_id es i ≡ some e
    → has seen i ≡ false
    → remaining es (i ∷ seen) < remaining es seen
unfolding remaining
remaining-lt [] seen i h n = cc
remaining-lt (x ∷ es) seen i {e} h n =
    ground (arith, remaining-lt es seen i {e = e}, remaining-le es seen i)

remaining-nil : (es : List SessionEntry) → remaining es [] ≡ length es
unfolding remaining
remaining-nil [] = refl
remaining-nil (e ∷ es) = omega (arith, remaining-nil es)

walk_total :
    (f : ℕ) (es : List SessionEntry) (o : Option SessionEntry) (seen : List String)
    (acc : List SessionEntry)
    → IsFound es o
    → remaining es seen < f
    → walk f es o seen acc ≢ err out_of_fuel
unfolding walk
walk_total zero es o seen acc found h = absurd (omega arith)
walk_total (suc f) es none seen acc found h = λ q. cc
walk_total (suc f) es (some e) seen acc found h = elim (Bool-cases (has seen e.id)) [
  | inl s ↦ rw s (λ q. cc)
  | inr n ↦ rw n (
      walk_total f es (parent_of es e) (e.id ∷ seen) (e ∷ acc) (parent_of-IsFound es e)
        (omega (arith, remaining-lt es seen e.id found n)))
]

-- The walk never runs out of the rounds that `path_from` gives it.
pub path_from-ne-out_of_fuel : (h : SessionHistory) (i : String) → path_from h i ≢ err out_of_fuel
unfolding path_from
path_from-ne-out_of_fuel h i =
    walk_total _ h.entries _ [] [] (by_id-IsFound h.entries i)
      (omega (arith, remaining-nil h.entries))

-- Each seen id starts a walk that is longer than `n`.
IsAbove : List SessionEntry → ℕ → List String → Type 0
IsAbove es n seen =
    (i : String)
    → has seen i ≡ true
    → (q : List SessionEntry) × Walk es (by_id es i) q × (n < length q)

IsAbove-step :
    (es : List SessionEntry) (n : ℕ) (seen : List String) {e : SessionEntry} {p : List SessionEntry}
    → by_id es e.id ≡ some e
    → Walk es (some e) p
    → length p ≡ suc n
    → IsAbove es (suc n) seen
    → IsAbove es n (e.id ∷ seen)
unfolding IsAbove
IsAbove-step es n seen {e} {p} found w l above i s = elim (Bool-cases (e.id == i)) [
  | inl here ↦ (p, subst (λ (o : Option SessionEntry). Walk es o p) (ground arith) w, omega arith)
  | inr other ↦ let (q, v, k) = above i (ground arith) in (q, v, omega arith)
]

walk_complete :
    (f : ℕ) (es : List SessionEntry) {o : Option SessionEntry} (seen : List String)
    (acc : List SessionEntry) {p : List SessionEntry}
    → IsFound es o
    → Walk es o p
    → IsAbove es (length p) seen
    → walk f es o seen acc ≢ err out_of_fuel
    → walk f es o seen acc ≡ ok (rev_onto p acc)
unfolding walk IsAbove
walk_complete zero es seen acc found stop above t = refl
walk_complete (suc f) es seen acc found stop above t = refl
walk_complete zero es seen acc found (step w) above t = absurd (t refl)
walk_complete (suc f) es seen acc found (step {e} {p} w) above t =
    elim (Bool-cases (has seen e.id)) [
      | inl s ↦
          let (q, v, k) = above e.id s in
          let same : q ≡ e ∷ p =
            Walk-unique (subst (λ (x : Option SessionEntry). Walk es x q) found v) (step w) in
          absurd (omega (arith, ap length same))
      | inr n ↦ rw n (
          walk_complete f es (e.id ∷ seen) (e ∷ acc) (parent_of-IsFound es e) w
            (IsAbove-step es (length p) seen found (step w) refl above) (rw n at t))
    ]

-- `pathOf` returns exactly the chain of parents, root first; with no such chain it throws.
pub path_from-iff_Walk :
    (h : SessionHistory) (i : String) (p : List SessionEntry)
    → ((q : List SessionEntry) × Walk h.entries (by_id h.entries i) q × (p ≡ rev_onto q []))
      ↔ (path_from h i ≡ ok p)
unfolding path_from IsAbove
path_from-iff_Walk h i p = (to, walk_sound _ h.entries _ [] [])
  where
    to :
        ((q : List SessionEntry) × Walk h.entries (by_id h.entries i) q × (p ≡ rev_onto q []))
        → path_from h i ≡ ok p
    to (q, w, e) = rw e (
        walk_complete _ h.entries [] [] (by_id-IsFound h.entries i) w (λ j s. cc)
          (path_from-ne-out_of_fuel h i))
