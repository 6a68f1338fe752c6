-- ===== src/History/Steps.antt =====
-- The writes of packages/schema/src/history.ts that add to a history or move in it, as steps of one
-- history, and what every history that they reach keeps. `recaptureMainHead`, which writes the
-- content of an entry anew in its place, is no step.
use cueloop.Prelude.{
  ◌≡◌, ◌≢◌, refl, sym, ◌∙◌, ap, subst, true, false, List, [], ◌∷◌, ◌++◌, Option, none, some, String,
  Text, string_eq, has, All-append, All-imp2, arith, Option-cases, inl, inr, append-nil,
  append_assoc,
}
use cueloop.Types.{SessionEntry, SessionHistory}
use cueloop.History.Defs.{
  ok, Result-cases, parent_of, lookup, insert, entry_of, tip_of, path_of, path_from, is_revision,
}
use cueloop.History.Valid.{ids_of, IsValid}
use cueloop.History.Growth.{
  has-append, lookup-insert, All-lookup, by_id-append_old, parent_of-append,
}
use cueloop.History.Append.{tip_of-IsValid, with_entry-IsValid}
use cueloop.History.Moves.{IsGrounded, insert-IsValid, path_from-after, has_of_by_id, by_id-ne-none}
use cueloop.History.Writes.{
  NewEntry, new_id, full_entry, with_entry, append_entry, label_tip, create_branch, switch_branch,
  move_tip, summary_entry, summarize, navigate_to, after,
}

-- The invariants that `validateHistory` checks, and the two that the walks rely on: an entry with
-- no parent is a revision, and no entry has the empty id.
pub record IsSound (h : SessionHistory) : Type 0 where
  pub valid : IsValid h
  pub grounded : IsGrounded h.entries
  pub named : has (ids_of h.entries) "" ≡ false

-- One write that succeeds; a new entry's id is new and not empty.
pub data Step : SessionHistory → SessionHistory → Type 0 where
  append :
      (minted : String) (n : NewEntry) {h h' : SessionHistory} {e : SessionEntry}
      → has (ids_of h.entries) (new_id minted n) ≡ false
      → new_id minted n ≢ ""
      → append_entry minted h n ≡ ok (h', e)
      → Step h h'
  label : (text : String) {h h' : SessionHistory} → label_tip h text ≡ ok h' → Step h h'
  create : (name : String) {h h' : SessionHistory} → create_branch h name ≡ ok h' → Step h h'
  switch : (name : String) {h h' : SessionHistory} → switch_branch h name ≡ ok h' → Step h h'
  navigate :
      (minted target : String) (summary : Option (Text × String)) {h h' : SessionHistory}
      → has (ids_of h.entries) minted ≡ false
      → minted ≢ ""
      → navigate_to minted h target summary ≡ ok h'
      → Step h h'

pub data Reach (h : SessionHistory) : SessionHistory → Type 0 where
  here : Reach h h
  next : {h' h'' : SessionHistory} → Reach h h' → Step h' h'' → Reach h h''

module _ {h : SessionHistory} (s : IsSound h) where
  tip_named :
      (t : String) → lookup h.branch h.tips ≡ some t → (has (ids_of h.entries) t ≡ true) × (t ≢ "")
  tip_named t q =
      let k =
        (All-lookup (λ i. (has (ids_of h.entries) i ≡ true) × _) h.branch h.tips s.valid.tips
          q).0 in
      (k, λ e. cc (sym k ∙ (ap (has (ids_of h.entries)) e ∙ s.named)))

  with_entry-IsSound :
      (x : SessionEntry) (t : String)
      → lookup h.branch h.tips ≡ some t
      → x.parent_id ≡ some t
      → has (ids_of h.entries) x.id ≡ false
      → x.id ≢ ""
      → IsSound (with_entry h x)
  unfolding with_entry
  with_entry-IsSound x t tip parent fresh named =
      let (k, full) = tip_named t tip in
      record {
        valid = with_entry-IsValid h s.valid x t tip parent full fresh;
        grounded =
            All-append (λ e. parent_of (h.entries ++ x ∷ []) e ≡ none → is_revision e ≡ true)
              h.entries (x ∷ [])
              (All-imp2 (λ e p g q. g (sym (parent_of-append h.entries x fresh e p) ∙ q)) h.entries
                s.valid.parents s.grounded)
              (
                (λ q. absurd (
                    by_id-ne-none h.entries t k
                      (sym (by_id-append_old h.entries x fresh t k) ∙ ground arith))),
                tt,
              );
        named = ground (arith, has-append h.entries x "");
      }

  IsSound-tips :
      (b t current : String)
      → has (ids_of h.entries) t ≡ true
      → lookup current (insert b t h.tips) ≢ none
      → IsSound (record h { tips = insert b t h.tips; branch = current })
  IsSound-tips b t current k c = record {
    valid = insert-IsValid h s.valid s.grounded b t current k c;
    grounded = s.grounded;
    named = s.named;
  }

-- The entries of the first history stand in front of those of the second.
abbrev pub Extends : SessionHistory → SessionHistory → Type 0
Extends h h' = (rest : List SessionEntry) × (h'.entries ≡ h.entries ++ rest)

append-IsSound :
    (minted : String) (n : NewEntry) {h h' : SessionHistory} {e : SessionEntry}
    → IsSound h
    → has (ids_of h.entries) (new_id minted n) ≡ false
    → new_id minted n ≢ ""
    → append_entry minted h n ≡ ok (h', e)
    → IsSound h' × Extends h h'
unfolding append_entry full_entry with_entry
append-IsSound minted n {h} {h'} s fresh named q =
    let (t, tip, found) = tip_of-IsValid h s.valid in
    let x = full_entry minted t n in
    let same : with_entry h x ≡ h' = ground (arith, tip) in
    subst (λ (k : SessionHistory). IsSound k × Extends h k) same
      (with_entry-IsSound s x t found refl fresh named, (x ∷ [], refl))

-- What a navigation that succeeds has found.
pub navigate_to-ok :
    (minted target : String) (h : SessionHistory) (summary : Option (Text × String))
    {h' : SessionHistory}
    → navigate_to minted h target summary ≡ ok h'
    → (tip : String) × (path ab : List SessionEntry) × (tip_of h h.branch ≡ ok tip)
      × (target ≢ tip)
      × (path_from h tip ≡ ok path)
      × (after target path ≡ some ab)
      × (summarize minted (move_tip h target) ab summary ≡ ok h')
unfolding navigate_to path_of
navigate_to-ok minted target h summary q = elim (Option-cases (entry_of h target)) [
  | inl n ↦ absurd (ground arith)
  | inr (x, e) ↦ elim (Result-cases (tip_of h h.branch)) [
    | inr (x, t) ↦ absurd (ground arith)
    | inl (tip, t) ↦ elim (Result-cases (path_from h tip)) [
      | inr (x, p) ↦ absurd (ground arith)
      | inl (path, p) ↦ elim (Option-cases (after target path)) [
        | inl n ↦ absurd (ground arith)
        | inr (ab, a) ↦ (tip, path, ab, t, ground arith, p, a, ground arith)
      ]
    ]
  ]
]

navigate-IsSound :
    (minted target : String) (summary : Option (Text × String)) {h h' : SessionHistory}
    → IsSound h
    → has (ids_of h.entries) minted ≡ false
    → minted ≢ ""
    → navigate_to minted h target summary ≡ ok h'
    → IsSound h' × Extends h h'
unfolding move_tip summarize
navigate-IsSound minted target summary {h} {h'} s fresh named q =
    let (tip, path, ab, t, other, p, a, r) = navigate_to-ok minted target h summary q in
    let (kept, e, split, named_e, back, at) = path_from-after h tip target p a in
    finish summary ab
      (IsSound-tips s h.branch target h.branch (has_of_by_id h.entries target at)
        (λ n. ground (arith, lookup-insert h.branch h.branch target h.tips)))
      r
  where
    finish :
        (o : Option (Text × String)) (ab : List SessionEntry)
        → IsSound (move_tip h target)
        → summarize minted (move_tip h target) ab o ≡ ok h'
        → IsSound h' × Extends h h'
    finish none ab m r =
        subst (λ (k : SessionHistory). IsSound k × Extends h k) (ground arith)
          (m, ([], sym (append-nil h.entries)))
    finish (some (text, created)) ab m r =
        elim (Result-cases
          (append_entry minted (move_tip h target) (summary_entry text created ab))) [
            | inl ((k, e), a) ↦
                subst (λ (k : SessionHistory). IsSound k × Extends h k) (ground arith)
                  (append-IsSound minted (summary_entry text created ab) m fresh named a)
            | inr (x, a) ↦ absurd (ground arith)
          ]

create-IsSound :
    (name : String) {h h' : SessionHistory}
    → IsSound h
    → create_branch h name ≡ ok h'
    → IsSound h' × Extends h h'
unfolding create_branch
create-IsSound name {h} {h'} s q =
    let (t, tip, found) = tip_of-IsValid h s.valid in
    let same : record h { tips = insert name t h.tips; branch = name } ≡ h' = ground (arith, tip) in
    subst (λ (k : SessionHistory). IsSound k × Extends h k) same
      (
        IsSound-tips s name t name (tip_named s t found).0
            (λ n. ground (arith, lookup-insert name name t h.tips)),
        ([], sym (append-nil h.entries)),
      )

switch-IsSound :
    (name : String) {h h' : SessionHistory}
    → IsSound h
    → switch_branch h name ≡ ok h'
    → IsSound h' × Extends h h'
unfolding switch_branch tip_of
switch-IsSound name {h} {h'} s q =
    let same : record h { branch = name } ≡ h' = ground arith in
    subst (λ (k : SessionHistory). IsSound k × Extends h k) same
      (
        record {
          valid = record {
            unique = s.valid.unique;
            parents = s.valid.parents;
            main = s.valid.main;
            current = λ n. absurd (ground arith);
            tips = s.valid.tips;
            rooted = s.valid.rooted;
          };
          grounded = s.grounded;
          named = s.named;
        },
        ([], sym (append-nil h.entries)),
      )

label-IsSound :
    (text : String) {h h' : SessionHistory}
    → IsSound h
    → label_tip h text ≡ ok h'
    → IsSound h' × Extends h h'
unfolding label_tip
label-IsSound text {h} {h'} s q =
    let (t, tip, found) = tip_of-IsValid h s.valid in
    let same : record h { labels = insert t text h.labels } ≡ h' = ground (arith, tip) in
    subst (λ (k : SessionHistory). IsSound k × Extends h k) same
      (
        record {
          valid = record {
            unique = s.valid.unique;
            parents = s.valid.parents;
            main = s.valid.main;
            current = s.valid.current;
            tips = s.valid.tips;
            rooted = s.valid.rooted;
          };
          grounded = s.grounded;
          named = s.named;
        },
        ([], sym (append-nil h.entries)),
      )

pub Step-IsSound : {h h' : SessionHistory} → Step h h' → IsSound h → IsSound h' × Extends h h'
Step-IsSound (append minted n fresh named q) s = append-IsSound minted n s fresh named q
Step-IsSound (label text q) s = label-IsSound text s q
Step-IsSound (create name q) s = create-IsSound name s q
Step-IsSound (switch name q) s = switch-IsSound name s q
Step-IsSound (navigate minted target summary fresh named q) s =
    navigate-IsSound minted target summary s fresh named q

-- Every history that appends, labels, new branches, switches of the branch and navigations reach
-- from a sound one is sound, and has the first one's entries, unchanged and in order, in front of
-- its own: they delete nothing.
pub Reach-IsSound : {h h' : SessionHistory} → IsSound h → Reach h h' → IsSound h' × Extends h h'
Reach-IsSound {h} s here = (s, ([], sym (append-nil h.entries)))
Reach-IsSound {h} s (next r t) =
    let (mid, before) = Reach-IsSound s r in
    let (last, after) = Step-IsSound t mid in
    (
      last,
      (
        before.0 ++ after.0,
        after.1
            ∙ (ap (λ (l : List SessionEntry). l ++ after.0) before.1
                ∙ append_assoc h.entries before.0 after.0),
      ),
    )
