-- ===== src/History/Linear.antt =====
-- `historyFromLinear` of packages/schema/src/history.ts and `withHistory` of
-- packages/daemon/src/store.ts. Times are ISO timestamps, on which `localeCompare` and `<` are the
-- order of the characters.
use Prim.Native.String.{◌++◌ as append, compare}
use Prim.Native.Nat.{Ordering}
use cueloop.Prelude.{
  ℕ, zero, suc, ◌/◌, ◌%◌, Bool, true, false, List, [], ◌∷◌, ◌++◌, Option, none, some, String, ltb,
  leb, if◌then◌else◌, get_last?, ◌==◌, nat_eq,
}
use cueloop.Prelude.Sort.{to_sorted}
use cueloop.Types.{
  Thread, Revision, Annotation, SessionEntry, EntryBody, EntryAuthor, SessionHistory,
}
use cueloop.History.Defs.{Result, ok, err, not_a_revision, main_branch}

abbrev pub earlier : String → String → Bool
earlier a b = elim (compare a b) [ Ordering.lt ↦ true | _ ↦ false ]

abbrev pub not_later : String → String → Bool
not_later a b = elim (compare a b) [ Ordering.gt ↦ false | _ ↦ true ]

abbrev pub digit : ℕ → String
digit n =
    if n == 0
    then "0"
    else if n == 1
    then "1"
    else if n == 2
    then "2"
    else if n == 3
    then "3"
    else if n == 4
    then "4"
    else if n == 5
    then "5"
    else if n == 6
    then "6"
    else if n == 7
    then "7"
    else if n == 8
    then "8"
    else "9"

digits : ℕ → ℕ → String → String
digits zero n acc = acc
digits (suc fuel) n acc =
    let rest = digits fuel (n / 10) (append (digit (n % 10)) acc) in
    if ltb n 10 then append (digit n) acc else rest

-- `${n}`: each round drops a digit, so `n + 1` rounds are enough.
unfoldable pub number_name : ℕ → String
unfolding digits
number_name n = digits (suc n) n ""

-- `push`: the entry hangs below the one before it.
abbrev pub chained : Option String → String → String → EntryBody → SessionEntry
chained parent id at body = record { id = id; parent_id = parent; created_at = at; body = body }

-- The inner loop: the comments made before `until`, chained, then what is left of them.
unfoldable pub comments_until :
    String
    → Option String
    → Option String
    → List Annotation
    → List SessionEntry × Option String × List Annotation
comments_until session parent until [] = ([], parent, [])
comments_until session parent until (a ∷ as') =
    let id = append session (append "_com_" a.id) in
    let (entries, last, left) = comments_until session (some id) until as' in
    if (elim until [ none ↦ true | some t ↦ earlier a.created_at t ])
    then (chained parent id a.created_at (EntryBody.comment a.id) ∷ entries, last, left)
    else ([], parent, a ∷ as')

abbrev pub next_time : List Revision → Option String
next_time [] = none
next_time (r ∷ rs) = some r.submitted_at

-- The outer loop.
unfoldable pub revisions_from :
    String → Option String → List Revision → List Annotation → List SessionEntry × Option String
unfolding comments_until
revisions_from session parent [] comments = ([], parent)
revisions_from session parent (r ∷ rs) comments =
    let id = append session (append "_rev" (number_name r.revision)) in
    let (made, last, left) = comments_until session (some id) (next_time rs) comments in
    let (rest, tip) = revisions_from session last rs left in
    (
      chained parent id r.submitted_at (EntryBody.revision EntryAuthor.agent r.content none) ∷ made
          ++ rest,
      tip,
    )

abbrev pub revision_order : Revision → Revision → Bool
revision_order a b = leb a.revision b.revision

abbrev pub comment_order : Annotation → Annotation → Bool
comment_order a b = not_later a.created_at b.created_at

unfoldable pub linear_entries : Thread → List SessionEntry
unfolding revisions_from
linear_entries session =
    let (entries, tip) =
      revisions_from session.id none (to_sorted revision_order session.revisions)
        (to_sorted comment_order session.annotations) in
    elim session.message [
      | none ↦ entries
      | some m ↦
          entries ++ chained tip (append session.id "_message") m.sent_at (EntryBody.message m) ∷ []
    ]

unfoldable pub history_from_linear : Thread → Result SessionHistory
history_from_linear session =
    let entries = linear_entries session in
    elim (get_last? entries) [
      | none ↦ err not_a_revision
      | some tip ↦ ok (record {
        entries = entries;
        tips = (main_branch, tip.id) ∷ [];
        branch = main_branch;
        labels = [];
      })
    ]

-- A record without a history and with a revision is given one. Its entries are then not none, so
-- that the error does not arise.
unfoldable pub with_history : Thread → Thread
with_history session = elim session.history [
  | some _ ↦ session
  | none ↦ elim session.revisions [
    | [] ↦ session
    | _ ∷ _ ↦ elim (history_from_linear session) [
      | ok h ↦ record session { history = some h }
      | err _ ↦ session
    ]
  ]
]
