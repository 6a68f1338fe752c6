-- ===== src/Examples/HistoryExamples.antt =====
-- A history of a revision, a comment and a message (packages/schema/src/history.ts).
use cueloop.Prelude.{
  ◌≡◌, ◌≢◌, ◌↔◌, refl, false, List, [], ◌∷◌, ◌++◌, none, some, string_dec, has, string_eq,
}
use cueloop.Types.{SessionEntry, SessionHistory, EntryBody, EntryAuthor}
use cueloop.History.Defs.{
  ok, err, Result, by_id, lookup, path_of, path_from, tip_of, walk, entry_of,
}
use cueloop.History.Validate.{
  validate_history, check_ids, check_parent, check_parents, check_defined, check_tip, check_tips,
  check_walk, check_walks,
}
use cueloop.History.Walks.{Walk, rev_onto, path_from-iff_Walk, path_from-ne-out_of_fuel}
use cueloop.History.Valid.{IsValid, validate_history-iff_IsValid}
use cueloop.History.Append.{append_entry_lem}
use cueloop.History.Steps.{IsSound, Step, Reach, Extends, Reach-IsSound}
use cueloop.History.Views.{follow_branch-refused, open_from-is_open, is_open}
use cueloop.History.Derive.{open_from, open_step, add, delete}
use cueloop.History.Writes.{
  NewEntry, append_entry, full_entry, with_entry, create_branch, switch_branch, navigate_to,
  move_tip, summarize, after, follow_branch, labels_of,
}

program : Unit {0}
unfolding string_dec path_of path_from tip_of walk entry_of validate_history check_ids check_parent
    check_parents check_defined check_tip check_tips check_walk check_walks append_entry full_entry
    with_entry create_branch switch_branch navigate_to move_tip summarize after follow_branch
    labels_of open_from open_step add delete
program = tt

abbrev first : SessionEntry
first = record {
  id = "e1";
  parent_id = none;
  created_at = "t1";
  body = EntryBody.revision EntryAuthor.agent [] none;
}

abbrev second : SessionEntry
second = record {
  id = "e2";
  parent_id = some "e1";
  created_at = "t2";
  body = EntryBody.comment "a1";
}

abbrev third : SessionEntry
third = record {
  id = "e3";
  parent_id = some "e2";
  created_at = "t3";
  body = EntryBody.comment_removed "a1";
}

abbrev sample : SessionHistory
sample = record {
  entries = first ∷ second ∷ [];
  tips = ("main", "e2") ∷ [];
  branch = "main";
  labels = [];
}

abbrev on_alt : SessionHistory
on_alt = record sample { tips = ("main", "e2") ∷ ("alt", "e2") ∷ []; branch = "alt" }

abbrev removal : NewEntry
removal = record { id = none; created_at = "t3"; body = EntryBody.comment_removed "a1" }

sample_path : path_of sample ≡ ok (first ∷ second ∷ [])
unfolding program
sample_path = refl

branched : create_branch sample "alt" ≡ ok on_alt
unfolding program
branched = refl

-- A parent that points back at its child is a cycle.
looped :
    path_from
      (record sample { entries = record first { parent_id = some "e2" } ∷ second ∷ [] })
      "e1"
    ≡ err (cueloop.History.Defs.HistoryError.cycle "e1")
unfolding program
looped = refl

sample-IsValid : IsValid sample
unfolding program
sample-IsValid = (validate_history-iff_IsValid sample).0 refl

sample-IsSound : IsSound sample
unfolding program
sample-IsSound = record {
  valid = sample-IsValid;
  grounded = ((λ _. refl), ((λ q. cc), tt));
  named = refl;
}

path_from-iff_Walk_example :
    ((q : List SessionEntry) × Walk sample.entries (by_id sample.entries "e2") q
      × ((first ∷ second ∷ []) ≡ rev_onto q []))
    ↔ (path_from sample "e2" ≡ ok (first ∷ second ∷ []))
path_from-iff_Walk_example = path_from-iff_Walk sample "e2" (first ∷ second ∷ [])

path_from-ne-out_of_fuel_example :
    path_from sample "e2" ≢ err cueloop.History.Defs.HistoryError.out_of_fuel
path_from-ne-out_of_fuel_example = path_from-ne-out_of_fuel sample "e2"

validate_history-iff_IsValid_example : (validate_history sample ≡ none) ↔ IsValid sample
validate_history-iff_IsValid_example = validate_history-iff_IsValid sample

append_entry_lem_example :
    (h' : SessionHistory) × (e : SessionEntry) × (p : List SessionEntry) × (append_entry "e3" sample
        removal
      ≡ ok (h', e))
    × IsValid h'
    × (h'.entries ≡ sample.entries ++ e ∷ [])
    × (path_of sample ≡ ok p)
    × (path_of h' ≡ ok (p ++ e ∷ []))
unfolding program
append_entry_lem_example = append_entry_lem "e3" sample removal sample-IsValid (λ q. cc) refl

Reach-IsSound_example : IsSound (with_entry sample third) × Extends sample (with_entry sample third)
unfolding program
Reach-IsSound_example =
    Reach-IsSound sample-IsSound
      (Reach.next Reach.here (Step.append "e3" removal refl (λ q. cc) refl))

follow_branch-refused_example :
    validate_history (record sample { tips = ("alt", "e2") ∷ []; branch = "alt" }) ≢ none
unfolding program
follow_branch-refused_example = follow_branch-refused on_alt "alt" refl (λ q. cc)

open_from-is_open_example :
    has (open_from [] (first ∷ second ∷ third ∷ [])) "a1"
    ≡ is_open "a1" false (first ∷ second ∷ third ∷ [])
open_from-is_open_example = open_from-is_open [] (first ∷ second ∷ third ∷ []) "a1"
