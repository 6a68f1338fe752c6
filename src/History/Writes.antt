-- ===== src/History/Writes.antt =====
-- The writes of packages/schema/src/history.ts, the fork and the history that a share carries.
use cueloop.Prelude.{
  Bool, true, false, not, List, [], ◌∷◌, ◌++◌, map, Option, none, some, String, Text, ◌==◌,
  string_eq, if◌then◌else◌, filter, get_last?,
}
use cueloop.Types.{EntryBody, SessionEntry, Dictionary, SessionHistory}
use cueloop.History.Defs.{
  Result, ok, err, ◌>>=◌, unknown_entry, branch_exists, off_path, already_there, not_a_revision,
  type_error, main_branch, lookup, insert, entry_of, tip_of, path_from, path_of, is_agent, by_agent,
}

-- An entry as a caller describes it.
pub record NewEntry : Type 0 where
  pub id : Option String
  pub created_at : String
  pub body : EntryBody

-- `entry.id ?? newEntryId()`; `minted` is the id that `newEntryId()` would return.
abbrev pub new_id : String → NewEntry → String
new_id minted entry = elim entry.id [ some id ↦ id | none ↦ minted ]

-- The entry that `appendEntry` makes.
unfoldable pub full_entry : String → String → NewEntry → SessionEntry
full_entry minted parent entry = record {
  id = new_id minted entry;
  parent_id = some parent;
  created_at = entry.created_at;
  body = entry.body;
}

-- The history that `appendEntry` returns, with `full` behind the tip.
unfoldable pub with_entry : SessionHistory → SessionEntry → SessionHistory
with_entry history full = record history {
  entries = history.entries ++ full ∷ [];
  tips = insert history.branch full.id history.tips;
}

unfoldable pub append_entry :
    String → SessionHistory → NewEntry → Result (SessionHistory × SessionEntry)
append_entry minted history entry = do
  parent ← tip_of history history.branch
  let full = full_entry minted parent entry
  ok (with_entry history full, full)

-- `{ ...entry, content }` for the entry of the head.
abbrev pub with_content : Text → EntryBody → EntryBody
with_content content (EntryBody.revision by _ cuts) = EntryBody.revision by content cuts
with_content content body = body

unfoldable pub recapture_main_head : SessionHistory → Text → Result SessionHistory
recapture_main_head history content = do
  tip ← tip_of history main_branch
  path ← path_from history tip
  elim (get_last? (filter by_agent path)) [
    | none ↦ err not_a_revision
    | some head ↦ ok (record history {
      entries =
          map
            (λ entry.
              if entry.id == head.id
              then record entry { body = with_content content entry.body }
              else entry)
            history.entries;
    })
  ]

unfoldable pub label_tip : SessionHistory → String → Result SessionHistory
label_tip history label = do
  tip ← tip_of history history.branch
  ok (record history { labels = insert tip label history.labels })

unfoldable pub create_branch : SessionHistory → String → Result SessionHistory
create_branch history name = elim (lookup name history.tips) [
  | some _ ↦ err (branch_exists name)
  | none ↦ do
    tip ← tip_of history history.branch
    ok (record history { tips = insert name tip history.tips; branch = name })
]

unfoldable pub switch_branch : SessionHistory → String → Result SessionHistory
switch_branch history name = do _ ← tip_of history name; ok (record history { branch = name })

-- `path.findIndex` and `path.slice(index + 1)`: what follows the target, if it is on the path.
unfoldable pub after : String → List SessionEntry → Option (List SessionEntry)
after target [] = none
after target (e ∷ es) = if e.id == target then some es else after target es

unfoldable pub move_tip : SessionHistory → String → SessionHistory
move_tip history target = record history { tips = insert history.branch target history.tips }

abbrev pub summary_entry : Text → String → List SessionEntry → NewEntry
summary_entry text created_at abandoned = record {
  id = none;
  created_at = created_at;
  body = EntryBody.branch_summary text (map (λ e. e.id) abandoned);
}

-- `options.summary`, with the text and the time of the summary entry.
unfoldable pub summarize :
    String → SessionHistory → List SessionEntry → Option (Text × String) → Result SessionHistory
summarize minted moved abandoned none = ok moved
summarize minted moved abandoned (some (text, created_at)) = do
  (history, _) ← append_entry minted moved (summary_entry text created_at abandoned)
  ok history

unfoldable pub navigate_to :
    String → SessionHistory → String → Option (Text × String) → Result SessionHistory
navigate_to minted history target summary = elim (entry_of history target) [
  | none ↦ err (unknown_entry target)
  | some _ ↦ do
    tip ← tip_of history history.branch
    if target == tip then err already_there else (do
      path ← path_of history
      elim (after target path) [
        | none ↦ err (off_path target)
        | some abandoned ↦ summarize minted (move_tip history target) abandoned summary
      ])
]

-- A fork leaves the messages and the reviewer's edits behind.
unfoldable pub is_dropped : SessionEntry → Bool
is_dropped e = elim e.body [
  | EntryBody.message _ ↦ true
  | EntryBody.revision by _ _ ↦ not (is_agent by)
  | _ ↦ false
]

-- The kept entries, chained anew behind the entry `last`.
unfoldable pub fork_entries : Option String → List SessionEntry → List SessionEntry
fork_entries last [] = []
fork_entries last (e ∷ es) =
    let rest = fork_entries (if is_dropped e then last else some e.id) es in
    if is_dropped e then rest else record e { parent_id = last } ∷ rest

-- The labels of the entries, in the order of the entries.
unfoldable pub labels_of : Dictionary → List SessionEntry → Dictionary → Dictionary
labels_of labels [] new = new
labels_of labels (e ∷ es) new =
    labels_of labels es
      (elim (lookup e.id labels) [ none ↦ new | some label ↦ insert e.id label new ])

unfoldable pub fork_history : SessionHistory → Result SessionHistory
fork_history history = do
  path ← path_of history
  let kept = fork_entries none path
  elim (get_last? kept) [
    | none ↦ err not_a_revision
    | some tip ↦ ok (record {
      entries = kept;
      tips = (main_branch, tip.id) ∷ [];
      branch = main_branch;
      labels = labels_of history.labels kept [];
    })
  ]

unfoldable pub follow_branch : SessionHistory → String → Result SessionHistory
follow_branch history branch = do
  tip ← tip_of history branch
  entries ← path_from history tip
  elim (get_last? entries) [
    | none ↦ err type_error
    | some last ↦ ok (record {
      entries = entries;
      tips = (branch, last.id) ∷ [];
      branch = branch;
      labels = labels_of history.labels entries [];
    })
  ]

unfoldable pub removal_entries : SessionHistory → List SessionEntry
removal_entries history =
    filter (λ e. elim e.body [ EntryBody.comment_removed _ ↦ true | _ ↦ false ]) history.entries
