-- ===== src/History/Validate.antt =====
-- `validateHistory` of packages/schema/src/history.ts: the message of the first invariant that
-- fails, as data.
use cueloop.Prelude.{
  List, [], ◌∷◌, map, Option, none, some, String, string_eq, if◌then◌else◌, any, has,
}
use cueloop.Types.{SessionEntry, Dictionary, SessionHistory}
use cueloop.History.Defs.{HistoryError, ok, err, main_branch, lookup, path_from, is_revision}

pub data Invalid : Type 0 where
  duplicate_id : String → Invalid
  missing_parent : String → String → Invalid
  no_main : Invalid
  no_current : String → Invalid
  missing_tip : String → String → Invalid
  no_revision : String → Invalid
  broken : HistoryError → Invalid

-- `a`, and where it returns nothing the checks that follow it.
infixr 5 ◌orelse◌
abbrev pub ◌orelse◌ : Option Invalid → Option Invalid → Option Invalid
some e orelse b = some e
none orelse b = b

unfoldable pub check_ids : List String → List SessionEntry → Option Invalid
check_ids seen [] = none
check_ids seen (e ∷ es) =
    if has seen e.id then some (Invalid.duplicate_id e.id) else check_ids (e.id ∷ seen) es

unfoldable pub check_parent : List String → SessionEntry → Option Invalid
check_parent ids e = elim e.parent_id [
  | none ↦ none
  | some p ↦ if has ids p then none else some (Invalid.missing_parent e.id p)
]

unfoldable pub check_parents : List String → List SessionEntry → Option Invalid
check_parents ids [] = none
check_parents ids (e ∷ es) = check_parent ids e orelse check_parents ids es

unfoldable pub check_defined : Dictionary → String → Invalid → Option Invalid
check_defined tips branch e = elim (lookup branch tips) [ none ↦ some e | some _ ↦ none ]

unfoldable pub check_tip : SessionHistory → List String → String → String → Option Invalid
check_tip history ids branch tip =
    if has ids tip
    then elim (path_from history tip) [
      | ok path ↦ if any is_revision path then none else some (Invalid.no_revision branch)
      | err e ↦ some (Invalid.broken e)
    ]
    else some (Invalid.missing_tip branch tip)

unfoldable pub check_tips : SessionHistory → List String → Dictionary → Option Invalid
check_tips history ids [] = none
check_tips history ids ((branch, tip) ∷ tips) =
    check_tip history ids branch tip orelse check_tips history ids tips

unfoldable pub check_walk : SessionHistory → SessionEntry → Option Invalid
check_walk history e = elim (path_from history e.id) [
  | ok _ ↦ none
  | err e ↦ some (Invalid.broken e)
]

unfoldable pub check_walks : SessionHistory → List SessionEntry → Option Invalid
check_walks history [] = none
check_walks history (e ∷ es) = check_walk history e orelse check_walks history es

unfoldable pub validate_history : SessionHistory → Option Invalid
validate_history history =
    check_ids [] history.entries
    orelse check_parents ids history.entries
    orelse check_defined history.tips main_branch Invalid.no_main
    orelse check_defined history.tips history.branch (Invalid.no_current history.branch)
    orelse check_tips history ids history.tips
    orelse check_walks history history.entries
  where
    ids : List String
    ids = map (λ e. e.id) history.entries
