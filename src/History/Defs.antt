-- ===== src/History/Defs.antt =====
-- The operations of packages/schema/src/history.ts. A thrown `HistoryError` is the result `err`;
-- the ids that the code mints are arguments.
use cueloop.Prelude.{
  ◌≡◌, refl, ◌⊎◌, inl, inr, ℕ, zero, suc, Bool, true, false, List, [], ◌∷◌, Option, none, some,
  String, ◌==◌, string_eq, if◌then◌else◌, length, find, has,
}
use cueloop.Types.{EntryAuthor, EntryBody, SessionEntry, Dictionary, SessionHistory}

pub data HistoryError : Type 0 where
  unknown_entry : String → HistoryError
  unknown_branch : String → HistoryError
  branch_exists : String → HistoryError
  off_path : String → HistoryError
  already_there : HistoryError
  not_a_revision : HistoryError
  cycle : String → HistoryError
  -- A `TypeError`: a property of `undefined` is read.
  type_error : HistoryError
  -- The bound on the walk was too small; `path_of-total` shows that it never is.
  out_of_fuel : HistoryError

pub data Result {ℓ} (A : Type ℓ) : Type ℓ where
  ok : A → Result A
  err : HistoryError → Result A

infixl 5 ◌>>=◌
abbrev pub ◌>>=◌ {ℓ κ} : {A : Type ℓ} {B : Type κ} → Result A → (A → Result B) → Result B
ok a >>= f = f a
err e >>= f = err e

pub Result-cases {ℓ} :
    {A : Type ℓ} (r : Result A) → ((a : A) × (r ≡ ok a)) ⊎ ((e : HistoryError) × (r ≡ err e))
Result-cases (ok a) = inl (a, refl)
Result-cases (err e) = inr (e, refl)

abbrev pub main_branch : String
main_branch = "main"

-- `object[key]` and `{ ...object, [key]: value }`.
abbrev pub lookup : String → Dictionary → Option String
lookup k [] = none
lookup k ((j, v) ∷ m) = if j == k then some v else lookup k m

abbrev pub insert : String → String → Dictionary → Dictionary
insert k v [] = (k, v) ∷ []
insert k v ((j, w) ∷ m) = if j == k then (j, v) ∷ m else (j, w) ∷ insert k v m

-- `new Map(entries.map((entry) => [entry.id, entry]))`: the last entry of an id is kept.
abbrev pub by_id : List SessionEntry → String → Option SessionEntry
by_id [] id = none
by_id (e ∷ es) id = elim (by_id es id) [
  | some later ↦ some later
  | none ↦ if e.id == id then some e else none
]

unfoldable pub entry_of : SessionHistory → String → Option SessionEntry
entry_of history id = find (λ e. e.id == id) history.entries

unfoldable pub tip_of : SessionHistory → String → Result String
tip_of history branch = elim (lookup branch history.tips) [
  | some tip ↦ ok tip
  | none ↦ err (unknown_branch branch)
]

-- `entry.parentId ? byId.get(entry.parentId) : undefined`: an empty id is falsy.
abbrev pub parent_of : List SessionEntry → SessionEntry → Option SessionEntry
parent_of es e = elim e.parent_id [ none ↦ none | some p ↦ if p == "" then none else by_id es p ]

-- The loop of `pathOf`, with the ids that it has seen and the path that it has collected.
unfoldable pub walk :
    ℕ
    → List SessionEntry
    → Option SessionEntry
    → List String
    → List SessionEntry
    → Result (List SessionEntry)
walk fuel es none seen path = ok path
walk zero es (some e) seen path = err out_of_fuel
walk (suc fuel) es (some e) seen path =
    let rest = walk fuel es (parent_of es e) (e.id ∷ seen) (e ∷ path) in
    if has seen e.id then err (cycle e.id) else rest

unfoldable pub path_from : SessionHistory → String → Result (List SessionEntry)
path_from history from_id =
    walk (suc (length history.entries)) history.entries (by_id history.entries from_id) [] []

-- `pathOf` from the current tip.
unfoldable pub path_of : SessionHistory → Result (List SessionEntry)
path_of history = do tip ← tip_of history history.branch; path_from history tip

abbrev pub is_revision : SessionEntry → Bool
is_revision e = elim e.body [ EntryBody.revision _ _ _ ↦ true | _ ↦ false ]

abbrev pub is_agent : EntryAuthor → Bool
is_agent EntryAuthor.agent = true
is_agent EntryAuthor.reviewer = false

abbrev pub by_agent : SessionEntry → Bool
by_agent e = elim e.body [ EntryBody.revision by _ _ ↦ is_agent by | _ ↦ false ]
