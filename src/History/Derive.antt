-- ===== src/History/Derive.antt =====
-- `derivePath` of packages/schema/src/history.ts: what a viewer sees on a path.
use cueloop.Prelude.{
  ℕ, Bool, true, false, List, [], ◌∷◌, ◌++◌, none, some, String, ◌!=◌, string_eq, if◌then◌else◌,
  length, filter, has, get_last?,
}
use cueloop.Types.{EntryBody, SessionEntry, SessionHistory, Message}
use cueloop.History.Defs.{Result, ok, err, ◌>>=◌, not_a_revision, path_of, is_revision, by_agent}

pub record DerivedPath : Type 0 where
  pub head : SessionEntry
  pub annotation_ids : List String
  pub messages : List Message
  pub summaries : List SessionEntry
  pub rounds : ℕ

-- `set.add` and `set.delete` on a set in insertion order.
unfoldable pub add : List String → String → List String
add ids a = if has ids a then ids else ids ++ a ∷ []

unfoldable pub delete : List String → String → List String
delete ids a = filter (λ b. b != a) ids

-- One round of the loop, on the set of open comments.
unfoldable pub open_step : List String → EntryBody → List String
open_step ids (EntryBody.comment a) = add ids a
open_step ids (EntryBody.comment_removed a) = delete ids a
open_step ids _ = ids

unfoldable pub open_from : List String → List SessionEntry → List String
open_from ids [] = ids
open_from ids (e ∷ es) = open_from (open_step ids e.body) es

abbrev pub message_of : EntryBody → List Message
message_of (EntryBody.message m) = m ∷ []
message_of _ = []

unfoldable pub messages_on : List SessionEntry → List Message
messages_on [] = []
messages_on (e ∷ es) = message_of e.body ++ messages_on es

abbrev pub is_summary : SessionEntry → Bool
is_summary e = elim e.body [ EntryBody.branch_summary _ _ ↦ true | _ ↦ false ]

unfoldable pub derive_from : List SessionEntry → Result DerivedPath
derive_from path =
    let revisions = filter is_revision path in
    elim (get_last? revisions) [
      | none ↦ err not_a_revision
      | some head ↦ ok (record {
        head = head;
        annotation_ids = open_from [] path;
        messages = messages_on path;
        summaries = filter is_summary path;
        rounds = length (filter by_agent revisions);
      })
    ]

unfoldable pub derive_path : SessionHistory → Result DerivedPath
derive_path history = do path ← path_of history; derive_from path
