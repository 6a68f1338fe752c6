-- ===== src/Daemon/Merging.antt =====
-- `sessionMergeShared` of `DaemonCore` (packages/daemon/src/api.ts).
use cueloop.Prelude.{
  Bool, true, false, ◌||◌, not, List, [], ◌∷◌, ◌++◌, map, Option, none, some, String, string_eq,
  if◌then◌else◌, has,
}
use cueloop.Prelude.Maps.{map_of, put}
use cueloop.Types.{Thread, EntryBody, Annotation, Identity}
use cueloop.History.Defs as H
use cueloop.History.Defs.{HistoryError}
use cueloop.History.Writes.{NewEntry}
use cueloop.Sharing.PathView.{known_annotations, or_else}
use cueloop.Daemon.Entries.{recorded_on, entry, refreshed}

pub record Removal : Type 0 where
  pub id : String
  pub annotation_id : String
  pub created_at : String

pub record SharedMerge : Type 0 where
  pub share_id : Option String
  pub annotations : List Annotation
  pub participants : Option (List Identity)
  pub removals : Option (List Removal)

-- What the loops have reached: the session as it stands, the ids that are known, whether an entry
-- was made, and the error that broke the loop.
pub record Merging : Type 0 where
  pub session : Thread
  pub known : List String
  pub changed : Bool
  pub broken : Option HistoryError

abbrev pub merged_entry :
    Merging → Thread → List String → H.Result (Thread × Option String) → Merging
merged_entry m pushed known (H.ok (s, _)) = record {
  session = s;
  known = known;
  changed = true;
  broken = none;
}
merged_entry m pushed known (H.err e) = record m { session = pushed; broken = some e }

abbrev pub is_broken : Merging → Bool
is_broken m = elim m.broken [ none ↦ false | some _ ↦ true ]

-- One comment; `minted` is the id of its entry.
unfoldable pub merge_comment : String → (String → String) → Merging → Annotation → Merging
merge_comment branch minted m a =
    let pushed = record m.session { annotations = m.session.annotations ++ a ∷ [] } in
    if is_broken m || has m.known a.id
    then m
    else merged_entry m pushed (m.known ++ a.id ∷ [])
        (recorded_on (minted a.id) pushed branch (entry a.created_at (EntryBody.comment a.id)))

abbrev pub removal_entry : Removal → NewEntry
removal_entry r = record {
  id = some r.id;
  created_at = r.created_at;
  body = EntryBody.comment_removed r.annotation_id;
}

-- One removal; `made` are the ids of the entries that stand before the loop.
unfoldable pub merge_removal : String → List String → Merging → Removal → Merging
merge_removal branch made m r =
    if is_broken m || has made r.id || not (has m.known r.annotation_id)
    then m
    else merged_entry m m.session m.known (recorded_on r.id m.session branch (removal_entry r))

unfoldable pub merge_all {ℓ} : {A : Type ℓ} → (Merging → A → Merging) → Merging → List A → Merging
merge_all f m [] = m
merge_all f m (x ∷ xs) = merge_all f (f m x) xs

abbrev pub entry_ids : Thread → List String
entry_ids session = elim session.history [ none ↦ [] | some h ↦ map (λ e. e.id) h.entries ]

-- `new Map(...)`, then `registry.set` for each.
unfoldable pub with_participants : Thread → Option (List Identity) → Thread
with_participants session none = session
with_participants session (some []) = session
with_participants session (some (p ∷ ps)) = record session {
  participants = some (set_all (map_of (λ i. i.id) [] (or_else session.participants [])) (p ∷ ps));
}
  where
    set_all : List Identity → List Identity → List Identity
    set_all registry [] = registry
    set_all registry (i ∷ is') = set_all (put (λ j. j.id) i registry) is'

-- The loops over the comments and the removals.
unfoldable pub merged : String → (String → String) → Thread → SharedMerge → Merging
unfolding merge_all merge_comment merge_removal
merged branch minted session incoming =
    let start : Merging = record {
      session = session;
      known = map (λ a. a.id) (known_annotations session);
      changed = false;
      broken = none;
    } in
    let comments = merge_all (merge_comment branch minted) start incoming.annotations in
    merge_all (merge_removal branch (entry_ids comments.session)) comments
      (or_else incoming.removals [])

-- The session as it is left, and what is stored or the error that is thrown.
unfoldable pub merge_result : Merging → SharedMerge → Thread × H.Result Thread
merge_result m incoming =
    let named = with_participants m.session incoming.participants in
    elim m.broken [
      | some e ↦ (m.session, H.err e)
      | none ↦ (
        elim m.changed [
          | true ↦ elim named.history [ some h ↦ record named { history = some h } | none ↦ named ]
          | false ↦ named
        ],
        elim m.changed [
          | true ↦ elim named.history [ some h ↦ refreshed named h | none ↦ H.ok named ]
          | false ↦ H.ok named
        ],
      )
    ]
