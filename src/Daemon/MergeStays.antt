-- ===== src/Daemon/MergeStays.antt =====
-- `sessionMergeShared` (packages/daemon/src/api.ts) leaves the status of the session as it is.
use cueloop.Prelude.{
  ◌≡◌, refl, ◌∙◌, subst, Bool, true, false, not, ◌||◌, List, [], ◌∷◌, ◌++◌, Option, none, some,
  String, string_eq, if◌then◌else◌, has,
}
use cueloop.Types.{Thread, SessionHistory, Annotation, Identity, SessionStatus}
use cueloop.History.Defs.{Result, ok, err, HistoryError}
use cueloop.Daemon.Entries.{refreshed}
use cueloop.Daemon.Merging.{
  Merging, SharedMerge, Removal, merged, merge_all, merge_comment, merge_removal, merged_entry,
  is_broken, with_participants, merge_result,
}
use cueloop.Sharing.PathView.{or_else}
use cueloop.Daemon.Stay.{Holds, Stays, KeepsStatus, recorded_on-KeepsStatus, refreshed-Holds}

module _ (status : SessionStatus) where
  AtStatus : Merging → Type 0
  AtStatus m = m.session.status ≡ status

  merged_entry-AtStatus :
      (m : Merging) (pushed : Thread) (known : List String) (r : Result (Thread × Option String))
      → pushed.status ≡ status
      → KeepsStatus pushed.status r
      → AtStatus (merged_entry m pushed known r)
  unfolding AtStatus
  merged_entry-AtStatus m pushed known (ok p) q k = k ∙ q
  merged_entry-AtStatus m pushed known (err e) q k = q

  unless : (b : Bool) (m n : Merging) → AtStatus m → AtStatus n → AtStatus (if b then m else n)
  unless true m n h k = h
  unless false m n h k = k

  merge_all-AtStatus :
      {A : Type 0} (f : Merging → A → Merging)
      → ((m : Merging) (a : A) → AtStatus m → AtStatus (f m a))
      → (m : Merging) (xs : List A) → AtStatus m
      → AtStatus (merge_all f m xs)
  unfolding merge_all
  merge_all-AtStatus f h m [] q = q
  merge_all-AtStatus f h m (x ∷ xs) q = merge_all-AtStatus f h (f m x) xs (h m x q)

  merge_comment-AtStatus :
      (branch : String) (minted : String → String) (m : Merging) (a : Annotation)
      → AtStatus m
      → AtStatus (merge_comment branch minted m a)
  unfolding merge_comment AtStatus
  merge_comment-AtStatus branch minted m a q =
      let pushed : Thread = record m.session { annotations = m.session.annotations ++ a ∷ [] } in
      unless (is_broken m || has m.known a.id) m _ q (
        merged_entry-AtStatus m pushed _ _ q
          (recorded_on-KeepsStatus (minted a.id) pushed branch _))

  merge_removal-AtStatus :
      (branch : String) (made : List String) (m : Merging) (r : Removal)
      → AtStatus m
      → AtStatus (merge_removal branch made m r)
  unfolding merge_removal AtStatus
  merge_removal-AtStatus branch made m r q =
      unless (is_broken m || has made r.id || not (has m.known r.annotation_id)) m _ q
        (merged_entry-AtStatus m m.session _ _ q (recorded_on-KeepsStatus r.id m.session branch _))

with_participants-status :
    (s : Thread) (ps : Option (List Identity)) → (with_participants s ps).status ≡ s.status
unfolding with_participants
with_participants-status s none = refl
with_participants-status s (some []) = refl
with_participants-status s (some (p ∷ ps)) = refl

merge_result-Stays :
    (m : Merging) (incoming : SharedMerge)
    → Stays (λ t. t) m.session.status (merge_result m incoming)
unfolding merge_result
merge_result-Stays m incoming = go m.broken m.changed
  where
    named : Thread
    named = with_participants m.session incoming.participants

    same : named.status ≡ m.session.status
    same = with_participants-status m.session incoming.participants

    shown :
        (o : Option SessionHistory)
        → Stays
            (λ t. t)
            m.session.status
            (
              (elim o [ some h ↦ record named { history = some h } | none ↦ named ]),
              (elim o [ some h ↦ refreshed named h | none ↦ ok named ]),
            )
    shown none = (same, same)
    shown (some h) = (same, holds (refreshed named h) (refreshed-Holds named h))
      where
        holds :
            (r : Result Thread)
            → Holds (λ t. t.status ≡ named.status) r
            → Holds (λ t. t.status ≡ m.session.status) r
        holds (ok t) k = k ∙ same
        holds (err e) k = tt

    go :
        (o : Option HistoryError) (b : Bool)
        → Stays
            (λ t. t)
            m.session.status
            (elim o [
              | some e ↦ (m.session, err e)
              | none ↦ (
                elim b [
                  | true ↦ elim named.history [
                    | some h ↦ record named { history = some h }
                    | none ↦ named
                  ]
                  | false ↦ named
                ],
                elim b [
                  | true ↦ elim named.history [ some h ↦ refreshed named h | none ↦ ok named ]
                  | false ↦ ok named
                ],
              )
            ])
    go (some e) b = (refl, tt)
    go none true = shown named.history
    go none false = (same, same)

pub merged-Stays :
    (branch : String) (minted : String → String) (s : Thread) (incoming : SharedMerge)
    → Stays (λ t. t) s.status (merge_result (merged branch minted s incoming) incoming)
unfolding merged AtStatus
merged-Stays branch minted s incoming =
    subst
      (λ (t : SessionStatus).
        Stays (λ u. u) t (merge_result (merged branch minted s incoming) incoming))
      (merge_all-AtStatus s.status _ (merge_removal-AtStatus s.status branch _) _
        (or_else incoming.removals [])
        (merge_all-AtStatus s.status _ (merge_comment-AtStatus s.status branch minted) _
          incoming.annotations refl))
      (merge_result-Stays (merged branch minted s incoming) incoming)
