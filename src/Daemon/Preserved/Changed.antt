-- ===== src/Daemon/Preserved/Changed.antt =====
-- Each edit of packages/daemon/src/api.ts keeps the invariant.
use cueloop.Prelude.{
  ◌≡◌, refl, sym, subst, Bool, true, false, not, Option, none, some, String, Text, List, inl, inr,
}
use cueloop.Types.{
  Thread, SessionHistory, SessionStatus, AnnotationTarget, annotation_target, Annotation, TextCut,
  ShareLink,
}
use cueloop.History.Defs as H
use cueloop.History.Writes.{label_tip, create_branch, switch_branch}
use cueloop.Agents.Receipts.{given}
use cueloop.Sharing.Participants.{register_participant}
use cueloop.Daemon.Core.{
  Core, Call, ok, ◌>>=◌, keep, emit, mutable_session, of_history, pure, ◌>>◌, require,
  session_updated, inbox_changed, forbidden, invalid_params, DaemonError,
}
use cueloop.Daemon.Entries.{
  annotated, annotation_removed, apply_working_copy, viewed, share_branch_of,
}
use cueloop.Daemon.Merging.{SharedMerge, merged, merge_result}
use cueloop.Daemon.MergeStays.{merged-Stays}
use cueloop.Daemon.Operations.{
  update, unlogged, titled, cuts_refused, is_of_another, annotate_in, remove_annotation_in,
  set_participant_name_in, set_working_copy_in, set_viewed_in, set_title_in, set_shares_in,
  session_annotate, session_remove_annotation, session_set_participant_name,
  session_set_working_copy, session_set_viewed, session_set_title, session_set_shares,
}
use cueloop.Daemon.Trees.{
  branch_or, show_moved, moved, moved_entry, navigate_in, branch_in, switch_in, label_in,
  merge_shared_in, session_navigate, session_branch, session_switch, session_label,
  session_merge_shared,
}
use cueloop.Daemon.Stay.{
  Stays, StaysPair, apply_working_copy-Stays, annotated-Stays, annotation_removed-Stays,
  viewed-status, register_participant-status,
}
use cueloop.Daemon.Calls.{mutable_session-cases, bind-ok}
use cueloop.Daemon.Sound.{IsSound, keep-IsSound, emit-IsSound, after}
use cueloop.Daemon.Refused.{apply_change-refused}
use cueloop.Daemon.Changes.{
  Fresh, Change, apply_change, annotate, remove_annotation, set_participant_name, set_working_copy,
  set_viewed, set_title, set_shares, merge_shared, navigate, start_branch, switch_to, label,
}
use cueloop.Daemon.Preserved.Written.{
  show_moved-IsSound, pending_status, open_of, update-IsSound, history_of-IsSound,
}

module _ (c : Core) (v : IsSound c) (f : Fresh) (id : String) (s : Thread)
    (p : s.status ≡ SessionStatus.pending) where
  at_pending :
      (w : Thread × H.Result (Thread × Option String))
      → StaysPair s.status w
      → StaysPair SessionStatus.pending w
  at_pending w h = subst (λ (t : SessionStatus). StaysPair t w) p h

  edit :
      (w : Thread × H.Result (Thread × Option String))
      → StaysPair s.status w
      → IsSound (update id w c).1
  edit w h = update-IsSound c v id w (at_pending w h)

  require-IsSound :
      (b : Bool) (e : DaemonError) (k : Call Thread)
      → IsSound (k c).1
      → IsSound ((require b e >>= λ _. k) c).1
  require-IsSound true e k h = h
  require-IsSound false e k h = v

  annotate-IsSound :
      (a : Annotation) (name : Option Text) → IsSound (annotate_in f.minted f.now id a name s c).1
  unfolding annotate_in
  annotate-IsSound a name = go (annotation_target a)
    where
      edited : IsSound (update id (annotated f.minted f.now s a name) c).1
      edited = edit (annotated f.minted f.now s a name) (annotated-Stays f.minted f.now s a name)

      go :
          (t : AnnotationTarget)
          → (let k : Call Thread = elim t [
            | AnnotationTarget.welcome ↦ pure s
            | _ ↦ update id (annotated f.minted f.now s a name)
          ] in
              IsSound (k c).1)
      go AnnotationTarget.welcome = v
      go AnnotationTarget.artifact = edited
      go (AnnotationTarget.file path rev) = edited

  remove-IsSound :
      (a : String) (author : Option String)
      → IsSound (remove_annotation_in f.minted f.now id a author s c).1
  unfolding remove_annotation_in
  remove-IsSound a author =
      let w = annotation_removed f.minted f.now s a in
      require-IsSound (not (is_of_another s a author)) (forbidden a) (update id w)
        (edit w (annotation_removed-Stays f.minted f.now s a))

  name-IsSound :
      (author : String) (name : Text) → IsSound (set_participant_name_in id author name s c).1
  unfolding set_participant_name_in
  name-IsSound author name =
      let same = register_participant-status s author (some name) in
      edit (unlogged (register_participant s author (some name) none)) (same, same)

  copy-IsSound :
      (copy : Option Text) (cuts : Option (List TextCut))
      → IsSound (set_working_copy_in f.minted f.now id copy cuts s c).1
  unfolding set_working_copy_in
  copy-IsSound copy cuts =
      let w = apply_working_copy f.minted f.now s copy cuts in
      require-IsSound (not (cuts_refused s copy cuts)) invalid_params (update id w)
        (edit w (apply_working_copy-Stays f.minted f.now s copy cuts))

  viewed-IsSound : (paths : List String) → IsSound (set_viewed_in id paths s c).1
  unfolding set_viewed_in
  viewed-IsSound paths =
      edit (unlogged (viewed s paths)) (viewed-status s paths, viewed-status s paths)

  title-IsSound : (title : String) → IsSound (set_title_in f.trim id title s c).1
  unfolding set_title_in
  title-IsSound title =
      let named = titled s (given (some (f.trim title))) in
      emit-IsSound (keep named c).1 (keep-IsSound c v named (open_of named p)) inbox_changed id none

  shares-IsSound : (shares : List ShareLink) → IsSound (set_shares_in id shares s c).1
  unfolding set_shares_in
  shares-IsSound shares = edit (unlogged (record s { shares = some shares })) (refl, refl)

  navigate-IsSound :
      (entry : String) (summary : Option Text) (branch : Option String)
      → IsSound (navigate_in f.minted f.now id entry summary branch s c).1
  unfolding navigate_in
  navigate-IsSound entry summary branch =
      history_of-IsSound c v id s
        (λ h.
          show_moved id s (λ h. moved_entry h entry) (moved f.minted f.now h entry summary branch))
        (λ h.
          show_moved-IsSound c v id s (λ h. moved_entry h entry)
            (moved f.minted f.now h entry summary branch) p)

  branch-IsSound : (name : String) → IsSound (branch_in id name s c).1
  unfolding branch_in
  branch-IsSound name =
      history_of-IsSound c v id s (λ h. show_moved id s (λ _. none) (create_branch h name))
        (λ h. show_moved-IsSound c v id s (λ _. none) (create_branch h name) p)

  switch-IsSound : (name : String) → IsSound (switch_in id name s c).1
  unfolding switch_in
  switch-IsSound name =
      history_of-IsSound c v id s (λ h. show_moved id s (λ _. none) (switch_branch h name))
        (λ h. show_moved-IsSound c v id s (λ _. none) (switch_branch h name) p)

  label-IsSound : (name : String) → IsSound (label_in id name s c).1
  unfolding label_in
  label-IsSound name =
      history_of-IsSound c v id s (λ h. of_history (label_tip h name) >>= kept)
        (λ h. go (label_tip h name))
    where
      kept : SessionHistory → Call Thread
      kept h = do
        keep (record s { history = some h })
        emit session_updated id none
        pure (record s { history = some h })

      go : (r : H.Result SessionHistory) → IsSound ((of_history r >>= kept) c).1
      go (H.err e) = v
      go (H.ok h) =
          let labelled : Thread = record s { history = some h } in
          emit-IsSound (keep labelled c).1 (keep-IsSound c v labelled (open_of labelled p))
            session_updated id none

  merge-IsSound :
      (incoming : SharedMerge) → IsSound (merge_shared_in f.minted_for id incoming s c).1
  unfolding merge_shared_in
  merge-IsSound incoming = go (share_branch_of s incoming.share_id)
    where
      write : Thread × H.Result Thread → Call Thread
      write (w, r) = do
        keep w
        final ← of_history r
        keep final
        emit session_updated id none
        pure final

      written :
          (q : Thread × H.Result Thread)
          → Stays (λ t. t) SessionStatus.pending q
          → IsSound (write q c).1
      written (w, H.err e) h = keep-IsSound c v w (open_of w h.0)
      written (w, H.ok t) h =
          let kept = keep-IsSound c v w (open_of w h.0) in
          emit-IsSound (keep t (keep w c).1).1 (keep-IsSound (keep w c).1 kept t (open_of t h.1))
            session_updated id none

      go :
          (o : Option String)
          → IsSound
              ((branch_or o incoming.share_id >>= λ b.
                  write (merge_result (merged b f.minted_for s incoming) incoming))
                c).1
      go none = v
      go (some b) = written (merge_result (merged b f.minted_for s incoming) incoming) (
          subst
            (λ (t : SessionStatus).
              Stays (λ u. u) t (merge_result (merged b f.minted_for s incoming) incoming))
            p (merged-Stays b f.minted_for s incoming))

  open_in :
      (k : Thread → Call Thread)
      → mutable_session id c ≡ (ok s, c)
      → IsSound (k s c).1
      → IsSound ((mutable_session id >>= k) c).1
  open_in k r h = after c v (sym (bind-ok (mutable_session id) k c c r)) h

  change-IsSound :
      (change : Change) → mutable_session id c ≡ (ok s, c) → IsSound (apply_change f id change c).1
  unfolding apply_change session_annotate session_remove_annotation session_set_participant_name
      session_set_working_copy session_set_viewed session_set_title session_set_shares
      session_navigate session_branch session_switch session_label session_merge_shared
  change-IsSound (annotate a name) r =
      open_in (annotate_in f.minted f.now id a name) r (annotate-IsSound a name)
  change-IsSound (remove_annotation a author) r =
      open_in (remove_annotation_in f.minted f.now id a author) r (remove-IsSound a author)
  change-IsSound (set_participant_name author name) r =
      open_in (set_participant_name_in id author name) r (name-IsSound author name)
  change-IsSound (set_working_copy copy cuts) r =
      open_in (set_working_copy_in f.minted f.now id copy cuts) r (copy-IsSound copy cuts)
  change-IsSound (set_viewed paths) r = open_in (set_viewed_in id paths) r (viewed-IsSound paths)
  change-IsSound (set_title title) r =
      open_in (set_title_in f.trim id title) r (title-IsSound title)
  change-IsSound (set_shares shares) r = open_in (set_shares_in id shares) r (shares-IsSound shares)
  change-IsSound (merge_shared incoming) r =
      open_in (merge_shared_in f.minted_for id incoming) r (merge-IsSound incoming)
  change-IsSound (navigate entry summary branch) r =
      open_in (navigate_in f.minted f.now id entry summary branch) r
        (navigate-IsSound entry summary branch)
  change-IsSound (start_branch name) r = open_in (branch_in id name) r (branch-IsSound name)
  change-IsSound (switch_to branch) r = open_in (switch_in id branch) r (switch-IsSound branch)
  change-IsSound (label name) r = open_in (label_in id name) r (label-IsSound name)

pub apply_change-IsSound :
    (f : Fresh) (id : String) (change : Change) (c : Core)
    → IsSound c
    → IsSound (apply_change f id change c).1
apply_change-IsSound f id change c v = elim (mutable_session-cases c id) [
  | inl (e, r) ↦ after c v (sym (apply_change-refused f id c r change)) v
  | inr (s, q, o, r) ↦ change-IsSound c v f id s (pending_status s o) change r
]
