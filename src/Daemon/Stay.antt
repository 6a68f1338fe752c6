-- ===== src/Daemon/Stay.antt =====
-- The edits of packages/daemon/src/api.ts leave the status of a session as it is, in what they
-- have written before they fail and in what they give.
use cueloop.Prelude.{
  ◌≡◌, refl, ◌∙◌, Bool, true, false, List, [], ◌∷◌, Option, none, some, String, Text, ◌==◌, ◌!=◌,
  ◌++◌, filter, string_eq, text_eq, find, any, if◌then◌else◌, arith,
}
use cueloop.Types.{Thread, SessionHistory, SessionStatus, EntryBody, Annotation, TextCut}
use cueloop.History.Defs.{Result, ok, err, ◌>>=◌}
use cueloop.History.Linear.{with_history}
use cueloop.History.Writes.{NewEntry, append_entry, switch_branch}
use cueloop.Sharing.PathView.{view_of_path, apply_path_view, known_annotations}
use cueloop.Sharing.Participants.{register_participant}
use cueloop.Daemon.Entries.{
  recorded, recorded_on, entry, with_copy, apply_working_copy, refreshed, with_author, annotated,
  annotation_removed, viewed, shown_text, at_time, replace_annotation, shelve,
}

-- What the result holds satisfies `P`, if there is one.
abbrev pub Holds {ℓ} : {A : Type 0} (P : A → Type ℓ) → Result A → Type ℓ
Holds P (ok a) = P a
Holds P (err e) = Unit

pub Holds-bind :
    {A B : Type 0} (P : B → Type 0) (r : Result A) (f : A → Result B)
    → ((a : A) → Holds P (f a))
    → Holds P (r >>= f)
Holds-bind P (ok a) f h = h a
Holds-bind P (err e) f h = tt

Holds-then :
    {A B : Type 0} (Q : A → Type 0) (P : B → Type 0) (r : Result A) (f : A → Result B)
    → Holds Q r
    → ((a : A) → Q a → Holds P (f a))
    → Holds P (r >>= f)
Holds-then Q P (ok a) f q h = h a q
Holds-then Q P (err e) f q h = tt

Holds-if :
    {A : Type 0} (P : A → Type 0) (b : Bool) (x y : Result A)
    → Holds P x
    → Holds P y
    → Holds P (if b then x else y)
Holds-if P true x y h k = h
Holds-if P false x y h k = k

-- An edit, with what it has written and what it gives.
abbrev pub Stays :
    {A : Type 0} (thread_of : A → Thread) (status : SessionStatus) → Thread × Result A → Type 0
Stays thread_of status p = (p.0.status ≡ status) × Holds (λ a. (thread_of a).status ≡ status) p.1

abbrev pub KeepsStatus : SessionStatus → Result (Thread × Option String) → Type 0
KeepsStatus status = Holds (λ p. p.0.status ≡ status)

pub recorded-KeepsStatus :
    (minted : String) (s : Thread) (e : NewEntry) → KeepsStatus s.status (recorded minted s e)
unfolding recorded
recorded-KeepsStatus minted s e = go (with_history s).history
  where
    Same : Thread × Option String → Type 0
    Same p = p.0.status ≡ s.status

    go :
        (o : Option SessionHistory)
        → KeepsStatus s.status (elim o [
          | none ↦ ok (s, none)
          | some h ↦ do
            (h', x) ← append_entry minted h e
            ok (record s { history = some h' }, some x.id)
        ])
    go none = refl
    go (some h) = Holds-bind Same (append_entry minted h e) _ (λ _. refl)

abbrev pub KeepsId : String → Result (Thread × Option String) → Type 0
KeepsId id = Holds (λ p. p.0.id ≡ id)

pub recorded-id : (minted : String) (s : Thread) (e : NewEntry) → KeepsId s.id (recorded minted s e)
unfolding recorded
recorded-id minted s e = go (with_history s).history
  where
    go :
        (o : Option SessionHistory)
        → KeepsId s.id (elim o [
          | none ↦ ok (s, none)
          | some h ↦ do
            (h', x) ← append_entry minted h e
            ok (record s { history = some h' }, some x.id)
        ])
    go none = refl
    go (some h) =
        Holds-bind (λ (p : Thread × Option String). p.0.id ≡ s.id) (append_entry minted h e) _
          (λ _. refl)

pub recorded_on-KeepsStatus :
    (minted : String) (s : Thread) (branch : String) (e : NewEntry)
    → KeepsStatus s.status (recorded_on minted s branch e)
unfolding recorded_on
recorded_on-KeepsStatus minted s branch e = go (with_history s).history
  where
    Same : Thread × Option String → Type 0
    Same p = p.0.status ≡ s.status

    go :
        (o : Option SessionHistory)
        → KeepsStatus s.status (elim o [
          | none ↦ ok (s, none)
          | some h ↦ do
            standing ← switch_branch h branch
            (h', x) ← append_entry minted standing e
            ok (record s { history = some (record h' { branch = h.branch }) }, some x.id)
        ])
    go none = refl
    go (some h) =
        Holds-bind Same (switch_branch h branch) _
          (λ standing. Holds-bind Same (append_entry minted standing e) _ (λ _. refl))

abbrev pub StaysPair : SessionStatus → Thread × Result (Thread × Option String) → Type 0
StaysPair status = Stays (λ p. p.0) status

pub register_participant-status :
    (s : Thread) (author : String) (name : Option Text)
    → (register_participant s author name none).status ≡ s.status
unfolding register_participant
register_participant-status s author name = ground arith

with_author-status :
    (s : Thread) (author : Option String) (name : Option Text)
    → (with_author s author name).status ≡ s.status
unfolding with_author register_participant
with_author-status s author name = ground arith

module _ (minted now : String) (s : Thread) where
  pub apply_working_copy-Stays :
      (copy : Option Text) (cuts : Option (List TextCut))
      → StaysPair s.status (apply_working_copy minted now s copy cuts)
  unfolding apply_working_copy with_copy
  apply_working_copy-Stays copy cuts = (
    refl,
    Holds-if (λ p. p.0.status ≡ s.status) (shown_text (with_copy s copy cuts) == shown_text s) _ _
        refl (recorded-KeepsStatus minted (with_copy s copy cuts) _),
  )

  pub annotated-Stays :
      (a : Annotation) (name : Option Text) → StaysPair s.status (annotated minted now s a name)
  unfolding annotated
  annotated-Stays a name = go (any (λ b. b.id == a.id) s.annotations)
    where
      replaced : Thread
      replaced = record s { annotations = replace_annotation (at_time now a) s.annotations }

      pushed : Thread
      pushed = record s { annotations = s.annotations ++ at_time now a ∷ [] }

      logged : Result (Thread × Option String)
      logged = do
        (t, id) ← recorded minted pushed (entry now (EntryBody.comment a.id))
        ok (with_author t a.author name, id)

      go :
          (b : Bool)
          → StaysPair s.status (
              if b
              then (replaced, ok (with_author replaced a.author name, none))
              else (pushed, logged))
      go true = (refl, with_author-status replaced a.author name)
      go false = (
        refl,
        Holds-then (λ p. p.0.status ≡ s.status) (λ p. p.0.status ≡ s.status)
            (recorded minted pushed (entry now (EntryBody.comment a.id))) _
            (recorded-KeepsStatus minted pushed _)
            (λ p q. with_author-status p.0 a.author name ∙ q),
      )

  pub annotation_removed-Stays :
      (id : String) → StaysPair s.status (annotation_removed minted now s id)
  unfolding annotation_removed
  annotation_removed-Stays id = go (find (λ a. a.id == id) s.annotations)
    where
      left : Thread
      left = record s { annotations = filter (λ a. a.id != id) s.annotations }

      go :
          (o : Option Annotation)
          → StaysPair s.status (elim o [
            | none ↦ (left, ok (left, none))
            | some target ↦ (
              shelve left target,
              recorded minted (shelve left target) (entry now (EntryBody.comment_removed id)),
            )
          ])
      go none = (refl, refl)
      go (some target) = (refl, recorded-KeepsStatus minted (shelve left target) _)

pub viewed-status : (s : Thread) (paths : List String) → (viewed s paths).status ≡ s.status
unfolding viewed
viewed-status s [] = refl
viewed-status s (p ∷ ps) = refl

pub refreshed-Holds :
    (s : Thread) (h : SessionHistory) → Holds (λ t. t.status ≡ s.status) (refreshed s h)
unfolding refreshed apply_path_view
refreshed-Holds s h =
    Holds-bind (λ t. t.status ≡ s.status) (view_of_path h (known_annotations s)) _ (λ _. refl)
