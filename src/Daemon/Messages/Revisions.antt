-- ===== src/Daemon/Messages/Revisions.antt =====
-- `sessionSubmitRevision` of packages/daemon/src/api.ts.
use cueloop.Prelude.{
  ℕ, ◌+◌, Bool, true, false, not, ◌&&◌, ◌||◌, List, [], ◌∷◌, ◌++◌, map, Option, none, some, String,
  Text, string_eq, if◌then◌else◌, has, length,
}
use cueloop.Types.{
  Thread, Annotation, AnnotationTarget, EntryBody, EntryAuthor, SessionStatus, DiffSource,
  DiffFileContents, Artifact, ArtifactType, ResolutionSource, annotation_target, is_addressed,
  is_agent_note, is_markdown_artifact,
}
use cueloop.History.Defs.{main_branch}
use cueloop.Agents.Receipts.{given}
use cueloop.Sharing.PathView.{first_of}
use cueloop.Daemon.Core.{
  Call, ◌>>=◌, ◌>>◌, pure, keep, upsert, emit, session_get, of_history, session_revised,
  inbox_changed,
}
use cueloop.Daemon.Entries.{recorded_on, entry}
use cueloop.Daemon.Tracking.{is_set, is_diff}
use cueloop.Daemon.Messages.Sends.{Services}

-- `applyRevisionSource`
unfoldable pub apply_revision_source : Artifact → Option DiffSource → Artifact
apply_revision_source artifact source =
    let sourced : Artifact = elim source [
      | none ↦ artifact
      | some s ↦ record artifact { meta = record artifact.meta { vcs = some s.vcs } }
    ] in
    elim artifact.type [
      | ArtifactType.diff ↦ record sourced {
        meta = record sourced.meta {
          vcs_change_id = elim source [ none ↦ none | some s ↦ s.change_id ];
          vcs_revision_id = elim source [ none ↦ none | some s ↦ s.revision_id ];
        };
      }
      | _ ↦ sourced
    ]

-- The ids that the agent reports, with the replies to them that stand behind.
unfoldable pub reported_ids : List String → List Annotation → List String
reported_ids ids [] = ids
reported_ids ids (a ∷ as') =
    reported_ids
      (elim a.reply_to [ none ↦ ids | some root ↦ if has ids root then ids ++ a.id ∷ [] else ids ])
      as'

abbrev pub is_on_artifact : Annotation → Bool
is_on_artifact a = elim (annotation_target a) [ AnnotationTarget.artifact ↦ true | _ ↦ false ]

abbrev marked : ℕ → ResolutionSource → Annotation → Annotation
marked revision source a = record a {
  resolution = some (record { revision = revision; source = source });
}

pub record RevisionInput : Type 0 where
  pub session_id : String
  pub content : Text
  pub addressed : List String
  pub files : Option (List DiffFileContents)
  pub source : Option DiffSource

module _ (services : Services) where
  -- One round of the loop that marks the comments addressed.
  unfoldable pub address : List String → ArtifactType → Text → ℕ → Annotation → Annotation
  address reported type content revision a =
      if is_addressed a || is_agent_note a
      then a
      else if has reported a.id
      then marked revision ResolutionSource.agent a
      else if is_markdown_artifact type
          && is_on_artifact a
          && not (is_set (given a.anchor.selector))
          && not (services.resolves a.anchor content)
      then marked revision ResolutionSource.drift a
      else a

  -- The revision and the artifact that it becomes.
  unfoldable pub with_revision : String → Thread → RevisionInput → Thread
  unfolding apply_revision_source
  with_revision now s input = record s {
    revisions =
        s.revisions
        ++ record {
          revision = length s.revisions + 1;
          content = input.content;
          submitted_at = now;
          source = input.source;
          files = if is_diff s then first_of input.files s.artifact.files else none;
        }
          ∷ [];
    artifact =
        apply_revision_source
          (record s.artifact {
            content = input.content;
            files = first_of input.files s.artifact.files;
          })
          input.source;
  }

  -- The session open again, its comments marked.
  unfoldable pub reopened : Thread → ℕ → RevisionInput → Thread
  unfolding address
  reopened s revision input = record s {
    working_copy = none;
    text_cuts = none;
    message = none;
    status = SessionStatus.pending;
    annotations =
        map
          (address (reported_ids input.addressed s.annotations) s.artifact.type input.content
            revision)
          s.annotations;
  }

  unfoldable pub revise_in : String → String → RevisionInput → Thread → Call Thread
  revise_in minted now input session = do
    keep (with_revision now session input)
    (logged, entry_id) ← of_history (
        recorded_on minted (with_revision now session input) main_branch
          (entry now (EntryBody.revision EntryAuthor.agent input.content none)))
    let final : Thread = reopened logged (length session.revisions + 1) input
    upsert final
    emit session_revised input.session_id entry_id
    emit inbox_changed input.session_id none
    pure final

  unfoldable pub session_submit_revision : String → String → RevisionInput → Call Thread
  session_submit_revision minted now input =
      session_get input.session_id >>= revise_in minted now input
