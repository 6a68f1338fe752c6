-- ===== src/Types/Review.antt =====
-- Artifacts, anchors, annotations and messages (packages/schema/src/types.ts). An optional field
-- is an `Option`; texts that are sliced are `Text`, ids and names are `String`.
use cueloop.Prelude.{ℕ, Bool, true, false, List, Option, none, some, String, Text, ◌==◌, string_eq}

pub data ArtifactType : Type 0 where
  plan diff prototype reply : ArtifactType

unfoldable pub is_markdown_artifact : ArtifactType → Bool
is_markdown_artifact plan = true
is_markdown_artifact reply = true
is_markdown_artifact prototype = true
is_markdown_artifact diff = false

pub data WorkflowKind : Type 0 where
  plan reply prototype diff review refine : WorkflowKind

pub record WorkspaceKey : Type 0 where
  pub repo_root : String
  pub branch : String
  pub root_commit : Option String
  pub remote : Option String

pub record ArtifactMeta : Type 0 where
  pub workflow : Option WorkflowKind
  pub cwd : Option String
  pub vcs : Option String
  pub vcs_change_id : Option String
  pub vcs_revision_id : Option String
  pub agent : Option String
  pub agent_session_id : Option String
  pub plan_path : Option String
  pub prototype_path : Option String
  pub pr : Option String
  pub pr_brief : Option String
  pub pr_base_sha : Option String
  pub pr_head_sha : Option String
  pub pr_refresh_base_sha : Option String
  pub pr_refresh_head_sha : Option String
  pub pr_url : Option String
  pub herdr_pane : Option String
  pub title : Option String
  pub workbench : Option Bool
  pub snapshot : Option Bool

pub record DiffSource : Type 0 where
  pub vcs : String
  pub change_id : Option String
  pub revision_id : Option String
  pub base_revision_id : Option String

pub data DiffFileStatus : Type 0 where
  added modified deleted : DiffFileStatus

pub record HunkRejection : Type 0 where
  pub path : String
  pub hunk_index : ℕ
  pub change_index : Option ℕ

pub record DiffFileContents : Type 0 where
  pub path : String
  pub old_contents : Text
  pub new_contents : Text
  pub status : DiffFileStatus

pub record Artifact : Type 0 where
  pub type : ArtifactType
  pub content : Text
  pub meta : ArtifactMeta
  pub files : Option (List DiffFileContents)

pub record Anchor : Type 0 where
  pub quote : Text
  pub prefix : Text
  pub suffix : Text
  pub block_index : Option ℕ
  pub end_block_index : Option ℕ
  pub start : Option ℕ
  pub end : Option ℕ
  pub selector : Option String

pub data FileRev : Type 0 where
  worktree head : FileRev

pub data AnnotationTarget : Type 0 where
  artifact : AnnotationTarget
  file : String → FileRev → AnnotationTarget
  welcome : AnnotationTarget

pub data ResolutionSource : Type 0 where
  agent drift : ResolutionSource

pub record AnnotationResolution : Type 0 where
  pub revision : ℕ
  pub source : ResolutionSource

pub data ReviewSeverity : Type 0 where
  p0 p1 p2 : ReviewSeverity

pub data Side : Type 0 where
  left right : Side

pub record ReviewComment : Type 0 where
  pub severity : ReviewSeverity
  pub title : String
  pub path : String
  pub line : ℕ
  pub start_line : Option ℕ
  pub start_anchor : Option Anchor
  pub side : Side
  pub suggestion : Option Text
  pub prompt : Option Text

pub record Annotation : Type 0 where
  pub id : String
  pub kind : String
  pub anchor : Anchor
  pub target : Option AnnotationTarget
  pub body : Text
  pub orphan : Option Bool
  pub author : Option String
  pub review_comment : Option ReviewComment
  pub reply_to : Option String
  pub resolution : Option AnnotationResolution
  pub created_at : String

unfoldable pub annotation_target : Annotation → AnnotationTarget
annotation_target annotation = elim annotation.target [ none ↦ artifact | some t ↦ t ]

unfoldable pub is_agent_note : Annotation → Bool
is_agent_note annotation = annotation.kind == "note"

unfoldable pub is_addressed : Annotation → Bool
is_addressed annotation = elim annotation.resolution [ none ↦ false | some _ ↦ true ]

pub data MessageOutcome : Type 0 where
  comment approved changes_requested : MessageOutcome

unfoldable pub message_allows : MessageOutcome → Bool
message_allows approved = true
message_allows comment = false
message_allows changes_requested = false

pub record OperationReceipt (R : Type 0) : Type 0 where
  pub operation_id : String
  pub fingerprint : String
  pub result : R

pub record Message : Type 0 where
  pub id : String
  pub outcome : MessageOutcome
  pub summary : Text
  pub body : Text
  pub annotations : Option (List Annotation)
  pub sent_at : String

pub record Revision : Type 0 where
  pub revision : ℕ
  pub content : Text
  pub submitted_at : String
  pub source : Option DiffSource
  pub files : Option (List DiffFileContents)

pub record TextCut : Type 0 where
  pub start : ℕ
  pub end : ℕ
  pub quote : Text
