-- ===== src/Types/ThreadRecord.antt =====
-- The Thread record with its history (packages/schema/src/types.ts, packages/schema/src/history.ts).
use cueloop.Prelude.{Bool, List, Option, String, Text}
use cueloop.Types.Review.{
  WorkspaceKey, Artifact, Revision, Annotation, HunkRejection, TextCut, OperationReceipt, Message,
}
use cueloop.Types.Agent.{ThreadAgentState}

pub data EntryAuthor : Type 0 where
  agent reviewer : EntryAuthor

-- What an entry says: the union that is told apart by `type`.
pub data EntryBody : Type 0 where
  revision : EntryAuthor → Text → Option (List TextCut) → EntryBody
  comment : String → EntryBody
  comment_removed : String → EntryBody
  message : Message → EntryBody
  branch_summary : Text → List String → EntryBody

pub record SessionEntry : Type 0 where
  pub id : String
  pub parent_id : Option String
  pub created_at : String
  pub body : EntryBody

-- An object with open keys is its properties, in the order in which they were added.
abbrev pub Dictionary : Type 0
Dictionary = List (String × String)

pub record SessionHistory : Type 0 where
  pub entries : List SessionEntry
  pub tips : Dictionary
  pub branch : String
  pub labels : Dictionary

pub data SessionStatus : Type 0 where
  pending resolved : SessionStatus

pub data Provider : Type 0 where
  ssh github : Provider

pub record Identity : Type 0 where
  pub id : String
  pub provider : Provider
  pub name : Option Text
  pub handle : Option String

pub record ShareLink : Type 0 where
  pub id : String
  pub name : Option String
  pub require_auth : Bool
  pub allowlist : List Text
  pub agent_enabled : Option Bool
  pub owner : Option String
  pub share_branch : Option String

pub record Thread : Type 0 where
  pub schema_version : String
  pub id : String
  pub workspace : WorkspaceKey
  pub artifact : Artifact
  pub revisions : List Revision
  pub annotations : List Annotation
  pub history : Option SessionHistory
  pub curation : Option (List HunkRejection)
  pub working_copy : Option Text
  pub text_cuts : Option (List TextCut)
  pub viewed_paths : Option (List String)
  pub message_operations : Option (List (OperationReceipt Message))
  pub message : Option Message
  pub status : SessionStatus
  pub created_at : String
  pub shelved_annotations : Option (List Annotation)
  pub parent_session_id : Option String
  pub shares : Option (List ShareLink)
  pub participants : Option (List Identity)
  pub agent_snapshot : Option ThreadAgentState
