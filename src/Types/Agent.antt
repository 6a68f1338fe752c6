-- ===== src/Types/Agent.antt =====
-- A thread agent's transcript (packages/schema/src/thread-agent.ts) and the routing records of a
-- harness (packages/schema/src/types.ts).
use cueloop.Prelude.{ℕ, Bool, List, Option, String, Text}
use cueloop.Types.Review.{Anchor, OperationReceipt}

pub data AgentRole : Type 0 where
  user agent : AgentRole

pub record AgentMessage : Type 0 where
  pub id : String
  pub role : AgentRole
  pub text : Text
  pub complete : Bool
  pub revision : ℕ
  pub submission_id : Option String

pub data ToolStatus : Type 0 where
  pending in_progress completed failed cancelled : ToolStatus

pub record AgentTool : Type 0 where
  pub id : String
  pub turn_id : String
  pub title : String
  pub kind : String
  pub status : ToolStatus
  pub output : Text
  pub locations : List (String × Option ℕ)

pub record AgentComment : Type 0 where
  pub id : String
  pub message_id : String
  pub anchor : Anchor
  pub body : Text
  pub sent : Bool
  pub reply_to : Option String
  pub author : Option String

pub record PermissionOption : Type 0 where
  pub option_id : String
  pub name : String
  pub kind : String

pub record AgentPermission : Type 0 where
  pub id : String
  pub title : String
  pub options : List PermissionOption

pub data AgentPhase : Type 0 where
  idle running offline : AgentPhase
  permission : AgentPermission → AgentPhase
  failed : String → AgentPhase

pub data SubmissionStatus : Type 0 where
  queued running completed failed : SubmissionStatus

pub record AgentSubmission : Type 0 where
  pub id : String
  pub comment_id : Option String
  pub message_id : Option String
  pub prompt : Text
  pub harness_prompt : Option Text
  pub attempt_id : Option String
  pub quote : Option Text
  pub context : Option Text
  pub status : SubmissionStatus
  pub cancelled : Option Bool

pub record AgentConfigOption : Type 0 where
  pub id : String
  pub name : String
  pub category : Option String
  pub current_value : String
  pub options : List (String × String)

pub data PromptOutcome : Type 0 where
  completed failed cancelled : PromptOutcome

pub record PromptOperation : Type 0 where
  pub receipt : OperationReceipt (List String)
  pub outcome : Option PromptOutcome

pub record HarnessRef : Type 0 where
  pub id : String
  pub label : String
  pub session_id : Option String

pub data HandoffStatus : Type 0 where
  queued summarizing : HandoffStatus
  prepared : Text → HandoffStatus

pub record Handoff : Type 0 where
  pub target : String
  pub requested_target : Option String
  pub operation_id : String
  pub prompt : Option Text
  pub source : Option HarnessRef
  pub status : HandoffStatus

pub record ThreadAgentState : Type 0 where
  pub thread_id : String
  pub harness : Option HarnessRef
  pub phase : AgentPhase
  pub messages : List AgentMessage
  pub tools : List AgentTool
  pub comments : List AgentComment
  pub submissions : Option (List AgentSubmission)
  pub prompt_operations : Option (List PromptOperation)
  pub config_options : Option (List AgentConfigOption)
  pub handoff : Option Handoff
  pub continuation : Option Text

pub record HarnessBinding : Type 0 where
  pub id : String
  pub thread_id : String
  pub harness : String
  pub harness_session_id : String
  pub created_at : String
  pub approved_retry_message_id : Option String

pub data DeliveryStatus : Type 0 where
  pending acknowledged : DeliveryStatus

pub record Delivery : Type 0 where
  pub id : String
  pub message_id : String
  pub binding_id : String
  pub status : DeliveryStatus
  pub created_at : String
  pub acknowledged_at : Option String
