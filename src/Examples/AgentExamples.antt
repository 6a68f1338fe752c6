-- ===== src/Examples/AgentExamples.antt =====
-- A turn, a submission and an operation with its receipt (packages/daemon/src/agent-turn.ts,
-- packages/schema/src/agent-submission.ts, packages/daemon/src/operation-receipts.ts).
use cueloop.Prelude.{
  ◌≤◌, ◌≡◌, ◌⊎◌, refl, Bool, true, false, List, [], ◌∷◌, none, some, String, string_dec, any,
  length,
}
use cueloop.Types.{ThreadAgentState, AgentSubmission, SubmissionStatus, PromptOperation, AgentPhase}
use cueloop.Agents.Turn.{
  AgentTurn, AgentTurnEvent, step_agent_turn, agent_turn_cancelled, is_idle, states,
  run-agent_turn_cancelled,
}
use cueloop.Agents.Submission.{
  AgentSubmissionEvent, submit, start, complete, fail, retry, step_agent_submission,
}
use cueloop.Agents.Turn
use cueloop.Agents.Receipts.{
  Field, ok, err, operation_conflict, AgentPromptRequest, operations_of, settle_operation,
  settle_prompt_operations, find_operation_receipt, find_prompt_operation_receipt,
  prompt_operation_fingerprint, record_prompt_operation, accepted_by, with_operation, new_operation,
}
use cueloop.Agents.Replay.{
  Change, after_changes, Keeps, find_prompt_operation_receipt-after_changes,
}
use cueloop.Agents.Acceptance.{record_prompt_operation-find}

program : Unit {0}
unfolding string_dec step_agent_turn agent_turn_cancelled step_agent_submission settle_operation
    settle_prompt_operations find_operation_receipt find_prompt_operation_receipt
    prompt_operation_fingerprint record_prompt_operation accepted_by
program = tt

run-agent_turn_cancelled_example :
    (agent_turn_cancelled (
        Turn.run
          (step_agent_turn (AgentTurn.starting false) AgentTurnEvent.stop)
          (AgentTurnEvent.start ∷ AgentTurnEvent.ready ∷ []))
      ≡ true)
    ⊎ (any is_idle (
          states
            (step_agent_turn (AgentTurn.starting false) AgentTurnEvent.stop)
            (AgentTurnEvent.start ∷ AgentTurnEvent.ready ∷ []))
        ≡ true)
unfolding program
run-agent_turn_cancelled_example =
    run-agent_turn_cancelled (AgentTurn.starting false)
      (AgentTurnEvent.start ∷ AgentTurnEvent.ready ∷ []) refl

abbrev life : List (AgentSubmissionEvent × Bool)
life =
    (submit, false)
    ∷ (submit, true)
    ∷ (start, false)
    ∷ (fail, false)
    ∷ (retry, false)
    ∷ (start, false)
    ∷ (complete, false)
    ∷ []

-- A digest that tells texts apart by their length.
abbrev digest : List Field → String
digest (Field.text (a ∷ _) ∷ _) = "long"
digest _ = "short"

abbrev submission : AgentSubmission
submission = record {
  id = "s1";
  comment_id = none;
  message_id = none;
  prompt = 1 ∷ [];
  harness_prompt = none;
  attempt_id = none;
  quote = none;
  context = none;
  status = SubmissionStatus.completed;
  cancelled = none;
}

abbrev before : ThreadAgentState
before = record {
  thread_id = "t1";
  harness = none;
  phase = AgentPhase.idle;
  messages = [];
  tools = [];
  comments = [];
  submissions = none;
  prompt_operations = none;
  config_options = none;
  handoff = none;
  continuation = none;
}

abbrev state : ThreadAgentState
state = record before { submissions = some (submission ∷ []) }

abbrev request : AgentPromptRequest
request = record {
  id = "t1";
  text = 1 ∷ [];
  context = none;
  retry = none;
  operation_id = some "o1";
  comment_id = none;
  input_only = none;
  discussion = none;
}

abbrev changed : AgentPromptRequest
changed = record request { text = [] }

abbrev operation : PromptOperation
operation = new_operation "o1" "long" ("s1" ∷ [])

abbrev accepted : ThreadAgentState
accepted = with_operation state operation

record_prompt_operation-find_example :
    (find_prompt_operation_receipt digest accepted request ≡ ok (some operation))
    × (find_prompt_operation_receipt digest accepted changed ≡ err operation_conflict)
    × (length (operations_of accepted) ≤ 128)
unfolding program
record_prompt_operation-find_example =
    record_prompt_operation-find digest state before accepted "o1" request changed refl refl
      (λ q. cc) refl refl

find_prompt_operation_receipt-after_changes_example :
    (b : PromptOperation) × (find_prompt_operation_receipt digest
        (after_changes digest accepted (Change.settled ∷ []))
        request
      ≡ ok (some b))
    × Keeps operation b
unfolding program
find_prompt_operation_receipt-after_changes_example =
    find_prompt_operation_receipt-after_changes digest accepted (Change.settled ∷ []) request refl
