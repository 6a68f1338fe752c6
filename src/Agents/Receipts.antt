-- ===== src/Agents/Receipts.antt =====
-- packages/daemon/src/operation-receipts.ts. The digest of a payload, SHA-256 of its JSON, is an
-- argument.
use cueloop.Prelude.{
  Bool, true, false, not, List, [], ◌∷◌, ◌++◌, map, Option, none, some, String, Text, ◌==◌, ◌!=◌,
  string_eq, if◌then◌else◌, find, filter, any, has, length, leb,
}
use cueloop.Types.{
  ThreadAgentState, AgentSubmission, SubmissionStatus, OperationReceipt, PromptOperation,
  PromptOutcome,
}

pub data ReceiptError : Type 0 where
  operation_conflict operation_capacity invalid_params : ReceiptError

pub data Result {ℓ} (A : Type ℓ) : Type ℓ where
  ok : A → Result A
  err : ReceiptError → Result A

-- A field of a payload; a `text` or a `name` is a string.
pub data Field : Type 0 where
  null : Field
  text : Text → Field
  name : String → Field
  pairs : List (String × Text) → Field

pub record AgentPromptRequest : Type 0 where
  pub id : String
  pub text : Text
  pub context : Option Text
  pub retry : Option String
  pub operation_id : Option String
  pub comment_id : Option String
  pub input_only : Option Bool
  pub discussion : Option String

-- An optional id that is absent or empty is false.
abbrev pub given : Option String → Option String
given none = none
given (some id) = if id == "" then none else some id

-- `receipts?.` and `?? []`
abbrev pub listed {ℓ} : {A : Type ℓ} → Option (List A) → List A
listed none = []
listed (some xs) = xs

module _ {A R : Type 0} (receipt_of : R → OperationReceipt A) where
  unfoldable pub find_operation_receipt :
      Option (List R) → Option String → String → Result (Option R)
  find_operation_receipt receipts operation fingerprint = elim (given operation) [
    | none ↦ ok none
    | some id ↦ elim (find (λ entry. (receipt_of entry).operation_id == id) (listed receipts)) [
      | some receipt ↦
          if (receipt_of receipt).fingerprint != fingerprint
          then err operation_conflict
          else ok (some receipt)
      | none ↦ if leb 128 (length (listed receipts)) then err operation_capacity else ok none
    ]
  ]

abbrev pub submissions_of : ThreadAgentState → List AgentSubmission
submissions_of state = listed state.submissions

abbrev pub operations_of : ThreadAgentState → List PromptOperation
operations_of state = listed state.prompt_operations

abbrev pub receipt_of : PromptOperation → OperationReceipt (List String)
receipt_of operation = operation.receipt

abbrev pub is_unsettled : Option AgentSubmission → Bool
is_unsettled none = true
is_unsettled (some entry) = elim entry.status [
  | SubmissionStatus.queued ↦ true
  | SubmissionStatus.running ↦ true
  | SubmissionStatus.completed ↦ false
  | SubmissionStatus.failed ↦ false
]

abbrev pub is_cancelled : Option AgentSubmission → Bool
is_cancelled none = false
is_cancelled (some entry) = elim entry.cancelled [ none ↦ false | some b ↦ b ]

abbrev pub is_failed : Option AgentSubmission → Bool
is_failed none = false
is_failed (some entry) = elim entry.status [ SubmissionStatus.failed ↦ true | _ ↦ false ]

-- One round of the loop of `settlePromptOperations`.
unfoldable pub settle_operation : List AgentSubmission → PromptOperation → PromptOperation
settle_operation submissions operation = elim operation.outcome [
  | some _ ↦ operation
  | none ↦ elim operation.receipt.result [
    | [] ↦ operation
    | id ∷ ids ↦
        let entries = map (λ i. find (λ entry. entry.id == i) submissions) (id ∷ ids) in
        if any is_unsettled entries then operation else record operation {
          outcome = some (
              if any is_cancelled entries
              then PromptOutcome.cancelled
              else if any is_failed entries
              then PromptOutcome.failed
              else PromptOutcome.completed);
        }
  ]
]

unfoldable pub settle_prompt_operations : ThreadAgentState → ThreadAgentState
unfolding settle_operation
settle_prompt_operations state = record state {
  prompt_operations = elim state.prompt_operations [
    | none ↦ none
    | some operations ↦ some (map (settle_operation (submissions_of state)) operations)
  ];
}

abbrev pub field : Option Text → Field
field none = Field.null
field (some t) = Field.text t

abbrev pub id_field : Option String → Field
id_field none = Field.null
id_field (some id) = Field.name id

abbrev pub input_field : Option Bool → Field
input_field (some true) = Field.name "input"
input_field (some false) = Field.null
input_field none = Field.null

abbrev pub new_operation : String → String → List String → PromptOperation
new_operation id fingerprint accepted = record {
  receipt = record { operation_id = id; fingerprint = fingerprint; result = accepted };
  outcome = none;
}

-- `(state.promptOperations ??= []).push(operation)`
abbrev pub with_operation : ThreadAgentState → PromptOperation → ThreadAgentState
with_operation state operation = record state {
  prompt_operations = some (operations_of state ++ operation ∷ []);
}

module _ (digest : List Field → String) where
  unfoldable pub prompt_operation_fingerprint : AgentPromptRequest → String
  prompt_operation_fingerprint input = digest (
      Field.text input.text
      ∷ field input.context
      ∷ id_field input.retry
      ∷ id_field input.comment_id
      ∷ input_field input.input_only
      ∷ id_field input.discussion
      ∷ [])

  unfoldable pub find_prompt_operation_receipt :
      ThreadAgentState → AgentPromptRequest → Result (Option PromptOperation)
  unfolding prompt_operation_fingerprint
  find_prompt_operation_receipt state input =
      find_operation_receipt receipt_of state.prompt_operations input.operation_id
        (prompt_operation_fingerprint input)

  -- The submissions that the operation accepted.
  unfoldable pub accepted_by :
      ThreadAgentState → ThreadAgentState → AgentPromptRequest → List String
  accepted_by state before input = elim (given input.retry) [
    | some id ↦ id ∷ []
    | none ↦
        map (λ entry. entry.id)
          (filter (λ entry. not (has (map (λ e. e.id) (submissions_of before)) entry.id))
            (submissions_of state))
  ]

  unfoldable pub record_prompt_operation :
      ThreadAgentState → ThreadAgentState → AgentPromptRequest → Result ThreadAgentState
  unfolding prompt_operation_fingerprint accepted_by
  record_prompt_operation state before input = elim (given input.operation_id) [
    | none ↦ ok state
    | some id ↦ elim (accepted_by state before input) [
      | [] ↦ err invalid_params
      | first ∷ others ↦ ok (
          with_operation state
            (new_operation id (prompt_operation_fingerprint input) (first ∷ others)))
    ]
  ]
