-- ===== src/Agents/Acceptance.antt =====
-- What a recorded operation answers to later requests
-- (packages/daemon/src/operation-receipts.ts).
use cueloop.Prelude.{
  ◌≤◌, ◌<◌, ◌≡◌, ◌≢◌, refl, subst, true, List, [], ◌∷◌, ◌++◌, map, none, some, String, ◌==◌,
  string_eq, find, length, length-append, leb, Bool-cases, Option-cases, inl, inr, arith,
}
use cueloop.Types.{ThreadAgentState, AgentSubmission, PromptOperation}
use cueloop.Agents.Receipts.{
  Field, ok, err, operation_conflict, AgentPromptRequest, given, submissions_of, operations_of,
  settle_operation, settle_prompt_operations, find_operation_receipt, find_prompt_operation_receipt,
  prompt_operation_fingerprint, record_prompt_operation, accepted_by, new_operation,
}
use cueloop.Agents.Replay.{record_cases}

find_last :
    (id : String) (xs : List PromptOperation) (x : PromptOperation)
    → find (λ e. e.receipt.operation_id == id) xs ≡ none
    → (x.receipt.operation_id == id) ≡ true
    → find (λ e. e.receipt.operation_id == id) (xs ++ x ∷ []) ≡ some x
find_last id [] x h k = ground arith
find_last id (y ∷ ys) x h k = ground (arith, find_last id ys x)

module _ (digest : List Field → String) where
  not_found :
      (state : ThreadAgentState) (id : String) (input : AgentPromptRequest)
      → given input.operation_id ≡ some id
      → find_prompt_operation_receipt digest state input ≡ ok none
      → (find (λ e. e.receipt.operation_id == id) (operations_of state) ≡ none)
        × (length (operations_of state) < 128)
  unfolding find_prompt_operation_receipt find_operation_receipt
  not_found state id input g h =
      elim (Option-cases (find (λ e. e.receipt.operation_id == id) (operations_of state))) [
        | inl n ↦ elim (Bool-cases (leb 128 (length (operations_of state)))) [
          | inl t ↦ absurd (ground arith)
          | inr f ↦ (n, ground arith)
        ]
        | inr (x, f) ↦ absurd (ground arith)
      ]

  -- An operation with an id that is recorded after no receipt was found for it answers its request
  -- with the submissions that it accepted, refuses a request that reuses its id for a payload with
  -- another digest, and leaves at most 128 receipts.
  pub record_prompt_operation-find :
      (state before next : ThreadAgentState) (id : String) (input other : AgentPromptRequest)
      → given input.operation_id ≡ some id
      → other.operation_id ≡ input.operation_id
      → prompt_operation_fingerprint digest other ≢ prompt_operation_fingerprint digest input
      → find_prompt_operation_receipt digest state input ≡ ok none
      → record_prompt_operation digest state before input ≡ ok next
      → (find_prompt_operation_receipt digest next input
          ≡ ok (
              some (
                new_operation id
                  (prompt_operation_fingerprint digest input)
                  (accepted_by digest state before input))))
        × (find_prompt_operation_receipt digest next other ≡ err operation_conflict)
        × (length (operations_of next) ≤ 128)
  unfolding find_prompt_operation_receipt find_operation_receipt
  record_prompt_operation-find state before next id input other g same_id differs h k =
      elim (record_cases digest state before next input k) [
        | inl (n, _) ↦ absurd (cc)
        | inr (i, p, same) ↦
            let (f, few) = not_found state id input g h in
            let operation =
              new_operation i (prompt_operation_fingerprint digest input)
                (accepted_by digest state before input) in
            let ids : i ≡ id = ground arith in
            let last = find_last id (operations_of state) operation f (ground arith) in
            let number = length-append (operations_of state) (operation ∷ []) in
            (
              subst
                  (λ (s : ThreadAgentState).
                    find_prompt_operation_receipt digest s input
                    ≡ ok (
                        some (
                          new_operation id (prompt_operation_fingerprint digest input)
                            (accepted_by digest state before input))))
                  same (ground arith),
              subst
                  (λ (s : ThreadAgentState).
                    find_prompt_operation_receipt digest s other ≡ err operation_conflict)
                  same (ground (arith, differs)),
              subst (λ (s : ThreadAgentState). length (operations_of s) ≤ 128) same
                  (omega (arith, few, number)),
            )
      ]

twice_settled :
    (submissions : List AgentSubmission) (a : PromptOperation)
    → settle_operation submissions (settle_operation submissions a) ≡ settle_operation submissions a
unfolding settle_operation
twice_settled submissions a = ground arith

map_settled :
    (submissions : List AgentSubmission) (xs : List PromptOperation)
    → map (settle_operation submissions) (map (settle_operation submissions) xs)
      ≡ map (settle_operation submissions) xs
map_settled submissions [] = refl
map_settled submissions (a ∷ xs) = rw (twice_settled submissions a, map_settled submissions xs)

-- To settle the operations a second time changes nothing.
pub settle_prompt_operations_twice :
    (state : ThreadAgentState)
    → settle_prompt_operations (settle_prompt_operations state) ≡ settle_prompt_operations state
unfolding settle_prompt_operations
settle_prompt_operations_twice state = elim (Option-cases state.prompt_operations) [
  | inl n ↦ rw n
  | inr (os, e) ↦ rw (e, map_settled (submissions_of state) os)
]
