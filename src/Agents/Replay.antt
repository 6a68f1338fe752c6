-- ===== src/Agents/Replay.antt =====
-- A duplicate of an operation returns its first acceptance
-- (packages/daemon/src/operation-receipts.ts).
use cueloop.Prelude.{
  ◌≡◌, refl, subst, ◌∙◌, true, false, List, [], ◌∷◌, ◌++◌, map, Option, none, some, String, ◌==◌,
  string_eq, find, Bool-cases, Option-cases, inl, inr, ◌⊎◌, arith,
}
use cueloop.Types.{ThreadAgentState, AgentSubmission, PromptOperation, PromptOutcome}
use cueloop.Agents.Receipts.{
  Field, Result, ok, err, AgentPromptRequest, given, submissions_of, operations_of,
  settle_operation, settle_prompt_operations, find_operation_receipt, find_prompt_operation_receipt,
  prompt_operation_fingerprint, record_prompt_operation, accepted_by, with_operation, new_operation,
}

-- The operation is the same acceptance, and an outcome that it has is still its outcome.
pub record Keeps (a b : PromptOperation) : Type 0 where
  pub receipt : a.receipt ≡ b.receipt
  pub outcome : (o : PromptOutcome) → a.outcome ≡ some o → b.outcome ≡ some o

Keeps-same : (a : PromptOperation) → Keeps a a
Keeps-same a = record { receipt = refl; outcome = λ o h. h }

Keeps-more : {a b c : PromptOperation} → Keeps a b → Keeps b c → Keeps a c
Keeps-more h k = record {
  receipt = h.receipt ∙ k.receipt;
  outcome = λ o q. k.outcome o (h.outcome o q);
}

settle-Keeps :
    (submissions : List AgentSubmission) (a : PromptOperation)
    → Keeps a (settle_operation submissions a)
unfolding settle_operation
settle-Keeps submissions a = record { receipt = same; outcome = λ o h. settled_before o h }
  where
    same : a.receipt ≡ (settle_operation submissions a).receipt
    same = ground arith

    settled_before :
        (o : PromptOutcome) → a.outcome ≡ some o → (settle_operation submissions a).outcome ≡ some o
    settled_before o h = ground arith

-- The operations of the first list stand at the head of the second.
abbrev pub Grown : List PromptOperation → List PromptOperation → Type 0
Grown [] ys = Unit
Grown (a ∷ xs) [] = ⊥
Grown (a ∷ xs) (b ∷ ys) = Keeps a b × Grown xs ys

Grown-same : (xs : List PromptOperation) → Grown xs xs
Grown-same [] = tt
Grown-same (a ∷ xs) = (Keeps-same a, Grown-same xs)

Grown-more : (xs ys cs : List PromptOperation) → Grown xs ys → Grown ys cs → Grown xs cs
Grown-more [] ys cs h k = tt
Grown-more (a ∷ xs) [] cs h k = absurd h
Grown-more (a ∷ xs) (b ∷ ys) [] h k = absurd k
Grown-more (a ∷ xs) (b ∷ ys) (c ∷ cs) h k = (Keeps-more h.0 k.0, Grown-more xs ys cs h.1 k.1)

Grown-append : (xs : List PromptOperation) (x : PromptOperation) → Grown xs (xs ++ x ∷ [])
Grown-append [] x = tt
Grown-append (a ∷ xs) x = (Keeps-same a, Grown-append xs x)

Grown-settled :
    (submissions : List AgentSubmission) (xs : List PromptOperation)
    → Grown xs (map (settle_operation submissions) xs)
Grown-settled submissions [] = tt
Grown-settled submissions (a ∷ xs) = (settle-Keeps submissions a, Grown-settled submissions xs)

find-Grown :
    (id : String) (xs ys : List PromptOperation) {a : PromptOperation}
    → Grown xs ys
    → find (λ e. e.receipt.operation_id == id) xs ≡ some a
    → (b : PromptOperation) × (find (λ e. e.receipt.operation_id == id) ys ≡ some b) × Keeps a b
find-Grown id [] ys g h = cc
find-Grown id (x ∷ xs) [] {a} g h = absurd g
find-Grown id (x ∷ xs) (y ∷ ys) {a} (k, g) h = elim (Bool-cases (x.receipt.operation_id == id)) [
  | inl t ↦
      let same : x ≡ a = ground arith in
      let there : (y.receipt.operation_id == id) ≡ true = ground (arith, k.receipt) in
      (y, ground arith, subst (λ (z : PromptOperation). Keeps z y) same k)
  | inr f ↦
      let there : (y.receipt.operation_id == id) ≡ false = ground (arith, k.receipt) in
      let (b, q, r) = find-Grown id xs ys {a = a} g (ground arith) in (b, ground arith, r)
]

-- Three things that happen to the state of an agent between two requests: another operation is
-- recorded, the operations are settled, or the submissions move on. The restoring of a state after
-- a failed write is not among them.
pub data Change : Type 0 where
  recorded : ThreadAgentState → AgentPromptRequest → Change
  settled : Change
  progressed : Option (List AgentSubmission) → Change

module _ (digest : List Field → String) where
  abbrev pub after_change : ThreadAgentState → Change → ThreadAgentState
  after_change state (recorded before input) =
      elim (record_prompt_operation digest state before input) [ ok next ↦ next | err _ ↦ state ]
  after_change state settled = settle_prompt_operations state
  after_change state (progressed submissions) = record state { submissions = submissions }

  abbrev pub after_changes : ThreadAgentState → List Change → ThreadAgentState
  after_changes state [] = state
  after_changes state (c ∷ cs) = after_changes (after_change state c) cs

  -- A successful call leaves the state alone, without an operation id, or adds one operation.
  pub record_cases :
      (state before next : ThreadAgentState) (input : AgentPromptRequest)
      → record_prompt_operation digest state before input ≡ ok next
      → ((given input.operation_id ≡ none) × (state ≡ next))
        ⊎ ((id : String) × (given input.operation_id ≡ some id)
            × (with_operation state (
                  new_operation id
                    (prompt_operation_fingerprint digest input)
                    (accepted_by digest state before input))
                ≡ next))
  unfolding record_prompt_operation
  record_cases state before next input h = elim (Option-cases (given input.operation_id)) [
    | inl n ↦ inl (n, ground arith)
    | inr (id, g) ↦ inr (id, g, ground arith)
  ]

  recorded-Grown :
      (state before next : ThreadAgentState) (input : AgentPromptRequest)
      → record_prompt_operation digest state before input ≡ ok next
      → Grown (operations_of state) (operations_of next)
  recorded-Grown state before next input h = elim (record_cases state before next input h) [
    | inl (_, same) ↦
        subst (λ (s : ThreadAgentState). Grown (operations_of state) (operations_of s)) same
          (Grown-same (operations_of state))
    | inr (id, _, same) ↦
        subst (λ (s : ThreadAgentState). Grown (operations_of state) (operations_of s)) same
          (Grown-append (operations_of state) _)
  ]

  change-Grown :
      (state : ThreadAgentState) (c : Change)
      → Grown (operations_of state) (operations_of (after_change state c))
  unfolding settle_prompt_operations
  change-Grown state (recorded before input) =
      settle (record_prompt_operation digest state before input) refl
    where
      settle :
          (r : Result ThreadAgentState)
          → record_prompt_operation digest state before input ≡ r
          → Grown (operations_of state) (operations_of (elim r [ ok next ↦ next | err _ ↦ state ]))
      settle (ok next) e = recorded-Grown state before next input e
      settle (err x) e = Grown-same (operations_of state)
  change-Grown state settled = elim (Option-cases state.prompt_operations) [
    | inl n ↦ rw n tt
    | inr (os, e) ↦ rw e (Grown-settled (submissions_of state) os)
  ]
  change-Grown state (progressed submissions) = Grown-same (operations_of state)

  changes-Grown :
      (state : ThreadAgentState) (cs : List Change)
      → Grown (operations_of state) (operations_of (after_changes state cs))
  changes-Grown state [] = Grown-same (operations_of state)
  changes-Grown state (c ∷ cs) =
      Grown-more (operations_of state) _ _ (change-Grown state c)
        (changes-Grown (after_change state c) cs)

  found_in :
      (state : ThreadAgentState) (id : String) (input : AgentPromptRequest) {a : PromptOperation}
      → given input.operation_id ≡ some id
      → find_prompt_operation_receipt digest state input ≡ ok (some a)
      → (find (λ e. e.receipt.operation_id == id) (operations_of state) ≡ some a)
        × (a.receipt.fingerprint ≡ prompt_operation_fingerprint digest input)
  unfolding find_prompt_operation_receipt find_operation_receipt
  found_in state id input {a} g h =
      elim (Option-cases (find (λ e. e.receipt.operation_id == id) (operations_of state))) [
        | inl n ↦ absurd (ground arith)
        | inr (x, f) ↦ ground arith
      ]

  -- Whatever further operations are recorded, settlings are made and submissions move on, in any
  -- order, a request that has found its receipt finds the same acceptance again, and an outcome
  -- once settled stays.
  pub find_prompt_operation_receipt-after_changes :
      (state : ThreadAgentState) (cs : List Change) (input : AgentPromptRequest)
      {a : PromptOperation}
      → find_prompt_operation_receipt digest state input ≡ ok (some a)
      → (b : PromptOperation) × (find_prompt_operation_receipt digest (after_changes state cs) input
          ≡ ok (some b))
        × Keeps a b
  unfolding find_prompt_operation_receipt find_operation_receipt
  find_prompt_operation_receipt-after_changes state cs input {a} h =
      elim (Option-cases (given input.operation_id)) [
        | inl n ↦ absurd (ground arith)
        | inr (id, g) ↦
            let (f, p) = found_in state id input g h in
            let (b, q, k) =
              find-Grown id (operations_of state) (operations_of (after_changes state cs)) {a = a}
                (changes-Grown state cs) f in
            (b, ground (arith, k.receipt), k)
      ]
