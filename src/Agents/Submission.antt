-- ===== src/Agents/Submission.antt =====
-- `stepAgentSubmission` of packages/schema/src/agent-submission.ts.
use cueloop.Prelude.{◌≡◌, refl, Bool, true, false, List, [], ◌∷◌}

pub data AgentSubmissionStatus : Type 0 where
  draft queued running completed failed : AgentSubmissionStatus

pub data AgentSubmissionEvent : Type 0 where
  submit start complete fail retry edit : AgentSubmissionEvent

unfoldable pub step_agent_submission :
    AgentSubmissionStatus → AgentSubmissionEvent → Bool → AgentSubmissionStatus
step_agent_submission draft submit true = queued
step_agent_submission queued start _ = running
step_agent_submission running complete _ = completed
step_agent_submission running fail _ = failed
step_agent_submission failed retry _ = queued
step_agent_submission status _ _ = status

-- Events, each with whether there is an input.
abbrev pub run : AgentSubmissionStatus → List (AgentSubmissionEvent × Bool) → AgentSubmissionStatus
run status [] = status
run status ((e, has_input) ∷ es) = run (step_agent_submission status e has_input) es

-- The events stand in the run in this order, with others between them.
pub data Subsequence : List AgentSubmissionEvent → List (AgentSubmissionEvent × Bool) → Type 0 where
  done : {es : List (AgentSubmissionEvent × Bool)} → Subsequence [] es
  take :
      {e : AgentSubmissionEvent} {b : Bool} {xs : List AgentSubmissionEvent}
      {es : List (AgentSubmissionEvent × Bool)}
      → Subsequence xs es
      → Subsequence (e ∷ xs) ((e, b) ∷ es)
  skip :
      {p : AgentSubmissionEvent × Bool} {xs : List AgentSubmissionEvent}
      {es : List (AgentSubmissionEvent × Bool)}
      → Subsequence xs es
      → Subsequence xs (p ∷ es)

-- The shortest way to completion.
abbrev pub way : AgentSubmissionStatus → List AgentSubmissionEvent
way draft = submit ∷ start ∷ complete ∷ []
way queued = start ∷ complete ∷ []
way running = complete ∷ []
way failed = retry ∷ start ∷ complete ∷ []
way completed = []

weaken :
    {e : AgentSubmissionEvent} {xs : List AgentSubmissionEvent}
    {es : List (AgentSubmissionEvent × Bool)}
    → Subsequence (e ∷ xs) es
    → Subsequence xs es
weaken (Subsequence.take s) = Subsequence.skip s
weaken (Subsequence.skip s) = Subsequence.skip (weaken s)

way_step :
    (s : AgentSubmissionStatus) (e : AgentSubmissionEvent) (b : Bool)
    {es : List (AgentSubmissionEvent × Bool)}
    → Subsequence (way (step_agent_submission s e b)) es
    → Subsequence (way s) ((e, b) ∷ es)
unfolding step_agent_submission
way_step draft submit true h = Subsequence.take h
way_step draft submit false h = Subsequence.skip h
way_step draft start b h = Subsequence.skip h
way_step draft complete b h = Subsequence.skip h
way_step draft fail b h = Subsequence.skip h
way_step draft retry b h = Subsequence.skip h
way_step draft edit b h = Subsequence.skip h
way_step queued submit b h = Subsequence.skip h
way_step queued start b h = Subsequence.take h
way_step queued complete b h = Subsequence.skip h
way_step queued fail b h = Subsequence.skip h
way_step queued retry b h = Subsequence.skip h
way_step queued edit b h = Subsequence.skip h
way_step running submit b h = Subsequence.skip h
way_step running start b h = Subsequence.skip h
way_step running complete b h = Subsequence.take Subsequence.done
way_step running fail b h = Subsequence.skip (weaken (weaken h))
way_step running retry b h = Subsequence.skip h
way_step running edit b h = Subsequence.skip h
way_step failed submit b h = Subsequence.skip h
way_step failed start b h = Subsequence.skip h
way_step failed complete b h = Subsequence.skip h
way_step failed fail b h = Subsequence.skip h
way_step failed retry b h = Subsequence.take h
way_step failed edit b h = Subsequence.skip h
way_step completed e b h = Subsequence.done

run_completed :
    (s : AgentSubmissionStatus) (es : List (AgentSubmissionEvent × Bool))
    → run s es ≡ completed
    → Subsequence (way s) es
run_completed s ((e, b) ∷ es) h = way_step s e b (run_completed (step_agent_submission s e b) es h)
run_completed completed [] h = Subsequence.done
run_completed draft [] h = cc
run_completed queued [] h = cc
run_completed running [] h = cc
run_completed failed [] h = cc

-- A draft that ends completed has been submitted, started and completed, in this order, and
-- whatever events follow, it stays completed.
pub run-completed :
    (es later : List (AgentSubmissionEvent × Bool))
    → run draft es ≡ completed
    → Subsequence (submit ∷ start ∷ complete ∷ []) es × (run completed later ≡ completed)
unfolding step_agent_submission
run-completed es later h = (run_completed draft es h, stays later)
  where
    stays : (later : List (AgentSubmissionEvent × Bool)) → run completed later ≡ completed
    stays [] = refl
    stays ((e, b) ∷ es) = stays es
