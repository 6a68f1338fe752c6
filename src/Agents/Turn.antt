-- ===== src/Agents/Turn.antt =====
-- `stepAgentTurn` and `agentTurnCancelled` of packages/daemon/src/agent-turn.ts.
use cueloop.Prelude.{
  ◌≡◌, refl, Bool, true, false, ◌||◌, List, [], ◌∷◌, any, ◌⊎◌, inl, inr, Bool-cases, arith,
}

pub data AgentTurn : Type 0 where
  idle running stopping : AgentTurn
  starting : Bool → AgentTurn

pub data AgentTurnEvent : Type 0 where
  start ready stop finished : AgentTurnEvent

unfoldable pub step_agent_turn : AgentTurn → AgentTurnEvent → AgentTurn
step_agent_turn idle start = starting false
step_agent_turn running start = running
step_agent_turn stopping start = stopping
step_agent_turn (starting cancelled) start = starting cancelled
step_agent_turn (starting true) ready = idle
step_agent_turn (starting false) ready = running
step_agent_turn idle ready = idle
step_agent_turn running ready = running
step_agent_turn stopping ready = stopping
step_agent_turn (starting _) stop = starting true
step_agent_turn running stop = stopping
step_agent_turn idle stop = idle
step_agent_turn stopping stop = stopping
step_agent_turn _ finished = idle

unfoldable pub agent_turn_cancelled : AgentTurn → Bool
agent_turn_cancelled stopping = true
agent_turn_cancelled (starting cancelled) = cancelled
agent_turn_cancelled idle = false
agent_turn_cancelled running = false

abbrev pub is_idle : AgentTurn → Bool
is_idle idle = true
is_idle running = false
is_idle stopping = false
is_idle (starting _) = false

abbrev pub run : AgentTurn → List AgentTurnEvent → AgentTurn
run turn [] = turn
run turn (e ∷ es) = run (step_agent_turn turn e) es

-- The states that a run passes, its last one included.
abbrev pub states : AgentTurn → List AgentTurnEvent → List AgentTurn
states turn [] = []
states turn (e ∷ es) = step_agent_turn turn e ∷ states (step_agent_turn turn e) es

cancelled_step :
    (turn : AgentTurn) (e : AgentTurnEvent)
    → agent_turn_cancelled turn ≡ true
    → (agent_turn_cancelled (step_agent_turn turn e) || is_idle (step_agent_turn turn e)) ≡ true
unfolding step_agent_turn agent_turn_cancelled
cancelled_step idle e h = cc
cancelled_step running e h = cc
cancelled_step stopping start h = refl
cancelled_step stopping ready h = refl
cancelled_step stopping stop h = refl
cancelled_step stopping finished h = refl
cancelled_step (starting false) e h = cc
cancelled_step (starting true) start h = refl
cancelled_step (starting true) ready h = refl
cancelled_step (starting true) stop h = refl
cancelled_step (starting true) finished h = refl

run_cancelled :
    (turn : AgentTurn) (es : List AgentTurnEvent)
    → agent_turn_cancelled turn ≡ true
    → (agent_turn_cancelled (run turn es) ≡ true) ⊎ (any is_idle (states turn es) ≡ true)
run_cancelled turn [] h = inl h
run_cancelled turn (e ∷ es) h = elim (Bool-cases (is_idle (step_agent_turn turn e))) [
  | inl i ↦ inr (ground arith)
  | inr n ↦
      elim (run_cancelled (step_agent_turn turn e) es (ground (arith, cancelled_step turn e h))) [
        | inl c ↦ inl c
        | inr i ↦ inr (ground arith)
      ]
]

stop_cancels :
    (turn : AgentTurn)
    → is_idle turn ≡ false
    → agent_turn_cancelled (step_agent_turn turn stop) ≡ true
unfolding step_agent_turn agent_turn_cancelled
stop_cancels idle h = cc
stop_cancels running h = refl
stop_cancels stopping h = refl
stop_cancels (starting c) h = refl

-- A turn that is not idle and is asked to stop is cancelled after that, and stays so whatever
-- events follow, until it has been idle.
pub run-agent_turn_cancelled :
    (turn : AgentTurn) (es : List AgentTurnEvent)
    → is_idle turn ≡ false
    → (agent_turn_cancelled (run (step_agent_turn turn stop) es) ≡ true)
      ⊎ (any is_idle (states (step_agent_turn turn stop) es) ≡ true)
run-agent_turn_cancelled turn es h =
    run_cancelled (step_agent_turn turn stop) es (stop_cancels turn h)
