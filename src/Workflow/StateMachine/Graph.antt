-- ===== src/Workflow/StateMachine/Graph.antt =====
-- What the transition tables allow, step by step and along a whole history.
use xlm_pay.Base.{
  ◌≡◌, refl, ◌≢◌, ◌↔◌, ◌⊎◌, inl, inr, true, false, List, [], ◌∷◌, none, some, arith, any,
  Bool-cases,
}
use xlm_pay.Workflow.StateMachine.{
  WorkflowState, StepState, can_transition_workflow, can_transition_step, transition_workflow,
  is_workflow_terminal, can_workflow_compensate, can_step_compensate, is_workflow_state,
}

-- A workflow can be compensated exactly in the states other than RUNNING from which the table
-- lets it start compensating.
pub can_workflow_compensate_iff :
    (s : WorkflowState)
    → (can_workflow_compensate s ≡ true) ↔ (
        (can_transition_workflow s WorkflowState.compensating ≡ true) × (s ≢ WorkflowState.running))
unfolding can_workflow_compensate can_transition_workflow
can_workflow_compensate_iff s = ground arith

-- A step can be compensated exactly where the table lets it start compensating.
pub can_step_compensate-eq :
    (s : StepState) → can_step_compensate s ≡ can_transition_step s StepState.compensating
unfolding can_step_compensate can_transition_step
can_step_compensate-eq s = ground arith

-- A workflow state that is terminal is one from which at most compensation can start.
pub terminal_only_compensates :
    (s t : WorkflowState)
    → is_workflow_terminal s ≡ true
    → transition_workflow s t ≡ none
    → t ≡ WorkflowState.compensating
unfolding is_workflow_terminal transition_workflow
terminal_only_compensates s t h e = ground arith

-- The state after one request for `t`: a refused request changes nothing.
unfoldable pub request : WorkflowState → WorkflowState → WorkflowState
unfolding transition_workflow
request s t = elim (transition_workflow s t) [ none ↦ t | some _ ↦ s ]

-- The state after a list of requests.
unfoldable pub follow : WorkflowState → List WorkflowState → WorkflowState
follow s [] = s
follow s (t ∷ ts) = follow (request s t) ts

-- A compensated workflow stays compensated, whatever is requested.
pub compensated_forever :
    (ts : List WorkflowState) → follow WorkflowState.compensated ts ≡ WorkflowState.compensated
unfolding follow request
compensated_forever [] = refl
compensated_forever (t ∷ ts) = compensated_forever ts

-- A run has begun: the workflow is running, or is completed by a run.
abbrev pub HasRun : WorkflowState → Type 0
HasRun s = (s ≡ WorkflowState.running) ⊎ (s ≡ WorkflowState.completed)

stays :
    (s t : WorkflowState)
    → ¬ HasRun s
    → is_workflow_state WorkflowState.running t ≡ false
    → ¬ HasRun (request s t)
unfolding request
stays s t n e h = ground arith

-- A workflow that starts outside RUNNING and COMPLETED comes to either only if RUNNING is
-- requested on the way.
pub HasRun-requested :
    (s : WorkflowState) (ts : List WorkflowState)
    → ¬ HasRun s
    → HasRun (follow s ts)
    → any (is_workflow_state WorkflowState.running) ts ≡ true
unfolding follow
HasRun-requested s [] n h = absurd (n h)
HasRun-requested s (t ∷ ts) n h = elim (Bool-cases (is_workflow_state WorkflowState.running t)) [
  | inl yes' ↦ rw yes'
  | inr other ↦ rw other (HasRun-requested (request s t) ts (stays s t n other) h)
]
