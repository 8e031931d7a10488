-- ===== src/Workflow/Compensation/Halting.antt =====
-- The outcomes of compensateWorkflow: whether its loop ends.
use xlm_pay.Base.{String, List, [], ◌∷◌, arith, Option-cases, inl, inr}
use xlm_pay.Workflow.Monad.Halts.{Halts, continue-Halts}
use xlm_pay.Workflow.Services.{Services}
use xlm_pay.Workflow.Entities.{Workflow, WorkflowStep}
use xlm_pay.Workflow.Compensation.{
  compensate_step, compensate_steps, compensate_found, compensate_workflow, compensation_order,
}
use xlm_pay.Workflow.Compensation.Effect.{entered}

module _ (S : Services) where
  compensate_step-Halts : (s : WorkflowStep) → Halts (compensate_step S s)
  unfolding compensate_step
  compensate_step-Halts s st = ground arith

  compensate_steps-Halts : (ss : List WorkflowStep) → Halts (compensate_steps S ss)
  unfolding compensate_steps
  compensate_steps-Halts [] st = λ p. cc
  compensate_steps-Halts (s ∷ ss) st =
      continue-Halts (λ _. compensate_steps S ss) (compensate_step S s st)
        (compensate_step-Halts s st) (λ _. compensate_steps-Halts ss)

  compensate_found-Halts : (w : Workflow) (ss : List WorkflowStep) → Halts (compensate_found S w ss)
  unfolding compensate_found
  compensate_found-Halts w ss st =
      ground (arith, compensate_steps-Halts (compensation_order ss) (entered S w ss st))

  -- A compensation comes to an end from every state, whatever the database does.
  pub compensate_workflow-Halts : (i : String) → Halts (compensate_workflow S i)
  unfolding compensate_workflow
  compensate_workflow-Halts i st = elim (Option-cases (S.find_workflow i st.db)) [
    | inl e ↦ rw e (λ p. cc)
    | inr (w, e) ↦ rw e (compensate_found-Halts w (S.load_steps i st.db) st)
  ]
