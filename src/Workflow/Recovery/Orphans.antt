-- ===== src/Workflow/Recovery/Orphans.antt =====
-- What the recovery does to the workflows that a crash left RUNNING.
use Prim.Native.String.{◌++◌}
use xlm_pay.Base.{
  ◌-◌, ◌*◌, ◌≡◌, ◌⊎◌, refl, false, Option, none, some, List, [], ◌∷◌, any, All, ltb, Bool-cases,
  inl, inr,
}
use xlm_pay.Workflow.Entities.{Workflow, WorkflowDefinition}
use xlm_pay.Workflow.Services.{Services}
use xlm_pay.Workflow.Monad.{Error, error, ok, throw, State, Running}
use xlm_pay.Workflow.StateMachine.{WorkflowState, StepState, is_step_state}
use xlm_pay.Workflow.Execution.Engine.{
  Definitions, get_workflow_definition, execute_workflow, run_definition,
}
use xlm_pay.Workflow.Execution.Retry.{refused, refusal}
use xlm_pay.Workflow.Recovery.{
  LoadedWorkflow, recover_workflow, recover_each, resume_index, last_completed_step,
  recover_orphaned_workflows,
}

-- What the query for RUNNING workflows finds, where no step has failed.
abbrev pub Interrupted : LoadedWorkflow → Type 0
Interrupted l =
    (l.workflow.state ≡ WorkflowState.running)
    × (any (λ s. is_step_state s.state StepState.failed) l.steps ≡ false)

module _ (S : Services) (definitions : Definitions S.World) where
  run_refused :
      (w : Workflow) (d : Option (WorkflowDefinition S.World)) (r : Running S)
      → w.state ≡ WorkflowState.running
      → (e : Error) × (run_definition S w d r ≡ (throw e, r))
  unfolding run_definition
  run_refused w none r h = (error ("Workflow definition not found for type: " ++ w.type), refl)
  run_refused w (some d) r h =
      (error ("Cannot start workflow: " ++ refusal), rw (refused w.state h))

  -- Nothing is written, whether the workflow is stale or not.
  recover_workflow_idle :
      (l : LoadedWorkflow) (st : State S)
      → Interrupted l
      → (recover_workflow S definitions l st ≡ (ok tt, st))
        ⊎ ((e : Error) × (recover_workflow S definitions l st ≡ (throw e, st)))
  unfolding recover_workflow execute_workflow
  recover_workflow_idle l st h =
      elim (Bool-cases (ltb (S.now st.world - l.updated_at) (5 * 60 * 1000))) [
        | inl e ↦ inl (rw e)
        | inr e ↦
            let (m, run) =
              run_refused object (get_workflow_definition object.type definitions)
                (record { db = st.db; world = st.world; workflow = object }) h.0 in
            inr (m, rw (e, h.1, run))
      ]
    where
      object : Workflow
      object = record l.workflow {
        current_step_index = resume_index S (last_completed_step l.steps);
      }

  recover_each_idle :
      (ls : List LoadedWorkflow) (st : State S)
      → All Interrupted ls
      → recover_each S definitions ls st ≡ (ok tt, st)
  unfolding recover_each
  recover_each_idle [] st h = refl
  recover_each_idle (l ∷ ls) st h = elim (recover_workflow_idle l st h.0) [
    | inl e ↦ rw e (recover_each_idle ls st h.1)
    | inr (m, e) ↦ rw e (recover_each_idle ls st h.1)
  ]

  -- The recovery of workflows that are RUNNING with no failed step ends without an error and
  -- changes nothing: each restart is refused, since the workflow is already RUNNING, and the
  -- refusal is only logged.
  pub recover_orphaned_workflows_idle :
      (find_running : S.Db → List LoadedWorkflow) (st : State S)
      → All Interrupted (find_running st.db)
      → recover_orphaned_workflows S find_running definitions st ≡ (ok tt, st)
  unfolding recover_orphaned_workflows
  recover_orphaned_workflows_idle find_running st h = recover_each_idle (find_running st.db) st h
