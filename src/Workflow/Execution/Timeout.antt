-- ===== src/Workflow/Execution/Timeout.antt =====
-- What happens to a workflow when one of its steps runs past its timeout.
pub mod Engine
use Prim.Native.String.{String, ◌++◌}
use xlm_pay.Base.{
  ℕ, zero, suc, ◌-◌, ◌≡◌, refl, ◌∙◌, false, Bool-cases, inl, inr, Option, none, some, List, [], ◌∷◌,
  arith, get_elem?,
}
use xlm_pay.Base.Text.{show_nat}
use xlm_pay.Workflow.Entities.{
  Workflow, WorkflowStep, WorkflowContext, Settled, StepInput, StepDefinition, WorkflowDefinition,
}
use xlm_pay.Workflow.Services.{Services, Laws}
use xlm_pay.Workflow.Monad.{
  M, Outcome, ok, throw, Error, workflow_timeout_error, error, Running, try_catch,
}
use xlm_pay.Workflow.StateMachine.{
  WorkflowState, StepState, can_workflow_compensate, transition_step, workflow_state_text,
  transition_workflow,
}
use xlm_pay.Workflow.Compensation.{compensate_workflow}
use xlm_pay.Workflow.Compensation.Effect.{compensate_workflow_refused}
use xlm_pay.Workflow.Execution.Step.{
  raced, execute_step_with_timeout, execute_with_idempotency, perform, on_failure, compensate,
  execute_step_once, execute_step_fuel, execute_step, failed_step, prepare_step_input,
  perform_and_save, save_key, with_key, begun_step, step_context,
}

-- The error that executeStep throws in place of the timeout.
abbrev pub not_compensated : Workflow → Error
not_compensated w = error ("Workflow " ++ (w.id ++ " cannot be compensated in state: running"))

-- The timeout in force for a step: its own, or else that of the workflow.
abbrev pub timeout_of : {W : Type 0} → StepDefinition W → Option ℕ → Option ℕ
timeout_of d t = elim d.timeout [ none ↦ t | some u ↦ some u ]

-- Within so many milliseconds the step's promise never settles.
abbrev pub NeverSettles : {W : Type 0} → StepDefinition W → ℕ → Type 0
NeverSettles {W} d ms =
    (i : StepInput) (c : WorkflowContext) (w : W) → ((d.execute i c).race ms w).0 ≡ none

-- The shared object is RUNNING and stored.
pub record IsRunning {S : Services} (r : Running S) : Type 0 where
  pub stored : S.find_workflow r.workflow.id r.db ≡ some r.workflow
  pub running : r.workflow.state ≡ WorkflowState.running

raced-none :
    (S : Services) (n : String) (ms : ℕ) (p : Option Settled × S.World) (r : Running S)
    → p.0 ≡ none
    → raced S n ms p r ≡ (
      throw (
          workflow_timeout_error
            ("Step " ++ (n ++ (" exceeded timeout of " ++ (show_nat ms ++ "ms"))))),
      record r { world = p.1 },
    )
raced-none S n ms (none, w) r e = refl
raced-none S n ms (some s, w) r e = cc

running_refuses :
    (s : WorkflowState) → s ≡ WorkflowState.running → can_workflow_compensate s ≡ false
unfolding can_workflow_compensate
running_refuses s e = rw e

running_text : (s : WorkflowState) → s ≡ WorkflowState.running → workflow_state_text s ≡ "running"
unfolding workflow_state_text
running_text s e = rw e

module _ (S : Services) (L : Laws S) (d : StepDefinition S.World) (t : Option ℕ) (ms : ℕ)
    (in_force : timeout_of d t ≡ some (suc ms)) (never : NeverSettles d (suc ms)) where
  perform_timeout :
      (w : Workflow) (s : WorkflowStep) (i : StepInput) (r : Running S)
      → (world : S.World) × (perform S w s i (some d) t r ≡ (
        throw (
            workflow_timeout_error (
              "Step "
              ++ (s.step_name ++ (" exceeded timeout of " ++ (show_nat (suc ms) ++ "ms"))))),
        record r { world = world },
      ))
  unfolding perform execute_step_with_timeout execute_with_idempotency
  perform_timeout w s i r = (
    ((d.execute i (step_context S w s)).race (suc ms) r.world).1,
    rw in_force (
        raced-none S s.step_name (suc ms) ((d.execute i (step_context S w s)).race (suc ms) r.world)
          r (never i (step_context S w s) r.world)),
  )

  -- What comes of a step that times out: an error, and the workflow's row as it was.
  abbrev Ends : (M (Running S) (Unit {0})) → Running S → Type 0
  Ends m r =
      (after : Running S) × (m r ≡ (throw (not_compensated r.workflow), after))
      × (after.workflow ≡ r.workflow)
      × (S.find_workflow r.workflow.id after.db ≡ some r.workflow)

  on_timeout :
      (again : WorkflowStep → M (Running S) (Unit {0})) (s : WorkflowStep) (m : String)
      (r : Running S)
      → IsRunning r
      → Ends (on_failure S again s (workflow_timeout_error m)) r
  unfolding on_failure
  on_timeout again s m r h = (
    saved,
    rw (
      compensate_workflow_refused S L r.workflow (record { db = saved.db; world = saved.world })
          kept (running_refuses r.workflow.state h.running),
      running_text r.workflow.state h.running,
    ),
    refl,
    kept,
  )
    where
      saved : Running S
      saved = record r { db = S.save_step (failed_step S s (S.now r.world) m) r.db }

      kept : S.find_workflow r.workflow.id saved.db ≡ some r.workflow
      kept = L.find_workflow-save_step r.workflow.id _ r.db ∙ h.stored

  save_key_run :
      (s : WorkflowStep) (r : Running S)
      → (db : S.Db) × (save_key S s r ≡ (ok tt, record r { db = db }))
        × ((i : String) → S.find_workflow i db ≡ S.find_workflow i r.db)
  unfolding save_key
  save_key_run s r = elim (Bool-cases s.is_idempotent) [
    | inl e ↦ (S.save_step s r.db, rw (e, save_key), λ i. L.find_workflow-save_step i s r.db)
    | inr e ↦ (r.db, rw (e, save_key), λ i. refl)
  ]

  try_timeout :
      (again : WorkflowStep → M (Running S) (Unit {0})) (w : Workflow) (s : WorkflowStep)
      (i : StepInput) (r : Running S)
      → IsRunning r
      → Ends (try_catch (perform_and_save S w s i (some d) t) (on_failure S again s)) r
  unfolding perform_and_save
  try_timeout again w s i r h =
      let (world, e) = perform_timeout w s i r in
      rw e (
        on_timeout again s _ (record r { world = world })
          (record { stored = h.stored; running = h.running }))

  once_timeout :
      (again : WorkflowStep → M (Running S) (Unit {0})) (s : WorkflowStep) (r : Running S)
      → IsRunning r
      → transition_step s.state StepState.running ≡ none
      → Ends (execute_step_once S again s (some d) t) r
  unfolding execute_step_once prepare_step_input
  once_timeout again s r h e = rw e (
      let (db, run, same) = save_key_run keyed begun in
      rw run (
        try_timeout again r.workflow keyed _ (record begun { db = db })
          (record {
            stored = same r.workflow.id ∙ L.find_workflow-save_step _ _ r.db ∙ h.stored;
            running = h.running;
          })))
    where
      begun : Running S
      begun = record r { db = S.save_step (begun_step S s (S.now r.world)) r.db }

      keyed : WorkflowStep
      keyed = with_key S r.workflow (begun_step S s (S.now r.world))

  -- A step of a RUNNING workflow that can start and times out is not followed by compensation:
  -- the compensation is refused, that refusal takes the place of the timeout error, and the
  -- workflow's row stays as it was.
  pub execute_step_timeout :
      (s : WorkflowStep) (r : Running S)
      → IsRunning r
      → transition_step s.state StepState.running ≡ none
      → Ends (execute_step S s (some d) t) r
  unfolding execute_step execute_step_fuel
  execute_step_timeout s r h e = fuel_timeout (s.max_retries - s.retry_count)
    where
      fuel_timeout : (fuel : ℕ) → Ends (execute_step_fuel S fuel s (some d) t) r
      fuel_timeout zero = once_timeout _ s r h e
      fuel_timeout (suc fuel) = once_timeout _ s r h e
