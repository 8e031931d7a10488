-- ===== src/Workflow/Execution/Halting.antt =====
-- The retries of executeStep against its fuel.
pub mod Engine
use xlm_pay.Base.{
  ℕ, zero, suc, ◌-◌, ◌+◌, ◌≤◌, ◌<◌, ◌≡◌, refl, ◌≢◌, String, Option, none, some, arith, Bool-cases,
  inl, inr, ltb, ltb→lt,
}
use xlm_pay.Workflow.Monad.{
  M, Outcome, diverged, Error, workflow_timeout_error, error, try_catch, Running,
}
use xlm_pay.Workflow.Monad.Halts.{Halts, continue-Halts, try_catch-Halts, require-Halts}
use xlm_pay.Workflow.Services.{Services}
use xlm_pay.Workflow.Entities.{
  Workflow, WorkflowStep, WorkflowContext, StepDefinition, StepInput, Operation, Settled, fulfilled,
  rejected,
}
use xlm_pay.Workflow.Compensation.Halting.{compensate_workflow-Halts}
use xlm_pay.Workflow.StateMachine.{should_retry, StepState, transition_step}
use xlm_pay.Workflow.Execution.Step.{
  step_context, execute_with_idempotency, settled, raced, execute_step_with_timeout, perform,
  on_failure, execute_step_once, execute_step_fuel, execute_step, failed_step, waiting_step,
  compensate, prepare_step_input, perform_and_save, save_key,
}

-- What keeps a step from waiting without end: a timeout of its own, which every retry has too, or
-- promises that settle.
abbrev pub SettlesUnless :
    {W : Type 0} → Option ℕ → (StepInput → WorkflowContext → Operation W) → Type 0
SettlesUnless none execute =
    (i : StepInput) (c : WorkflowContext) (w : _) → ((execute i c).settle w).0 ≢ none
SettlesUnless (some zero) execute =
    (i : StepInput) (c : WorkflowContext) (w : _) → ((execute i c).settle w).0 ≢ none
SettlesUnless (some (suc ms)) execute = Unit {0}

abbrev pub IsBounded : {W : Type 0} → StepDefinition W → Type 0
IsBounded d = SettlesUnless d.timeout d.execute

-- `definition.steps[step.stepIndex]`, which may be undefined.
abbrev pub IsBoundedIfAny : {W : Type 0} → Option (StepDefinition W) → Type 0
IsBoundedIfAny none = Unit {0}
IsBoundedIfAny (some d) = IsBounded d

module _ (S : Services) where
  settled-Halts :
      (p : Option Settled × S.World) (r : Running S) → p.0 ≢ none → (settled S p r).0 ≢ diverged
  settled-Halts (none, w) r h = absurd (h refl)
  settled-Halts (some (fulfilled v), w) r h = λ p. cc
  settled-Halts (some (rejected m), w) r h = λ p. cc

  raced-Halts : (n : String) (ms : ℕ) (p : Option Settled × S.World) → Halts (raced S n ms p)
  raced-Halts n ms (some s, w) r = settled-Halts (some s, w) r (λ p. cc)
  raced-Halts n ms (none, w) r = λ p. cc

  timed-Halts :
      (execute : StepInput → WorkflowContext → Operation S.World) (own t : Option ℕ) (n : String)
      (i : StepInput) (c : WorkflowContext)
      → SettlesUnless own execute
      → Halts
          (execute_step_with_timeout S (execute i c) (elim own [ none ↦ t | some u ↦ some u ]) n)
  unfolding execute_step_with_timeout
  timed-Halts execute none none n i c h r = settled-Halts _ r (h i c r.world)
  timed-Halts execute none (some zero) n i c h r = settled-Halts _ r (h i c r.world)
  timed-Halts execute none (some (suc ms)) n i c h r = raced-Halts n (suc ms) _ r
  timed-Halts execute (some zero) t n i c h r = settled-Halts _ r (h i c r.world)
  timed-Halts execute (some (suc ms)) t n i c h r = raced-Halts n (suc ms) _ r

  perform-Halts :
      (w : Workflow) (s : WorkflowStep) (i : StepInput) (d : Option (StepDefinition S.World))
      (t : Option ℕ)
      → IsBoundedIfAny d
      → Halts (perform S w s i d t)
  unfolding perform execute_with_idempotency
  perform-Halts w s i none t h r = λ p. cc
  perform-Halts w s i (some d) t h r =
      timed-Halts d.execute d.timeout t s.step_name i (step_context S w s) h r

  compensate-Halts : (i : String) → Halts (compensate S i)
  compensate-Halts i r = compensate_workflow-Halts S i (record { db = r.db; world = r.world })

  -- The recursive call comes to an end wherever it is made.
  AgainHalts : (WorkflowStep → M (Running S) (Unit {0})) → WorkflowStep → Type 0
  AgainHalts again step =
      (s : WorkflowStep)
      → s.retry_count ≡ step.retry_count + 1
      → s.max_retries ≡ step.max_retries
      → s.retry_count < s.max_retries
      → Halts (again s)

  on_failure-Halts :
      (again : WorkflowStep → M (Running S) (Unit {0})) (s : WorkflowStep) (e : Error)
      → AgainHalts again s
      → Halts (on_failure S again s e)
  unfolding on_failure AgainHalts should_retry
  on_failure-Halts again s (workflow_timeout_error m) h r =
      continue-Halts _ (compensate S r.workflow.id saved) (compensate-Halts r.workflow.id saved)
        (λ _ _ p. cc)
    where
      saved : Running S
      saved = record r { db = S.save_step (failed_step S s (S.now r.world) m) r.db }
  on_failure-Halts again s (error m) h r =
      elim (Bool-cases (ltb (s.retry_count + 1) s.max_retries)) [
        | inl e ↦
            rw e
              (h (waiting_step S s (S.now r.world) (S.random r.world) m) refl refl (ltb→lt _ _ e) _)
        | inr e ↦ rw e (λ p. cc)
      ]

  save_key-Halts : (s : WorkflowStep) → Halts (save_key S s)
  unfolding save_key
  save_key-Halts s r = ground arith

  try-Halts :
      (again : WorkflowStep → M (Running S) (Unit {0})) (w : Workflow) (s : WorkflowStep)
      (i : StepInput) (d : Option (StepDefinition S.World)) (t : Option ℕ)
      → IsBoundedIfAny d
      → AgainHalts again s
      → Halts (try_catch (perform_and_save S w s i d t) (on_failure S again s))
  unfolding perform_and_save
  try-Halts again w s i d t b h =
      try_catch-Halts _ _
        (λ r. continue-Halts _ (perform S w s i d t r) (perform-Halts w s i d t b r) (λ _ _ p. cc))
        (λ e. on_failure-Halts again s e h)

  execute_step_once-Halts :
      (again : WorkflowStep → M (Running S) (Unit {0})) (s : WorkflowStep)
      (d : Option (StepDefinition S.World)) (t : Option ℕ)
      → IsBoundedIfAny d
      → AgainHalts again s
      → Halts (execute_step_once S again s d t)
  unfolding execute_step_once AgainHalts prepare_step_input
  execute_step_once-Halts again s d t b h r =
      continue-Halts _ _ (require-Halts (transition_step s.state StepState.running) _ r)
        (λ _ r'. continue-Halts _ _ (save_key-Halts _ _) (λ _. try-Halts again _ _ _ d t b h))

  execute_step_fuel-Halts :
      (fuel : ℕ) (s : WorkflowStep) (d : Option (StepDefinition S.World)) (t : Option ℕ)
      → IsBoundedIfAny d
      → s.max_retries - s.retry_count ≤ fuel
      → Halts (execute_step_fuel S fuel s d t)
  unfolding execute_step_fuel AgainHalts
  execute_step_fuel-Halts zero s d t b h =
      execute_step_once-Halts _ s d t b (λ s' p q l. absurd (omega arith))
  execute_step_fuel-Halts (suc fuel) s d t b h =
      execute_step_once-Halts _ s d t b
        (λ s' p q l. execute_step_fuel-Halts fuel s' d none b (omega arith))

  -- A step with a timeout of its own, or with promises that settle, comes to an end: the fuel is
  -- enough.
  pub execute_step-Halts :
      (s : WorkflowStep) (d : Option (StepDefinition S.World)) (t : Option ℕ)
      → IsBoundedIfAny d
      → (r : Running S) → (execute_step S s d t r).0 ≢ diverged
  unfolding execute_step
  execute_step-Halts s d t b =
      execute_step_fuel-Halts (s.max_retries - s.retry_count) s d t b (omega arith)
