-- ===== src/Workflow/Start/Keyed/Steps.antt =====
-- executeStep and executeWorkflow on the row of a key.
use Prim.Native.String.{◌++◌}
use xlm_pay.Base.{
  ℕ, zero, suc, ◌+◌, ◌-◌, String, ◌≡◌, refl, sym, subst, ◌∙◌, Option, none, some, List, [], ◌∷◌,
  get_elem?,
}
use xlm_pay.Base.Text.{show_nat}
use xlm_pay.Workflow.Entities.{
  Workflow, WorkflowStep, WorkflowDefinition, StepDefinition, StepInput, Operation, Settled,
  fulfilled, rejected,
}
use xlm_pay.Workflow.Services.{Services, Laws}
use xlm_pay.Workflow.StateMachine.{
  WorkflowState, StepState, transition_workflow, transition_step, should_retry,
  calculate_next_retry_time,
}
use xlm_pay.Workflow.Monad.{
  M, diverged, Error, workflow_timeout_error, error, Running, gets, raise, ◌>>=◌, ◌>>◌,
}
use xlm_pay.Workflow.Monad.Keeps.{
  Keeps, pure-Keeps, raise-Keeps, gets-Keeps, modify-Keeps, require-Keeps, if-Keeps, bind-Keeps,
  catch-Keeps,
}
use xlm_pay.Workflow.Execution.Step.{
  settled, raced, execute_step_with_timeout, perform, on_failure, execute_step_once,
  execute_step_fuel, execute_step, failed_step, waiting_step, begun_step, completed_step, with_key,
  compensate, prepare_step_input, perform_and_save, save_key, save_step_row, update_workflow, delay,
}
use xlm_pay.Workflow.Execution.Engine.{
  Definitions, get_workflow_definition, execute_step_list, execute_steps, on_workflow_failure,
  run_definition, execute_workflow,
}
use xlm_pay.Workflow.Start.{Starting}
use xlm_pay.Workflow.Start.Keyed.{
  KeyLaws, IsKeyed, IsKeyedState, IsKeyedRun, save_workflow-IsKeyed, save_step-IsKeyed,
}
use xlm_pay.Workflow.Start.Keyed.Compensation.{compensate_workflow-IsKeyed}

module _ (S : Services) (G : Starting S) (L : Laws S) (K : KeyLaws S G) (id key : String) where
  abbrev P : Running S → Type 0
  P = IsKeyedRun S G id key

  elsewhere : (r : Running S) (w : S.World) → P r → P (record r { world = w })
  elsewhere r w h = record { keyed = h.keyed; object_id = h.object_id; object_key = h.object_key }

  step_saved : (s : WorkflowStep) → Keeps P (save_step_row S s)
  step_saved s = modify-Keeps P _ (λ r h. record {
    keyed = save_step-IsKeyed S G L K id key s r.db h.keyed;
    object_id = h.object_id;
    object_key = h.object_key;
  })

  -- A change of the object that keeps its id and its key.
  updated :
      (f : Workflow → Workflow)
      → ((w : Workflow) → (f w).id ≡ w.id)
      → ((w : Workflow) → (f w).idempotency_key ≡ w.idempotency_key)
      → Keeps P (update_workflow S f)
  updated f i k = modify-Keeps P _ (λ r h. record {
    keyed =
        save_workflow-IsKeyed S G L K id key (f r.workflow) r.db (i r.workflow ∙ h.object_id)
          (k r.workflow ∙ h.object_key);
    object_id = i r.workflow ∙ h.object_id;
    object_key = k r.workflow ∙ h.object_key;
  })

  settled-IsKeyed : (p : Option Settled × S.World) → Keeps P (settled S p)
  unfolding Keeps
  settled-IsKeyed (none, w) r h = elsewhere r w h
  settled-IsKeyed (some (fulfilled v), w) r h = elsewhere r w h
  settled-IsKeyed (some (rejected m), w) r h = elsewhere r w h

  raced-IsKeyed : (n : String) (ms : ℕ) (p : Option Settled × S.World) → Keeps P (raced S n ms p)
  unfolding Keeps
  raced-IsKeyed n ms (some s, w) r h = settled-IsKeyed (some s, w) r h
  raced-IsKeyed n ms (none, w) r h = elsewhere r w h

  timed-IsKeyed :
      (o : Operation S.World) (t : Option ℕ) (n : String)
      → Keeps P (execute_step_with_timeout S o t n)
  unfolding execute_step_with_timeout Keeps
  timed-IsKeyed o none n r h = settled-IsKeyed (o.settle r.world) r h
  timed-IsKeyed o (some zero) n r h = settled-IsKeyed (o.settle r.world) r h
  timed-IsKeyed o (some (suc ms)) n r h = raced-IsKeyed n (suc ms) (o.race (suc ms) r.world) r h

  perform-IsKeyed :
      (w : Workflow) (s : WorkflowStep) (i : StepInput) (d : Option (StepDefinition S.World))
      (t : Option ℕ)
      → Keeps P (perform S w s i d t)
  unfolding perform Keeps
  perform-IsKeyed w s i none t r h = h
  perform-IsKeyed w s i (some d) t r h = timed-IsKeyed _ _ _ r h

  compensate-IsKeyed : (i : String) → i ≡ id → Keeps P (compensate S i)
  unfolding Keeps IsKeyedState
  compensate-IsKeyed i e r h = record {
    keyed =
        subst (λ j. IsKeyed S G id key (compensate S j r).1.db) (sym e)
          (compensate_workflow-IsKeyed S G L K id key (record { db = r.db; world = r.world })
            h.keyed);
    object_id = h.object_id;
    object_key = h.object_key;
  }

  compensated :
      (e : Error)
      → Keeps P
          (do workflow ← gets λ r. r.workflow; compensate S workflow.id; raise {A = Unit {0}} e)
  unfolding Keeps
  compensated e r h =
      bind-Keeps P (compensate S r.workflow.id) _ (compensate-IsKeyed r.workflow.id h.object_id)
        (λ _. raise-Keeps P (Unit {0}) e) r h

  delayed : (ms : ℕ) → Keeps P (delay S ms)
  delayed ms = modify-Keeps P _ (λ r h. elsewhere r (S.sleep ms r.world) h)

  on_failure-IsKeyed :
      (again : WorkflowStep → M (Running S) (Unit {0})) (s : WorkflowStep) (e : Error)
      → ((t : WorkflowStep) → Keeps P (again t))
      → Keeps P (on_failure S again s e)
  unfolding on_failure
  on_failure-IsKeyed again s (workflow_timeout_error m) h =
      bind-Keeps P _ _ (gets-Keeps P λ r. S.now r.world) λ time.
        bind-Keeps P _ _ (step_saved (failed_step S s time m))
          λ _. compensated (workflow_timeout_error m)
  on_failure-IsKeyed again s (error m) h =
      bind-Keeps P _ _ (gets-Keeps P λ r. S.now r.world) λ time.
        bind-Keeps P _ _ (gets-Keeps P λ r. S.random r.world) λ random_value.
          if-Keeps P (should_retry StepState.failed (s.retry_count + 1) s.max_retries) _ _
            (bind-Keeps P _ _ (step_saved (waiting_step S s time random_value m)) λ _.
              bind-Keeps P _ _ (gets-Keeps P λ r. S.now r.world) λ later.
                bind-Keeps P _ _
                  (delayed
                    (calculate_next_retry_time time random_value (s.retry_count + 1) 1000 - later))
                  λ _. h (waiting_step S s time random_value m))
            (bind-Keeps P _ _ (step_saved (failed_step S s time m)) λ _. raise-Keeps P _ (
              error (
                "Step "
                ++ (s.step_name
                    ++ (" failed after "
                        ++ (show_nat (s.retry_count + 1) ++ (" retries: " ++ m)))))))

  save_key-IsKeyed : (s : WorkflowStep) → Keeps P (save_key S s)
  unfolding save_key
  save_key-IsKeyed s = if-Keeps P s.is_idempotent _ _ (step_saved s) (pure-Keeps P tt)

  prepared : (w : Workflow) (s : WorkflowStep) → Keeps P (prepare_step_input S w s)
  unfolding prepare_step_input Keeps
  prepared w s r h = h

  execute_step_once-IsKeyed :
      (again : WorkflowStep → M (Running S) (Unit {0})) (s : WorkflowStep)
      (d : Option (StepDefinition S.World)) (t : Option ℕ)
      → ((t : WorkflowStep) → Keeps P (again t))
      → Keeps P (execute_step_once S again s d t)
  unfolding execute_step_once perform_and_save
  execute_step_once-IsKeyed again s d t h =
      bind-Keeps P _ _ (require-Keeps P (transition_step s.state StepState.running) _) λ _.
        bind-Keeps P _ _ (gets-Keeps P λ r. S.now r.world) λ time.
          bind-Keeps P _ _ (step_saved (begun_step S s time)) λ _.
            bind-Keeps P _ _ (gets-Keeps P λ r. r.workflow) λ w.
              bind-Keeps P (prepare_step_input S w (begun_step S s time)) _
                (prepared w (begun_step S s time))
                λ input.
                  bind-Keeps P _ _ (save_key-IsKeyed (with_key S w (begun_step S s time))) λ _.
                    catch-Keeps P _ _
                      (bind-Keeps P _ _
                        (perform-IsKeyed w (with_key S w (begun_step S s time)) input d t)
                        λ output. bind-Keeps P _ _ (gets-Keeps P λ r. S.now r.world) λ ended.
                          step_saved
                            (completed_step S (with_key S w (begun_step S s time)) ended output))
                      (λ e. on_failure-IsKeyed again (with_key S w (begun_step S s time)) e h)

  stopped : Keeps P {A = Unit {0}} (λ r. (diverged, r))
  unfolding Keeps
  stopped r h = h

  execute_step_fuel-IsKeyed :
      (fuel : ℕ) (s : WorkflowStep) (d : Option (StepDefinition S.World)) (t : Option ℕ)
      → Keeps P (execute_step_fuel S fuel s d t)
  unfolding execute_step_fuel
  execute_step_fuel-IsKeyed zero s d t =
      execute_step_once-IsKeyed (λ _ r. (diverged, r)) s d t (λ _. stopped)
  execute_step_fuel-IsKeyed (suc fuel) s d t =
      execute_step_once-IsKeyed (λ s. execute_step_fuel S fuel s d none) s d t
        (λ u. execute_step_fuel-IsKeyed fuel u d none)

  execute_step-IsKeyed :
      (s : WorkflowStep) (d : Option (StepDefinition S.World)) (t : Option ℕ)
      → Keeps P (execute_step S s d t)
  unfolding execute_step
  execute_step-IsKeyed s d t = execute_step_fuel-IsKeyed (s.max_retries - s.retry_count) s d t

  execute_step_list-IsKeyed :
      (d : WorkflowDefinition S.World) (ss : List WorkflowStep) → Keeps P (execute_step_list S d ss)
  unfolding execute_step_list
  execute_step_list-IsKeyed d [] = pure-Keeps P tt
  execute_step_list-IsKeyed d (s ∷ ss) =
      bind-Keeps P _ _
        (updated (λ w. record w { current_step_index = s.step_index }) (λ w. refl) (λ w. refl))
        λ _.
          bind-Keeps P _ _ (execute_step-IsKeyed s (get_elem? d.steps s.step_index) d.timeout)
            λ _. execute_step_list-IsKeyed d ss

  on_workflow_failure-IsKeyed : (e : Error) → Keeps P (on_workflow_failure S e)
  unfolding on_workflow_failure
  on_workflow_failure-IsKeyed (workflow_timeout_error m) = pure-Keeps P tt
  on_workflow_failure-IsKeyed (error m) = bind-Keeps P _ _ (gets-Keeps P λ r. S.now r.world) λ time.
      bind-Keeps P _ _
        (updated
          (λ w. record w {
            state = WorkflowState.failed;
            failed_at = some time;
            failure_reason = some m;
          })
          (λ w. refl) (λ w. refl))
        λ _. raise-Keeps P _ (error m)

  run_definition-IsKeyed :
      (w : Workflow) (d : Option (WorkflowDefinition S.World)) → Keeps P (run_definition S w d)
  unfolding run_definition execute_steps
  run_definition-IsKeyed w none = raise-Keeps P _ _
  run_definition-IsKeyed w (some d) =
      bind-Keeps P _ _ (require-Keeps P (transition_workflow w.state WorkflowState.running) _) λ _.
        bind-Keeps P _ _ (gets-Keeps P λ r. S.now r.world) λ time.
          bind-Keeps P _ _
            (updated (λ w. record w { state = WorkflowState.running; started_at = some time })
              (λ w. refl) (λ w. refl))
            λ _.
              catch-Keeps P _ _
                (bind-Keeps P (execute_steps S d) _
                  (bind-Keeps P _ _ (gets-Keeps P λ r. r.workflow) λ v.
                    bind-Keeps P _ _ (gets-Keeps P λ r. S.find_steps v.id r.db)
                      λ steps. execute_step_list-IsKeyed d steps)
                  λ _. bind-Keeps P _ _ (gets-Keeps P λ r. S.now r.world) λ ended.
                    updated
                      (λ w. record w { state = WorkflowState.completed; completed_at = some ended })
                      (λ w. refl) (λ w. refl))
                on_workflow_failure-IsKeyed

  pub execute_workflow-IsKeyed :
      (definitions : Definitions S.World) → Keeps P (execute_workflow S definitions)
  unfolding execute_workflow Keeps
  execute_workflow-IsKeyed definitions r h =
      run_definition-IsKeyed r.workflow (get_workflow_definition r.workflow.type definitions) r h
