-- ===== src/Workflow/Compensation/Loop.antt =====
-- The loop over the steps to compensate: what it writes.
use xlm_pay.Base.{ℕ, String, ◌≡◌, refl, ◌∙◌, ap, subst, true, some, List, [], ◌∷◌, map, All, arith}
use xlm_pay.Workflow.Entities.{WorkflowStep}
use xlm_pay.Workflow.Services.{Services, Laws}
use xlm_pay.Workflow.Monad.{State, ok}
use xlm_pay.Workflow.StateMachine.{StepState, transition_step}
use xlm_pay.Workflow.Compensation.{needs_compensation, compensate_step, compensate_steps}
use xlm_pay.Workflow.Compensation.Outline.{
  Outline, outline, settle, listed, put, outlines-replace, listed-has_row, put-put, listed-settle,
  settle-settle, settle_nil, listed-put,
}

module _ (S : Services) where
  abbrev pub outlines : String → S.Db → List Outline
  outlines i d = map outline (S.load_steps i d)

  -- The two rows that the compensation of a step writes.
  abbrev pub started : WorkflowStep → ℕ → WorkflowStep
  started s time = record s { state = StepState.compensating; compensated_at = some time }

  abbrev pub finished : WorkflowStep → ℕ → WorkflowStep
  finished s time = record (started s time) { state = StepState.compensated; is_compensated = true }

  abbrev pub step_done : WorkflowStep → State S → State S
  step_done s st = record {
    db = S.save_step (finished s (S.now st.world)) (S.save_step (started s (S.now st.world)) st.db);
    world = S.sleep 1000 st.world;
  }

  compensate_step_run :
      (s : WorkflowStep) (st : State S)
      → needs_compensation s ≡ true
      → compensate_step S s st ≡ (ok tt, step_done s st)
  unfolding compensate_step transition_step
  compensate_step_run s st h = ground arith

  -- The state after the loop over the steps to compensate.
  pub steps_done : List WorkflowStep → State S → State S
  steps_done [] st = st
  steps_done (s ∷ ss) st = steps_done ss (step_done s st)

  pub compensate_steps_run :
      (todo : List WorkflowStep) (st : State S)
      → All (λ s. needs_compensation s ≡ true) todo
      → compensate_steps S todo st ≡ (ok tt, steps_done todo st)
  unfolding compensate_steps steps_done
  compensate_steps_run [] st a = refl
  compensate_steps_run (s ∷ ss) st a =
      rw (compensate_step_run s st a.0) (compensate_steps_run ss (step_done s st) a.1)

module _ (S : Services) (L : Laws S) where
  outlines-save_step :
      (s : WorkflowStep) (d : S.Db)
      → listed s.id (outlines S s.workflow_id d) ≡ true
      → outlines S s.workflow_id (S.save_step s d) ≡ map (put s) (outlines S s.workflow_id d)
  outlines-save_step s d h =
      ap (map outline) (L.load_steps-save_step s d (listed-has_row s.id _ ∙ h))
      ∙ outlines-replace s (S.load_steps s.workflow_id d)

  outlines-step_done :
      (s : WorkflowStep) (st : State S)
      → listed s.id (outlines S s.workflow_id st.db) ≡ true
      → outlines S s.workflow_id (step_done S s st).db
        ≡ map (settle (s ∷ [])) (outlines S s.workflow_id st.db)
  outlines-step_done s st h =
      outlines-save_step t d (ap (listed s.id) once ∙ listed-put s.id u os ∙ h)
      ∙ ap (map (put t)) once
      ∙ put-put s u t os refl refl refl refl
    where
      os : List Outline
      os = outlines S s.workflow_id st.db

      u : WorkflowStep
      u = started S s (S.now st.world)

      t : WorkflowStep
      t = finished S s (S.now st.world)

      d : S.Db
      d = S.save_step u st.db

      once : outlines S s.workflow_id d ≡ map (put u) os
      once = outlines-save_step u st.db h

  pub find_workflow-steps_done :
      (i : String) (todo : List WorkflowStep) (st : State S)
      → S.find_workflow i (steps_done S todo st).db ≡ S.find_workflow i st.db
  unfolding steps_done
  find_workflow-steps_done i [] st = refl
  find_workflow-steps_done i (s ∷ ss) st =
      find_workflow-steps_done i ss (step_done S s st)
      ∙ L.find_workflow-save_step i (finished S s (S.now st.world)) _
      ∙ L.find_workflow-save_step i (started S s (S.now st.world)) st.db

  pub outlines-steps_done :
      (i : String) (todo : List WorkflowStep) (st : State S)
      → All (λ s. (s.workflow_id ≡ i) × (listed s.id (outlines S i st.db) ≡ true)) todo
      → outlines S i (steps_done S todo st).db ≡ map (settle todo) (outlines S i st.db)
  unfolding steps_done
  outlines-steps_done i [] st a = settle_nil (outlines S i st.db)
  outlines-steps_done i (s ∷ ss) st a =
      outlines-steps_done i ss (step_done S s st) (still ss a.1)
      ∙ ap (map (settle ss)) once
      ∙ settle-settle s ss (outlines S i st.db)
    where
      once : outlines S i (step_done S s st).db ≡ map (settle (s ∷ [])) (outlines S i st.db)
      once =
          subst
            (λ j.
              listed s.id (outlines S j st.db) ≡ true
              → outlines S j (step_done S s st).db ≡ map (settle (s ∷ [])) (outlines S j st.db))
            a.0.0 (outlines-step_done s st) a.0.1

      still :
          (ts : List WorkflowStep)
          → All (λ t. (t.workflow_id ≡ i) × (listed t.id (outlines S i st.db) ≡ true)) ts
          → All
              (λ t. (t.workflow_id ≡ i) × (listed t.id (outlines S i (step_done S s st).db) ≡ true))
              ts
      still [] b = tt
      still (t ∷ ts) b = (
        (b.0.0, ap (listed t.id) once ∙ listed-settle t.id (s ∷ []) (outlines S i st.db) ∙ b.0.1),
        still ts b.1,
      )
