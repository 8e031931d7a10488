-- ===== src/Workflow/Execution/Success/Engine.antt =====
-- executeWorkflow on a workflow whose steps all succeed.
use xlm_pay.Base.{
  String, ◌≡◌, refl, sym, ◌∙◌, ap, subst, ◌⊎◌, inl, inr, true, false, none, some, List, [], ◌∷◌,
  All, any, arith, str_eq, eq_iff, get_elem?, Bool-cases,
}
use xlm_pay.Workflow.Entities.{Workflow, WorkflowStep, StepDefinition, WorkflowDefinition}
use xlm_pay.Workflow.Services.{Services, Laws, replace, has_row}
use xlm_pay.Workflow.Monad.{ok, Running}
use xlm_pay.Workflow.StateMachine.{WorkflowState, StepState, transition_step, transition_workflow}
use xlm_pay.Workflow.Execution.Engine.{
  Definitions, get_workflow_definition, execute_step_list, execute_steps, run_definition,
  execute_workflow,
}
use xlm_pay.Workflow.Execution.Success.{Succeeds, has_row-replace, rows_of, execute_step-Completes}

abbrev pub IsCompleted : WorkflowStep → Type 0
IsCompleted s = s.state ≡ StepState.completed

-- Each row is completed, or one of those still to run.
abbrev Remaining : List WorkflowStep → List WorkflowStep → Type 0
Remaining ss rows = All (λ r. (any (λ s. str_eq s.id r.id) ss ≡ true) ⊎ IsCompleted r) rows

abbrev Stored : List WorkflowStep → List WorkflowStep → Type 0
Stored ss rows = All (λ s. has_row s.id rows ≡ true) ss

Stored-replace :
    (x : WorkflowStep) (ss rows : List WorkflowStep) → Stored ss rows → Stored ss (replace x rows)
Stored-replace x [] rows h = tt
Stored-replace x (s ∷ ss) rows h = (has_row-replace s.id x rows ∙ h.0, Stored-replace x ss rows h.1)

Remaining-replace :
    (s x : WorkflowStep) (ss rows : List WorkflowStep)
    → x.id ≡ s.id
    → IsCompleted x
    → Remaining (s ∷ ss) rows
    → Remaining ss (replace x rows)
Remaining-replace s x ss [] e c h = tt
Remaining-replace s x ss (r ∷ rows) e c h = elim (Bool-cases (str_eq r.id x.id)) [
  | inl k ↦ rw k (inr c, Remaining-replace s x ss rows e c h.1)
  | inr k ↦ rw k (others h.0 k, Remaining-replace s x ss rows e c h.1)
]
  where
    others :
        ((any (λ t. str_eq t.id r.id) (s ∷ ss) ≡ true) ⊎ IsCompleted r)
        → str_eq r.id x.id ≡ false
        → (any (λ t. str_eq t.id r.id) ss ≡ true) ⊎ IsCompleted r
    others (inr done) k = inr done
    others (inl p) k = inl (ground (arith, p, eq_iff s.id r.id, eq_iff r.id x.id, e))

Remaining-nil : (rows : List WorkflowStep) → Remaining [] rows → All IsCompleted rows
Remaining-nil [] h = tt
Remaining-nil (r ∷ rows) (inl p, h) = cc
Remaining-nil (r ∷ rows) (inr c, h) = (c, Remaining-nil rows h)

-- Every row is one of the rows.
Remaining-self :
    (ss rows : List WorkflowStep)
    → ((i : String) → any (λ s. str_eq s.id i) rows ≡ true → any (λ s. str_eq s.id i) ss ≡ true)
    → Remaining ss rows
Remaining-self ss [] h = tt
Remaining-self ss (r ∷ rows) h = (
  inl (h r.id (ground (arith, eq_iff r.id r.id))),
  Remaining-self ss rows (λ i k. h i (ground arith)),
)

Stored-self :
    (ss rows : List WorkflowStep)
    → ((i : String) → has_row i ss ≡ true → has_row i rows ≡ true)
    → Stored ss rows
Stored-self [] rows h = tt
Stored-self (s ∷ ss) rows h =
    (h s.id (ground (arith, eq_iff s.id s.id)), Stored-self ss rows (λ i k. h i (ground arith)))

module _ (S : Services) (L : Laws S) (definition : WorkflowDefinition S.World) where
  -- The step can start, and its definition succeeds.
  abbrev pub Ready : WorkflowStep → Type 0
  Ready s =
      (transition_step s.state StepState.running ≡ none)
      × ((d : StepDefinition S.World) × (get_elem? definition.steps s.step_index ≡ some d)
          × Succeeds d definition.timeout)

  abbrev at_step : WorkflowStep → Running S → Running S
  at_step s r = record r {
    db = S.save_workflow (record r.workflow { current_step_index = s.step_index }) r.db;
    workflow = record r.workflow { current_step_index = s.step_index };
  }

  list_completes :
      (i : String) (ss : List WorkflowStep) (r : Running S)
      → r.workflow.id ≡ i
      → All Ready ss
      → All (λ s. s.workflow_id ≡ i) ss
      → Stored ss (rows_of S L i r)
      → Remaining ss (rows_of S L i r)
      → (after : Running S) × (execute_step_list S definition ss r ≡ (ok tt, after))
        × (after.workflow.id ≡ i)
        × All IsCompleted (rows_of S L i after)
  unfolding execute_step_list
  list_completes i [] r e a b c h = (r, refl, e, Remaining-nil _ h)
  list_completes i (s ∷ ss) r e (a, later) (b, bs) (c, cs) h =
      let (start, (d, defined, good)) = a in
      let (after, x, run, same, id, done, rows) =
        execute_step-Completes S L d definition.timeout good s (at_step s r) (b ∙ sym e)
          (ap (has_row s.id) rows_same ∙ c) start in
      let left : rows_of S L i after ≡ replace x (rows_of S L i r) =
        ap (λ j. S.find_steps j after.db) (sym e) ∙ rows ∙ ap (replace x) rows_same in
      rw (defined, run)
        (list_completes i ss after (ap (λ w. w.id) same ∙ e) later bs
          (subst (Stored ss) (sym left) (Stored-replace x ss (rows_of S L i r) cs))
          (subst (Remaining ss) (sym left) (Remaining-replace s x ss (rows_of S L i r) id done h)))
    where
      rows_same : rows_of S L r.workflow.id (at_step s r) ≡ rows_of S L i r
      rows_same = L.find_steps-save_workflow r.workflow.id _ r.db ∙ ap (λ j. S.find_steps j r.db) e

  -- A workflow of a known type that can start, whose steps can all start and have definitions whose
  -- promises are fulfilled in time, runs without an error and ends COMPLETED, with every one of its
  -- steps' rows COMPLETED.
  pub execute_workflow_success :
      (definitions : Definitions S.World) (r : Running S)
      → get_workflow_definition r.workflow.type definitions ≡ some definition
      → transition_workflow r.workflow.state WorkflowState.running ≡ none
      → All Ready (S.find_steps r.workflow.id r.db)
      → let (result, after) = execute_workflow S definitions r in
        (result ≡ ok tt)
        × ((row : Workflow) × (S.find_workflow r.workflow.id after.db ≡ some row)
            × (row.state ≡ WorkflowState.completed))
        × All IsCompleted (S.find_steps r.workflow.id after.db)
  unfolding execute_workflow run_definition execute_steps
  execute_workflow_success definitions r known start ready =
      let (after, run, same, done) =
        list_completes r.workflow.id (S.find_steps r.workflow.id r.db) begun refl ready
          (L.find_steps-belong r.workflow.id r.db)
          (subst (Stored rows) (sym rows_same) (Stored-self rows rows (λ i k. k)))
          (subst (Remaining rows) (sym rows_same) (Remaining-self rows rows (λ i k. k))) in
      let ended : Workflow = record after.workflow {
        state = WorkflowState.completed;
        completed_at = some (S.now after.world);
      } in
      rw (known, start, rows_same, run)
        (
          refl,
          (
            ended,
            subst (λ i. S.find_workflow i (S.save_workflow ended after.db) ≡ some ended) same
                (L.find_workflow-save_workflow ended after.db),
            refl,
          ),
          subst (All IsCompleted) (sym (L.find_steps-save_workflow r.workflow.id ended after.db))
              done,
        )
    where
      started : Workflow
      started = record r.workflow {
        state = WorkflowState.running;
        started_at = some (S.now r.world);
      }

      begun : Running S
      begun = record r { db = S.save_workflow started r.db; workflow = started }

      rows : List WorkflowStep
      rows = S.find_steps r.workflow.id r.db

      rows_same : S.find_steps r.workflow.id begun.db ≡ rows
      rows_same = L.find_steps-save_workflow r.workflow.id started r.db
