-- ===== src/Workflow/Compensation/Effect.antt =====
-- What a compensation leaves in the database, and when it is refused.
use Prim.Native.String.{◌++◌}
use xlm_pay.Base.{
  ℕ, String, ◌≡◌, refl, sym, ◌∙◌, ap, subst, true, false, ◌&&◌, some, List, [], ◌∷◌, map, All, any,
  arith, str_eq, eq_iff, if◌then◌else◌,
}
use xlm_pay.Workflow.Entities.{Workflow, WorkflowStep}
use xlm_pay.Workflow.Services.{Services, Laws}
use xlm_pay.Workflow.Monad.{State, ok, throw, error}
use xlm_pay.Workflow.StateMachine.{
  WorkflowState, StepState, can_workflow_compensate, transition_workflow, workflow_state_text,
}
use xlm_pay.Workflow.Compensation.{
  needs_compensation, compensation_order, compensate_found, compensate_workflow,
}
use xlm_pay.Workflow.Compensation.Order.{any-compensation_order, All-compensation_order}
use xlm_pay.Workflow.Compensation.Outline.{Outline, outline, settle, listed}
use xlm_pay.Workflow.Compensation.Loop.{
  outlines, steps_done, compensate_steps_run, outlines-steps_done,
}

listed_within :
    (i : String) (rows ss : List WorkflowStep)
    → ((k : String) → listed k (map outline ss) ≡ true → listed k (map outline rows) ≡ true)
    → All (λ s. s.workflow_id ≡ i) ss
    → All (λ s. (s.workflow_id ≡ i) × (listed s.id (map outline rows) ≡ true)) ss
listed_within i rows [] h a = tt
listed_within i rows (s ∷ ss) h a = (
  (a.0, h s.id (ground (arith, eq_iff s.id s.id))),
  listed_within i rows ss (λ k e. h k (ground arith)) a.1,
)

-- The loaded steps belong to the workflow and are stored.
loaded_listed :
    (S : Services) (i : String) (d : S.Db)
    → Laws S
    → All (λ s. (s.workflow_id ≡ i) × (listed s.id (outlines S i d) ≡ true)) (S.load_steps i d)
loaded_listed S i d L =
    listed_within i (S.load_steps i d) (S.load_steps i d) (λ k h. h) (L.load_steps-belong i d)

-- The row of the workflow while its compensation runs, and when it is done.
abbrev pub begun : Workflow → Workflow
begun w = record w { state = WorkflowState.compensating; requires_compensation = true }

abbrev pub compensated_row : Workflow → ℕ → Workflow
compensated_row w time = record w {
  state = WorkflowState.compensated;
  requires_compensation = true;
  is_compensated = true;
  completed_at = some time;
}

module _ (S : Services) (w : Workflow) (steps : List WorkflowStep) (st : State S) where
  abbrev pub entered : State S
  entered = record st { db = S.save_workflow (begun w) st.db }

  abbrev looped : State S
  looped = steps_done S (compensation_order steps) entered

  abbrev final : State S
  final = record looped { db = S.save_workflow (compensated_row w (S.now looped.world)) looped.db }

  compensate_found_run :
      can_workflow_compensate w.state ≡ true
      → All (λ s. needs_compensation s ≡ true) (compensation_order steps)
      → compensate_found S w steps st ≡ (ok tt, final)
  unfolding compensate_found can_workflow_compensate transition_workflow
  compensate_found_run h a =
      ground (arith, compensate_steps_run S (compensation_order steps) entered a)

All-fst {ℓ κ} : {A : Type ℓ} (P Q : A → Type κ) (xs : List A) → All (λ x. P x × Q x) xs → All P xs
All-fst P Q [] a = tt
All-fst P Q (x ∷ xs) a = (a.0.0, All-fst P Q xs a.1)

All-snd {ℓ κ} : {A : Type ℓ} (P Q : A → Type κ) (xs : List A) → All (λ x. P x × Q x) xs → All Q xs
All-snd P Q [] a = tt
All-snd P Q (x ∷ xs) a = (a.0.1, All-snd P Q xs a.1)

-- The outline of a row once every loaded step that needs it is compensated.
abbrev pub settled : List WorkflowStep → Outline → Outline
settled loaded o =
    if any (λ s. needs_compensation s && str_eq o.id s.id) loaded
    then record o { state = StepState.compensated; is_compensated = true }
    else o

settle-order :
    (loaded : List WorkflowStep) (os : List Outline)
    → map (settle (compensation_order loaded)) os ≡ map (settled loaded) os
settle-order loaded [] = refl
settle-order loaded (o ∷ os) =
    ground (arith, any-compensation_order (λ s. str_eq o.id s.id) loaded, settle-order loaded os)

module _ (S : Services) (L : Laws S) (w : Workflow) (st : State S) where
  abbrev loaded : List WorkflowStep
  loaded = S.load_steps w.id st.db

  abbrev Stored : List Outline → WorkflowStep → Type 0
  Stored os s = (s.workflow_id ≡ w.id) × (listed s.id os ≡ true)

  abbrev Needed : WorkflowStep → Type 0
  Needed s = needs_compensation s ≡ true

  order-Stored : All (λ s. Stored (outlines S w.id st.db) s × Needed s) (compensation_order loaded)
  order-Stored =
      All-compensation_order (Stored (outlines S w.id st.db)) loaded (loaded_listed S w.id st.db L)

  outlines-looped :
      outlines S w.id (looped S w loaded st).db ≡ map (settled loaded) (outlines S w.id st.db)
  outlines-looped =
      outlines-steps_done S L w.id (compensation_order loaded) (entered S w loaded st) (
        subst (λ os. All (Stored os) (compensation_order loaded)) (sym same)
          (All-fst (Stored (outlines S w.id st.db)) Needed (compensation_order loaded)
            order-Stored))
      ∙ ap (map (settle (compensation_order loaded))) same
      ∙ settle-order loaded (outlines S w.id st.db)
    where
      same : outlines S w.id (entered S w loaded st).db ≡ outlines S w.id st.db
      same = ap (map outline) (L.load_steps-save_workflow w.id (begun w) st.db)

  compensate_workflow_run :
      S.find_workflow w.id st.db ≡ some w
      → can_workflow_compensate w.state ≡ true
      → compensate_workflow S w.id st ≡ (ok tt, final S w loaded st)
  unfolding compensate_workflow
  compensate_workflow_run found allowed = rw found (
      compensate_found_run S w loaded st allowed
        (All-snd (Stored (outlines S w.id st.db)) Needed (compensation_order loaded) order-Stored))

  -- The compensation of a stored workflow in a state that allows it succeeds. The workflow's row is
  -- marked compensated at some time and keeps all else; of its steps' rows exactly those are marked
  -- compensated that share the id of a completed step that requires compensation.
  pub compensate_workflow_lem :
      S.find_workflow w.id st.db ≡ some w
      → can_workflow_compensate w.state ≡ true
      → let (result, after) = compensate_workflow S w.id st in
        (result ≡ ok tt)
        × ((time : ℕ) × (S.find_workflow w.id after.db ≡ some (compensated_row w time)))
        × (outlines S w.id after.db
            ≡ map (settled (S.load_steps w.id st.db)) (outlines S w.id st.db))
  compensate_workflow_lem found allowed = rw (compensate_workflow_run found allowed) (
    refl,
    (S.now (looped S w loaded st).world, L.find_workflow-save_workflow _ _),
    ap (map outline) (L.load_steps-save_workflow w.id _ _) ∙ outlines-looped,
  )

  -- In any other state it is refused with an error that names the state, and nothing is written.
  pub compensate_workflow_refused :
      S.find_workflow w.id st.db ≡ some w
      → can_workflow_compensate w.state ≡ false
      → compensate_workflow S w.id st ≡ (
        throw (
            error (
              "Workflow "
              ++ (w.id ++ (" cannot be compensated in state: " ++ workflow_state_text w.state)))),
        st,
      )
  unfolding compensate_workflow compensate_found
  compensate_workflow_refused found refused = rw (found, refused)
