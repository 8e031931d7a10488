-- ===== src/Workflow/Tests/Memory.antt =====
-- A store in memory, which meets the laws, and a world whose state is the time.
use xlm_pay.Base.{
  ℕ, String, ◌≡◌, refl, ◌+◌, true, some, List, [], ◌∷◌, ◌++◌, map, All, find, arith, str_eq, eq_iff,
  if◌then◌else◌,
}
use xlm_pay.Workflow.Entities.{Workflow, WorkflowStep}
use xlm_pay.Workflow.Services.{Services, Laws, replace, has_row}

pub record Store : Type 0 where
  pub workflows : List Workflow
  pub steps : String → List WorkflowStep

abbrev own : String → WorkflowStep → WorkflowStep
own i s = record s { workflow_id = i }

abbrev steps_of : String → Store → List WorkflowStep
steps_of i d = map (own i) (d.steps i)

abbrev put_row : WorkflowStep → List WorkflowStep → List WorkflowStep
put_row s rows = if has_row s.id rows then replace s rows else rows ++ (s ∷ [])

abbrev pub memory : Services
memory = record {
  World = ℕ;
  Db = Store;
  now = λ t. t;
  random = λ t. 0;
  sleep = λ ms t. t + ms;
  sha256 = λ s. s;
  today = λ t. "2025-01-01";
  find_workflow = λ i d. find (λ w. str_eq w.id i) d.workflows;
  save_workflow = λ w d. record d { workflows = w ∷ d.workflows };
  find_steps = steps_of;
  load_steps = steps_of;
  save_step = λ s d. record d {
    steps = λ i. if str_eq s.workflow_id i then put_row s (d.steps i) else d.steps i;
  };
}

find_id :
    (i : String) (ws : List Workflow) (w : Workflow)
    → find (λ v. str_eq v.id i) ws ≡ some w
    → w.id ≡ i
find_id i [] w e = cc
find_id i (v ∷ ws) w e = ground (arith, find_id i ws w, eq_iff v.id i)

owned : (i : String) (rows : List WorkflowStep) → All (λ s. s.workflow_id ≡ i) (map (own i) rows)
owned i [] = tt
owned i (r ∷ rows) = (refl, owned i rows)

has_row-own :
    (i j : String) (rows : List WorkflowStep) → has_row j (map (own i) rows) ≡ has_row j rows
has_row-own i j [] = refl
has_row-own i j (r ∷ rows) = ground (arith, has_row-own i j rows)

replace-own :
    (s : WorkflowStep) (rows : List WorkflowStep)
    → map (own s.workflow_id) (replace s rows) ≡ replace s (map (own s.workflow_id) rows)
replace-own s [] = refl
replace-own s (r ∷ rows) = ground (arith, replace-own s rows)

steps_of-save_step :
    (s : WorkflowStep) (d : Store)
    → has_row s.id (steps_of s.workflow_id d) ≡ true
    → steps_of s.workflow_id (memory.save_step s d) ≡ replace s (steps_of s.workflow_id d)
steps_of-save_step s d h = ground (
  arith,
  has_row-own s.workflow_id s.id (d.steps s.workflow_id),
  replace-own s (d.steps s.workflow_id),
  eq_iff s.workflow_id s.workflow_id,
)

pub memory-Laws : Laws memory
memory-Laws = record {
  find_workflow-id = λ i d w e. find_id i d.workflows w e;
  find_workflow-save_workflow = λ w d. ground (arith, eq_iff w.id w.id);
  find_workflow-save_step = λ i s d. refl;
  load_steps-belong = λ i d. owned i (d.steps i);
  load_steps-save_workflow = λ i w d. refl;
  load_steps-save_step = steps_of-save_step;
  find_steps-belong = λ i d. owned i (d.steps i);
  find_steps-save_workflow = λ i w d. refl;
  find_steps-save_step = steps_of-save_step;
}
