-- ===== src/Workflow/Services.antt =====
-- What the engine uses and does not implement: the two TypeORM repositories, the clock, timers,
-- `Math.random`, SHA-256. `Laws` is what the theorems rely on: the repositories are a store.
-- A repository call is taken to succeed.
use xlm_pay.Base.{
  ℕ, String, Bool, true, Option, some, List, map, ◌≡◌, str_eq, any, All, if◌then◌else◌,
}
use xlm_pay.Workflow.Entities.{Workflow, WorkflowStep}

pub record Services : Type 1 where
  pub World : Type 0
  pub Db : Type 0
  pub now : World → ℕ  -- Date.now(), in milliseconds
  pub random : World → ℕ  -- Math.random(), in units of 2 ^ -53
  pub sleep : ℕ → World → World  -- what happens elsewhere while a timer of so many ms runs
  pub sha256 : String → String
  pub today : World → String  -- new Date().toISOString().split('T')[0]
  -- workflowRepository.findOne({ where: { id } }) and .save
  pub find_workflow : String → Db → Option Workflow
  pub save_workflow : Workflow → Db → Db
  -- stepRepository.find({ where: { workflowId }, order: { stepIndex: 'ASC' } }), the relation
  -- `steps` of a workflow, in no promised order, and .save
  pub find_steps : String → Db → List WorkflowStep
  pub load_steps : String → Db → List WorkflowStep
  pub save_step : WorkflowStep → Db → Db

-- The list with `s` in place of the row that has its id.
abbrev pub replace : WorkflowStep → List WorkflowStep → List WorkflowStep
replace s = map λ r. if str_eq r.id s.id then s else r

abbrev pub has_row : String → List WorkflowStep → Bool
has_row i = any λ r. str_eq r.id i

-- A row is found by its id, and saving one that is there replaces it and touches no other.
pub record Laws (S : Services) : Type 0 where
  pub find_workflow-id :
      (i : String) (d : S.Db) (w : Workflow) → S.find_workflow i d ≡ some w → w.id ≡ i
  pub find_workflow-save_workflow :
      (w : Workflow) (d : S.Db) → S.find_workflow w.id (S.save_workflow w d) ≡ some w
  pub find_workflow-save_step :
      (i : String) (s : WorkflowStep) (d : S.Db)
      → S.find_workflow i (S.save_step s d) ≡ S.find_workflow i d
  pub load_steps-belong : (i : String) (d : S.Db) → All (λ s. s.workflow_id ≡ i) (S.load_steps i d)
  pub load_steps-save_workflow :
      (i : String) (w : Workflow) (d : S.Db)
      → S.load_steps i (S.save_workflow w d) ≡ S.load_steps i d
  pub load_steps-save_step :
      (s : WorkflowStep) (d : S.Db)
      → has_row s.id (S.load_steps s.workflow_id d) ≡ true
      → S.load_steps s.workflow_id (S.save_step s d) ≡ replace s (S.load_steps s.workflow_id d)
  pub find_steps-belong : (i : String) (d : S.Db) → All (λ s. s.workflow_id ≡ i) (S.find_steps i d)
  pub find_steps-save_workflow :
      (i : String) (w : Workflow) (d : S.Db)
      → S.find_steps i (S.save_workflow w d) ≡ S.find_steps i d
  pub find_steps-save_step :
      (s : WorkflowStep) (d : S.Db)
      → has_row s.id (S.find_steps s.workflow_id d) ≡ true
      → S.find_steps s.workflow_id (S.save_step s d) ≡ replace s (S.find_steps s.workflow_id d)
