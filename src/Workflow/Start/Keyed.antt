-- ===== src/Workflow/Start/Keyed.antt =====
-- The row of a workflow under its idempotency key, through the saves of a run.
pub mod Compensation
pub mod Steps
pub mod Twice
use xlm_pay.Base.{String, ◌≡◌, ◌≢◌, sym, Option, none, some, ap, subst, ◌∙◌}
use xlm_pay.Workflow.Entities.{Workflow, WorkflowStep}
use xlm_pay.Workflow.Services.{Services, Laws}
use xlm_pay.Workflow.Monad.{State, Running}
use xlm_pay.Workflow.Start.{Starting}

-- A saved row is found by its key, saving a step changes no workflow, and an inserted row is found.
pub record KeyLaws (S : Services) (G : Starting S) : Type 0 where
  pub find_by_key-save_workflow :
      (w : Workflow) (d : S.Db) → G.find_by_key w.idempotency_key (S.save_workflow w d) ≢ none
  pub find_by_key-save_step :
      (k : String) (s : WorkflowStep) (d : S.Db)
      → G.find_by_key k (S.save_step s d) ≡ G.find_by_key k d
  pub find_by_key-insert_workflow :
      (w : Workflow) (d e : S.Db)
      → G.insert_workflow w d ≡ some e
      → G.find_by_key w.idempotency_key e ≢ none
  pub find_workflow-insert_workflow :
      (w : Workflow) (d e : S.Db) → G.insert_workflow w d ≡ some e → S.find_workflow w.id e ≡ some w

module _ (S : Services) (G : Starting S) (id key : String) where
  -- There is a row with the key, and the row with the id has it.
  pub record IsKeyed (d : S.Db) : Type 0 where
    pub there : G.find_by_key key d ≢ none
    pub same_key : (w : Workflow) → S.find_workflow id d ≡ some w → w.idempotency_key ≡ key

  pub IsKeyedState : State S → Type 0
  IsKeyedState st = IsKeyed st.db

  -- The same, and the object in use is that row's.
  pub record IsKeyedRun (r : Running S) : Type 0 where
    pub keyed : IsKeyed r.db
    pub object_id : r.workflow.id ≡ id
    pub object_key : r.workflow.idempotency_key ≡ key

module _ (S : Services) (G : Starting S) (L : Laws S) (K : KeyLaws S G) where
  pub save_workflow-IsKeyed :
      (id key : String) (w : Workflow) (d : S.Db)
      → w.id ≡ id
      → w.idempotency_key ≡ key
      → IsKeyed S G id key (S.save_workflow w d)
  save_workflow-IsKeyed id key w d e f = record {
    there =
        subst (λ k. G.find_by_key k (S.save_workflow w d) ≢ none) f
          (K.find_by_key-save_workflow w d);
    same_key = λ v found. cc (
      subst (λ i. S.find_workflow i (S.save_workflow w d) ≡ some w) e
          (L.find_workflow-save_workflow w d),
      found,
      f,
    );
  }

  pub save_step-IsKeyed :
      (id key : String) (s : WorkflowStep) (d : S.Db)
      → IsKeyed S G id key d
      → IsKeyed S G id key (S.save_step s d)
  save_step-IsKeyed id key s d h = record {
    there = λ e. h.there (sym (K.find_by_key-save_step key s d) ∙ e);
    same_key = λ w e. h.same_key w (sym (L.find_workflow-save_step id s d) ∙ e);
  }
