-- ===== src/Workflow/Execution/Success.antt =====
-- executeStep on a step whose promise is fulfilled in time.
pub mod Engine
mod Tests
use xlm_pay.Base.{
  ℕ, zero, suc, ◌-◌, String, ◌≡◌, refl, sym, ◌∙◌, ap, subst, ◌⊎◌, Bool, true, false, Bool-cases,
  inl, inr, Option, none, some, List, [], ◌∷◌, map, any, arith, str_eq, eq_iff, if◌then◌else◌,
}
use xlm_pay.Base.Json.{Json}
use xlm_pay.Workflow.Entities.{
  Workflow, WorkflowStep, WorkflowContext, Settled, fulfilled, rejected, Operation, StepInput,
  StepDefinition,
}
use xlm_pay.Workflow.Services.{Services, Laws, replace, has_row}
use xlm_pay.Workflow.Monad.{M, ok, Outcome, Running, try_catch}
use xlm_pay.Workflow.StateMachine.{StepState, transition_step}
use xlm_pay.Workflow.Execution.Timeout.{timeout_of}
use xlm_pay.Workflow.Execution.Step.{
  settled, raced, execute_step_with_timeout, execute_with_idempotency, perform, on_failure,
  execute_step_once, execute_step_fuel, execute_step, completed_step, prepare_step_input,
  perform_and_save, save_key, with_key, begun_step, step_context,
}

-- The promise is fulfilled, within the timeout if there is one.
abbrev pub InTime : {W : Type 0} → Operation W → Option ℕ → W → Type 0
InTime o none w = (v : Json) × ((o.settle w).0 ≡ some (fulfilled v))
InTime o (some zero) w = (v : Json) × ((o.settle w).0 ≡ some (fulfilled v))
InTime o (some (suc ms)) w = (v : Json) × ((o.race (suc ms) w).0 ≡ some (fulfilled v))

abbrev pub Succeeds : {W : Type 0} → StepDefinition W → Option ℕ → Type 0
Succeeds {W} d t =
    (i : StepInput) (c : WorkflowContext) (w : W) → InTime (d.execute i c) (timeout_of d t) w

pub has_row-replace :
    (k : String) (x : WorkflowStep) (rows : List WorkflowStep)
    → has_row k (replace x rows) ≡ has_row k rows
has_row-replace k x [] = refl
has_row-replace k x (r ∷ rows) = ground (arith, eq_iff r.id x.id, has_row-replace k x rows)

-- The later of two saves of a row counts.
replace-replace :
    (x y : WorkflowStep) (rows : List WorkflowStep)
    → x.id ≡ y.id
    → replace y (replace x rows) ≡ replace y rows
replace-replace x y [] e = refl
replace-replace x y (r ∷ rows) e =
    ground (arith, eq_iff r.id x.id, eq_iff r.id y.id, eq_iff x.id y.id, replace-replace x y rows e)

module _ (S : Services) (L : Laws S) where
  abbrev pub rows_of : String → Running S → List WorkflowStep
  rows_of i r = S.find_steps i r.db

  -- A save of a row of this workflow.
  rows_saved :
      (i : String) (x : WorkflowStep) (db : S.Db)
      → x.workflow_id ≡ i
      → has_row x.id (S.find_steps i db) ≡ true
      → S.find_steps i (S.save_step x db) ≡ replace x (S.find_steps i db)
  rows_saved i x db e =
      subst
        (λ j.
          has_row x.id (S.find_steps j db) ≡ true
          → S.find_steps j (S.save_step x db) ≡ replace x (S.find_steps j db))
        e (L.find_steps-save_step x db)

  settled_ok :
      (p : Option Settled × S.World) (v : Json) (r : Running S)
      → p.0 ≡ some (fulfilled v)
      → settled S p r ≡ (ok v, record r { world = p.1 })
  settled_ok (none, w) v r e = cc
  settled_ok (some (fulfilled u), w) v r e = cc
  settled_ok (some (rejected m), w) v r e = cc

  raced_ok :
      (n : String) (ms : ℕ) (p : Option Settled × S.World) (v : Json) (r : Running S)
      → p.0 ≡ some (fulfilled v)
      → raced S n ms p r ≡ (ok v, record r { world = p.1 })
  raced_ok n ms (none, w) v r e = cc
  raced_ok n ms (some (fulfilled u), w) v r e = cc
  raced_ok n ms (some (rejected m), w) v r e = cc

  timed_ok :
      (o : Operation S.World) (t : Option ℕ) (n : String) (r : Running S)
      → InTime o t r.world
      → (v : Json) × (w : S.World) × (execute_step_with_timeout S o t n r
          ≡ (ok v, record r { world = w }))
  unfolding execute_step_with_timeout
  timed_ok o none n r (v, e) = (v, (o.settle r.world).1, settled_ok _ v r e)
  timed_ok o (some zero) n r (v, e) = (v, (o.settle r.world).1, settled_ok _ v r e)
  timed_ok o (some (suc ms)) n r (v, e) = (v, (o.race (suc ms) r.world).1, raced_ok n _ _ v r e)

  -- A completed row of this step takes the place of its row, and the object is as it was.
  abbrev pub Completes : M (Running S) (Unit {0}) → WorkflowStep → Running S → Type 0
  Completes m s r =
      (after : Running S) × (x : WorkflowStep) × (m r ≡ (ok tt, after))
      × (after.workflow ≡ r.workflow)
      × (x.id ≡ s.id)
      × (x.state ≡ StepState.completed)
      × (rows_of r.workflow.id after ≡ replace x (rows_of r.workflow.id r))

  module _ (d : StepDefinition S.World) (t : Option ℕ) (good : Succeeds d t) (s : WorkflowStep)
      (r : Running S) (belongs : s.workflow_id ≡ r.workflow.id)
      (stored : has_row s.id (rows_of r.workflow.id r) ≡ true)
      (ready : transition_step s.state StepState.running ≡ none) where
    abbrev begun : WorkflowStep
    begun = begun_step S s (S.now r.world)

    abbrev keyed : WorkflowStep
    keyed = with_key S r.workflow begun

    abbrev begun_db : S.Db
    begun_db = S.save_step begun r.db

    rows_begun : S.find_steps r.workflow.id begun_db ≡ replace begun (rows_of r.workflow.id r)
    rows_begun = rows_saved r.workflow.id begun r.db belongs stored

    -- Another save of this step's row.
    saved_again :
        (x y : WorkflowStep) (db : S.Db)
        → x.workflow_id ≡ s.workflow_id
        → x.id ≡ s.id
        → y.id ≡ s.id
        → S.find_steps r.workflow.id db ≡ replace y (rows_of r.workflow.id r)
        → S.find_steps r.workflow.id (S.save_step x db) ≡ replace x (rows_of r.workflow.id r)
    saved_again x y db e f g h =
        rows_saved r.workflow.id x db (e ∙ belongs) (
          ap (has_row x.id) h
          ∙ has_row-replace x.id y (rows_of r.workflow.id r)
          ∙ ap (λ k. has_row k (rows_of r.workflow.id r)) f
          ∙ stored)
        ∙ ap (replace x) h
        ∙ replace-replace y x (rows_of r.workflow.id r) (g ∙ sym f)

    key_saved :
        (db : S.Db) × (save_key S keyed (record r { db = begun_db })
          ≡ (ok tt, record r { db = db }))
        × ((y : WorkflowStep) × (y.id ≡ s.id)
            × (S.find_steps r.workflow.id db ≡ replace y (rows_of r.workflow.id r)))
    unfolding save_key
    key_saved = elim (Bool-cases keyed.is_idempotent) [
      | inl e ↦ (
        S.save_step keyed begun_db,
        rw (e, save_key),
        (keyed, refl, saved_again keyed begun begun_db refl refl refl rows_begun),
      )
      | inr e ↦ (begun_db, rw (e, save_key), (begun, refl, rows_begun))
    ]

    try-Completes :
        (again : WorkflowStep → M (Running S) (Unit {0})) (i : StepInput) (db : S.Db)
        (y : WorkflowStep)
        → y.id ≡ s.id
        → S.find_steps r.workflow.id db ≡ replace y (rows_of r.workflow.id r)
        → (after : Running S) × (x : WorkflowStep) × (try_catch
              (perform_and_save S r.workflow keyed i (some d) t)
              (on_failure S again keyed)
              (record r { db = db })
            ≡ (ok tt, after))
          × (after.workflow ≡ r.workflow)
          × (x.id ≡ s.id)
          × (x.state ≡ StepState.completed)
          × (rows_of r.workflow.id after ≡ replace x (rows_of r.workflow.id r))
    unfolding perform_and_save perform execute_with_idempotency
    try-Completes again i db y same rows =
        let (v, w, run) =
          timed_ok (d.execute i (step_context S r.workflow keyed)) (timeout_of d t) s.step_name
            (record r { db = db }) (good i (step_context S r.workflow keyed) r.world) in
        let x : WorkflowStep = completed_step S keyed (S.now w) v in
        (
          record r { db = S.save_step x db; world = w },
          x,
          rw run refl,
          refl,
          refl,
          refl,
          saved_again x y db refl refl same rows,
        )

    once-Completes :
        (again : WorkflowStep → M (Running S) (Unit {0}))
        → Completes (execute_step_once S again s (some d) t) s r
    unfolding execute_step_once prepare_step_input
    once-Completes again =
        let (db, saved, (y, same, rows)) = key_saved in
        rw ready (rw saved (try-Completes again _ db y same rows))

    fuel-Completes : (fuel : ℕ) → Completes (execute_step_fuel S fuel s (some d) t) s r
    unfolding execute_step_fuel
    fuel-Completes zero = once-Completes _
    fuel-Completes (suc fuel) = once-Completes _

    pub execute_step-Completes : Completes (execute_step S s (some d) t) s r
    unfolding execute_step
    execute_step-Completes = fuel-Completes (s.max_retries - s.retry_count)
