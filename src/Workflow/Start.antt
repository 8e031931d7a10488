-- ===== src/Workflow/Start.antt =====
-- startWorkflow and its lock in Redis. Ids and the lock's token are arguments. The wait for another
-- worker's row polls at most 51 times, which is its fuel: every 100 ms of 5000.
pub mod Waiting
pub mod Release
pub mod Exclusion
pub mod Keyed
mod Tests
use Prim.Native.String.{String, ◌++◌}
use xlm_pay.Base.{
  or_default, ℕ, zero, suc, ◌+◌, ◌-◌, Bool, true, false, Option, none, some, List, [], ◌∷◌, length,
  get_or, ltb, str_eq, ◌==◌, if◌then◌else◌,
}
use xlm_pay.Base.Json.{Fields}
use xlm_pay.Workflow.Entities.{Workflow, WorkflowStep, WorkflowDefinition, StepDefinition}
use xlm_pay.Workflow.Services.{Services}
use xlm_pay.Workflow.StateMachine.{WorkflowState, StepState}
use xlm_pay.Workflow.Monad.{
  error, Outcome, diverged, State, M, pure, raise, modify, gets, ◌>>=◌, ◌>>◌,
}
use xlm_pay.Workflow.Idempotency.{generate_workflow_idempotency_key}
use xlm_pay.Workflow.Execution.Engine.{Definitions, get_workflow_definition, execute_workflow}

-- What startWorkflow alone uses: the row with a key, an insert, which fails where the column's
-- unique index forbids it, what other workers write while a timer of so many ms runs, and the Redis
-- client, whose store is part of the world. GET is none, and DEL is false, where it throws; SET NX is
-- taken to succeed.
pub record Starting (S : Services) : Type 0 where
  pub find_by_key : String → S.Db → Option Workflow
  pub insert_workflow : Workflow → S.Db → Option S.Db
  pub elsewhere : ℕ → S.World → S.Db → S.Db
  pub duplicate_key : String  -- the message of the database's error
  pub set_nx : (key token : String) (ttl_seconds : ℕ) → S.World → Bool × S.World
  pub get : String → S.World → Option (Option String)
  pub del : String → S.World → Bool × S.World

pub record StartRequest : Type 0 where
  pub type : String
  pub input : Fields
  pub user_id : Option String
  pub wallet_address : Option String
  pub context : Option Fields

abbrev pub is_given {ℓ} : {A : Type ℓ} → Option A → Bool
is_given none = false
is_given (some a) = true

-- `userId || 'anonymous'`.
abbrev pub user_or_anonymous : Option String → String
user_or_anonymous none = "anonymous"
user_or_anonymous (some u) = if str_eq u "" then "anonymous" else u

unfoldable pub get_workflow_lock_key : String → String
get_workflow_lock_key idempotency_key = "workflow:lock:" ++ idempotency_key

unfoldable pub new_workflow :
    {W : Type 0} → (id key : String) → StartRequest → WorkflowDefinition W → Workflow
new_workflow id key r definition = record {
  id = id;
  idempotency_key = key;
  type = r.type;
  state = WorkflowState.pending;
  user_id = r.user_id;
  wallet_address = r.wallet_address;
  input = r.input;
  output = none;
  context = r.context;
  current_step_index = 0;
  total_steps = length definition.steps;
  started_at = none;
  completed_at = none;
  failed_at = none;
  failure_reason = none;
  retry_count = 0;
  max_retries = or_default definition.max_retries 3;
  next_retry_at = none;
  requires_compensation = get_or definition.requires_compensation false;
  is_compensated = false;
}

unfoldable pub new_step :
    {W : Type 0} → (id workflow_id : String) → ℕ → StepDefinition W → WorkflowStep
new_step id workflow_id index d = record {
  id = id;
  workflow_id = workflow_id;
  step_name = d.name;
  step_index = index;
  state = StepState.pending;
  input = none;
  output = none;
  config = d.config;
  retry_count = 0;
  max_retries = or_default d.max_retries 3;
  started_at = none;
  completed_at = none;
  failed_at = none;
  failure_reason = none;
  next_retry_at = none;
  requires_compensation = is_given d.compensate;
  is_compensated = false;
  compensated_at = none;
  compensation_step_name = none;
  compensation_config = none;
  is_idempotent = d.is_idempotent;
  idempotency_key = none;
}

-- `definition.steps.map((stepDef, index) => …)`, from an index on.
unfoldable pub new_steps :
    {W : Type 0}
    → (step_ids : ℕ → String) (workflow_id : String) → ℕ
    → List (StepDefinition W)
    → List WorkflowStep
new_steps step_ids workflow_id index [] = []
new_steps step_ids workflow_id index (d ∷ ds) =
    new_step (step_ids index) workflow_id index d ∷ new_steps step_ids workflow_id (suc index) ds

module _ (S : Services) (G : Starting S) where
  open S use {World, Db, now, sleep, sha256, today, find_workflow, save_step}

  unfoldable pub save_steps : List WorkflowStep → Db → Db
  save_steps [] d = d
  save_steps (s ∷ ss) d = save_steps ss (save_step s d)

  unfoldable pub acquire_workflow_lock : (lock_key token : String) → M (State S) Bool
  acquire_workflow_lock lock_key token st =
      let (acquired, after) = G.set_nx lock_key token 3600 st.world in
      (Outcome.ok acquired, record st { world = after })

  abbrev pub is_token : String → Option String → Bool
  is_token token none = false
  is_token token (some t) = str_eq t token

  -- What follows GET. The error of a GET or a DEL is only logged.
  unfoldable pub release_if_own :
      (lock_key token : String) → Option (Option String) → M (State S) (Unit {0})
  release_if_own lock_key token none = pure tt
  release_if_own lock_key token (some current) =
      if is_token token current
      then modify (λ st. record st { world = (G.del lock_key st.world).1 })
      else pure tt

  unfoldable pub release_workflow_lock : (lock_key token : String) → M (State S) (Unit {0})
  release_workflow_lock lock_key token st =
      release_if_own lock_key token (G.get lock_key st.world) st

  -- A turn of the loop of waitForWorkflow, once the row is looked up.
  unfoldable pub wait_after :
      Option Workflow → M (State S) (Option Workflow) → ℕ → M (State S) (Option Workflow)
  wait_after (some w) rest interval_ms = pure (some w)
  wait_after none rest interval_ms = do
    modify λ st. record st {
      db = G.elsewhere interval_ms st.world st.db;
      world = sleep interval_ms st.world;
    }
    rest

  -- The loop of waitForWorkflow.
  unfoldable pub wait_loop :
      (fuel started_at : ℕ) (key : String) (timeout_ms interval_ms : ℕ)
      → M (State S) (Option Workflow)
  wait_loop zero started_at key timeout_ms interval_ms st = (diverged, st)
  wait_loop (suc fuel) started_at key timeout_ms interval_ms st =
      if ltb (now st.world - started_at) timeout_ms
      then wait_after (G.find_by_key key st.db)
          (wait_loop fuel started_at key timeout_ms interval_ms) interval_ms st
      else (Outcome.ok none, st)

  unfoldable pub wait_for_workflow :
      (fuel : ℕ) (key : String) (timeout_ms interval_ms : ℕ) → M (State S) (Option Workflow)
  wait_for_workflow fuel key timeout_ms interval_ms = do
    started_at ← gets λ st. now st.world
    wait_loop fuel started_at key timeout_ms interval_ms

  unfoldable pub with_object : Outcome (Unit {0}) → Workflow → M (State S) Workflow
  with_object (Outcome.ok _) object st = (Outcome.ok object, st)
  with_object (Outcome.throw e) object st = (Outcome.throw e, st)
  with_object diverged object st = (diverged, st)

  -- executeWorkflow on the saved object, which it changes.
  unfoldable pub execute_saved : Definitions World → Workflow → M (State S) Workflow
  execute_saved definitions w st =
      let (result, after) =
        execute_workflow S definitions (record { db = st.db; world = st.world; workflow = w }) in
      with_object result after.workflow (record { db = after.db; world = after.world })

  unfoldable pub insert_result : Option Db → M (State S) (Unit {0})
  insert_result none st = (Outcome.throw (error G.duplicate_key), st)
  insert_result (some d) st = (Outcome.ok tt, record st { db = d })

  unfoldable pub insert_or_throw : Workflow → M (State S) (Unit {0})
  insert_or_throw w st = insert_result (G.insert_workflow w st.db) st

  -- The body of the `try`, with the lock held.
  unfoldable pub create_and_execute :
      Definitions World
      → WorkflowDefinition World
      → (key : String) → StartRequest
      → (id : String) (step_ids : ℕ → String) → M (State S) Workflow
  create_and_execute definitions definition key r id step_ids = do
    let w : Workflow = new_workflow id key r definition
    insert_or_throw w
    modify λ st. record st { db = save_steps (new_steps step_ids id 0 definition.steps) st.db }
    saved ← execute_saved definitions w
    found ← gets λ st. find_workflow id st.db
    pure (get_or found saved)

  -- `try { m } finally { f }`, where `f` does not throw. It is not reached where `m` does not end.
  unfoldable pub finally_run :
      M (State S) (Unit {0}) → Outcome Workflow × State S → Outcome Workflow × State S
  finally_run f (Outcome.ok w, after) = (Outcome.ok w, (f after).1)
  finally_run f (Outcome.throw e, after) = (Outcome.throw e, (f after).1)
  finally_run f (diverged, after) = (diverged, after)

  unfoldable pub finally : M (State S) Workflow → M (State S) (Unit {0}) → M (State S) Workflow
  finally m f st = finally_run f (m st)

  unfoldable pub start_waiting : (key : String) → M (State S) Workflow
  start_waiting key = do
    found ← wait_for_workflow 51 key 5000 100
    elim found [
      | some w ↦ pure w
      | none ↦ raise (error ("Workflow already being processed for idempotency key: " ++ key))
    ]

  -- startWorkflow, once the row with the key is looked up.
  unfoldable pub start_with_key :
      Definitions World
      → WorkflowDefinition World
      → (key : String) → StartRequest
      → (id token : String) (step_ids : ℕ → String) → Option Workflow
      → M (State S) Workflow
  start_with_key definitions definition key r id token step_ids (some existing) = pure existing
  start_with_key definitions definition key r id token step_ids none = do
    acquired ← acquire_workflow_lock (get_workflow_lock_key key) token
    (if acquired
        then finally (create_and_execute definitions definition key r id step_ids)
            (release_workflow_lock (get_workflow_lock_key key) token)
        else start_waiting key)

  unfoldable pub start_defined :
      Definitions World
      → StartRequest
      → (id token : String) (step_ids : ℕ → String) → Option (WorkflowDefinition World)
      → M (State S) Workflow
  start_defined definitions r id token step_ids none st =
      (Outcome.throw (error ("Workflow definition not found for type: " ++ r.type)), st)
  start_defined definitions r id token step_ids (some definition) st =
      let key : String =
        generate_workflow_idempotency_key sha256 (today st.world) r.type
          (user_or_anonymous r.user_id) r.input r.context in
      start_with_key definitions definition key r id token step_ids (G.find_by_key key st.db) st

  unfoldable pub start_workflow :
      Definitions World
      → StartRequest
      → (id token : String) (step_ids : ℕ → String) → M (State S) Workflow
  start_workflow definitions r id token step_ids =
      start_defined definitions r id token step_ids (get_workflow_definition r.type definitions)
