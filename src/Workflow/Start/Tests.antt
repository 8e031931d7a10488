-- ===== src/Workflow/Start/Tests.antt =====
-- Runs of startWorkflow with a lock in a store of one key, and an interleaving of three workers.
use xlm_pay.Base.{
  ℕ, String, ◌+◌, ◌≡◌, ◌≢◌, refl, ap, subst, List, Bool, true, false, ◌&&◌, Option, none, some, [],
  ◌∷◌, find, str_eq, eq_iff, arith,
}
use xlm_pay.Base.Json.{end}
use xlm_pay.Workflow.Entities.{Workflow, WorkflowDefinition}
use xlm_pay.Workflow.Services.{Services, Laws}
use xlm_pay.Workflow.Monad.{State, Outcome, diverged, ok, throw}
use xlm_pay.Workflow.Tests.Memory.{Store, memory, memory-Laws}
use xlm_pay.Workflow.Execution.Engine.{
  Definitions, execute_workflow, run_definition, get_workflow_definition, execute_steps,
  execute_step_list,
}
use xlm_pay.Workflow.StateMachine.{
  transition_workflow, can_transition_workflow, workflow_transitions,
}
use xlm_pay.Workflow.Start.{
  Starting, StartRequest, acquire_workflow_lock, finally, finally_run, create_and_execute,
  insert_or_throw, insert_result, execute_saved, with_object, save_steps, new_steps, new_workflow,
  wait_for_workflow, start_with_key, get_workflow_lock_key,
}
use xlm_pay.Workflow.Start.Waiting.{wait_for_workflow-ends}
use xlm_pay.Workflow.Start.Release.{start_with_key-free}
use xlm_pay.Workflow.Start.Keyed.{KeyLaws}
use xlm_pay.Workflow.Start.Keyed.Twice.{start_with_key-again}
use xlm_pay.Workflow.Start.Exclusion.{
  Phase, Workers, Step, Steps, holds, try_acquire, compare_token, finish_release, expire, move,
  steps_exclusive,
}

-- The time, and the value of the lock's key.
record Clock : Type 0 where
  time : ℕ
  value : Option String

abbrev services : Services
services = record {
  World = Clock;
  Db = Store;
  now = λ c. c.time;
  random = λ c. 0;
  sleep = λ ms c. record c { time = c.time + ms };
  sha256 = λ s. s;
  today = λ c. "2025-01-01";
  find_workflow = memory.find_workflow;
  save_workflow = memory.save_workflow;
  find_steps = memory.find_steps;
  load_steps = memory.load_steps;
  save_step = memory.save_step;
}

abbrev set_if_free : String → Clock → Option String → Bool × Clock
set_if_free token c none = (true, record c { value = some token })
set_if_free token c (some t) = (false, c)

abbrev redis : Starting services
redis = record {
  find_by_key = λ k d. find (λ w. str_eq w.idempotency_key k) d.workflows;
  insert_workflow = λ w d. some (record d { workflows = w ∷ d.workflows });
  duplicate_key = "duplicate key value violates unique constraint";
  set_nx = λ k token ttl c. set_if_free token c c.value;
  elsewhere = λ ms c d. d;
  get = λ k c. some c.value;
  del = λ k c. (true, record c { value = none });
}

services-Laws : Laws services
services-Laws = record {
  find_workflow-id = memory-Laws.find_workflow-id;
  find_workflow-save_workflow = memory-Laws.find_workflow-save_workflow;
  find_workflow-save_step = memory-Laws.find_workflow-save_step;
  load_steps-belong = memory-Laws.load_steps-belong;
  load_steps-save_workflow = memory-Laws.load_steps-save_workflow;
  load_steps-save_step = memory-Laws.load_steps-save_step;
  find_steps-belong = memory-Laws.find_steps-belong;
  find_steps-save_workflow = memory-Laws.find_steps-save_workflow;
  find_steps-save_step = memory-Laws.find_steps-save_step;
}

found_by_key :
    (w : Workflow) (ws : List Workflow)
    → find (λ v. str_eq v.idempotency_key w.idempotency_key) (w ∷ ws) ≡ some w
found_by_key w ws = ground (arith, eq_iff w.idempotency_key w.idempotency_key)

same_store : {d e : Store} → some d ≡ some e → d ≡ e
same_store f = cc f

redis-KeyLaws : KeyLaws services redis
redis-KeyLaws = record {
  find_by_key-save_workflow = λ w d e. cc (found_by_key w d.workflows, e);
  find_by_key-save_step = λ k s d. refl;
  find_by_key-insert_workflow = λ w d e f g. cc (
    subst (λ c. redis.find_by_key w.idempotency_key c ≡ some w) (same_store f)
        (found_by_key w d.workflows),
    g,
  );
  find_workflow-insert_workflow = λ w d e f.
      subst (λ c. services.find_workflow w.id c ≡ some w) (same_store f)
        (memory-Laws.find_workflow-save_workflow w d);
}

abbrev nothing_to_do : WorkflowDefinition Clock
nothing_to_do = record {
  type = "demo";
  name = "Demo";
  description = "";
  steps = [];
  max_retries = none;
  timeout = none;
  requires_compensation = none;
  metadata = none;
}

abbrev request : StartRequest
request = record {
  type = "demo";
  input = end;
  user_id = none;
  wallet_address = none;
  context = none;
}

abbrev empty : Option String → State services
empty value = record {
  db = record { workflows = []; steps = λ i. [] };
  world = record { time = 100; value = value };
}

wait_for_workflow-ends_example :
    (wait_for_workflow services redis 51 "k" 5000 100 (empty (some "other"))).0 ≢ diverged
wait_for_workflow-ends_example =
    wait_for_workflow-ends services redis "k" (empty (some "other")) (λ n c. omega arith)

abbrev is_done : {A : Type 0} → Outcome A → Bool
is_done diverged = false
is_done (ok a) = true
is_done (throw e) = true

finished :
    is_done
      (start_with_key services redis
        (nothing_to_do ∷ [])
        nothing_to_do
        "k"
        request
        "w1"
        "t"
        (λ n. "s")
        none
        (empty none)).0
    ≡ true
unfolding start_with_key acquire_workflow_lock finally finally_run create_and_execute
    insert_or_throw insert_result execute_saved with_object execute_workflow run_definition
    get_workflow_definition new_workflow transition_workflow can_transition_workflow
    workflow_transitions execute_steps execute_step_list save_steps new_steps
finished = refl

start_with_key-free_example :
    redis.get
      (get_workflow_lock_key "k")
      (start_with_key services redis
        (nothing_to_do ∷ [])
        nothing_to_do
        "k"
        request
        "w1"
        "t"
        (λ n. "s")
        none
        (empty none)).1.world
    ≢ some (some "t")
start_with_key-free_example =
    start_with_key-free services redis (nothing_to_do ∷ []) nothing_to_do "k" request "w1" "t"
      (λ n. "s") (empty none) (λ k c. (λ p. cc)) (λ k c. refl) refl
      (λ p. cc (ap is_done p, finished))

abbrev after : State services
after =
    (start_with_key services redis (nothing_to_do ∷ []) nothing_to_do "k" request "w1" "t"
      (λ n. "s") none (empty none)).1

start_with_key-again_example :
    (w : Workflow) × ((definitions : Definitions Clock) (definition : WorkflowDefinition Clock)
        (r : StartRequest) (id token : String) (step_ids : ℕ → String)
      → start_with_key services redis definitions definition "k" r id token step_ids
          (redis.find_by_key "k" after.db)
          after
        ≡ (ok w, after))
start_with_key-again_example =
    start_with_key-again services redis services-Laws redis-KeyLaws (nothing_to_do ∷ [])
      nothing_to_do "k" request "w1" "t" (λ n. "s") (empty none)
      (record { workflows = new_workflow "w1" "k" request nothing_to_do ∷ []; steps = λ i. [] })
      refl refl after refl

abbrev idle : Workers
idle = record { lock = none; phase = λ t. Phase.starting }

abbrev a_executes : Workers
a_executes = try_acquire "a" none idle

abbrev b_refused : Workers
b_refused = try_acquire "b" (some "a") a_executes

contention : Steps idle b_refused
unfolding try_acquire move
contention = Steps.step idle a_executes b_refused (Step.acquire "a" idle refl) (
    Steps.step a_executes b_refused b_refused (Step.acquire "b" a_executes refl)
      (Steps.done b_refused))

steps_exclusive_example : ◌≡◌ {A = String} "a" "a"
unfolding holds try_acquire move
steps_exclusive_example = steps_exclusive idle b_refused "a" "a" (λ w. refl) contention refl refl

-- Where the key runs out between the GET and the DEL of a release, the DEL removes the next
-- worker's lock, and a third one executes next to that.
abbrev overtaken : Workers
overtaken =
    try_acquire "c" none
      (finish_release "a" true (try_acquire "b" none (expire (compare_token "a" a_executes))))

overlap : (holds (overtaken.phase "b") && holds (overtaken.phase "c")) ≡ true
unfolding try_acquire move holds finish_release compare_token expire
overlap = refl
