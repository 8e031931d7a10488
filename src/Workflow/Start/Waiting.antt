-- ===== src/Workflow/Start/Waiting.antt =====
-- The wait of startWorkflow for a row that another worker creates.
use xlm_pay.Base.{
  ℕ, zero, suc, String, ◌+◌, ◌-◌, ◌*◌, ◌≤◌, ◌≢◌, Option, none, some, arith, ltb, Bool-cases, inl,
  inr,
}
use xlm_pay.Workflow.Entities.{Workflow}
use xlm_pay.Workflow.Services.{Services}
use xlm_pay.Workflow.Monad.{State, M, diverged}
use xlm_pay.Workflow.Start.{Starting, wait_loop, wait_after, wait_for_workflow}

module _ (S : Services) (G : Starting S) where
  wait_loop-ends :
      (fuel started_at : ℕ) (key : String) (timeout_ms interval_ms : ℕ)
      → ((n : ℕ) (w : S.World) → S.now w + n ≤ S.now (S.sleep n w))
      → (st : State S) → started_at ≤ S.now st.world
      → timeout_ms ≤ (S.now st.world - started_at) + interval_ms * fuel
      → (wait_loop S G (suc fuel) started_at key timeout_ms interval_ms st).0 ≢ diverged
  unfolding wait_loop wait_after
  wait_loop-ends zero started_at key timeout_ms interval_ms clock st since enough =
      elim (Bool-cases (ltb (S.now st.world - started_at) timeout_ms)) [
        | inr e ↦ rw e (λ p. cc)
        | inl e ↦ absurd (ground (arith, e, enough))
      ]
  wait_loop-ends (suc fuel) started_at key timeout_ms interval_ms clock st since enough =
      elim (Bool-cases (ltb (S.now st.world - started_at) timeout_ms)) [
        | inr e ↦ rw e (λ p. cc)
        | inl e ↦ rw e (
            found (G.find_by_key key st.db) (
              wait_loop-ends fuel started_at key timeout_ms interval_ms clock _
                (omega (arith, since, clock interval_ms st.world))
                (omega (arith, since, clock interval_ms st.world, enough))))
      ]
    where
      again : M (State S) (Option Workflow)
      again = wait_loop S G (suc fuel) started_at key timeout_ms interval_ms

      found :
          (o : Option Workflow)
          → (again (record st {
            db = G.elsewhere interval_ms st.world st.db;
            world = S.sleep interval_ms st.world;
          })).0
            ≢ diverged
          → (wait_after S G o again interval_ms st).0 ≢ diverged
      found (some w) h = λ p. cc
      found none h = h

  -- Where a timer of n milliseconds takes at least n milliseconds of the clock, waiting for another
  -- worker's row 5000 ms at intervals of 100 ms comes to an end within the fuel of 51 turns.
  pub wait_for_workflow-ends :
      (key : String) (st : State S)
      → ((n : ℕ) (w : S.World) → S.now w + n ≤ S.now (S.sleep n w))
      → (wait_for_workflow S G 51 key 5000 100 st).0 ≢ diverged
  unfolding wait_for_workflow
  wait_for_workflow-ends key st clock =
      wait_loop-ends 50 (S.now st.world) key 5000 100 clock st (omega arith) (omega arith)
