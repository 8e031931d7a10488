-- ===== src/Workflow/Compensation/Outline.antt =====
-- The rows of a workflow's steps as far as a compensation is concerned, and what saves do to them.
use Prim.Native.String.{String}
use xlm_pay.Base.{
  ◌≡◌, refl, Bool, true, List, [], ◌∷◌, map, any, arith, str_eq, eq_iff, if◌then◌else◌,
}
use xlm_pay.Workflow.Entities.{WorkflowStep}
use xlm_pay.Workflow.Services.{replace, has_row}
use xlm_pay.Workflow.StateMachine.{StepState}

-- Of a step: its id, its state, and whether it is marked as compensated.
pub record Outline : Type 0 where
  pub id : String
  pub state : StepState
  pub is_compensated : Bool

abbrev pub outline : WorkflowStep → Outline
outline s = record { id = s.id; state = s.state; is_compensated = s.is_compensated }

-- The outline of a row once the steps `todo` are compensated.
abbrev pub settle : List WorkflowStep → Outline → Outline
settle todo o =
    if any (λ s. str_eq o.id s.id) todo
    then record o { state = StepState.compensated; is_compensated = true }
    else o

abbrev pub listed : String → List Outline → Bool
listed i = any λ o. str_eq o.id i

-- Saving a row, as the outlines show it.
abbrev pub put : WorkflowStep → Outline → Outline
put s o = if str_eq o.id s.id then outline s else o

pub outlines-replace :
    (s : WorkflowStep) (rows : List WorkflowStep)
    → map outline (replace s rows) ≡ map (put s) (map outline rows)
outlines-replace s [] = refl
outlines-replace s (r ∷ rows) = ground (arith, outlines-replace s rows)

pub listed-has_row :
    (i : String) (rows : List WorkflowStep) → has_row i rows ≡ listed i (map outline rows)
listed-has_row i [] = refl
listed-has_row i (r ∷ rows) = ground (arith, listed-has_row i rows)

pub put-put :
    (s t u : WorkflowStep) (os : List Outline)
    → t.id ≡ s.id
    → u.id ≡ s.id
    → u.state ≡ StepState.compensated
    → u.is_compensated ≡ true
    → map (put u) (map (put t) os) ≡ map (settle (s ∷ [])) os
put-put s t u [] a b c d = refl
put-put s t u (o ∷ os) a b c d = ground (
  arith,
  eq_iff o.id s.id,
  eq_iff o.id t.id,
  eq_iff o.id u.id,
  eq_iff t.id u.id,
  put-put s t u os a b c d,
)

pub listed-settle :
    (i : String) (todo : List WorkflowStep) (os : List Outline)
    → listed i (map (settle todo) os) ≡ listed i os
listed-settle i todo [] = refl
listed-settle i todo (o ∷ os) = ground (arith, listed-settle i todo os)

pub settle-settle :
    (s : WorkflowStep) (todo : List WorkflowStep) (os : List Outline)
    → map (settle todo) (map (settle (s ∷ [])) os) ≡ map (settle (s ∷ todo)) os
settle-settle s todo [] = refl
settle-settle s todo (o ∷ os) = ground (arith, settle-settle s todo os)

pub settle_nil : (os : List Outline) → os ≡ map (settle []) os
settle_nil [] = refl
settle_nil (o ∷ os) = ground (arith, settle_nil os)

pub listed-put :
    (i : String) (s : WorkflowStep) (os : List Outline) → listed i (map (put s) os) ≡ listed i os
listed-put i s [] = refl
listed-put i s (o ∷ os) = ground (arith, eq_iff o.id s.id, listed-put i s os)
