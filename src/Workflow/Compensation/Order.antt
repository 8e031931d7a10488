-- ===== src/Workflow/Compensation/Order.antt =====
-- Which steps are compensated, and in which order.
use mathlib.Core.List.{Perm}
use mathlib.Core.List.Perm
use xlm_pay.Base.{
  ℕ, ◌≤◌, ◌≡◌, refl, ◌∙◌, Bool, true, ◌&&◌, List, [], ◌∷◌, All, any, filter, leb, arith, Bool-cases,
  inl, inr,
}
use xlm_pay.Workflow.Entities.{WorkflowStep}
use xlm_pay.Workflow.Compensation.{needs_compensation, insert_step, sort_steps, compensation_order}

-- Later steps come first.
abbrev pub IsDescending : List WorkflowStep → Type 0
IsDescending [] = Unit
IsDescending (s ∷ ss) = All (λ t. t.step_index ≤ s.step_index) ss × IsDescending ss

All-le_trans :
    (m n : ℕ) (ss : List WorkflowStep)
    → m ≤ n
    → All (λ t. t.step_index ≤ m) ss
    → All (λ t. t.step_index ≤ n) ss
All-le_trans m n [] h a = tt
All-le_trans m n (s ∷ ss) h a = (omega arith, All-le_trans m n ss h a.1)

All-insert {ℓ} :
    (P : WorkflowStep → Type ℓ) (s : WorkflowStep) (ss : List WorkflowStep)
    → P s
    → All P ss
    → All P (insert_step s ss)
unfolding insert_step
All-insert P s [] h a = (h, tt)
All-insert P s (t ∷ ts) h a = elim (Bool-cases (leb t.step_index s.step_index)) [
  | inl e ↦ rw e (h, a)
  | inr e ↦ rw e (a.0, All-insert P s ts h a.1)
]

insert_step-IsDescending :
    (s : WorkflowStep) (ss : List WorkflowStep) → IsDescending ss → IsDescending (insert_step s ss)
unfolding insert_step
insert_step-IsDescending s [] d = (tt, tt)
insert_step-IsDescending s (t ∷ ts) d = ground (
  arith,
  insert_step-IsDescending s ts d.1,
  All-insert (λ r. r.step_index ≤ t.step_index) s ts,
  All-le_trans t.step_index s.step_index ts,
)

sort_steps-IsDescending : (ss : List WorkflowStep) → IsDescending (sort_steps ss)
unfolding sort_steps
sort_steps-IsDescending [] = tt
sort_steps-IsDescending (s ∷ ss) =
    insert_step-IsDescending s (sort_steps ss) (sort_steps-IsDescending ss)

insert_step-perm : (s : WorkflowStep) (ss : List WorkflowStep) → Perm (insert_step s ss) (s ∷ ss)
unfolding insert_step
insert_step-perm s [] = Perm.refl (s ∷ [])
insert_step-perm s (t ∷ ts) = elim (Bool-cases (leb t.step_index s.step_index)) [
  | inl h ↦ rw h (Perm.refl (s ∷ t ∷ ts))
  | inr h ↦ rw h (Perm.trans (Perm.cons t (insert_step-perm s ts)) (Perm.swap s t ts))
]

sort_steps-perm : (ss : List WorkflowStep) → Perm (sort_steps ss) ss
unfolding sort_steps
sort_steps-perm [] = Perm.refl []
sort_steps-perm (s ∷ ss) =
    Perm.trans (insert_step-perm s (sort_steps ss)) (Perm.cons s (sort_steps-perm ss))

-- The steps to compensate are, each once, the completed steps that need it, the later ones first.
pub compensation_order_lem :
    (steps : List WorkflowStep)
    → Perm (compensation_order steps) (filter needs_compensation steps)
      × IsDescending (compensation_order steps)
unfolding compensation_order
compensation_order_lem steps = (
  sort_steps-perm (filter needs_compensation steps),
  sort_steps-IsDescending (filter needs_compensation steps),
)

any-insert_step :
    (p : WorkflowStep → Bool) (s : WorkflowStep) (ss : List WorkflowStep)
    → any p (insert_step s ss) ≡ any p (s ∷ ss)
unfolding insert_step
any-insert_step p s [] = refl
any-insert_step p s (t ∷ ts) = ground (arith, any-insert_step p s ts)

any-sort_steps :
    (p : WorkflowStep → Bool) (ss : List WorkflowStep) → any p (sort_steps ss) ≡ any p ss
unfolding sort_steps
any-sort_steps p [] = refl
any-sort_steps p (s ∷ ss) = ground (arith, any-insert_step p s (sort_steps ss), any-sort_steps p ss)

any-filter :
    (p : WorkflowStep → Bool) (ss : List WorkflowStep)
    → any p (filter needs_compensation ss) ≡ any (λ s. needs_compensation s && p s) ss
any-filter p [] = refl
any-filter p (s ∷ ss) = ground (arith, any-filter p ss)

-- A test holds of a step to compensate exactly if it holds of a loaded one that needs it.
pub any-compensation_order :
    (p : WorkflowStep → Bool) (ss : List WorkflowStep)
    → any p (compensation_order ss) ≡ any (λ s. needs_compensation s && p s) ss
unfolding compensation_order
any-compensation_order p ss = any-sort_steps p (filter needs_compensation ss) ∙ any-filter p ss

-- A property of the loaded steps is one of the steps to compensate.
All-order {ℓ} :
    (P : WorkflowStep → Type ℓ) (ss : List WorkflowStep)
    → All P ss
    → All (λ s. P s × (needs_compensation s ≡ true)) (sort_steps (filter needs_compensation ss))
unfolding sort_steps
All-order P [] a = tt
All-order P (s ∷ ss) a = elim (Bool-cases (needs_compensation s)) [
  | inl e ↦
      rw e (All-insert (λ s. P s × (needs_compensation s ≡ true)) s _ (a.0, e) (All-order P ss a.1))
  | inr e ↦ rw e (All-order P ss a.1)
]

pub All-compensation_order {ℓ} :
    (P : WorkflowStep → Type ℓ) (ss : List WorkflowStep)
    → All P ss
    → All (λ s. P s × (needs_compensation s ≡ true)) (compensation_order ss)
unfolding compensation_order
All-compensation_order P ss a = All-order P ss a
