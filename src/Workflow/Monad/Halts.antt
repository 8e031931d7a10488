-- ===== src/Workflow/Monad/Halts.antt =====
-- Runs that come to an end: no loop in them runs out of fuel.
use xlm_pay.Base.{refl, ◌≢◌, String, Option, none, some}
use xlm_pay.Workflow.Monad.{
  M, Outcome, ok, throw, diverged, Error, continue, handle, ◌>>=◌, try_catch, require,
}

-- From every state the run comes to an end.
abbrev pub Halts {ℓ} : {St : Type 0} {A : Type ℓ} → M St A → Type ℓ
Halts {St = St} m = (s : St) → (m s).0 ≢ diverged

pub continue-Halts {ℓ κ} :
    {St : Type 0} {A : Type ℓ} {B : Type κ} (f : A → M St B) (r : Outcome A × St)
    → r.0 ≢ diverged
    → ((a : A) → Halts (f a))
    → (continue f r).0 ≢ diverged
continue-Halts f (ok a, s) h k = k a s
continue-Halts f (throw e, s) h k = λ p. cc
continue-Halts f (diverged, s) h k = absurd (h refl)

pub handle-Halts {ℓ} :
    {St : Type 0} {A : Type ℓ} (f : Error → M St A) (r : Outcome A × St)
    → r.0 ≢ diverged
    → ((e : Error) → Halts (f e))
    → (handle f r).0 ≢ diverged
handle-Halts f (ok a, s) h k = h
handle-Halts f (throw e, s) h k = k e s
handle-Halts f (diverged, s) h k = absurd (h refl)

pub >>=-Halts {ℓ κ} :
    {St : Type 0} {A : Type ℓ} {B : Type κ} (m : M St A) (f : A → M St B)
    → Halts m
    → ((a : A) → Halts (f a))
    → Halts (m >>= f)
>>=-Halts m f h k s = continue-Halts f (m s) (h s) k

pub try_catch-Halts {ℓ} :
    {St : Type 0} {A : Type ℓ} (m : M St A) (f : Error → M St A)
    → Halts m
    → ((e : Error) → Halts (f e))
    → Halts (try_catch m f)
try_catch-Halts m f h k s = handle-Halts f (m s) (h s) k

pub require-Halts :
    {St : Type 0} (o : Option String) (f : String → Error) → Halts (require {St = St} o f)
require-Halts none f s = λ p. cc
require-Halts (some m) f s = λ p. cc
