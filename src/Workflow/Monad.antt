-- ===== src/Workflow/Monad.antt =====
-- Asynchronous code that may throw: from a state to an outcome and a state. What was written before
-- an exception stays written.
pub mod Halts
pub mod Keeps
use xlm_pay.Base.{String, Option, none, some}
use xlm_pay.Workflow.Services.{Services}
use xlm_pay.Workflow.Entities.{Workflow}

-- The instances of `Error` that the code tells apart, with their messages.
pub data Error : Type 0 where
  workflow_timeout_error : String → Error
  error : String → Error

abbrev pub message : Error → String
message (workflow_timeout_error m) = m
message (error m) = m

-- `diverged` is a run that does not come to an end: one that awaits a promise which never settles, or
-- a loop that has run out of the fuel it was given.
pub data Outcome {ℓ} (A : Type ℓ) : Type ℓ where
  ok : A → Outcome A
  throw : Error → Outcome A
  diverged : Outcome A

-- The database and the rest of the world.
pub record State (S : Services) : Type 0 where
  pub db : S.Db
  pub world : S.World

-- These, and the object `workflow` that the methods share by reference.
pub record Running (S : Services) : Type 0 where
  pub db : S.Db
  pub world : S.World
  pub workflow : Workflow

abbrev pub M {ℓ} : Type 0 → Type ℓ → Type ℓ
M St A = St → Outcome A × St

abbrev pub pure {ℓ} : {St : Type 0} {A : Type ℓ} → A → M St A
pure a s = (ok a, s)

abbrev pub raise {ℓ} : {St : Type 0} {A : Type ℓ} → Error → M St A
raise e s = (throw e, s)

abbrev pub modify : {St : Type 0} → (St → St) → M St (Unit {0})
modify f s = (ok tt, f s)

abbrev pub gets {ℓ} : {St : Type 0} {A : Type ℓ} → (St → A) → M St A
gets f s = (ok (f s), s)

-- What follows a run in a given outcome and state.
abbrev pub continue {ℓ κ} :
    {St : Type 0} {A : Type ℓ} {B : Type κ} → (A → M St B) → Outcome A × St → Outcome B × St
continue f (ok a, s) = f a s
continue f (throw e, s) = (throw e, s)
continue f (diverged, s) = (diverged, s)

infixl 5 ◌>>=◌ ◌>>◌
abbrev pub ◌>>=◌ {ℓ κ} : {St : Type 0} {A : Type ℓ} {B : Type κ} → M St A → (A → M St B) → M St B
◌>>=◌ m f s = continue f (m s)

abbrev pub ◌>>◌ {ℓ} : {St : Type 0} {B : Type ℓ} → M St (Unit {0}) → M St B → M St B
m >> k = m >>= λ _. k

-- `try { m } catch (error) { h }`.
abbrev pub handle {ℓ} :
    {St : Type 0} {A : Type ℓ} → (Error → M St A) → Outcome A × St → Outcome A × St
handle h (ok a, s) = (ok a, s)
handle h (throw e, s) = h e s
handle h (diverged, s) = (diverged, s)

abbrev pub try_catch {ℓ} : {St : Type 0} {A : Type ℓ} → M St A → (Error → M St A) → M St A
try_catch m h s = handle h (m s)

-- `if (!transition.success) throw new Error(prefix + transition.error)`.
abbrev pub require : {St : Type 0} → Option String → (String → Error) → M St (Unit {0})
require none e = pure tt
require (some m) e = raise (e m)
