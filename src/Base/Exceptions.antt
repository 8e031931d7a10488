-- ===== src/Base/Exceptions.antt =====
-- Asynchronous code over a state that may throw an error with a message. What was written before an
-- exception stays written.
pub mod Preserves
use xlm_pay.Base.{String, Option, none, some}

pub data Result {ℓ} (A : Type ℓ) : Type ℓ where
  ok : A → Result A
  throw : String → Result A

abbrev pub Action {ℓ} : Type 0 → Type ℓ → Type ℓ
Action St A = St → Result A × St

abbrev pub pure {ℓ} : {St : Type 0} {A : Type ℓ} → A → Action St A
pure a s = (ok a, s)

abbrev pub raise {ℓ} : {St : Type 0} {A : Type ℓ} → String → Action St A
raise e s = (throw e, s)

abbrev pub gets {ℓ} : {St : Type 0} {A : Type ℓ} → (St → A) → Action St A
gets f s = (ok (f s), s)

abbrev pub modify : {St : Type 0} → (St → St) → Action St (Unit {0})
modify f s = (ok tt, f s)

-- A value that must be there.
abbrev pub or_raise {ℓ} : {St : Type 0} {A : Type ℓ} → Option A → String → Action St A
or_raise none e s = (throw e, s)
or_raise (some a) e s = (ok a, s)

-- What follows an outcome.
abbrev pub then_run {ℓ κ} :
    {St : Type 0} {A : Type ℓ} {B : Type κ} → (A → Action St B) → Result A × St → Result B × St
then_run f (ok a, s) = f a s
then_run f (throw e, s) = (throw e, s)

abbrev pub recover {ℓ} :
    {St : Type 0} {A : Type ℓ} → (String → Action St A) → Result A × St → Result A × St
recover h (ok a, s) = (ok a, s)
recover h (throw e, s) = h e s

infixl 5 ◌>>=◌ ◌>>◌
abbrev pub ◌>>=◌ {ℓ κ} :
    {St : Type 0} {A : Type ℓ} {B : Type κ} → Action St A → (A → Action St B) → Action St B
◌>>=◌ m f s = then_run f (m s)

abbrev pub ◌>>◌ {ℓ κ} :
    {St : Type 0} {A : Type κ} {B : Type ℓ} → Action St A → Action St B → Action St B
m >> k = m >>= λ _. k

-- `try { m } catch (error) { h }`.
abbrev pub try_catch {ℓ} :
    {St : Type 0} {A : Type ℓ} → Action St A → (String → Action St A) → Action St A
try_catch m h s = recover h (m s)
