-- ===== src/Workflow/Monad/Keeps.antt =====
-- Runs that keep a property of the state, however they end.
use xlm_pay.Base.{String, Option, none, some, Bool, true, false, if◌then◌else◌}
use xlm_pay.Workflow.Monad.{
  M, Outcome, ok, throw, diverged, Error, continue, handle, require, pure, raise, gets, modify,
  ◌>>=◌, try_catch,
}

module _ {St : Type 0} (P : St → Type 0) where
  -- From every state that has the property the run ends in one.
  unfoldable pub Keeps {ℓ} : {A : Type ℓ} → M St A → Type 0
  Keeps m = (s : St) → P s → P (m s).1

  pub pure-Keeps {ℓ} : {A : Type ℓ} (a : A) → Keeps (pure a)
  unfolding Keeps
  pure-Keeps a s h = h

  pub raise-Keeps {ℓ} : (A : Type ℓ) (e : Error) → Keeps {A = A} (raise e)
  unfolding Keeps
  raise-Keeps A e s h = h

  pub gets-Keeps {ℓ} : {A : Type ℓ} (f : St → A) → Keeps (gets f)
  unfolding Keeps
  gets-Keeps f s h = h

  pub modify-Keeps : (f : St → St) → ((s : St) → P s → P (f s)) → Keeps (modify f)
  unfolding Keeps
  modify-Keeps f k s h = k s h

  pub require-Keeps : (o : Option String) (f : String → Error) → Keeps (require o f)
  unfolding Keeps
  require-Keeps none f s h = h
  require-Keeps (some m) f s h = h

  pub if-Keeps {ℓ} :
      {A : Type ℓ} (b : Bool) (m n : M St A) → Keeps m → Keeps n → Keeps (if b then m else n)
  if-Keeps true m n hm hn = hm
  if-Keeps false m n hm hn = hn

  pub bind-Keeps {ℓ κ} :
      {A : Type ℓ} {B : Type κ} (m : M St A) (f : A → M St B)
      → Keeps m
      → ((a : A) → Keeps (f a))
      → Keeps (m >>= f)
  unfolding Keeps
  bind-Keeps m f hm hf s h = go (m s) (hm s h)
    where
      go : (r : Outcome _ × St) → P r.1 → P (continue f r).1
      go (ok a, t) w = hf a t w
      go (throw e, t) w = w
      go (diverged, t) w = w

  pub catch-Keeps {ℓ} :
      {A : Type ℓ} (m : M St A) (f : Error → M St A)
      → Keeps m
      → ((e : Error) → Keeps (f e))
      → Keeps (try_catch m f)
  unfolding Keeps
  catch-Keeps m f hm hf s h = go (m s) (hm s h)
    where
      go : (r : Outcome _ × St) → P r.1 → P (handle f r).1
      go (ok a, t) w = w
      go (throw e, t) w = hf e t w
      go (diverged, t) w = w
