-- ===== src/Base/Exceptions/Preserves.antt =====
-- Runs that keep a property of the state, however they end.
use xlm_pay.Base.{String, Bool, true, false, if◌then◌else◌}
use xlm_pay.Base.Exceptions.{
  Result, ok, throw, Action, pure, gets, then_run, recover, ◌>>=◌, try_catch,
}

module _ {St : Type 0} (P : St → Type 0) where
  unfoldable pub Preserves {ℓ} : {A : Type ℓ} → Action St A → Type 0
  Preserves m = (s : St) → P s → P (m s).1

  pub pure-Preserves : Preserves {0} (pure tt)
  unfolding Preserves
  pure-Preserves s h = h

  pub gets-Preserves {ℓ} : {A : Type ℓ} (f : St → A) → Preserves (gets f)
  unfolding Preserves
  gets-Preserves f s h = h

  pub bind-Preserves {ℓ κ} :
      {A : Type ℓ} {B : Type κ} (m : Action St A) (f : A → Action St B)
      → Preserves m
      → ((a : A) → Preserves (f a))
      → Preserves (m >>= f)
  unfolding Preserves
  bind-Preserves m f hm hf s h = go (m s) (hm s h)
    where
      go : (r : Result _ × St) → P r.1 → P (then_run f r).1
      go (ok a, t) w = hf a t w
      go (throw e, t) w = w

  pub catch-Preserves {ℓ} :
      {A : Type ℓ} (m : Action St A) (f : String → Action St A)
      → Preserves m
      → ((e : String) → Preserves (f e))
      → Preserves (try_catch m f)
  unfolding Preserves
  catch-Preserves m f hm hf s h = go (m s) (hm s h)
    where
      go : (r : Result _ × St) → P r.1 → P (recover f r).1
      go (ok a, t) w = w
      go (throw e, t) w = hf e t w

  pub if-Preserves {ℓ} :
      {A : Type ℓ} (b : Bool) (m n : Action St A)
      → Preserves m
      → Preserves n
      → Preserves (if b then m else n)
  if-Preserves true m n hm hn = hm
  if-Preserves false m n hm hn = hn
