-- ===== src/Voice/Sessions/Stores.antt =====
-- The Redis client as the voice sessions use it, and what they rely on: values and sets under keys
-- that can expire. Each operation's last number is the time in milliseconds; a TTL is in seconds.
pub mod Memory
use xlm_pay.Base.{ℕ, String, ◌≡◌, ◌≢◌, ◌≤◌, Bool, Option, none, some, List, any, str_eq, false}

-- GET, SETEX, DEL, EXPIRE and SCAN of the keys with a prefix.
pub record Values {ℓ} (X : Type ℓ) : Type (ℓ ⊔ 1) where
  pub Db : Type 0
  pub get : String → ℕ → Db → Option X
  pub set_ex : String → ℕ → X → ℕ → Db → Db
  pub del : String → Db → Db
  pub expire : String → ℕ → ℕ → Db → Db
  pub keys : ℕ → Db → List String

-- SADD, SREM, SMEMBERS and EXPIRE.
pub record Sets : Type 1 where
  pub Db : Type 0
  pub add : String → String → ℕ → Db → Db
  pub remove : String → String → ℕ → Db → Db
  pub members : String → ℕ → Db → List String
  pub expire : String → ℕ → ℕ → Db → Db

abbrev pub among : String → List String → Bool
among k = any (λ j. str_eq j k)

pub record ValuesLaws {ℓ} {X : Type ℓ} (V : Values X) : Type ℓ where
  -- What is there was there before, and what is gone does not come back by itself.
  pub get-later :
      (k : String) (t u : ℕ) (d : V.Db) (x : X)
      → t ≤ u
      → V.get k u d ≡ some x
      → V.get k t d ≡ some x
  pub get-set_ex :
      (k : String) (n t u : ℕ) (x y : X) (d : V.Db)
      → t ≤ u
      → V.get k u (V.set_ex k n x t d) ≡ some y
      → y ≡ x
  pub get-set_ex_other :
      (j k : String) (n t u : ℕ) (x : X) (d : V.Db)
      → j ≢ k
      → V.get j u (V.set_ex k n x t d) ≡ V.get j u d
  pub get-del : (k : String) (t : ℕ) (d : V.Db) → V.get k t (V.del k d) ≡ none
  pub get-del_other :
      (j k : String) (t : ℕ) (d : V.Db) → j ≢ k → V.get j t (V.del k d) ≡ V.get j t d
  -- A scan names every key that is there.
  pub keys-all : (k : String) (t : ℕ) (d : V.Db) → among k (V.keys t d) ≡ false → V.get k t d ≡ none
