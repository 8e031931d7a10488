-- ===== src/Voice/Quota/Keys.antt =====
-- The Redis client as the quotas use it: numbers under keys that can expire. Each operation's last
-- number is the time.
pub mod Memory
use Prim.Native.String.{String, ◌++◌}
use xlm_pay.Base.{ℕ, ◌+◌, ◌≡◌, ◌≢◌, ◌≤◌, Option, none, some, List, get_or, false}
use xlm_pay.Voice.Sessions.Stores.{among}

pub record Numbers : Type 1 where
  pub Db : Type 0
  pub get : String → ℕ → Db → Option ℕ
  pub incr : String → ℕ → Db → ℕ × Db
  pub expire : String → ℕ → ℕ → Db → Db
  pub set_ex : String → ℕ → ℕ → ℕ → Db → Db
  pub del : String → Db → Db
  -- KEYS, of the keys that begin with a text.
  pub keys : String → ℕ → Db → List String

pub record Laws (N : Numbers) : Type 0 where
  pub get-later :
      (k : String) (t u : ℕ) (d : N.Db) (n : ℕ)
      → t ≤ u
      → N.get k u d ≡ some n
      → N.get k t d ≡ some n
  pub get-incr :
      (k : String) (t u : ℕ) (d : N.Db)
      → t ≤ u
      → get_or (N.get k u (N.incr k t d).1) 0 ≤ get_or (N.get k t d) 0 + 1
  pub get-incr_other :
      (j k : String) (t u : ℕ) (d : N.Db) → j ≢ k → N.get j u (N.incr k t d).1 ≡ N.get j u d
  -- EXPIRE changes no number that is still there.
  pub get-expire :
      (j k : String) (n t u : ℕ) (d : N.Db)
      → t ≤ u
      → get_or (N.get j u (N.expire k n t d)) 0 ≤ get_or (N.get j t d) 0
  pub get-del : (k : String) (t : ℕ) (d : N.Db) → N.get k t (N.del k d) ≡ none
  pub get-del_other :
      (j k : String) (t : ℕ) (d : N.Db) → j ≢ k → N.get j t (N.del k d) ≡ N.get j t d
  pub keys-all :
      (p s : String) (t : ℕ) (d : N.Db)
      → among (p ++ s) (N.keys p t d) ≡ false
      → N.get (p ++ s) t d ≡ none
