-- ===== src/Base/Json.antt =====
-- The values of `Record<string, any>`: JSON, its objects in the order of their fields.
-- Numbers are the natural numbers.
use Prim.Native.String.{String}
use xlm_pay.Base.{ℕ, Bool, true, false, not, Option, none, some, str_eq, ◌==◌, if◌then◌else◌}

mutual
  pub data Json : Type 0 where
    null : Json
    bool : Bool → Json
    num : ℕ → Json
    str : String → Json
    arr : Items → Json
    obj : Fields → Json

  pub data Items : Type 0 where
    nil : Items
    cons : Json → Items → Items

  pub data Fields : Type 0 where
    end : Fields
    field : String → Json → Fields → Fields

-- `Boolean(v)`.
unfoldable pub truthy : Json → Bool
truthy null = false
truthy (bool b) = b
truthy (num n) = not (n == 0)
truthy (str s) = not (str_eq s "")
truthy (arr xs) = true
truthy (obj fs) = true

-- `o[k] = v`.
unfoldable pub set_field : String → Json → Fields → Fields
set_field k v end = field k v end
set_field k v (field j w fs) = if str_eq j k then field k v fs else field j w (set_field k v fs)

unfoldable pub get_field : String → Fields → Option Json
get_field k end = none
get_field k (field j w fs) = if str_eq j k then some w else get_field k fs
