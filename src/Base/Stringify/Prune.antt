-- ===== src/Base/Stringify/Prune.antt =====
-- What `JSON.stringify(value, keys)` leaves out.
use Prim.Native.String.{String, ◌++◌}
use xlm_pay.Base.{
  ◌≡◌, refl, ap, Bool, true, List, [], ◌∷◌, arith, str_eq, eq_iff, any, if◌then◌else◌,
}
use xlm_pay.Base.Json.{Json, Items, Fields, null, bool, num, str, arr, obj, nil, cons, end, field}
use xlm_pay.Base.Stringify.{stringify, stringify_items, stringify_fields, pick, lookup, join}

abbrev pub listed : List String → String → Bool
listed ks k = any (λ j. str_eq k j) ks

-- The value with the unlisted fields of its objects left out, at every depth.
unfoldable mutual
  pub prune : List String → Json → Json
  prune ks null = null
  prune ks (bool b) = bool b
  prune ks (num n) = num n
  prune ks (str s) = str s
  prune ks (arr xs) = arr (prune_items ks xs)
  prune ks (obj fs) = obj (prune_fields ks fs)

  pub prune_items : List String → Items → Items
  prune_items ks nil = nil
  prune_items ks (cons x xs) = cons (prune ks x) (prune_items ks xs)

  pub prune_fields : List String → Fields → Fields
  prune_fields ks end = end
  prune_fields ks (field k v fs) =
      if listed ks k then field k (prune ks v) (prune_fields ks fs) else prune_fields ks fs

pick_agree :
    (js : List String) (m n : List (String × String))
    → ((k : String) → listed js k ≡ true → lookup k m ≡ lookup k n)
    → pick js m ≡ pick js n
unfolding pick
pick_agree [] m n h = refl
pick_agree (j ∷ js) m n h =
    ground (arith, h j (ground (arith, eq_iff j j)), pick_agree js m n (λ k e. h k (ground arith)))

lookup-field :
    (ks : List String) (k j : String) (v : Json) (fs : Fields)
    → listed ks k ≡ true
    → stringify ks (prune ks v) ≡ stringify ks v
    → lookup k (stringify_fields ks (prune_fields ks fs)) ≡ lookup k (stringify_fields ks fs)
    → lookup k (stringify_fields ks (prune_fields ks (field j v fs)))
      ≡ lookup k (stringify_fields ks (field j v fs))
unfolding lookup stringify_fields prune_fields
lookup-field ks k j v fs h p q = ground (arith, eq_iff j k)

mutual
  unfolding stringify prune

  stringify-prune : (ks : List String) (j : Json) → stringify ks (prune ks j) ≡ stringify ks j
  stringify-prune ks null = refl
  stringify-prune ks (bool b) = refl
  stringify-prune ks (num n) = refl
  stringify-prune ks (str s) = refl
  stringify-prune ks (arr xs) = ap (λ l. "[" ++ (join l ++ "]")) (stringify_items-prune ks xs)
  stringify-prune ks (obj fs) =
      ap (λ l. "{" ++ (join l ++ "}")) (pick_agree ks _ _ (λ k h. lookup-prune ks fs k h))

  stringify_items-prune :
      (ks : List String) (xs : Items)
      → stringify_items ks (prune_items ks xs) ≡ stringify_items ks xs
  stringify_items-prune ks nil = refl
  stringify_items-prune ks (cons x xs) = cc (stringify-prune ks x, stringify_items-prune ks xs)

  lookup-prune :
      (ks : List String) (fs : Fields) (k : String)
      → listed ks k ≡ true
      → lookup k (stringify_fields ks (prune_fields ks fs)) ≡ lookup k (stringify_fields ks fs)
  lookup-prune ks end k h = refl
  lookup-prune ks (field j v fs) k h =
      lookup-field ks k j v fs h (stringify-prune ks v) (lookup-prune ks fs k h)

pub stringify-prune_lem : (ks : List String) (j : Json) → stringify ks (prune ks j) ≡ stringify ks j
stringify-prune_lem ks j = stringify-prune ks j
