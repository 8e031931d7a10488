-- ===== src/Base/Stringify.antt =====
-- `JSON.stringify(value, keys)`: of each object, at any depth, the fields that `keys` names, in the
-- order of `keys`; and `JSON.stringify(value)`.
pub mod Prune
use Prim.Native.Char.{Char, code}
use Prim.Native.String.{String, ◌++◌, compare}
use package.text.Mathlib.Text.{is_le}
use xlm_pay.Base.{
  ℕ, ◌/◌, ◌%◌, ◌≡◌, refl, Option, none, some, List, [], ◌∷◌, str_eq, ltb, ◌==◌, if◌then◌else◌,
}
use xlm_pay.Base.Text.{show_nat}
use xlm_pay.Base.Json.{Json, Items, Fields, null, bool, num, str, arr, obj, nil, cons, end, field}

hex_digit : ℕ → String
hex_digit n =
    if ltb n 10
    then show_nat n
    else if n == 10
    then "a"
    else if n == 11
    then "b"
    else if n == 12
    then "c"
    else if n == 13
    then "d"
    else if n == 14
    then "e"
    else "f"

escape_char : Char → String
unfolding hex_digit
escape_char c =
    let n = code c in
    if n == 34
    then "\\\""
    else if n == 92
    then "\\\\"
    else if n == 8
    then "\\b"
    else if n == 12
    then "\\f"
    else if n == 10
    then "\\n"
    else if n == 13
    then "\\r"
    else if n == 9
    then "\\t"
    else if ltb n 32
    then "\\u00" ++ (hex_digit (n / 16) ++ hex_digit (n % 16))
    else String.◌∷◌ c String.[]

escape : String → String
unfolding escape_char
escape String.[] = ""
escape (String.◌∷◌ c s) = escape_char c ++ escape s

quote : String → String
unfolding escape
quote s = "\"" ++ (escape s ++ "\"")

join : List String → String
join [] = ""
join (s ∷ []) = s
join (s ∷ t ∷ ts) = s ++ ("," ++ join (t ∷ ts))

lookup : String → List (String × String) → Option String
lookup k [] = none
lookup k ((j, v) ∷ m) = if str_eq j k then some v else lookup k m

-- The printed fields that are listed.
pub pick : List String → List (String × String) → List String
unfolding quote lookup
pick [] m = []
pick (k ∷ ks) m =
    let rest = pick ks m in
    elim (lookup k m) [ none ↦ rest | some v ↦ (quote k ++ (":" ++ v)) ∷ rest ]

unfoldable mutual
  unfolding quote join pick

  pub stringify : List String → Json → String
  stringify keys null = "null"
  stringify keys (bool b) = if b then "true" else "false"
  stringify keys (num n) = show_nat n
  stringify keys (str s) = quote s
  stringify keys (arr xs) = "[" ++ (join (stringify_items keys xs) ++ "]")
  stringify keys (obj fs) = "{" ++ (join (pick keys (stringify_fields keys fs)) ++ "}")

  pub stringify_items : List String → Items → List String
  stringify_items keys nil = []
  stringify_items keys (cons x xs) = stringify keys x ∷ stringify_items keys xs

  pub stringify_fields : List String → Fields → List (String × String)
  stringify_fields keys end = []
  stringify_fields keys (field k v fs) = (k, stringify keys v) ∷ stringify_fields keys fs

-- `JSON.stringify(value)`.
unfoldable mutual
  unfolding quote join

  pub print : Json → String
  print null = "null"
  print (bool b) = if b then "true" else "false"
  print (num n) = show_nat n
  print (str s) = quote s
  print (arr xs) = "[" ++ (join (print_items xs) ++ "]")
  print (obj fs) = "{" ++ (join (print_fields fs) ++ "}")

  pub print_items : Items → List String
  print_items nil = []
  print_items (cons x xs) = print x ∷ print_items xs

  pub print_fields : Fields → List String
  print_fields end = []
  print_fields (field k v fs) = (quote k ++ (":" ++ print v)) ∷ print_fields fs

-- `Object.keys`, and `sort` by code points.
unfoldable pub keys : Fields → List String
keys end = []
keys (field k v fs) = k ∷ keys fs

insert : String → List String → List String
insert s [] = s ∷ []
insert s (t ∷ ts) = if is_le (compare s t) then s ∷ t ∷ ts else t ∷ insert s ts

unfoldable pub sort : List String → List String
unfolding insert
sort [] = []
sort (s ∷ ss) = insert s (sort ss)

stringify_test :
    stringify
      ("b" ∷ "a" ∷ [])
      (obj (field "a" (num 12) (field "c" null (field "b" (str "x\"") end))))
    ≡ "{\"b\":\"x\\\"\",\"a\":12}"
unfolding stringify show_nat
stringify_test = refl
