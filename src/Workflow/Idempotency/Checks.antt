-- ===== src/Workflow/Idempotency/Checks.antt =====
-- checkIdempotency of idempotency.service.ts, for operations that may fail and a cache whose calls
-- may, with generateUniqueIdempotencyKey and parseIdempotencyKey. The cache, the operation and
-- `split(':')` are parameters.
use Prim.Native.String.{String, ◌++◌}
use xlm_pay.Base.{Bool, true, false, Option, none, some, List, [], ◌∷◌, str_eq, if◌then◌else◌}

pub data KeyType : Type 0 where
  workflow : KeyType
  step : KeyType
  unique : KeyType

pub record ParsedKey : Type 0 where
  pub type_of_key : KeyType
  pub prefix : String
  pub identifier : String
  pub hash : Option String

-- `parts[i] || 'unknown'`.
unfoldable pub or_unknown : String → String
or_unknown part = if str_eq part "" then "unknown" else part

-- The fallback for unknown formats.
unfoldable pub unknown_format : List String → ParsedKey
unknown_format [] = record {
  type_of_key = unique;
  prefix = "unknown";
  identifier = "unknown";
  hash = none;
}
unknown_format (a ∷ []) = record {
  type_of_key = unique;
  prefix = or_unknown a;
  identifier = "unknown";
  hash = none;
}
unknown_format (a ∷ (b ∷ [])) = record {
  type_of_key = unique;
  prefix = or_unknown a;
  identifier = or_unknown b;
  hash = none;
}
unknown_format (a ∷ (b ∷ (c ∷ parts))) = record {
  type_of_key = unique;
  prefix = or_unknown a;
  identifier = or_unknown b;
  hash = some c;
}

-- The formats of three parts or more, without that of a workflow.
unfoldable pub parse_three : (a b c : String) → List String → ParsedKey
parse_three a b c parts =
    if str_eq a "step"
    then record { type_of_key = step; prefix = a; identifier = b; hash = some c }
    else if str_eq a "unique"
    then record { type_of_key = unique; prefix = a; identifier = b; hash = some c }
    else unknown_format (a ∷ (b ∷ (c ∷ parts)))

unfoldable pub parse_parts : List String → ParsedKey
parse_parts [] = unknown_format []
parse_parts (a ∷ []) = unknown_format (a ∷ [])
parse_parts (a ∷ (b ∷ [])) = unknown_format (a ∷ (b ∷ []))
parse_parts (a ∷ (b ∷ (c ∷ []))) = parse_three a b c []
parse_parts (a ∷ (b ∷ (c ∷ (d ∷ parts)))) =
    if str_eq a "workflow"
    then record { type_of_key = workflow; prefix = a; identifier = b ++ (":" ++ c); hash = some d }
    else parse_three a b c (d ∷ parts)

unfoldable pub parse_idempotency_key : (split : String → List String) → String → ParsedKey
parse_idempotency_key split key = parse_parts (split key)

unfoldable pub generate_unique_idempotency_key : (operation_type identifier uuid : String) → String
generate_unique_idempotency_key operation_type identifier uuid =
    operation_type ++ (":" ++ (identifier ++ (":" ++ uuid)))

-- `get` is none, and `set` is false, where it throws.
pub record ResultCache (St A : Type 0) : Type 0 where
  pub get : String → St → Option (Option A) × St
  pub set : String → A → St → Bool × St

pub record Checked (A : Type 0) : Type 0 where
  pub result : A
  pub is_duplicate : Bool

-- The result of a cache that did not throw, if it counts as one.
unfoldable pub cached_result : {A : Type 0} → (A → Bool) → Option (Option A) → Option A
cached_result is_truthy none = none
cached_result is_truthy (some none) = none
cached_result is_truthy (some (some a)) = if is_truthy a then some a else none

module _ {St A : Type 0} (is_truthy : A → Bool) where
  unfoldable pub store_result : Option (ResultCache St A) → String → A → St → St
  store_result none key a s = s
  store_result (some cache) key a s = (cache.set key a s).1

  -- The operation's error is thrown on, before anything is stored.
  unfoldable pub finish :
      Option (ResultCache St A) → String → Option A × St → Option (Checked A) × St
  finish cache key (none, s) = (none, s)
  finish cache key (some a, s) =
      (some record { result = a; is_duplicate = false }, store_result cache key a s)

  unfoldable pub check_found :
      Option A
      → String
      → (St → Option A × St)
      → Option (ResultCache St A)
      → St
      → Option (Checked A) × St
  check_found (some a) key operation cache s = (some record { result = a; is_duplicate = true }, s)
  check_found none key operation cache s = finish cache key (operation s)

  unfoldable pub check_idempotency :
      String → (St → Option A × St) → Option (ResultCache St A) → St → Option (Checked A) × St
  check_idempotency key operation none s = finish none key (operation s)
  check_idempotency key operation (some cache) s =
      let (found, looked) = cache.get key s in
      check_found (cached_result is_truthy found) key operation (some cache) looked
