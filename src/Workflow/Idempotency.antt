-- ===== src/Workflow/Idempotency.antt =====
-- The keys of idempotency.service.ts. SHA-256 is a parameter, and so is the text of the day,
-- `new Date().toISOString().split('T')[0]`.
pub mod Collisions
pub mod Checks
pub mod Repeats
mod Tests
use Prim.Native.String.{String, ◌++◌}
use xlm_pay.Base.{Bool, Option, none, some, str_eq}
use xlm_pay.Base.Json.{Json, Fields, str, obj, end, field}
use xlm_pay.Base.Stringify.{stringify, keys, sort}

unfoldable pub stable_stringify : Fields → String
stable_stringify o = stringify (sort (keys o)) (obj o)

-- A field that is `undefined` is not printed: it is left out.
additional_context_field : Option Fields → Fields → Fields
additional_context_field none rest = rest
additional_context_field (some c) rest = field "additionalContext" (str (stable_stringify c)) rest

workflow_key_data : String → String → String → Fields → Option Fields → Fields
unfolding additional_context_field
workflow_key_data today workflow_type user_id input additional_context =
    field "workflowType" (str workflow_type) (
      field "userId" (str user_id) (
        field "input" (str (stable_stringify input))
          (additional_context_field additional_context (field "timestamp" (str today) end))))

module _ (sha256 : String → String) where
  unfoldable pub generate_workflow_idempotency_key :
      String → String → String → Fields → Option Fields → String
  unfolding workflow_key_data
  generate_workflow_idempotency_key today workflow_type user_id input additional_context =
      let hash = sha256 (
        stable_stringify
          (workflow_key_data today workflow_type user_id input additional_context)) in
      "workflow:" ++ (workflow_type ++ (":" ++ (user_id ++ (":" ++ hash))))

  unfoldable pub generate_step_idempotency_key : String → String → Fields → String
  generate_step_idempotency_key workflow_idempotency_key step_name step_input =
      let key_data = field "workflowIdempotencyKey" (str workflow_idempotency_key) (
        field "stepName" (str step_name)
          (field "stepInput" (str (stable_stringify step_input)) end)) in
      "step:" ++ (step_name ++ (":" ++ sha256 (stable_stringify key_data)))

  unfoldable pub validate_idempotency_key :
      String → String → String → String → Fields → Option Fields → Bool
  validate_idempotency_key today expected_key workflow_type user_id input additional_context =
      str_eq expected_key
        (generate_workflow_idempotency_key today workflow_type user_id input additional_context)
