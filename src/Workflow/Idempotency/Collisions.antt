-- ===== src/Workflow/Idempotency/Collisions.antt =====
-- Which inputs share a key.
use Prim.Native.String.{String}
use xlm_pay.Base.{◌≡◌, sym, ◌∙◌, ap, Option}
use xlm_pay.Base.Json.{Fields, obj}
use xlm_pay.Base.Stringify.{stringify, keys, sort}
use xlm_pay.Base.Stringify.Prune.{prune_fields, prune, stringify-prune_lem}
use xlm_pay.Workflow.Idempotency.{stable_stringify, generate_workflow_idempotency_key}

-- An object as its text shows it: without the fields, at any depth, whose name is not that of a
-- field at the top.
abbrev pub visible : Fields → Fields
visible o = prune_fields (sort (keys o)) o

stable_stringify-visible :
    (o p : Fields)
    → keys o ≡ keys p
    → visible o ≡ visible p
    → stable_stringify o ≡ stable_stringify p
unfolding stable_stringify prune
stable_stringify-visible o p e f =
    sym (stringify-prune_lem (sort (keys o)) (obj o))
    ∙ ap (λ q. stringify (sort (keys o)) (obj q)) f
    ∙ ap (λ k. stringify (sort k) (obj (visible p))) e
    ∙ stringify-prune_lem (sort (keys p)) (obj p)

-- Two inputs with the same field names at the top get the same key, whatever the rest of the key
-- is made of, if they differ only in nested fields whose names do not also stand at the top.
pub generate_workflow_idempotency_key_collision :
    (sha256 : String → String) (today workflow_type user_id : String) (o p : Fields)
    (additional_context : Option Fields)
    → keys o ≡ keys p
    → visible o ≡ visible p
    → generate_workflow_idempotency_key sha256 today workflow_type user_id o additional_context
      ≡ generate_workflow_idempotency_key sha256 today workflow_type user_id p additional_context
unfolding generate_workflow_idempotency_key
generate_workflow_idempotency_key_collision sha256 today workflow_type user_id o p c e f =
    rw (stable_stringify-visible o p e f)
