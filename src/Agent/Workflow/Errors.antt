-- ===== src/Agent/Workflow/Errors.antt =====
-- The errors of internal/agent/workflow_store.go and of the execution part of
-- workflow_snapshot_codec.go, and results that carry them.
use ding_ding_schedule.Prelude.{Bool, true, false, ◌≡◌, refl}

pub data WorkflowError : Type 0 where
  context_done key_incomplete snapshot_required : WorkflowError
  -- `ErrWorkflowConflict`, and the two errors that wrap it
  conflict business_key_mismatch takeover_identity_changed : WorkflowError
  -- `ErrExecutionInProgress`
  in_progress : WorkflowError
  takeover_token_reused : WorkflowError
  operation_required business_key_required token_required request_id_required : WorkflowError
  start_required lease_required lease_not_after_start identifier_too_long : WorkflowError
  param_name_required param_type_unsupported : WorkflowError
  not_normalized operation_unsupported too_many_params param_invalid : WorkflowError
  value_unsupported value_too_long payload_too_large : WorkflowError
  time_required time_invalid schema_unsupported : WorkflowError
  effect_unsupported completion_required : WorkflowError

-- what a Go function returns that ends in an error
pub data Result {ℓ} (Value : Type ℓ) : Type ℓ where
  err : WorkflowError → Result Value
  ok : Value → Result Value

infixl 5 ◌>>=◌ ◌>>◌
-- `if err != nil { return err }`, and on with the value
abbrev pub ◌>>=◌ {ℓ κ} :
    {Value : Type ℓ} {Next : Type κ} → Result Value → (Value → Result Next) → Result Next
err failure >>= next = err failure
ok value >>= next = next value

-- `errors.Is(err, ErrWorkflowConflict)`
unfoldable pub is_conflict : WorkflowError → Bool
is_conflict conflict = true
is_conflict business_key_mismatch = true
is_conflict takeover_identity_changed = true
is_conflict _ = false

-- `if !condition { return failure }`
abbrev pub guard : Bool → WorkflowError → Result (Unit {0})
guard false failure = err failure
guard true failure = ok tt

abbrev pub ◌>>◌ {ℓ} : {Next : Type ℓ} → Result (Unit {0}) → Result Next → Result Next
check >> next = check >>= λ _. next

module _ {ℓ} {Next : Type ℓ} where
  pub ok-injective : {a b : Next} → ok a ≡ ok b → a ≡ b
  ok-injective h = cc

  pub guard-eq-ok :
      (condition : Bool) (failure : WorkflowError) (next : Result Next) {b : Next}
      → (guard condition failure >> next) ≡ ok b
      → (condition ≡ true) × (next ≡ ok b)
  guard-eq-ok false failure next h = cc
  guard-eq-ok true failure next h = (refl, h)

  -- What a chain that succeeds has passed through.
  pub >>=-eq-ok {κ} :
      {Value : Type κ} (first : Result Value) (next : Value → Result Next) {b : Next}
      → (first >>= next) ≡ ok b
      → (value : Value) × (first ≡ ok value) × (next value ≡ ok b)
  >>=-eq-ok (err failure) next h = cc
  >>=-eq-ok (ok value) next h = (value, refl, h)
