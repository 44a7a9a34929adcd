-- ===== src/Agent/ExecutionGate/WriteGuard/Examples.antt =====
-- A subscription that is ended: with a confirmation, without one, and ids in two orders.
use mathlib.Core.List.{Permᴰ}
use ding_ding_schedule.Prelude.{
  Bool, true, false, not, ◌≡◌, refl, String, none, some, [], ◌∷◌, is_empty, trim_space,
}
use ding_ding_schedule.Prelude.Int.{pos}
use ding_ding_schedule.Agent.Protocol.{Value, int64_slice}
use ding_ding_schedule.Agent.Catalog.Manifest.{OperationManifest, write_medium}
use ding_ding_schedule.Agent.Catalog.Subscription
use ding_ding_schedule.Agent.Workflow.Engine.{find_param}
use ding_ding_schedule.Agent.ExecutionGate.{extract_param_string}
use ding_ding_schedule.Agent.ExecutionGate.WriteGuard.{
  WriteGuardInput, check, canonical_idempotency_value,
}
use ding_ding_schedule.Agent.ExecutionGate.WriteGuard.Admission.{
  Asked, Admitted, with_confirmation, check-Admitted, confirmation_settles,
}
use ding_ding_schedule.Agent.ExecutionGate.WriteGuard.Order.{ids_in_any_order}

abbrev any_date : String → Bool
any_date text = true

abbrev same_text : String → String
same_text text = text

abbrev one_text : Value → String
one_text value = "1"

abbrev call : Bool → WriteGuardInput
call confirmed = record {
  user = some (record {
    tenant_id = 1;
    user_id = 7;
    user_role = pos 1;
    conversation_type = "2";
    conversation_id = "cid";
  });
  manifest = record Subscription.cancel_subscription { risk = write_medium };
  request = record {
    operation = "subscription.cancel";
    tenant_id = 0;
    actor_user_id = 0;
    conversation_id = "";
    trusted_params = [];
    idempotency_key = "";
  };
  workflow = none;
  confirmed = confirmed;
}

allowed : (check same_text one_text any_date (call true)).allow ≡ true
unfolding check trim_space find_param Subscription.cancel_subscription extract_param_string
allowed = refl

asked :
    (check same_text one_text any_date (call false)).blocked_reason ≡ "write_confirmation_required"
unfolding check Subscription.cancel_subscription
asked = refl

check-Admitted_example :
    (m : OperationManifest) × Asked same_text one_text any_date (call true) m
    × Admitted same_text one_text any_date (call true) m
check-Admitted_example = check-Admitted same_text one_text any_date (call true) allowed

confirmation_settles_example :
    (false ≡ false)
    × ((check same_text one_text any_date
          (with_confirmation same_text one_text any_date (call false))).idempotency_key
        ≡ (check same_text one_text any_date (call false)).idempotency_key)
    × ((check same_text one_text any_date
          (with_confirmation same_text one_text any_date (call false))).allow
        ≡ not (is_empty (check same_text one_text any_date (call false)).idempotency_key))
confirmation_settles_example = confirmation_settles same_text one_text any_date (call false) asked

ids_in_any_order_example :
    canonical_idempotency_value same_text one_text any_date (int64_slice (pos 5 ∷ pos 6 ∷ []))
    ≡ canonical_idempotency_value same_text one_text any_date (int64_slice (pos 6 ∷ pos 5 ∷ []))
ids_in_any_order_example =
    ids_in_any_order same_text one_text any_date (pos 5 ∷ pos 6 ∷ []) (pos 6 ∷ pos 5 ∷ [])
      (Permᴰ.swap refl refl)
