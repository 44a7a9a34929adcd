-- ===== src/Agent/ExecutionGate.antt =====
-- internal/agent/execution_gate.go: trusted parameters in canonical form, and the request that is built
-- from them. `valid_date` stands for time.Parse at a date ("2006-01-02").
pub mod Resource
pub mod Requests
pub mod Canonical
pub mod Trust
pub mod Ownership
pub mod Access
pub mod WriteGuard
mod Examples
use ding_ding_schedule.Prelude.{
  ℕ, Bool, true, false, not, ◌&&◌, ◌||◌, String, Option, none, some, List, [], ◌∷◌, ◌==◌,
  if◌then◌else◌, str_eq, is_empty,
}
use ding_ding_schedule.Prelude.Int.{ℤ, pos, ltb_ℤ, leb_ℤ, eq_ℤ}
use ding_ding_schedule.Agent.Protocol.{
  Value, str, int, int64, uint, int64_slice, bool, other_value, SourceKind, runtime,
  workflow_source, derived, other_source, TrustedParamSource, TrustedParam, TrustedEntities,
}
use ding_ding_schedule.Agent.Catalog.{lookup_operation}
use ding_ding_schedule.Agent.Catalog.Manifest.{OperationManifest, QueryShapeMetadata}
use ding_ding_schedule.Agent.Workflow.Engine.{Params, find_param, put_param}

pub record OperationRequest : Type 0 where
  pub operation : String
  pub tenant_id : ℕ
  pub actor_user_id : ℕ
  pub conversation_id : String
  pub trusted_params : Params
  pub idempotency_key : String

-- the fields of `tools.UserContext` that the gates read
pub record UserContext : Type 0 where
  pub tenant_id : ℕ
  pub user_id : ℕ
  pub user_role : ℤ
  pub conversation_type : String
  pub conversation_id : String

abbrev pub nonempty_text : Value → Option Value
nonempty_text (str s) = if is_empty s then none else some (str s)
nonempty_text _ = none

abbrev pub any_text : Value → Option Value
any_text (str s) = some (str s)
any_text _ = none

abbrev pub department_list : Value → Option Value
department_list (int64_slice []) = none
department_list (int64_slice (d ∷ ds)) = some (int64_slice (d ∷ ds))
department_list _ = none

abbrev pub user_number : Value → Option Value
user_number (uint n) = if n == 0 then none else some (uint n)
user_number _ = none

abbrev pub int_from : ℤ → Value → Option Value
int_from least (int n) = if leb_ℤ least n then some (int n) else none
int_from least _ = none

-- the source that a parameter without one gets
abbrev pub no_kind : SourceKind → Bool
no_kind (other_source kind) = is_empty kind
no_kind _ = false

abbrev pub departments_or : List ℤ → ℤ → List ℤ
departments_or [] one = if eq_ℤ one (pos 0) then [] else one ∷ []
departments_or (d ∷ ds) one = d ∷ ds

module _ (valid_date : String → Bool) where
  abbrev pub date_text : Value → Option Value
  date_text (str s) = if is_empty s then none else if valid_date s then some (str s) else none
  date_text _ = none

  unfoldable pub canonical_trusted_param_value : String → Value → Option Value
  canonical_trusted_param_value field value =
      if str_eq field "conversation_id"
      then nonempty_text value
      else if str_eq field "scope"
      then nonempty_text value
      else if str_eq field "dept_ids"
      then department_list value
      else if str_eq field "user_id"
      then user_number value
      else if str_eq field "date"
      then date_text value
      else if str_eq field "section"
      then int_from (pos 1) value
      else if str_eq field "week"
      then int_from (pos 1) value
      else if str_eq field "rule_topic"
      then nonempty_text value
      else if str_eq field "query_shape"
      then nonempty_text value
      else if str_eq field "actor_role"
      then int_from (pos 0) value
      else if str_eq field "conversation_type"
      then nonempty_text value
      else if str_eq field "conversation_title"
      then any_text value
      else none

  abbrev pub concrete : String → Option TrustedParam → Option Value
  concrete field none = none
  concrete field (some param) = canonical_trusted_param_value field param.value

  unfoldable pub trusted_param_concrete_value : Params → String → Option Value
  unfolding canonical_trusted_param_value
  trusted_param_concrete_value params field = concrete field (find_param field params)

  abbrev pub text_of : Option Value → Option String
  text_of (some (str s)) = some s
  text_of _ = none

  -- a canonical value is no float64 and no []int, so the other cases of these functions are not reached
  unfoldable pub extract_param_string : Params → String → Option String
  unfolding trusted_param_concrete_value
  extract_param_string params key = text_of (trusted_param_concrete_value params key)

  abbrev pub number_of : Option Value → Option ℕ
  number_of (some (uint n)) = some n
  number_of (some (int (pos n))) = some n
  number_of _ = none

  unfoldable pub extract_param_uint : Params → String → Option ℕ
  unfolding trusted_param_concrete_value
  extract_param_uint params key = number_of (trusted_param_concrete_value params key)

  abbrev pub list_of : Option Value → Option (List ℤ)
  list_of (some (int64_slice (d ∷ ds))) = some (d ∷ ds)
  list_of _ = none

  unfoldable pub extract_param_int64_slice : Params → String → Option (List ℤ)
  unfolding trusted_param_concrete_value
  extract_param_int64_slice params key = list_of (trusted_param_concrete_value params key)

  abbrev pub from_value :
      TrustedEntities → String → SourceKind → String → Option Value → Option TrustedParam
  from_value trusted field kind resolver none = none
  from_value trusted field kind resolver (some value) = some (record {
    field = field;
    value = value;
    source = record { kind = kind; raw = ""; resolver = resolver };
    tenant_id = trusted.tenant_id;
  })

  unfoldable pub trusted_param_from_trusted_entity :
      TrustedEntities → String → Value → SourceKind → String → Option TrustedParam
  unfolding canonical_trusted_param_value
  trusted_param_from_trusted_entity trusted field value kind resolver =
      from_value trusted field kind resolver (canonical_trusted_param_value field value)

  -- the departments of the entities: the list, or the one
  abbrev pub entity_departments : TrustedEntities → List ℤ
  entity_departments t = departments_or t.dept_ids t.department_id

  abbrev pub from_entities : TrustedEntities → String → Option TrustedParam
  from_entities t field =
      if str_eq field "conversation_id"
      then trusted_param_from_trusted_entity t field (str t.conversation_id) runtime
          "conversation_runtime"
      else if str_eq field "scope"
      then trusted_param_from_trusted_entity t field (str t.scope) workflow_source
          "subscription_scope"
      else if str_eq field "dept_ids"
      then trusted_param_from_trusted_entity t field (int64_slice (entity_departments t))
          workflow_source "department_resolver"
      else if str_eq field "user_id"
      then trusted_param_from_trusted_entity t field (uint t.user_id) workflow_source
          "user_resolver"
      else if str_eq field "date"
      then trusted_param_from_trusted_entity t field (str t.date) workflow_source "date_slot"
      else if str_eq field "section"
      then trusted_param_from_trusted_entity t field (int t.section) workflow_source "section_slot"
      else if str_eq field "week"
      then trusted_param_from_trusted_entity t field (int t.week) workflow_source "week_slot"
      else none

  -- a parameter that is there, for its tenant, in canonical form
  abbrev pub settled : TrustedEntities → String → TrustedParam → Option Value → Option TrustedParam
  settled t field param none = none
  settled t field param (some value) = some (record {
    field = field;
    value = value;
    source =
        if no_kind param.source.kind
        then record { kind = workflow_source; raw = ""; resolver = "trusted_params" }
        else param.source;
    tenant_id = if param.tenant_id == 0 then t.tenant_id else param.tenant_id;
  })

  abbrev pub given : TrustedEntities → String → Option TrustedParam → Option TrustedParam
  given t field none = from_entities t field
  given t field (some param) =
      if not (t.tenant_id == 0) && not (param.tenant_id == t.tenant_id)
      then none
      else settled t field param (canonical_trusted_param_value field param.value)

  unfoldable pub trusted_param_value : TrustedEntities → String → Option TrustedParam
  unfolding trusted_param_from_trusted_entity canonical_trusted_param_value
  trusted_param_value t field = given t field (find_param field t.trusted_params)
