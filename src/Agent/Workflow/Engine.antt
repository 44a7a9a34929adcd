-- ===== src/Agent/Workflow/Engine.antt =====
-- internal/agent/workflow_engine.go: the turns of a multi-turn workflow.
-- A workflow is passed by value in the source, but for the map of its trusted parameters, which a
-- turn may write in place in the snapshot that it was given as well; the model gives the new one.
-- The draft's act and operation are all that the engine reads of it.
pub mod Subscription
pub mod ManualSign
mod Examples
use ding_ding_schedule.Prelude.{
  ℕ, Bool, true, false, not, ◌&&◌, ◌||◌, String, Option, none, some, List, [], ◌∷◌, ◌++◌, ◌==◌,
  if◌then◌else◌, str_eq, is_empty, keep_if,
}
use ding_ding_schedule.Prelude.Int.{ℤ, pos, eq_ℤ}
use ding_ding_schedule.Agent.Protocol.{
  UserAct, capability_question, rule_question, read_query, write_request, workflow_cancel, help,
  str, IntentDraft, TrustedParam, TrustedEntities,
}
use ding_ding_schedule.Agent.Catalog.{
  workflow_primary_operation_name, workflow_auxiliary_operation_name,
}
use ding_ding_schedule.Agent.Workflow.Contract.{
  WorkflowSnapshot, WorkflowState, collect_scope, collect_departments, collect_user, collect_date,
  collect_section, ready, completed, cancelled, interrupted_state, WorkflowResult, WorkflowDecision,
  continue_decision, ready_to_execute, reject_invalid_shape, meta_result, completed_decision,
  canceled, interrupted, subscription_start, manual_sign_create, set_workflow_missing_fields,
}

abbrev pub Params : Type 0
Params = List (String × TrustedParam)

-- the entry of a map under a key, and the map with another one
unfoldable pub find_param : String → Params → Option TrustedParam
find_param key [] = none
find_param key ((field, param) ∷ rest) =
    if str_eq field key then some param else find_param key rest

unfoldable pub remove_param : String → Params → Params
remove_param key params = keep_if (λ (field, param). not (str_eq field key)) params

unfoldable pub put_param : String → TrustedParam → Params → Params
unfolding remove_param
put_param key param params = (key, param) ∷ remove_param key params

-- the loop over the parameters of a turn
unfoldable pub merge_params : Params → Params → Params
merge_params [] params = params
merge_params ((field, param) ∷ rest) params = merge_params rest (put_param field param params)

unfoldable pub merge_trusted_params : TrustedEntities → Params → TrustedEntities
unfolding merge_params
merge_trusted_params dst params = record dst {
  trusted_params = merge_params params dst.trusted_params;
}

unfoldable pub is_explicit_new_request : UserAct → Bool
is_explicit_new_request capability_question = true
is_explicit_new_request rule_question = true
is_explicit_new_request read_query = true
is_explicit_new_request write_request = true
is_explicit_new_request help = true
is_explicit_new_request _ = false

abbrev pub decide : WorkflowDecision → WorkflowSnapshot → WorkflowResult
decide d w = record { decision = d; workflow = w }

-- `w.State = state; setWorkflowMissingFields(w, missing)`
abbrev pub enter : WorkflowState → List String → WorkflowSnapshot → WorkflowSnapshot
enter state missing w = set_workflow_missing_fields (record w { state = state }) missing

abbrev pub reject : WorkflowSnapshot → WorkflowResult
reject w = decide reject_invalid_shape w

abbrev pub make_ready : WorkflowSnapshot → WorkflowResult
make_ready w = decide ready_to_execute (enter ready [] w)

abbrev pub empty_entities : TrustedEntities
empty_entities = record {
  tenant_id = 0;
  department_id = pos 0;
  dept_ids = [];
  user_id = 0;
  user_name = "";
  date = "";
  section = pos 0;
  week = pos 0;
  conversation_id = "";
  scope = "";
  query_shape = "";
  user_role = pos 0;
  trusted_params = [];
}

abbrev pub empty_workflow : String → WorkflowState → WorkflowSnapshot
empty_workflow type state = record {
  id = "";
  tenant_id = 0;
  actor_user_id = 0;
  conversation_id = "";
  type = type;
  state = state;
  missing_fields = [];
  trusted_entities = [];
  candidates = [];
  last_user_message = "";
  created_at = 0;
  updated_at = 0;
  expires_at = 0;
  version = 0;
  missing_slots = [];
  trusted = empty_entities;
}

-- the text that fmt makes of the clock is an argument
unfoldable pub start_workflow : String → IntentDraft → Option WorkflowSnapshot
start_workflow id draft =
    if str_eq draft.operation (workflow_primary_operation_name subscription_start)
    then some (record (empty_workflow subscription_start collect_scope) {
      id = id;
      missing_fields = "scope" ∷ [];
      missing_slots = "scope" ∷ [];
    })
    else none

-- the department ids of a turn, with a single one for a list that is empty
unfoldable pub given_departments : List ℤ → ℤ → List ℤ
given_departments (d ∷ ds) single = d ∷ ds
given_departments [] single = if eq_ℤ single (pos 0) then [] else single ∷ []

abbrev pub set_scope : TrustedEntities → WorkflowSnapshot → WorkflowSnapshot
set_scope t w = record w {
  trusted = merge_trusted_params (record w.trusted { scope = t.scope }) t.trusted_params;
}

abbrev pub set_departments : ℤ → List ℤ → WorkflowSnapshot → WorkflowSnapshot
set_departments d ds w = record w {
  trusted = record w.trusted { department_id = d; dept_ids = d ∷ ds };
}

abbrev pub scoped_departments : List ℤ → WorkflowSnapshot → WorkflowResult
scoped_departments [] w = decide continue_decision (enter collect_departments ("dept_names" ∷ []) w)
scoped_departments (d ∷ ds) w = make_ready (set_departments d ds w)

unfoldable pub collect_scope_turn : WorkflowSnapshot → TrustedEntities → WorkflowResult
collect_scope_turn w t =
    if str_eq t.scope "all"
    then make_ready (set_scope t w)
    else if str_eq t.scope "department"
    then scoped_departments (given_departments t.dept_ids t.department_id) (set_scope t w)
    else reject w

abbrev pub first_tenant : ℕ → ℕ → ℕ → ℕ
first_tenant a b c = if a == 0 then (if b == 0 then c else b) else a

abbrev pub rescoped : Option TrustedParam → TrustedEntities → WorkflowSnapshot → WorkflowSnapshot
rescoped none t w = w
rescoped (some p) t w = record w {
  trusted = record w.trusted {
    trusted_params =
        put_param "scope"
          (record p {
            field = "scope";
            value = str t.scope;
            tenant_id = first_tenant p.tenant_id t.tenant_id w.trusted.tenant_id;
          })
          w.trusted.trusted_params;
  };
}

abbrev pub rescope : TrustedEntities → WorkflowSnapshot → WorkflowSnapshot
rescope t w = rescoped (find_param "scope" w.trusted.trusted_params) t w

abbrev pub forget_departments : WorkflowSnapshot → WorkflowSnapshot
forget_departments w = record w {
  trusted = record w.trusted {
    department_id = pos 0;
    dept_ids = [];
    trusted_params = remove_param "dept_ids" w.trusted.trusted_params;
  };
}

abbrev pub chosen_departments : List ℤ → TrustedEntities → WorkflowSnapshot → WorkflowResult
chosen_departments [] t w = reject w
chosen_departments (d ∷ ds) t w = make_ready (record w {
  trusted =
      merge_trusted_params (record w.trusted { department_id = d; dept_ids = d ∷ ds })
        t.trusted_params;
})

unfoldable pub collect_departments_turn : WorkflowSnapshot → TrustedEntities → WorkflowResult
collect_departments_turn w t =
    if str_eq t.scope "all"
    then make_ready (forget_departments (rescope t (set_scope t w)))
    else chosen_departments (given_departments t.dept_ids t.department_id) t w

unfoldable pub subscription_turn :
    WorkflowState → WorkflowSnapshot → TrustedEntities → WorkflowResult
unfolding collect_scope_turn collect_departments_turn
subscription_turn collect_scope w t = collect_scope_turn w t
subscription_turn collect_departments w t = collect_departments_turn w t
subscription_turn _ w t = reject w

abbrev pub collecting_departments : WorkflowState → Bool
collecting_departments collect_departments = true
collecting_departments _ = false

-- `ExecutorBindingSubscriptionListDepartments`
abbrev pub list_departments : String
list_departments = "executor.subscription.list_departments"

unfoldable pub continue_subscription_workflow :
    WorkflowSnapshot → IntentDraft → TrustedEntities → WorkflowResult
unfolding subscription_turn
continue_subscription_workflow w draft t =
    if str_eq draft.operation
        (workflow_auxiliary_operation_name subscription_start list_departments)
      && collecting_departments w.state
    then decide meta_result w
    else if not (str_eq draft.operation (workflow_primary_operation_name subscription_start))
    then reject w
    else subscription_turn w.state w t

unfoldable pub workflow_missing_slots : TrustedEntities → List String
workflow_missing_slots t =
    (if t.user_id == 0 then "user_id" ∷ [] else [])
    ++ ((if is_empty t.date then "date" ∷ [] else [])
        ++ (if eq_ℤ t.section (pos 0) then "section" ∷ [] else []))

unfoldable pub next_manual_sign_state : String → WorkflowState
next_manual_sign_state slot =
    if str_eq slot "user_id"
    then collect_user
    else if str_eq slot "date"
    then collect_date
    else if str_eq slot "section"
    then collect_section
    else collect_user

-- what a turn fills in; the parameters are merged in between
abbrev pub fill_user : TrustedEntities → TrustedEntities → TrustedEntities
fill_user old t = record old {
  user_id = if t.user_id == 0 then old.user_id else t.user_id;
  user_name = if is_empty t.user_name then old.user_name else t.user_name;
}

abbrev pub fill_slot : TrustedEntities → TrustedEntities → TrustedEntities
fill_slot old t = record old {
  date = if is_empty t.date then old.date else t.date;
  section = if eq_ℤ t.section (pos 0) then old.section else t.section;
}

unfoldable pub filled : TrustedEntities → TrustedEntities → TrustedEntities
filled old t = fill_slot (merge_trusted_params (fill_user old t) t.trusted_params) t

abbrev pub ask_for : List String → WorkflowSnapshot → WorkflowResult
ask_for [] w = decide ready_to_execute (enter ready [] w)
ask_for (slot ∷ slots) w =
    decide continue_decision (enter (next_manual_sign_state slot) (slot ∷ slots) w)

unfoldable pub continue_manual_sign_workflow : WorkflowSnapshot → TrustedEntities → WorkflowResult
unfolding workflow_missing_slots filled
continue_manual_sign_workflow w t =
    ask_for (workflow_missing_slots (filled w.trusted t))
      (record w { trusted = filled w.trusted t })

unfoldable pub is_cancel : UserAct → Bool
is_cancel workflow_cancel = true
is_cancel _ = false

unfoldable pub continue_workflow : WorkflowSnapshot → IntentDraft → TrustedEntities → WorkflowResult
unfolding is_cancel is_explicit_new_request
continue_workflow w draft t =
    if is_cancel draft.act
    then decide canceled (enter cancelled [] w)
    else if is_explicit_new_request draft.act
    then decide interrupted (enter interrupted_state [] w)
    else if str_eq w.type subscription_start
    then continue_subscription_workflow w draft t
    else if str_eq w.type manual_sign_create
    then continue_manual_sign_workflow w t
    else reject w

unfoldable pub complete_workflow : WorkflowSnapshot → WorkflowResult
complete_workflow w = decide completed_decision (enter completed [] w)
