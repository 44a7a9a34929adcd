-- ===== src/Agent/Catalog/Subscription.antt =====
-- internal/agent/operation_catalog.go: the operations on group subscriptions.
use ding_ding_schedule.Prelude.{false, none, some, true, [], ◌∷◌}
use ding_ding_schedule.Prelude.Int.{pos}
use ding_ding_schedule.Agent.Protocol.{
  BusinessDomain, read_query, result, select_options, workflow_continue, write_request,
}
use ding_ding_schedule.Agent.Workflow.Contract.{
  collect_departments, collect_scope, subscription_start,
}
use ding_ding_schedule.Agent.Catalog.Manifest.{
  OperationManifest, auxiliary, both, group, multi_turn, no_idempotency, repository_soft_delete,
  repository_unique_upsert, risk_read, single_turn_mode, single_turn_workflow_spec, write_low,
}

unfoldable pub start_subscription : OperationManifest
start_subscription = record {
  name = "subscription.start";
  allowed_acts = write_request ∷ [];
  domain = BusinessDomain.subscription;
  is_write = true;
  risk = write_low;
  scope = group;
  min_role = pos 1;
  required_trusted_params = "conversation_id" ∷ "scope" ∷ [];
  optional_trusted_params = "dept_ids" ∷ [];
  query_shapes = [];
  defaults = [];
  recognition = record {
    description = "在当前群开启考勤推送订阅；这是写操作，需要管理员权限，并可能继续询问订阅范围或部门";
    aliases = "开启考勤订阅" ∷ "开启本群考勤订阅" ∷ "打开本群考勤推送" ∷ "开通考勤订阅" ∷ [];
    examples = "开启本群全部人员考勤订阅" ∷ "给本群开启信工25级考勤推送" ∷ [];
    negative_examples = "本群订阅开了吗" ∷ "关闭本群考勤推送" ∷ [];
    raw_slots =
        (record {
          raw_name = "scope";
          target_param = "scope";
          resolver = "subscription_scope";
          shape = "subscription_scope";
          required = false;
        })
        ∷ (record {
          raw_name = "dept_names";
          target_param = "dept_ids";
          resolver = "department_resolver";
          shape = "department_name_or_candidate";
          required = false;
        })
        ∷ (record {
          raw_name = "dept_name";
          target_param = "dept_ids";
          resolver = "department_resolver";
          shape = "department_name_or_candidate";
          required = false;
        })
        ∷ (record {
          raw_name = "department";
          target_param = "dept_ids";
          resolver = "department_resolver";
          shape = "department_name_or_candidate";
          required = false;
        })
        ∷ (record {
          raw_name = "department_name";
          target_param = "dept_ids";
          resolver = "department_resolver";
          shape = "department_name_or_candidate";
          required = false;
        })
        ∷ [];
    continue_shapes = [];
  };
  workflow = some (record {
    type = subscription_start;
    mode = multi_turn;
    collect_states = collect_scope ∷ collect_departments ∷ [];
    required_trusted_params = "scope" ∷ "dept_ids" ∷ [];
    auxiliary_operations = "subscription.list_departments" ∷ [];
  });
  dispatch = "subscription_workflow";
  resolvers =
      (record { param = "conversation_id"; name = "runtime_conversation" })
      ∷ (record { param = "scope"; name = "subscription_scope" })
      ∷ (record { param = "dept_ids"; name = "department_resolver" })
      ∷ [];
  policies = "admin_role" ∷ "group_conversation" ∷ "subscription_scope" ∷ [];
  idempotency = record {
    key_fields =
        "tenant_id" ∷ "conversation_id" ∷ "actor_user_id" ∷ "operation" ∷ "scope" ∷ "dept_ids"
        ∷ "workflow_id" ∷ [];
    guarantee = repository_unique_upsert;
  };
  write_guard = "write_guard";
  executor = "executor.subscription.start";
  renderer = record { name = "response_renderer"; kind = result };
  eval = record {
    case_ids =
        "protocol-subscription-missing-scope" ∷ "protocol-subscription-first-turn-all"
        ∷ "protocol-workflow-cancel-active-subscription" ∷ [];
    replay_tags = "subscription" ∷ "write_low" ∷ [];
  };
  capability = none;
}

unfoldable pub cancel_subscription : OperationManifest
cancel_subscription = record {
  name = "subscription.cancel";
  allowed_acts = write_request ∷ [];
  domain = BusinessDomain.subscription;
  is_write = true;
  risk = write_low;
  scope = group;
  min_role = pos 1;
  required_trusted_params = "conversation_id" ∷ [];
  optional_trusted_params = [];
  query_shapes = [];
  defaults = [];
  recognition = record {
    description = "取消当前群已经开启的考勤推送订阅；这是需要管理员权限的写操作";
    aliases = "取消考勤推送" ∷ "取消本群考勤推送" ∷ "取消考勤订阅" ∷ "关闭考勤订阅" ∷ "关闭本群考勤推送" ∷ [];
    examples = "关闭这个群的考勤推送" ∷ "取消本群考勤订阅" ∷ [];
    negative_examples = "本群订阅状态是什么" ∷ "开启本群考勤订阅" ∷ [];
    raw_slots = [];
    continue_shapes = [];
  };
  workflow = some (record {
    type = "subscription.cancel";
    mode = single_turn_mode;
    collect_states = [];
    required_trusted_params = "conversation_id" ∷ [];
    auxiliary_operations = [];
  });
  dispatch = "runtime_conversation";
  resolvers = (record { param = "conversation_id"; name = "runtime_conversation" }) ∷ [];
  policies = "admin_role" ∷ "group_conversation" ∷ [];
  idempotency = record {
    key_fields = "tenant_id" ∷ "conversation_id" ∷ "actor_user_id" ∷ "operation" ∷ [];
    guarantee = repository_soft_delete;
  };
  write_guard = "write_guard";
  executor = "executor.subscription.cancel";
  renderer = record { name = "response_renderer"; kind = result };
  eval = record {
    case_ids = "catalog-subscription-cancel" ∷ [];
    replay_tags = "subscription" ∷ "write_low" ∷ [];
  };
  capability = none;
}

unfoldable pub subscription_status : OperationManifest
subscription_status = record {
  name = "subscription.query_status";
  allowed_acts = read_query ∷ [];
  domain = BusinessDomain.subscription;
  is_write = false;
  risk = risk_read;
  scope = group;
  min_role = pos 0;
  required_trusted_params = "conversation_id" ∷ [];
  optional_trusted_params = [];
  query_shapes = [];
  defaults = [];
  recognition = record {
    description = "查询当前群是否已开启考勤推送订阅以及订阅范围";
    aliases = "查本群订阅状态" ∷ "当前群有没有订阅" ∷ "有没有开启考勤订阅" ∷ "查这个群有没有开启考勤订阅" ∷ "订阅状态" ∷ "有没有订阅" ∷ [];
    examples = "这个群考勤订阅开了没" ∷ "查一下本群订阅状态" ∷ [];
    negative_examples = "开启本群考勤订阅" ∷ "群考勤订阅规则是什么" ∷ [];
    raw_slots = [];
    continue_shapes = [];
  };
  workflow = some single_turn_workflow_spec;
  dispatch = "runtime_conversation";
  resolvers = (record { param = "conversation_id"; name = "runtime_conversation" }) ∷ [];
  policies = "group_conversation" ∷ [];
  idempotency = no_idempotency;
  write_guard = "not_required";
  executor = "executor.subscription.query_status";
  renderer = record { name = "response_renderer"; kind = result };
  eval = record {
    case_ids = "catalog-subscription-query-status" ∷ [];
    replay_tags = "subscription" ∷ [];
  };
  capability = none;
}

unfoldable pub list_departments : OperationManifest
list_departments = record {
  name = "subscription.list_departments";
  allowed_acts = read_query ∷ workflow_continue ∷ [];
  domain = BusinessDomain.subscription;
  is_write = false;
  risk = risk_read;
  scope = both;
  min_role = pos 0;
  required_trusted_params = [];
  optional_trusted_params = [];
  query_shapes = [];
  defaults = [];
  recognition = record {
    description = "列出群考勤订阅流程中可以选择的部门，不代表执行开启订阅";
    aliases = "当前都有哪些部门" ∷ "都有哪些部门" ∷ "有哪些部门" ∷ "部门列表" ∷ "部门有哪些" ∷ "哪些部门" ∷ [];
    examples = "先看看有哪些部门" ∷ "显示部门列表" ∷ [];
    negative_examples = "订阅信工25级" ∷ "开启全部人员订阅" ∷ [];
    raw_slots = [];
    continue_shapes =
        (record {
          workflow_type = subscription_start;
          states = collect_scope ∷ collect_departments ∷ [];
          fields = [];
          source = "auxiliary_operation";
        })
        ∷ [];
  };
  workflow = some (record {
    type = subscription_start;
    mode = auxiliary;
    collect_states = [];
    required_trusted_params = [];
    auxiliary_operations = "subscription.start" ∷ [];
  });
  dispatch = "subscription_workflow";
  resolvers = [];
  policies = "conversation_scope" ∷ [];
  idempotency = no_idempotency;
  write_guard = "not_required";
  executor = "executor.subscription.list_departments";
  renderer = record { name = "response_renderer"; kind = select_options };
  eval = record {
    case_ids = "protocol-subscription-list-departments-workflow-meta" ∷ [];
    replay_tags = "subscription" ∷ "workflow" ∷ [];
  };
  capability = none;
}
