-- ===== src/Agent/Catalog/Describe.antt =====
-- internal/agent/operation_catalog.go: the questions about capabilities.
use ding_ding_schedule.Prelude.{false, some, true, [], ◌∷◌}
use ding_ding_schedule.Prelude.Int.{pos}
use ding_ding_schedule.Agent.Protocol.{BusinessDomain, answer, capability_question, help}
use ding_ding_schedule.Agent.Catalog.Manifest.{
  OperationManifest, both, group, no_idempotency, risk_read, single_turn_workflow_spec,
}

unfoldable pub system_capability : OperationManifest
system_capability = record {
  name = "system.describe_capability";
  allowed_acts = help ∷ [];
  domain = BusinessDomain.system;
  is_write = false;
  risk = risk_read;
  scope = both;
  min_role = pos 0;
  required_trusted_params = [];
  optional_trusted_params = [];
  query_shapes = [];
  defaults = [];
  recognition = record {
    description = "概览智能助手当前支持的全部功能";
    aliases = [];
    examples = "你有什么功能" ∷ "你能帮我做什么" ∷ [];
    negative_examples = "考勤能做什么" ∷ "查询我的课表" ∷ [];
    raw_slots = [];
    continue_shapes = [];
  };
  workflow = some single_turn_workflow_spec;
  dispatch = "capability_answer";
  resolvers = [];
  policies = "conversation_scope" ∷ [];
  idempotency = no_idempotency;
  write_guard = "not_required";
  executor = "executor.system.describe_capability";
  renderer = record { name = "response_renderer"; kind = answer };
  eval = record { case_ids = "protocol-help-overview" ∷ []; replay_tags = "capability" ∷ [] };
  capability = some (record {
    title = "功能说明";
    description = "说明我当前可以处理的考勤、订阅、规则和课表能力。";
    answer_only = true;
    directly_usable = true;
  });
}

unfoldable pub attendance_capability : OperationManifest
attendance_capability = record {
  name = "attendance.describe_capability";
  allowed_acts = capability_question ∷ [];
  domain = BusinessDomain.attendance;
  is_write = false;
  risk = risk_read;
  scope = both;
  min_role = pos 0;
  required_trusted_params = [];
  optional_trusted_params = [];
  query_shapes = [];
  defaults = [];
  recognition = record {
    description = "说明考勤查询能力，不执行具体考勤查询";
    aliases = [];
    examples = "考勤能做什么" ∷ "支持哪些考勤查询" ∷ [];
    negative_examples = "查询今天第二节考勤状态" ∷ "迟到规则是什么" ∷ [];
    raw_slots = [];
    continue_shapes = [];
  };
  workflow = some single_turn_workflow_spec;
  dispatch = "capability_answer";
  resolvers = [];
  policies = "conversation_scope" ∷ [];
  idempotency = no_idempotency;
  write_guard = "not_required";
  executor = "executor.attendance.describe_capability";
  renderer = record { name = "response_renderer"; kind = answer };
  eval = record {
    case_ids = "catalog-attendance-describe-capability" ∷ [];
    replay_tags = "capability" ∷ "attendance" ∷ [];
  };
  capability = some (record {
    title = "考勤查询";
    description = "查询指定日期和节次的考勤状态。";
    answer_only = true;
    directly_usable = true;
  });
}

unfoldable pub schedule_capability : OperationManifest
schedule_capability = record {
  name = "schedule.describe_capability";
  allowed_acts = capability_question ∷ [];
  domain = BusinessDomain.schedule;
  is_write = false;
  risk = risk_read;
  scope = both;
  min_role = pos 0;
  required_trusted_params = [];
  optional_trusted_params = [];
  query_shapes = [];
  defaults = [];
  recognition = record {
    description = "说明课表查询能力和可查询对象，不执行具体课表查询";
    aliases = [];
    examples = "课表能查什么" ∷ "可以查别人的课程吗" ∷ [];
    negative_examples = "查询杨思见的课程信息" ∷ "课表规则是什么" ∷ [];
    raw_slots = [];
    continue_shapes = [];
  };
  workflow = some single_turn_workflow_spec;
  dispatch = "capability_answer";
  resolvers = [];
  policies = "conversation_scope" ∷ [];
  idempotency = no_idempotency;
  write_guard = "not_required";
  executor = "executor.schedule.describe_capability";
  renderer = record { name = "response_renderer"; kind = answer };
  eval = record {
    case_ids = "catalog-schedule-describe-capability" ∷ [];
    replay_tags = "capability" ∷ "schedule" ∷ [];
  };
  capability = some (record {
    title = "课表查询";
    description = "查询自己的课表，也可以查询指定姓名用户的课表。";
    answer_only = true;
    directly_usable = true;
  });
}

unfoldable pub subscription_capability : OperationManifest
subscription_capability = record {
  name = "subscription.describe_capability";
  allowed_acts = capability_question ∷ [];
  domain = BusinessDomain.subscription;
  is_write = false;
  risk = risk_read;
  scope = group;
  min_role = pos 0;
  required_trusted_params = [];
  optional_trusted_params = [];
  query_shapes = [];
  defaults = [];
  recognition = record {
    description = "说明群考勤订阅支持的查询、开启、取消和按部门管理能力，不执行写操作";
    aliases = [];
    examples = "考勤订阅能做什么" ∷ "群推送支持哪些功能" ∷ [];
    negative_examples = "开启本群考勤订阅" ∷ "本群订阅开了吗" ∷ [];
    raw_slots = [];
    continue_shapes = [];
  };
  workflow = some single_turn_workflow_spec;
  dispatch = "capability_answer";
  resolvers = [];
  policies = "group_conversation" ∷ [];
  idempotency = no_idempotency;
  write_guard = "not_required";
  executor = "executor.subscription.describe_capability";
  renderer = record { name = "response_renderer"; kind = answer };
  eval = record {
    case_ids = "catalog-subscription-describe-capability" ∷ [];
    replay_tags = "capability" ∷ "subscription" ∷ [];
  };
  capability = some (record {
    title = "群考勤订阅";
    description = "在群聊里可以查询当前群考勤推送订阅状态；管理员还可以开启、取消或按部门管理订阅。";
    answer_only = true;
    directly_usable = true;
  });
}

unfoldable pub manual_sign_capability : OperationManifest
manual_sign_capability = record {
  name = "manual_sign.describe_capability";
  allowed_acts = capability_question ∷ [];
  domain = BusinessDomain.manual_sign;
  is_write = false;
  risk = risk_read;
  scope = both;
  min_role = pos 0;
  required_trusted_params = [];
  optional_trusted_params = [];
  query_shapes = [];
  defaults = [];
  recognition = record {
    description = "说明补签或代签所需信息和当前聊天能力边界；当前聊天不能直接执行补签";
    aliases = [];
    examples = "可以补签吗" ∷ "补签支持什么流程" ∷ [];
    negative_examples = "给张三补签今天第一节" ∷ "查询张三今天考勤" ∷ [];
    raw_slots = [];
    continue_shapes = [];
  };
  workflow = some single_turn_workflow_spec;
  dispatch = "capability_answer";
  resolvers = [];
  policies = "conversation_scope" ∷ [];
  idempotency = no_idempotency;
  write_guard = "not_required";
  executor = "executor.manual_sign.describe_capability";
  renderer = record { name = "response_renderer"; kind = answer };
  eval = record {
    case_ids =
        "protocol-manual-sign-capability" ∷ "protocol-workflow-interrupted-by-capability" ∷ [];
    replay_tags = "capability" ∷ "manual_sign" ∷ [];
  };
  capability = some (record {
    title = "管理员补签";
    description = "说明代签/补签能力和所需信息；当前聊天路径不直接执行补签。";
    answer_only = true;
    directly_usable = false;
  });
}
