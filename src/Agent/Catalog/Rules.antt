-- ===== src/Agent/Catalog/Rules.antt =====
-- internal/agent/operation_catalog.go: the questions about rules.
use ding_ding_schedule.Prelude.{false, none, some, [], ◌∷◌}
use ding_ding_schedule.Prelude.Int.{pos}
use ding_ding_schedule.Agent.Protocol.{BusinessDomain, answer, rule_question}
use ding_ding_schedule.Agent.Catalog.Manifest.{
  OperationManifest, both, no_idempotency, risk_read, single_turn_workflow_spec,
}

unfoldable pub attendance_rule : OperationManifest
attendance_rule = record {
  name = "attendance.rule_explain";
  allowed_acts = rule_question ∷ [];
  domain = BusinessDomain.attendance;
  is_write = false;
  risk = risk_read;
  scope = both;
  min_role = pos 0;
  required_trusted_params = "rule_topic" ∷ [];
  optional_trusted_params = [];
  query_shapes = [];
  defaults = [];
  recognition = record {
    description = "解释考勤、迟到、缺勤、打卡或休息日相关规则，不查询实时考勤结果";
    aliases = [];
    examples = "迟到规则是什么" ∷ "休息日和考勤冲突怎么判" ∷ [];
    negative_examples = "查询今天第二节考勤状态" ∷ "考勤能做什么" ∷ [];
    raw_slots =
        (record {
          raw_name = "rule_topic";
          target_param = "rule_topic";
          resolver = "rule_topic_slot";
          shape = "";
          required = false;
        })
        ∷ [];
    continue_shapes = [];
  };
  workflow = some single_turn_workflow_spec;
  dispatch = "rule_explain";
  resolvers = (record { param = "rule_topic"; name = "rule_topic_slot" }) ∷ [];
  policies = "conversation_scope" ∷ [];
  idempotency = no_idempotency;
  write_guard = "not_required";
  executor = "executor.attendance.rule_explain";
  renderer = record { name = "response_renderer"; kind = answer };
  eval = record {
    case_ids = "protocol-rule-no-hit" ∷ [];
    replay_tags = "rule" ∷ "attendance" ∷ [];
  };
  capability = none;
}

unfoldable pub schedule_rule : OperationManifest
schedule_rule = record {
  name = "schedule.rule_explain";
  allowed_acts = rule_question ∷ [];
  domain = BusinessDomain.schedule;
  is_write = false;
  risk = risk_read;
  scope = both;
  min_role = pos 0;
  required_trusted_params = "rule_topic" ∷ [];
  optional_trusted_params = [];
  query_shapes = [];
  defaults = [];
  recognition = record {
    description = "解释课表、排课或课程可见性规则，不查询具体课表";
    aliases = [];
    examples = "课表规则是什么" ∷ "排课规则按什么口径生效" ∷ [];
    negative_examples = "查询杨思见的课程信息" ∷ "课表能查什么" ∷ [];
    raw_slots =
        (record {
          raw_name = "rule_topic";
          target_param = "rule_topic";
          resolver = "rule_topic_slot";
          shape = "";
          required = false;
        })
        ∷ [];
    continue_shapes = [];
  };
  workflow = some single_turn_workflow_spec;
  dispatch = "rule_explain";
  resolvers = (record { param = "rule_topic"; name = "rule_topic_slot" }) ∷ [];
  policies = "conversation_scope" ∷ [];
  idempotency = no_idempotency;
  write_guard = "not_required";
  executor = "executor.schedule.rule_explain";
  renderer = record { name = "response_renderer"; kind = answer };
  eval = record {
    case_ids = "catalog-schedule-rule-explain" ∷ [];
    replay_tags = "rule" ∷ "schedule" ∷ [];
  };
  capability = none;
}

unfoldable pub subscription_rule : OperationManifest
subscription_rule = record {
  name = "subscription.rule_explain";
  allowed_acts = rule_question ∷ [];
  domain = BusinessDomain.subscription;
  is_write = false;
  risk = risk_read;
  scope = both;
  min_role = pos 0;
  required_trusted_params = "rule_topic" ∷ [];
  optional_trusted_params = [];
  query_shapes = [];
  defaults = [];
  recognition = record {
    description = "解释群考勤订阅、推送范围和部门订阅规则，不查询或修改当前订阅";
    aliases = [];
    examples = "群订阅规则是什么" ∷ "按部门订阅如何生效" ∷ [];
    negative_examples = "本群订阅开了吗" ∷ "关闭本群考勤推送" ∷ [];
    raw_slots =
        (record {
          raw_name = "rule_topic";
          target_param = "rule_topic";
          resolver = "rule_topic_slot";
          shape = "";
          required = false;
        })
        ∷ [];
    continue_shapes = [];
  };
  workflow = some single_turn_workflow_spec;
  dispatch = "rule_explain";
  resolvers = (record { param = "rule_topic"; name = "rule_topic_slot" }) ∷ [];
  policies = "conversation_scope" ∷ [];
  idempotency = no_idempotency;
  write_guard = "not_required";
  executor = "executor.subscription.rule_explain";
  renderer = record { name = "response_renderer"; kind = answer };
  eval = record {
    case_ids = "catalog-subscription-rule-explain" ∷ [];
    replay_tags = "rule" ∷ "subscription" ∷ [];
  };
  capability = none;
}
