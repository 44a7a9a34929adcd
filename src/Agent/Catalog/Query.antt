-- ===== src/Agent/Catalog/Query.antt =====
-- internal/agent/operation_catalog.go: the queries on attendance and timetables.
use ding_ding_schedule.Prelude.{false, none, some, true, [], ◌∷◌}
use ding_ding_schedule.Prelude.Int.{pos}
use ding_ding_schedule.Agent.Protocol.{BusinessDomain, read_query, result}
use ding_ding_schedule.Agent.Catalog.Manifest.{
  OperationManifest, both, current_week, no_idempotency, risk_read, single_turn_workflow_spec,
  today,
}

unfoldable pub attendance_status : OperationManifest
attendance_status = record {
  name = "attendance.query_status";
  allowed_acts = read_query ∷ [];
  domain = BusinessDomain.attendance;
  is_write = false;
  risk = risk_read;
  scope = both;
  min_role = pos 0;
  required_trusted_params = "date" ∷ "section" ∷ [];
  optional_trusted_params = "user_id" ∷ "query_shape" ∷ [];
  query_shapes =
      (record { name = "slot_status"; required_trusted_params = "date" ∷ "section" ∷ [] })
      ∷ (record { name = "user_day_status"; required_trusted_params = "date" ∷ "user_id" ∷ [] })
      ∷ [];
  defaults = ("date", today) ∷ [];
  recognition = record {
    description = "查询指定日期和节次的考勤状态，或查询指定用户某天的考勤状态";
    aliases = [];
    examples = "查询今天第二节考勤状态" ∷ "张三今天考勤怎么样" ∷ [];
    negative_examples = "考勤迟到规则是什么" ∷ "开启本群考勤订阅" ∷ [];
    raw_slots =
        (record {
          raw_name = "date";
          target_param = "date";
          resolver = "date_slot";
          shape = "";
          required = false;
        })
        ∷ (record {
          raw_name = "section";
          target_param = "section";
          resolver = "section_slot";
          shape = "";
          required = false;
        })
        ∷ (record {
          raw_name = "user_name";
          target_param = "user_id";
          resolver = "user_resolver";
          shape = "";
          required = false;
        })
        ∷ (record {
          raw_name = "user";
          target_param = "user_id";
          resolver = "user_resolver";
          shape = "";
          required = false;
        })
        ∷ (record {
          raw_name = "query_shape";
          target_param = "query_shape";
          resolver = "query_shape_slot";
          shape = "";
          required = false;
        })
        ∷ [];
    continue_shapes = [];
  };
  workflow = some single_turn_workflow_spec;
  dispatch = "attendance_request";
  resolvers =
      (record { param = "date"; name = "date_slot" })
      ∷ (record { param = "section"; name = "section_slot" })
      ∷ (record { param = "user_id"; name = "user_resolver" })
      ∷ (record { param = "week"; name = "semester_default" })
      ∷ (record { param = "query_shape"; name = "query_shape_slot" })
      ∷ [];
  policies = "conversation_scope" ∷ [];
  idempotency = no_idempotency;
  write_guard = "not_required";
  executor = "executor.attendance.query_status";
  renderer = record { name = "response_renderer"; kind = result };
  eval = record {
    case_ids = "protocol-attendance-slot-status" ∷ [];
    replay_tags = "attendance" ∷ [];
  };
  capability = none;
}

unfoldable pub my_schedule : OperationManifest
my_schedule = record {
  name = "schedule.query_my_schedule";
  allowed_acts = read_query ∷ [];
  domain = BusinessDomain.schedule;
  is_write = false;
  risk = risk_read;
  scope = both;
  min_role = pos 0;
  required_trusted_params = "week" ∷ [];
  optional_trusted_params = [];
  query_shapes = [];
  defaults = ("week", current_week) ∷ [];
  recognition = record {
    description = "查询当前用户自己在指定教学周的课程安排";
    aliases = [];
    examples = "查我的课表" ∷ "我这周课程安排看一下" ∷ [];
    negative_examples = "查询张三的课表" ∷ "课表规则是什么" ∷ [];
    raw_slots =
        (record {
          raw_name = "week";
          target_param = "week";
          resolver = "week_slot";
          shape = "";
          required = false;
        })
        ∷ [];
    continue_shapes = [];
  };
  workflow = some single_turn_workflow_spec;
  dispatch = "schedule_request";
  resolvers = (record { param = "week"; name = "week_slot" }) ∷ [];
  policies = "conversation_scope" ∷ [];
  idempotency = no_idempotency;
  write_guard = "not_required";
  executor = "executor.schedule.query_my_schedule";
  renderer = record { name = "response_renderer"; kind = result };
  eval = record { case_ids = "protocol-my-schedule" ∷ []; replay_tags = "schedule" ∷ [] };
  capability = none;
}

unfoldable pub user_schedule : OperationManifest
user_schedule = record {
  name = "schedule.query_user_schedule";
  allowed_acts = read_query ∷ [];
  domain = BusinessDomain.schedule;
  is_write = false;
  risk = risk_read;
  scope = both;
  min_role = pos 0;
  required_trusted_params = "user_id" ∷ "week" ∷ [];
  optional_trusted_params = [];
  query_shapes = [];
  defaults = ("week", current_week) ∷ [];
  recognition = record {
    description = "查询指定用户在指定教学周的课程安排";
    aliases = [];
    examples = "查询一下杨思见的课程信息" ∷ "查张三本周课表" ∷ [];
    negative_examples = "查我的课表" ∷ "课表规则是什么" ∷ [];
    raw_slots =
        (record {
          raw_name = "user_name";
          target_param = "user_id";
          resolver = "user_resolver";
          shape = "";
          required = true;
        })
        ∷ (record {
          raw_name = "user";
          target_param = "user_id";
          resolver = "user_resolver";
          shape = "";
          required = false;
        })
        ∷ (record {
          raw_name = "week";
          target_param = "week";
          resolver = "week_slot";
          shape = "";
          required = false;
        })
        ∷ [];
    continue_shapes = [];
  };
  workflow = some single_turn_workflow_spec;
  dispatch = "schedule_request";
  resolvers =
      (record { param = "user_id"; name = "user_resolver" })
      ∷ (record { param = "week"; name = "week_slot" })
      ∷ [];
  policies = "conversation_scope" ∷ "schedule_user_visibility" ∷ [];
  idempotency = no_idempotency;
  write_guard = "not_required";
  executor = "executor.schedule.query_user_schedule";
  renderer = record { name = "response_renderer"; kind = result };
  eval = record {
    case_ids = "catalog-schedule-query-user-schedule" ∷ [];
    replay_tags = "schedule" ∷ [];
  };
  capability = none;
}
