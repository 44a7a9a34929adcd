-- ===== src/Agent/ExecutionGate/Access.antt =====
-- What a request has that the resource policy gate lets through.
use ding_ding_schedule.Prelude.{
  ℕ, Bool, true, false, not, ◌≡◌, refl, subst, ap, inl, inr, ◌⊎◌, String, Option, none, some, List,
  [], ◌∷◌, ◌==◌, any, All, arith, Bool-cases, Option-cases, if_false, if◌then◌else◌, str_eq,
  is_empty, trim_space, eq_iff, eq_of_some, decided-true,
}
use ding_ding_schedule.Prelude.Int.{ℤ, pos, ◌≤ℤ◌}
use ding_ding_schedule.Agent.Catalog.{lookup_operation}
use ding_ding_schedule.Agent.Catalog.Manifest.{OperationManifest}
use ding_ding_schedule.Agent.Workflow.Engine.{Params, find_param}
use ding_ding_schedule.Agent.ExecutionGate.{
  OperationRequest, UserContext, extract_param_string, extract_param_uint,
  extract_param_int64_slice,
}
use ding_ding_schedule.Agent.ExecutionGate.Resource.{
  DeptItem, ResourcePolicyGateInput, ResourcePolicyGateResult, deny_resource_policy, zero_result,
  group_conversation, candidate_dept_param_allowed, listed, all_listed, check_listed,
  department_scope, departments_allowed, scope_checked, validate_department_scope,
  subscription_scope_valid, schedule_user_visible, visible_to, denied_by, after_policies, validated,
  request_conversation, request_conversation_matches_user, requires_conversation,
  subscription_operation_requires_current_conversation,
}
use ding_ding_schedule.Agent.ExecutionGate.Resource
use ding_ding_schedule.Agent.ExecutionGate.Ownership.{
  OwnCandidate, Lists, ValidScope, ConversationOf, candidate_dept_param_allowed-OwnCandidate,
  all_listed-Lists, subscription_scope_valid-Valid, request_conversation-Of,
}
use ding_ding_schedule.Agent.Protocol.{BusinessDomain}
use ding_ding_schedule.Agent.PolicyGate.{domain_eq}

abbrev pub names : String → List String → Bool
names name policies = any (λ p. str_eq p name) policies

one_name : (p a b : String) → str_eq a b ≡ false → str_eq p a ≡ true → str_eq p b ≡ false
one_name p a b differ same = rw ((eq_iff p a).0 same) differ

module _ (valid_date : String → Bool) (input : ResourcePolicyGateInput) where
  abbrev pub params : Params
  params = input.request.trusted_params

  abbrev pub InGroup : Type 0
  InGroup = (u : UserContext) × (input.user ≡ some u) × (trim_space u.conversation_type ≡ "2")

  abbrev pub SeesUser : Type 0
  SeesUser =
      (u : UserContext) × (target : ℕ) × (input.user ≡ some u)
      × (extract_param_uint valid_date params "user_id" ≡ some target)
      × ((target ≡ u.user_id) ⊎ (pos 1 ≤ℤ u.user_role))

  -- The departments that are asked for were chosen from a candidate that `OwnCandidate` describes, or the
  -- port lists each of them, and not for another tenant.
  abbrev pub OwnDepartments : Option (List DeptItem) → Type 0
  OwnDepartments port =
      (ids : List ℤ) × (extract_param_int64_slice valid_date params "dept_ids" ≡ some ids)
      × (OwnCandidate input.user (find_param "dept_ids" params)
          ⊎ ((depts : List DeptItem) × (port ≡ some depts) × All (Lists input.user depts) ids))

  abbrev pub InOwnConversation : Type 0
  InOwnConversation =
      (u : UserContext) × (c : String) × (input.user ≡ some u)
      × ConversationOf (extract_param_string valid_date params "conversation_id")
          input.request.conversation_id c
      × (c ≡ trim_space u.conversation_id)
      × (is_empty c ≡ false)

  -- What the policies of an operation ask, and the conversation that it may need.
  abbrev pub Granted : OperationManifest → Type 0
  Granted m =
      (names "group_conversation" m.policies ≡ true → InGroup)
      × (names "subscription_scope" m.policies ≡ true
          → (input.request.operation ≡ "subscription.start" → ValidScope params)
            × ((port : Option (List DeptItem))
                → input.dept ≡ some port
                → extract_param_string valid_date params "scope" ≡ some "department"
                → OwnDepartments port))
      × (names "schedule_user_visibility" m.policies ≡ true → SeesUser)
      × (m.domain ≡ BusinessDomain.subscription
          → names "conversation_id" m.required_trusted_params ≡ true
          → InOwnConversation)

  group_conversation-InGroup :
      (o : Option UserContext)
      → group_conversation o ≡ true
      → (u : UserContext) × (o ≡ some u) × (trim_space u.conversation_type ≡ "2")
  group_conversation-InGroup none h = cc
  group_conversation-InGroup (some u) h =
      (u, refl, (eq_iff (trim_space u.conversation_type) "2").0 h)

  visible_target :
      (u : UserContext) (o : Option ℕ)
      → visible_to valid_date u o ≡ true
      → (target : ℕ) × (o ≡ some target) × ((target ≡ u.user_id) ⊎ (pos 1 ≤ℤ u.user_role))
  visible_target u none h = cc
  visible_target u (some target) h = elim (Bool-cases (target == u.user_id)) [
    | inl own ↦ (target, refl, inl ground (arith))
    | inr other ↦ (target, refl, inr ground (arith))
  ]

  schedule_user_visible-SeesUser :
      (o : Option UserContext) (ps : Params)
      → schedule_user_visible valid_date o ps ≡ true
      → (u : UserContext) × (target : ℕ) × (o ≡ some u)
        × (extract_param_uint valid_date ps "user_id" ≡ some target)
        × ((target ≡ u.user_id) ⊎ (pos 1 ≤ℤ u.user_role))
  unfolding schedule_user_visible
  schedule_user_visible-SeesUser none ps h = cc
  schedule_user_visible-SeesUser (some u) ps h =
      let (target, found, seen) = visible_target u (extract_param_uint valid_date ps "user_id") h in
      (u, target, refl, found, seen)

  conversation_matches :
      (o : Option UserContext) (req : OperationRequest)
      → request_conversation_matches_user valid_date o req ≡ true
      → (u : UserContext) × (c : String) × (o ≡ some u)
        × ConversationOf
            (extract_param_string valid_date req.trusted_params "conversation_id")
            req.conversation_id
            c
        × (c ≡ trim_space u.conversation_id)
        × (is_empty c ≡ false)
  unfolding request_conversation_matches_user
  conversation_matches none req h = cc
  conversation_matches (some u) req h =
      let trusted = extract_param_string valid_date req.trusted_params "conversation_id" in
      let c = request_conversation trusted req.conversation_id in
      (
        u,
        c,
        refl,
        request_conversation-Of trusted req.conversation_id,
        (eq_iff c (trim_space u.conversation_id)).0 ground (arith),
        ground (arith),
      )

  conversation_needed :
      (m : OperationManifest)
      → lookup_operation input.request.operation ≡ some m
      → m.domain ≡ BusinessDomain.subscription
      → names "conversation_id" m.required_trusted_params ≡ true
      → subscription_operation_requires_current_conversation input.request.operation ≡ true
  unfolding subscription_operation_requires_current_conversation requires_conversation
  conversation_needed m found of_subscriptions named =
      let same : domain_eq m.domain BusinessDomain.subscription ≡ true =
        decided-true _ of_subscriptions in
      rw found ground (arith, same, named)

  listed_departments :
      (port : Option (List DeptItem)) (ids : List ℤ)
      → is_empty (check_listed input.user port ids).blocked_reason ≡ true
      → (depts : List DeptItem) × (port ≡ some depts) × All (Lists input.user depts) ids
  unfolding deny_resource_policy
  listed_departments none ids h = cc
  listed_departments (some depts) ids h = elim (Bool-cases (all_listed input.user depts ids)) [
    | inl all ↦ (depts, refl, all_listed-Lists input.user depts ids all)
    | inr missing ↦
        let refused =
          subst (λ (r : ResourcePolicyGateResult). is_empty r.blocked_reason ≡ true)
            (if_false _ _ _ missing) h in
        cc
  ]

  allowed_departments :
      (port : Option (List DeptItem)) (o : Option (List ℤ))
      → is_empty (departments_allowed valid_date input port o).blocked_reason ≡ true
      → (ids : List ℤ) × (o ≡ some ids)
        × (OwnCandidate input.user (find_param "dept_ids" params)
            ⊎ ((depts : List DeptItem) × (port ≡ some depts) × All (Lists input.user depts) ids))
  unfolding deny_resource_policy
  allowed_departments port none h = cc
  allowed_departments port (some ids) h =
      elim (Bool-cases (candidate_dept_param_allowed input.user (find_param "dept_ids" params))) [
        | inl own ↦ (ids, refl, inl (candidate_dept_param_allowed-OwnCandidate input.user _ own))
        | inr other ↦ (
          ids,
          refl,
          inr (
              listed_departments port ids (
                subst (λ (r : ResourcePolicyGateResult). is_empty r.blocked_reason ≡ true)
                  (if_false _ _ _ other) h)),
        )
      ]

  department_scope-holds :
      (scope : Option String) → department_scope scope ≡ true → scope ≡ some "department"
  department_scope-holds none h = cc
  department_scope-holds (some scope) h = ap some ((eq_iff scope "department").0 h)

  scoped_departments :
      (port : Option (List DeptItem))
      → is_empty (scope_checked valid_date input (some port)).blocked_reason ≡ true
      → extract_param_string valid_date params "scope" ≡ some "department"
      → OwnDepartments port
  scoped_departments port h by_department =
      allowed_departments port (extract_param_int64_slice valid_date params "dept_ids") (
        subst
          (λ o.
            is_empty
              (if department_scope o
                then departments_allowed valid_date input port
                    (extract_param_int64_slice valid_date params "dept_ids")
                else zero_result).blocked_reason
            ≡ true)
          by_department h)

  -- what the loop has found of each policy when it denies nothing
  pub record Passed (policies : List String) : Type 0 where
    pub in_group : names "group_conversation" policies ≡ true → group_conversation input.user ≡ true
    pub scope_valid :
        names "subscription_scope" policies ≡ true
        → (subscription_scope_valid input.request.operation params ≡ true)
          × (is_empty (validate_department_scope valid_date input).blocked_reason ≡ true)
    pub user_visible :
        names "schedule_user_visibility" policies ≡ true
        → schedule_user_visible valid_date input.user params ≡ true

  denied_by-Passed :
      (policies : List String) → denied_by valid_date input policies ≡ none → Passed policies
  unfolding denied_by
  denied_by-Passed [] h = record {
    in_group = λ n. cc;
    scope_valid = λ n. cc;
    user_visible = λ n. cc;
  }
  denied_by-Passed (p ∷ policies) h =
      let later = denied_by-Passed policies ground (arith) in
      let in_group = later.in_group in
      let scope_valid = later.scope_valid in
      let user_visible = later.user_visible in
      let not_scope = one_name p "group_conversation" "subscription_scope" refl in
      let not_visibility = one_name p "group_conversation" "schedule_user_visibility" refl in
      let scope_not_visibility = one_name p "subscription_scope" "schedule_user_visibility" refl in
      record {
        in_group = λ n. ground (arith, n);
        scope_valid = λ n. (ground (arith, n), ground (arith, n));
        user_visible = λ n. ground (arith, n);
      }

  check_listed-disallows :
      (o : Option (List DeptItem)) (ids : List ℤ) → (check_listed input.user o ids).allow ≡ false
  unfolding deny_resource_policy
  check_listed-disallows none ids = refl
  check_listed-disallows (some depts) ids = ground arith

  departments_allowed-disallows :
      (port : Option (List DeptItem)) (o : Option (List ℤ))
      → (departments_allowed valid_date input port o).allow ≡ false
  unfolding deny_resource_policy
  departments_allowed-disallows port none = refl
  departments_allowed-disallows port (some ids) = ground (arith, check_listed-disallows port ids)

  scope_checked-disallows :
      (o : Option (Option (List DeptItem))) → (scope_checked valid_date input o).allow ≡ false
  scope_checked-disallows none = refl
  scope_checked-disallows (some port) = ground (
    arith,
    departments_allowed-disallows port (extract_param_int64_slice valid_date params "dept_ids"),
  )

  Disallows : Option ResourcePolicyGateResult → Type 0
  Disallows o = (r : ResourcePolicyGateResult) → o ≡ some r → r.allow ≡ false

  either_way :
      (b : Bool) (x y : Option ResourcePolicyGateResult)
      → Disallows x
      → Disallows y
      → Disallows (if b then x else y)
  either_way true x y h g = h
  either_way false x y h g = g

  nothing_yet : Disallows none
  unfolding Disallows
  nothing_yet r e = cc

  this_one : (d : ResourcePolicyGateResult) → d.allow ≡ false → Disallows (some d)
  unfolding Disallows
  this_one d off r e = subst (λ (q : ResourcePolicyGateResult). q.allow ≡ false) (eq_of_some e) off

  denied_by-Disallows : (policies : List String) → Disallows (denied_by valid_date input policies)
  unfolding denied_by validate_department_scope deny_resource_policy
  denied_by-Disallows [] = nothing_yet
  denied_by-Disallows (p ∷ policies) =
      let later = denied_by-Disallows policies in
      either_way (str_eq p "group_conversation") _ _
        (either_way (group_conversation input.user) _ _ later (this_one _ refl))
        (either_way (str_eq p "subscription_scope") _ _
          (either_way (not (subscription_scope_valid input.request.operation params)) _ _
            (this_one _ refl)
            (either_way (is_empty (scope_checked valid_date input input.dept).blocked_reason) _ _
              later (this_one _ (scope_checked-disallows input.dept))))
          (either_way (str_eq p "schedule_user_visibility") _ _
            (either_way (schedule_user_visible valid_date input.user params) _ _ later
              (this_one _ refl))
            later))

  off_when :
      (policies : List String) (r : ResourcePolicyGateResult)
      → denied_by valid_date input policies ≡ some r
      → r.allow ≡ false
  unfolding Disallows
  off_when policies r h = denied_by-Disallows policies r h

  access :
      (o : Option OperationManifest)
      → lookup_operation input.request.operation ≡ o
      → (validated valid_date input o).allow ≡ true
      → (m : OperationManifest) × (o ≡ some m) × Granted m
  unfolding deny_resource_policy validate_department_scope
  access none found allowed = cc
  access (some m) found allowed = elim (Option-cases (denied_by valid_date input m.policies)) [
    | inr (r, denied) ↦
        let off = off_when m.policies r denied in
        let on = subst (λ d. (after_policies valid_date input d).allow ≡ true) denied allowed in cc
    | inl not_denied ↦
        let passed = denied_by-Passed m.policies not_denied in
        let on = subst (λ d. (after_policies valid_date input d).allow ≡ true) not_denied allowed in
        (
          m,
          refl,
          (
            (λ n. group_conversation-InGroup input.user (passed.in_group n)),
            (λ n. (
              (λ start. subscription_scope_valid-Valid _ params start (passed.scope_valid n).0),
              λ port there by_department.
                  scoped_departments port
                    (subst (λ d. is_empty (scope_checked valid_date input d).blocked_reason ≡ true)
                      there (passed.scope_valid n).1)
                    by_department,
            )),
            (λ n. schedule_user_visible-SeesUser input.user params (passed.user_visible n)),
            (λ of_subscriptions named.
                let needed = conversation_needed m found of_subscriptions named in
                conversation_matches input.user input.request ground (arith, needed)),
          ),
        )
  ]

  -- A request that the resource gate lets through is of a catalogued operation. As the policies of
  -- the operation ask: its user is in a group conversation; the scope of a new subscription is
  -- everybody or given departments, and when the port of departments is there and the scope is by
  -- department, the departments were chosen from a candidate of the caller's tenant (of some tenant,
  -- where the caller has none), or the port lists each of them, not for another tenant; the user whose
  -- schedule it shows is the caller, or the caller has a role of 1 or more. And where a subscription
  -- operation requires a conversation, that of the request is the caller's own, and not empty.
  pub resource_access :
      (Resource.validate valid_date input).allow ≡ true
      → (m : OperationManifest) × (lookup_operation input.request.operation ≡ some m) × Granted m
  unfolding Resource.validate
  resource_access allowed = access (lookup_operation input.request.operation) refl allowed
