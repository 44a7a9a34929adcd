-- ===== src/Agent/PolicyGate/Laws.antt =====
-- What the gate before resolution lets through.
use ding_ding_schedule.Prelude.{
  ℕ, ◌≤◌, ◌≡◌, ltb, refl, sym, ◌∙◌, Bool, true, false, ◌⊎◌, inl, inr, String, Option, none, some,
  List, [], ◌∷◌, arith, Option-cases, Bool-cases, str_eq, eq_iff, trim_space, All, of_decided,
  decided-true, eq_of_some, subst,
}
use ding_ding_schedule.Prelude.Int.{ℤ, ltb_ℤ, ◌≤ℤ◌, pos}
use ding_ding_schedule.Agent.Protocol.{
  UserAct, read_query, write_request, workflow_continue, workflow_cancel, unknown_act,
  BusinessDomain, low_confidence, low_confidence_write_threshold,
}
use ding_ding_schedule.Agent.Catalog.{lookup_operation, find_manifest, operation_catalog_entries}
use ding_ding_schedule.Agent.Catalog.Manifest.{OperationManifest, group}
use ding_ding_schedule.Agent.PolicyGate.{
  PrePolicyGateInput, ProtocolWorkflowContext, BusinessDomain-discrete, domain_eq, act_allowed,
  conversation_scope_allowed, enforce_pre_user_policy, validate, decide_act, decide_operation,
  catalog_mismatch, act_eq, cancel_workflow, validate_act, continue_workflow, continue_operation,
  workflow_continue_targets_active_workflow,
}

domain_eq→eq : (a b : BusinessDomain) → domain_eq a b ≡ true → a ≡ b
domain_eq→eq a b h = of_decided (BusinessDomain-discrete a b) h

-- A caller that is known may use the operation.
pub record Permits (i : PrePolicyGateInput) (m : OperationManifest) : Type 0 where
  pub scope : conversation_scope_allowed m.scope i.conversation_type ≡ true
  pub role : ltb_ℤ i.user_role m.min_role ≡ false

policy_passes :
    (i : PrePolicyGateInput) (m : OperationManifest) (interrupt : Bool)
    → enforce_pre_user_policy i m interrupt ≡ none
    → i.has_user_context ≡ true
    → Permits i m
unfolding enforce_pre_user_policy
policy_passes i m interrupt h known = record { scope = ground arith; role = ground arith }

-- What stands behind a permission to execute.
pub record Authorised (i : PrePolicyGateInput) (m : OperationManifest) : Type 0 where
  pub domain : i.draft.domain ≡ m.domain
  pub permits : i.has_user_context ≡ true → Permits i m

continue_operation-allows :
    (i : PrePolicyGateInput) (w : ProtocolWorkflowContext) (m : OperationManifest)
    → (continue_operation i w (some m)).allow_execution ≡ true
    → (domain_eq i.draft.domain m.domain ≡ true) × (enforce_pre_user_policy i m false ≡ none)
unfolding continue_operation
continue_operation-allows i w m h = (ground arith, ground arith)

continue_operation-found :
    (i : PrePolicyGateInput) (w : ProtocolWorkflowContext) (o : Option OperationManifest)
    → (continue_operation i w o).allow_execution ≡ true
    → (m : OperationManifest) × (o ≡ some m)
      × (i.draft.domain ≡ m.domain)
      × (enforce_pre_user_policy i m false ≡ none)
continue_operation-found i w none h = unfold continue_operation in cc
continue_operation-found i w (some m) h =
    let (same, passes) = continue_operation-allows i w m h in
    (m, refl, domain_eq→eq _ _ same, passes)

continue_workflow-targets :
    (i : PrePolicyGateInput) (o : Option ProtocolWorkflowContext)
    → (continue_workflow i o).allow_execution ≡ true
    → (w : ProtocolWorkflowContext) × (o ≡ some w)
      × (workflow_continue_targets_active_workflow i.draft.operation w.type ≡ true)
      × ((continue_operation i w (lookup_operation i.draft.operation)).allow_execution ≡ true)
unfolding continue_workflow
continue_workflow-targets i none h = cc
continue_workflow-targets i (some w) h =
    elim (Bool-cases (workflow_continue_targets_active_workflow i.draft.operation w.type)) [
      | inl e ↦ (w, refl, e, (rw e at h))
      | inr e ↦ cc (rw e at h)
    ]

decide_act-allows :
    (i : PrePolicyGateInput) (m : OperationManifest) (interrupt : Bool) (act : UserAct)
    → (decide_act i m interrupt act).allow_execution ≡ true
    → (enforce_pre_user_policy i m interrupt ≡ none)
      × ((act ≡ read_query) ⊎ ((act ≡ write_request) × (low_confidence i.draft.confidence ≡ false)))
unfolding decide_act
decide_act-allows i m interrupt read_query h = (ground arith, inl refl)
decide_act-allows i m interrupt write_request h = (ground arith, inr (refl, ground arith))
decide_act-allows i m interrupt _ h = ground arith

catalog_match :
    (act : UserAct) (domain : BusinessDomain) (m : OperationManifest)
    → catalog_mismatch act domain m ≡ none
    → (domain ≡ m.domain)
      × (act_allowed act m.allowed_acts ≡ true)
      × (act ≡ read_query → m.is_write ≡ false)
      × (act ≡ write_request → m.is_write ≡ true)
unfolding catalog_mismatch
catalog_match act domain m h = (
  domain_eq→eq domain m.domain (ground arith),
  ground arith,
  λ e. let same : act_eq act read_query ≡ true = decided-true _ e in ground arith,
  λ e. let same : act_eq act write_request ≡ true = decided-true _ e in ground arith,
)

-- The read or write that the draft asks for is what the operation does, and a write is confident.
abbrev pub Matches : PrePolicyGateInput → OperationManifest → Type 0
Matches i m =
    ((i.draft.act ≡ read_query) × (m.is_write ≡ false))
    ⊎ ((i.draft.act ≡ write_request)
        × (m.is_write ≡ true)
        × (low_confidence i.draft.confidence ≡ false))

decide_operation-allows :
    (i : PrePolicyGateInput) (interrupt : Bool) (o : Option OperationManifest)
    → (decide_operation i interrupt o).allow_execution ≡ true
    → (m : OperationManifest) × (o ≡ some m)
      × (i.draft.domain ≡ m.domain)
      × (enforce_pre_user_policy i m interrupt ≡ none)
      × Matches i m
unfolding decide_operation
decide_operation-allows i interrupt none h = cc
decide_operation-allows i interrupt (some m) h =
    elim (Option-cases (catalog_mismatch i.draft.act i.draft.domain m)) [
      | inl e ↦
          let (same, allowed, reads, writes) = catalog_match i.draft.act i.draft.domain m e in
          let (passes, act_is) = decide_act-allows i m interrupt i.draft.act (rw e at h) in
          (
            m,
            refl,
            same,
            passes,
            elim act_is [ inl r ↦ inl (r, reads r) | inr (w, sure) ↦ inr (w, writes w, sure) ],
          )
      | inr (code, e) ↦ cc (rw e at h)
    ]

-- The draft continues the active workflow: by its own operation, or by one that its manifest names.
abbrev pub Continues : PrePolicyGateInput → Type 0
Continues i =
    (i.draft.act ≡ workflow_continue)
    × (w : ProtocolWorkflowContext) × (i.active_workflow ≡ some w)
    × (workflow_continue_targets_active_workflow i.draft.operation w.type ≡ true)

-- Why a draft may be executed.
abbrev pub Grounds : PrePolicyGateInput → Type 0
Grounds i =
    (m : OperationManifest) × (lookup_operation i.draft.operation ≡ some m)
    × Authorised i m
    × (Matches i m ⊎ Continues i)

from_operation :
    (i : PrePolicyGateInput) (interrupt : Bool)
    → (decide_operation i interrupt (lookup_operation i.draft.operation)).allow_execution ≡ true
    → Grounds i
from_operation i interrupt h =
    let (m, found, same, passes, matches) =
      decide_operation-allows i interrupt (lookup_operation i.draft.operation) h in
    (m, found, record { domain = same; permits = policy_passes i m interrupt passes }, inl matches)

validate_act-Grounds :
    (i : PrePolicyGateInput) (act : UserAct)
    → i.draft.act ≡ act
    → (validate_act i act).allow_execution ≡ true
    → Grounds i
unfolding validate_act
validate_act-Grounds i unknown_act is h = cc
validate_act-Grounds i workflow_cancel is h = absurd (never i.active_workflow h)
  where
    never : (o : Option ProtocolWorkflowContext) → (cancel_workflow o).allow_execution ≡ true → ⊥
    never none e = cc
    never (some w) e = cc
validate_act-Grounds i workflow_continue is h =
    let (w, active, targets, more) = continue_workflow-targets i i.active_workflow h in
    let (m, found, same, passes) =
      continue_operation-found i w (lookup_operation i.draft.operation) more in
    (
      m,
      found,
      record { domain = same; permits = policy_passes i m false passes },
      inr (is, w, active, targets),
    )
validate_act-Grounds i _ is h = from_operation i _ h

-- A draft is executed only for an operation of the catalogue, in the domain of that operation, by a
-- caller who meets its scope and its role where the caller is known; and only as a read by a reading
-- operation, a confident write by a writing operation, or a continuation that targets the active
-- workflow.
pub execution_authorised :
    (i : PrePolicyGateInput) → (validate i).allow_execution ≡ true → Grounds i
unfolding validate
execution_authorised i h = validate_act-Grounds i i.draft.act refl h

find_manifest-All :
    (P : OperationManifest → Type 0) (p : OperationManifest → Bool) (ms : List OperationManifest)
    {m : OperationManifest}
    → All P ms
    → find_manifest p ms ≡ some m
    → P m
find_manifest-All P p [] all h = cc
find_manifest-All P p (x ∷ xs) all h = elim (Bool-cases (p x)) [
  | inl e ↦ subst P (eq_of_some (rw e at h)) all.0
  | inr e ↦ find_manifest-All P p xs all.1 (rw e at h)
]

-- In the catalogue every write is for administrators, in a group conversation.
abbrev pub WritesAsAdmin : OperationManifest → Type 0
WritesAsAdmin m = m.is_write ≡ true → (m.scope ≡ group) × (m.min_role ≡ pos 1)

catalog_writes : All WritesAsAdmin operation_catalog_entries
unfolding operation_catalog_entries
catalog_writes = (
  (λ w. cc),
  (
    (λ _. (refl, refl)),
    (
      (λ _. (refl, refl)),
      (
        (λ w. cc),
        (
          (λ w. cc),
          (
            (λ w. cc),
            (
              (λ w. cc),
              (
                (λ w. cc),
                (
                  (λ w. cc),
                  ((λ w. cc), ((λ w. cc), ((λ w. cc), ((λ w. cc), ((λ w. cc), ((λ w. cc), tt)))))),
                ),
              ),
            ),
          ),
        ),
      ),
    ),
  ),
)

not_ltb : (a b : ℕ) → ltb a b ≡ false → b ≤ a
not_ltb a b h = ground arith

catalog_entry_writes :
    (name : String) (m : OperationManifest) → lookup_operation name ≡ some m → WritesAsAdmin m
unfolding lookup_operation
catalog_entry_writes name m found =
    find_manifest-All WritesAsAdmin (λ e. str_eq e.name name) operation_catalog_entries
      catalog_writes found

-- How a writing operation comes to run: as a confident write request, or in the active workflow.
abbrev pub AsWrite : PrePolicyGateInput → Type 0
AsWrite i =
    ((i.draft.act ≡ write_request) × (low_confidence_write_threshold ≤ i.draft.confidence))
    ⊎ Continues i

role_reached : (role : ℤ) → ltb_ℤ role (pos 1) ≡ false → pos 1 ≤ℤ role
role_reached role h = ground arith

sure_enough : (c : ℕ) → low_confidence c ≡ false → low_confidence_write_threshold ≤ c
unfolding low_confidence
sure_enough c h = not_ltb c low_confidence_write_threshold h

group_only : (type : String) → conversation_scope_allowed group type ≡ true → trim_space type ≡ "2"
unfolding conversation_scope_allowed
group_only type h = (eq_iff (trim_space type) "2").0 h

as_write :
    (i : PrePolicyGateInput) (m : OperationManifest)
    → m.is_write ≡ true
    → Matches i m ⊎ Continues i
    → AsWrite i
as_write i m writes (inl (inl (read, reads))) = cc
as_write i m writes (inl (inr (write, _, sure))) = inl (write, sure_enough i.draft.confidence sure)
as_write i m writes (inr continues) = inr continues

-- An operation of the catalogue that writes is executed for a known caller only in a group conversation
-- (type 2) and only for a role of at least 1; and only as a write request with a confidence of at least
-- 0.75, or as a continuation that targets the active workflow, whose confidence is not asked for.
pub write_needs_admin_in_group :
    (i : PrePolicyGateInput) (m : OperationManifest)
    → (validate i).allow_execution ≡ true
    → lookup_operation i.draft.operation ≡ some m
    → m.is_write ≡ true
    → i.has_user_context ≡ true
    → (trim_space i.conversation_type ≡ "2") × (pos 1 ≤ℤ i.user_role) × AsWrite i
write_needs_admin_in_group i m allowed named writes known =
    let (found, at, auth, why) = execution_authorised i allowed in
    let same : found ≡ m = eq_of_some (sym at ∙ named) in
    let permits = subst (Permits i) same (auth.permits known) in
    let (scope, role) = catalog_entry_writes i.draft.operation m named writes in
    (
      group_only i.conversation_type (rw scope at permits.scope),
      role_reached i.user_role (rw role at permits.role),
      as_write i m writes (subst (λ n. Matches i n ⊎ Continues i) same why),
    )
