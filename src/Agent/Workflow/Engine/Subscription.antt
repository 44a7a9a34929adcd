-- ===== src/Agent/Workflow/Engine/Subscription.antt =====
-- A subscription workflow, turn by turn: what it has collected in each of its states.
use ding_ding_schedule.Prelude.{
  ◌≡◌, refl, true, ◌⊎◌, inl, inr, String, Option, none, some, List, [], ◌∷◌, str_eq, Bool-cases,
  eq_iff, eq_of_some, subst, ◌&&◌,
}
use ding_ding_schedule.Prelude.Int.{ℤ, pos}
use ding_ding_schedule.Agent.Protocol.{IntentDraft, TrustedParam, TrustedEntities}
use ding_ding_schedule.Agent.Catalog.{
  workflow_primary_operation_name, workflow_auxiliary_operation_name,
}
use ding_ding_schedule.Agent.Workflow.Contract.{
  WorkflowSnapshot, WorkflowState, collect_scope, collect_departments, ready, cancelled,
  interrupted_state, subscription_start, set_workflow_missing_fields,
}
use ding_ding_schedule.Agent.Workflow.Engine.{
  merge_trusted_params, start_workflow, continue_workflow, continue_subscription_workflow,
  subscription_turn, collect_scope_turn, collect_departments_turn, given_departments, enter,
  is_cancel, is_explicit_new_request, collecting_departments, list_departments, scoped_departments,
  set_scope, forget_departments, rescope, rescoped, chosen_departments, make_ready, find_param,
}

-- Each turn with what the entity resolver trusts of it; the workflow goes on from what a turn returns.
unfoldable pub turns : List (IntentDraft × TrustedEntities) → WorkflowSnapshot → WorkflowSnapshot
turns [] w = w
turns ((draft, t) ∷ more) w = turns more (continue_workflow w draft t).workflow

abbrev pub Missing : List String → WorkflowSnapshot → Type 0
Missing fields w = (w.missing_fields ≡ fields) × (w.missing_slots ≡ fields)

abbrev pub NoDepartments : WorkflowSnapshot → Type 0
NoDepartments w = (w.trusted.dept_ids ≡ []) × (w.trusted.department_id ≡ pos 0)

-- everyone, or some departments of which the first is the one that single-department code reads
abbrev pub Chosen : WorkflowSnapshot → Type 0
Chosen w =
    ((w.trusted.scope ≡ "all") × NoDepartments w)
    ⊎ ((w.trusted.scope ≡ "department")
        × (d : ℤ) × (ds : List ℤ) × (w.trusted.dept_ids ≡ d ∷ ds)
        × (w.trusted.department_id ≡ d))

abbrev pub Stage : WorkflowState → WorkflowSnapshot → Type 0
Stage collect_scope w = Missing ("scope" ∷ []) w × NoDepartments w
Stage collect_departments w =
    Missing ("dept_names" ∷ []) w × (w.trusted.scope ≡ "department") × NoDepartments w
Stage ready w = Missing [] w × Chosen w
Stage cancelled w = Missing [] w
Stage interrupted_state w = Missing [] w
Stage _ w = ⊥

pub record Shaped (w : WorkflowSnapshot) : Type 0 where
  pub type_eq : w.type ≡ subscription_start
  pub stage : Stage w.state w

Missing-enter :
    (state : WorkflowState) (fields : List String) (w : WorkflowSnapshot)
    → Missing fields (enter state fields w)
unfolding set_workflow_missing_fields
Missing-enter state fields w = (refl, refl)

scope_eq : (a b : String) → str_eq a b ≡ true → a ≡ b
scope_eq a b h = (eq_iff a b).0 h

module _ (w : WorkflowSnapshot) (t : TrustedEntities) (h : w.type ≡ subscription_start)
    (free : NoDepartments w) where
  departments-Shaped :
      (ds : List ℤ)
      → t.scope ≡ "department"
      → Shaped (scoped_departments ds (set_scope t w)).workflow
  unfolding set_workflow_missing_fields merge_trusted_params
  departments-Shaped [] e = record { type_eq = h; stage = ((refl, refl), e, free) }
  departments-Shaped (d ∷ ds) e = record {
    type_eq = h;
    stage = ((refl, refl), inr (e, d, ds, refl, refl));
  }

  collect_scope-Shaped : Shaped w → Shaped (collect_scope_turn w t).workflow
  unfolding collect_scope_turn set_workflow_missing_fields merge_trusted_params
  collect_scope-Shaped same = elim (Bool-cases (str_eq t.scope "all")) [
    | inl e ↦
        rw e (record { type_eq = h; stage = ((refl, refl), inl (scope_eq t.scope "all" e, free)) })
    | inr e ↦ elim (Bool-cases (str_eq t.scope "department")) [
      | inl d ↦
          rw (e, d)
            (departments-Shaped (given_departments t.dept_ids t.department_id)
              (scope_eq t.scope "department" d))
      | inr d ↦ rw (e, d) same
    ]
  ]

  forgotten-Shaped :
      t.scope ≡ "all"
      → Shaped (make_ready (forget_departments (rescope t (set_scope t w)))).workflow
  unfolding set_workflow_missing_fields merge_trusted_params
  forgotten-Shaped e = go (find_param "scope" (set_scope t w).trusted.trusted_params)
    where
      go :
          (o : Option TrustedParam)
          → Shaped (make_ready (forget_departments (rescoped o t (set_scope t w)))).workflow
      go none = record { type_eq = h; stage = ((refl, refl), inl (e, (refl, refl))) }
      go (some p) = record { type_eq = h; stage = ((refl, refl), inl (e, (refl, refl))) }

  chosen-Shaped :
      (ds : List ℤ)
      → w.trusted.scope ≡ "department"
      → Shaped w
      → Shaped (chosen_departments ds t w).workflow
  unfolding set_workflow_missing_fields merge_trusted_params
  chosen-Shaped [] e same = same
  chosen-Shaped (d ∷ ds) e same = record {
    type_eq = h;
    stage = ((refl, refl), inr (e, d, ds, refl, refl));
  }

  collect_departments-Shaped :
      w.trusted.scope ≡ "department" → Shaped w → Shaped (collect_departments_turn w t).workflow
  unfolding collect_departments_turn
  collect_departments-Shaped scoped same = elim (Bool-cases (str_eq t.scope "all")) [
    | inl e ↦ rw e (forgotten-Shaped (scope_eq t.scope "all" e))
    | inr e ↦ rw e (chosen-Shaped (given_departments t.dept_ids t.department_id) scoped same)
  ]

subscription-Shaped :
    (state : WorkflowState) (w : WorkflowSnapshot) (t : TrustedEntities)
    → Stage state w
    → Shaped w
    → Shaped (subscription_turn state w t).workflow
unfolding subscription_turn
subscription-Shaped collect_scope w t st same = collect_scope-Shaped w t same.type_eq st.1 same
subscription-Shaped collect_departments w t st same =
    collect_departments-Shaped w t same.type_eq st.2 st.1 same
subscription-Shaped _ w t st same = same

continue_subscription-Shaped :
    (w : WorkflowSnapshot) (draft : IntentDraft) (t : TrustedEntities)
    → Shaped w
    → Shaped (continue_subscription_workflow w draft t).workflow
unfolding continue_subscription_workflow
continue_subscription-Shaped w draft t same =
    elim (Bool-cases (
      str_eq draft.operation (workflow_auxiliary_operation_name subscription_start list_departments)
      && collecting_departments w.state)) [
        | inl e ↦ rw e same
        | inr e ↦
            elim (Bool-cases
              (str_eq draft.operation (workflow_primary_operation_name subscription_start))) [
                | inl p ↦ rw (e, p) (subscription-Shaped w.state w t same.stage same)
                | inr p ↦ rw (e, p) same
              ]
      ]

is_subscription :
    (type : String) → type ≡ subscription_start → str_eq type subscription_start ≡ true
is_subscription type e = (eq_iff type subscription_start).1 e

turn-Shaped :
    (w : WorkflowSnapshot) (draft : IntentDraft) (t : TrustedEntities)
    → Shaped w
    → Shaped (continue_workflow w draft t).workflow
unfolding continue_workflow set_workflow_missing_fields
turn-Shaped w draft t same = elim (Bool-cases (is_cancel draft.act)) [
  | inl c ↦ rw c (record { type_eq = same.type_eq; stage = (refl, refl) })
  | inr c ↦ elim (Bool-cases (is_explicit_new_request draft.act)) [
    | inl x ↦ rw (c, x) (record { type_eq = same.type_eq; stage = (refl, refl) })
    | inr x ↦
        rw (c, x, is_subscription w.type same.type_eq) (continue_subscription-Shaped w draft t same)
  ]
]

turns-Shaped :
    (ts : List (IntentDraft × TrustedEntities)) (w : WorkflowSnapshot)
    → Shaped w
    → Shaped (turns ts w)
unfolding turns
turns-Shaped [] w h = h
turns-Shaped ((draft, t) ∷ ts) w h =
    turns-Shaped ts (continue_workflow w draft t).workflow (turn-Shaped w draft t h)

start-Shaped :
    (id : String) (draft : IntentDraft) {w : WorkflowSnapshot}
    → start_workflow id draft ≡ some w
    → Shaped w
unfolding start_workflow
start-Shaped id draft {w} h =
    elim (Bool-cases
      (str_eq draft.operation (workflow_primary_operation_name subscription_start))) [
        | inl e ↦
            subst Shaped (eq_of_some (rw e at h))
              (record { type_eq = refl; stage = ((refl, refl), (refl, refl)) })
        | inr e ↦ cc (rw e at h)
      ]

-- After any turns, a subscription workflow that was started is in a state of its own, misses what
-- that state collects and nothing else, and when it is ready either everyone is chosen, with no
-- department, or a list of departments that is not empty, the first of which is its department.
pub started-Shaped :
    (id : String) (draft : IntentDraft) (ts : List (IntentDraft × TrustedEntities))
    {w : WorkflowSnapshot}
    → start_workflow id draft ≡ some w
    → Shaped (turns ts w)
started-Shaped id draft ts h = turns-Shaped ts _ (start-Shaped id draft h)
