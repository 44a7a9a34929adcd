-- ===== src/Agent/ExecutionGate/Ownership.antt =====
-- What the resource policy gate asks for, said of the request, the caller and the listed departments.
use ding_ding_schedule.Prelude.{
  ℕ, true, false, not, ◌&&◌, ◌≡◌, ◌≢◌, refl, ap, ◌∙◌, inl, inr, ◌⊎◌, String, Option, none, some,
  List, [], ◌∷◌, ◌==◌, All, arith, Bool-cases, str_eq, trim_space, eq_iff,
}
use ding_ding_schedule.Prelude.Int.{ℤ, eq_ℤ, eq_of_eq_ℤ}
use ding_ding_schedule.Agent.Protocol.{
  Value, str, int, int64, uint, int64_slice, bool, other_value, SourceKind, raw_slot,
  default_source, runtime, workflow_source, candidate_source, derived, other_source, TrustedParam,
}
use ding_ding_schedule.Agent.Workflow.Engine.{Params, find_param}
use ding_ding_schedule.Agent.ExecutionGate.{UserContext}
use ding_ding_schedule.Agent.ExecutionGate.Resource.{
  DeptItem, is_candidate, own_candidate, candidate_dept_param_allowed, foreign, listed, all_listed,
  request_conversation, text_value, departments_value, value_text, has_departments, scope_complete,
  subscription_scope_valid,
}

-- The caller is not there, or has no tenant.
abbrev pub NoTenant : Option UserContext → Type 0
NoTenant o = (o ≡ none) ⊎ ((u : UserContext) × (o ≡ some u) × (u.tenant_id ≡ 0))

-- The parameter was chosen from candidates, of the caller's tenant, or of some tenant when the caller
-- has none.
abbrev pub OwnCandidate : Option UserContext → Option TrustedParam → Type 0
OwnCandidate o q =
    (p : TrustedParam) × (q ≡ some p)
    × (p.source.kind ≡ candidate_source)
    × (((u : UserContext) × (o ≡ some u) × (u.tenant_id ≢ 0) × (p.tenant_id ≡ u.tenant_id))
        ⊎ (NoTenant o × (p.tenant_id ≢ 0)))

-- A department that is not of another tenant.
abbrev pub OfTenant : Option UserContext → DeptItem → Type 0
OfTenant o d =
    NoTenant o
    ⊎ (d.tenant_id ≡ 0)
    ⊎ ((u : UserContext) × (o ≡ some u) × (d.tenant_id ≡ u.tenant_id))

-- A department of that id is in the list, and is not of another tenant.
abbrev pub Lists : Option UserContext → List DeptItem → ℤ → Type 0
Lists o [] i = ⊥
Lists o (d ∷ depts) i = ((d.dept_id ≡ i) × OfTenant o d) ⊎ Lists o depts i

-- The scope of a subscription is everybody, or is by department with departments given.
abbrev pub ValidScope : Params → Type 0
ValidScope params =
    (p : TrustedParam) × (find_param "scope" params ≡ some p)
    × ((p.value ≡ str "all")
        ⊎ ((p.value ≡ str "department")
            × (q : TrustedParam) × (find_param "dept_ids" params ≡ some q)
            × (d : ℤ) × (ds : List ℤ) × (q.value ≡ int64_slice (d ∷ ds))))

is_candidate-eq : (k : SourceKind) → is_candidate k ≡ true → k ≡ candidate_source
is_candidate-eq candidate_source h = refl
is_candidate-eq raw_slot h = cc
is_candidate-eq default_source h = cc
is_candidate-eq runtime h = cc
is_candidate-eq workflow_source h = cc
is_candidate-eq derived h = cc
is_candidate-eq (other_source k) h = cc

zero_of : (n : ℕ) → (n == 0) ≡ true → n ≡ 0
zero_of n h = ground arith

nonzero_of : (n : ℕ) → (n == 0) ≡ false → n ≢ 0
nonzero_of n h e = ground arith

of_own_candidate :
    (o : Option UserContext) (p : TrustedParam)
    → own_candidate o p ≡ true
    → ((u : UserContext) × (o ≡ some u) × (u.tenant_id ≢ 0) × (p.tenant_id ≡ u.tenant_id))
      ⊎ (NoTenant o × (p.tenant_id ≢ 0))
of_own_candidate none p h = inr (inl refl, λ e. ground arith)
of_own_candidate (some u) p h = elim (Bool-cases (u.tenant_id == 0)) [
  | inl e ↦ inr (inr (u, refl, zero_of u.tenant_id e), λ z. ground arith)
  | inr e ↦ inl (u, refl, nonzero_of u.tenant_id e, ground arith)
]

pub candidate_dept_param_allowed-OwnCandidate :
    (o : Option UserContext) (q : Option TrustedParam)
    → candidate_dept_param_allowed o q ≡ true
    → OwnCandidate o q
unfolding candidate_dept_param_allowed
candidate_dept_param_allowed-OwnCandidate o none h = cc
candidate_dept_param_allowed-OwnCandidate o (some p) h =
    (p, refl, is_candidate-eq p.source.kind ground (arith), of_own_candidate o p ground (arith))

foreign-OfTenant : (o : Option UserContext) (d : DeptItem) → foreign o d ≡ false → OfTenant o d
foreign-OfTenant none d h = inl (inl refl)
foreign-OfTenant (some u) d h = elim (Bool-cases (u.tenant_id == 0)) [
  | inl e ↦ inl (inr (u, refl, zero_of u.tenant_id e))
  | inr e ↦ elim (Bool-cases (d.tenant_id == 0)) [
    | inl z ↦ inr (inl (zero_of d.tenant_id z))
    | inr z ↦ inr (inr (u, refl, ground arith))
  ]
]

listed-Lists :
    (o : Option UserContext) (depts : List DeptItem) (i : ℤ)
    → listed o depts i ≡ true
    → Lists o depts i
listed-Lists o [] i h = cc
listed-Lists o (d ∷ depts) i h = elim (Bool-cases (not (foreign o d) && eq_ℤ d.dept_id i)) [
  | inl e ↦ inl (eq_of_eq_ℤ d.dept_id i ground (arith), foreign-OfTenant o d ground (arith))
  | inr e ↦ inr (listed-Lists o depts i ground (arith))
]

pub all_listed-Lists :
    (o : Option UserContext) (depts : List DeptItem) (ids : List ℤ)
    → all_listed o depts ids ≡ true
    → All (Lists o depts) ids
all_listed-Lists o depts [] h = tt
all_listed-Lists o depts (i ∷ ids) h =
    (listed-Lists o depts i ground (arith), all_listed-Lists o depts ids ground (arith))

text_value-eq : (v : Value) (s : String) → text_value v ≡ some s → v ≡ str s
text_value-eq (str t) s h = cc
text_value-eq (int n) s h = cc
text_value-eq (int64 n) s h = cc
text_value-eq (uint n) s h = cc
text_value-eq (int64_slice l) s h = cc
text_value-eq (bool b) s h = cc
text_value-eq (other_value n) s h = cc

departments_value-eq :
    (v : Value) → departments_value v ≡ true → (d : ℤ) × (ds : List ℤ) × (v ≡ int64_slice (d ∷ ds))
departments_value-eq (int64_slice (d ∷ ds)) h = (d, ds, refl)
departments_value-eq (int64_slice []) h = cc
departments_value-eq (str t) h = cc
departments_value-eq (int n) h = cc
departments_value-eq (int64 n) h = cc
departments_value-eq (uint n) h = cc
departments_value-eq (bool b) h = cc
departments_value-eq (other_value n) h = cc

value_text-eq :
    (q : Option TrustedParam) (s : String)
    → value_text q ≡ some s
    → (p : TrustedParam) × (q ≡ some p) × (p.value ≡ str s)
value_text-eq none s h = cc
value_text-eq (some p) s h = (p, refl, text_value-eq p.value s h)

has_departments-eq :
    (q : Option TrustedParam)
    → has_departments q ≡ true
    → (p : TrustedParam) × (q ≡ some p) × (d : ℤ) × (ds : List ℤ) × (p.value ≡ int64_slice (d ∷ ds))
has_departments-eq none h = cc
has_departments-eq (some p) h =
    let (d, ds, e) = departments_value-eq p.value h in (p, refl, d, ds, e)

scope_complete-Valid :
    (o : Option String) (params : Params)
    → value_text (find_param "scope" params) ≡ o
    → scope_complete o params ≡ true
    → ValidScope params
scope_complete-Valid none params given h = cc
scope_complete-Valid (some scope) params given h =
    let (p, found, is) = value_text-eq (find_param "scope" params) scope given in
    elim (Bool-cases (str_eq scope "all")) [
      | inl all ↦ (p, found, inl (is ∙ ap str ((eq_iff scope "all").0 all)))
      | inr other ↦ elim (Bool-cases (str_eq scope "department")) [
        | inl by ↦
            let (q, at, d, ds, e) =
              has_departments-eq (find_param "dept_ids" params) ground (arith) in
            (p, found, inr (is ∙ ap str ((eq_iff scope "department").0 by), q, at, d, ds, e))
        | inr neither ↦ absurd (ground arith)
      ]
    ]

pub subscription_scope_valid-Valid :
    (operation : String) (params : Params)
    → operation ≡ "subscription.start"
    → subscription_scope_valid operation params ≡ true
    → ValidScope params
unfolding subscription_scope_valid
subscription_scope_valid-Valid operation params start h =
    let same = (eq_iff operation "subscription.start").1 start in
    scope_complete-Valid (value_text (find_param "scope" params)) params refl ground (arith, same)

-- The conversation of a request: its trusted parameter, or else its own field.
abbrev pub ConversationOf : Option String → String → String → Type 0
ConversationOf trusted fallback c =
    (trusted ≡ some c) ⊎ ((trusted ≡ none) × (c ≡ trim_space fallback))

pub request_conversation-Of :
    (trusted : Option String) (fallback : String)
    → ConversationOf trusted fallback (request_conversation trusted fallback)
unfolding request_conversation
request_conversation-Of none fallback = inr (refl, refl)
request_conversation-Of (some c) fallback = inl refl
