-- ===== src/Agent/ExecutionGate/WriteGuard/Fields.antt =====
-- internal/agent/execution_gate.go: where the value of each field of an idempotency key comes from.
use ding_ding_schedule.Prelude.{
  ℕ, Bool, true, false, ◌≡◌, ◌≢◌, refl, sym, ◌∙◌, inl, inr, ◌⊎◌, String, Option, none, some, List,
  [], ◌∷◌, ◌==◌, any, arith, Bool-cases, if◌then◌else◌, if_true, if_false, str_eq, is_empty,
  trim_space, eq_iff, eq_of_some,
}
use ding_ding_schedule.Agent.Protocol.{Value, uint}
use ding_ding_schedule.Agent.Workflow.Contract.{WorkflowSnapshot}
use ding_ding_schedule.Agent.ExecutionGate.{
  UserContext, extract_param_string, trusted_param_concrete_value,
}
use ding_ding_schedule.Agent.ExecutionGate.WriteGuard.{
  WriteGuardInput, filled_text, or_else, or_none, canonical_idempotency_value, number_text,
  user_text, workflow_text, value_text, idempotency_field_value,
}

-- the fields that are not read from the trusted parameters alone
abbrev pub identity_fields : List String
identity_fields =
    "tenant_id" ∷ "actor_user_id" ∷ "conversation_id" ∷ "operation" ∷ "workflow_id" ∷ []

filled-some : (text v : String) → filled_text text ≡ some v → (v ≡ text) × (is_empty text ≡ false)
filled-some text v h = elim (Bool-cases (is_empty text)) [
  | inl e ↦ let nothing : none ≡ some v = rw e at h in cc
  | inr e ↦ let filled : some text ≡ some v = rw e at h in (sym (eq_of_some filled), e)
]

filled-none : (text : String) → filled_text text ≡ none → is_empty text ≡ true
filled-none text h = ground arith

or_else-cases :
    (x y : Option String) (v : String)
    → or_else x y ≡ some v
    → (x ≡ some v) ⊎ ((x ≡ none) × (y ≡ some v))
or_else-cases none y v h = inr (refl, h)
or_else-cases (some t) y v h = inl h

module _ (digest : String → String) (sprint : Value → String) (valid_date : String → Bool)
    (input : WriteGuardInput) where
  -- The number of the request, or that of the caller when the request has none.
  abbrev pub Number : ℕ → (UserContext → ℕ) → String → Type 0
  Number n read v =
      ((n ≢ 0) × (v ≡ sprint (uint n)))
      ⊎ ((n ≡ 0)
          × (u : UserContext) × (input.user ≡ some u)
          × (read u ≢ 0)
          × (v ≡ sprint (uint (read u))))

  -- The conversation of the request, or else its trusted parameter, or else that of the caller.
  abbrev pub Conversation : String → Type 0
  Conversation v =
      ((v ≡ trim_space input.request.conversation_id)
        × (is_empty (trim_space input.request.conversation_id) ≡ false))
      ⊎ ((is_empty (trim_space input.request.conversation_id) ≡ true)
          × ((extract_param_string valid_date input.request.trusted_params "conversation_id"
                ≡ some v)
              ⊎ ((extract_param_string valid_date input.request.trusted_params "conversation_id"
                    ≡ none)
                  × (u : UserContext) × (input.user ≡ some u)
                  × (v ≡ trim_space u.conversation_id)
                  × (is_empty (trim_space u.conversation_id) ≡ false))))

  abbrev pub concrete_param : String → Option Value
  concrete_param f = trusted_param_concrete_value valid_date input.request.trusted_params f

  pub data FieldValue (f v : String) : Type 0 where
    tenant : f ≡ "tenant_id" → Number input.request.tenant_id (λ u. u.tenant_id) v → FieldValue f v
    actor :
        f ≡ "actor_user_id" → Number input.request.actor_user_id (λ u. u.user_id) v → FieldValue f v
    conversation : f ≡ "conversation_id" → Conversation v → FieldValue f v
    operation :
        f ≡ "operation"
        → v ≡ trim_space input.request.operation
        → is_empty (trim_space input.request.operation) ≡ false
        → FieldValue f v
    workflow :
        (w : WorkflowSnapshot)
        → f ≡ "workflow_id"
        → input.workflow ≡ some w
        → v ≡ trim_space w.id
        → is_empty (trim_space w.id) ≡ false
        → FieldValue f v
    no_departments : f ≡ "dept_ids" → concrete_param f ≡ none → v ≡ "none" → FieldValue f v
    param :
        (value : Value)
        → any (λ name. str_eq f name) identity_fields ≡ false
        → concrete_param f ≡ some value
        → v ≡ canonical_idempotency_value digest sprint valid_date value
        → FieldValue f v

  number-some :
      (n : ℕ) (v : String)
      → number_text digest sprint valid_date n ≡ some v
      → (n ≢ 0) × (v ≡ sprint (uint n))
  number-some n v h = elim (Bool-cases (n == 0)) [
    | inl e ↦ let nothing : none ≡ some v = rw e at h in cc
    | inr e ↦
        let there : some (sprint (uint n)) ≡ some v = rw e at h in
        (λ z. ground arith, sym (eq_of_some there))
  ]

  number-none : (n : ℕ) → number_text digest sprint valid_date n ≡ none → n ≡ 0
  number-none n h = ground arith

  user-some :
      (o : Option UserContext) (read : UserContext → Option String) (v : String)
      → user_text digest sprint valid_date read o ≡ some v
      → (u : UserContext) × (o ≡ some u) × (read u ≡ some v)
  user-some none read v h = cc
  user-some (some u) read v h = (u, refl, h)

  workflow-some :
      (o : Option WorkflowSnapshot) (v : String)
      → workflow_text digest sprint valid_date o ≡ some v
      → (w : WorkflowSnapshot) × (o ≡ some w) × (filled_text (trim_space w.id) ≡ some v)
  workflow-some none v h = cc
  workflow-some (some w) v h = (w, refl, h)

  value-some :
      (o : Option Value) (v : String)
      → value_text digest sprint valid_date o ≡ some v
      → (value : Value) × (o ≡ some value)
        × (v ≡ canonical_idempotency_value digest sprint valid_date value)
  value-some none v h = cc
  value-some (some value) v h = (value, refl, sym (eq_of_some h))

  none-or-some :
      (o : Option Value) (v : String)
      → or_none (value_text digest sprint valid_date o) ≡ some v
      → ((o ≡ none) × (v ≡ "none"))
        ⊎ ((value : Value) × (o ≡ some value)
            × (v ≡ canonical_idempotency_value digest sprint valid_date value))
  none-or-some none v h = inl (refl, sym (eq_of_some h))
  none-or-some (some value) v h = inr (value, refl, sym (eq_of_some h))

  number_text-Number :
      (n : ℕ) (read : UserContext → ℕ) (v : String)
      → or_else (number_text digest sprint valid_date n) (
          user_text digest sprint valid_date
            (λ u. number_text digest sprint valid_date (read u))
            input.user)
        ≡ some v
      → Number n read v
  number_text-Number n read v h = elim (or_else-cases _ _ v h) [
    | inl own ↦ inl (number-some n v own)
    | inr (zero_here, of_user) ↦
        let (u, there, reads) = user-some input.user _ v of_user in
        let (filled, is) = number-some (read u) v reads in
        inr (number-none n zero_here, u, there, filled, is)
  ]

  filled_text-Conversation :
      (v : String)
      → or_else (filled_text (trim_space input.request.conversation_id)) (
          or_else (extract_param_string valid_date input.request.trusted_params "conversation_id") (
            user_text digest sprint valid_date
              (λ u. filled_text (trim_space u.conversation_id))
              input.user))
        ≡ some v
      → Conversation v
  filled_text-Conversation v h = elim (or_else-cases _ _ v h) [
    | inl own ↦ inl (filled-some _ v own)
    | inr (nothing, later) ↦ inr (
      filled-none _ nothing,
      elim (or_else-cases _ _ v later) [
        | inl trusted ↦ inl trusted
        | inr (untrusted, of_user) ↦
            let (u, there, reads) = user-some input.user _ v of_user in
            let (is, filled) = filled-some (trim_space u.conversation_id) v reads in
            inr (untrusted, u, there, is, filled)
      ],
    )
  ]

  named : (f name : String) → str_eq f name ≡ true → f ≡ name
  named f name e = (eq_iff f name).0 e

  from_param :
      (f v : String)
      → any (λ name. str_eq f name) identity_fields ≡ false
      → (if str_eq f "dept_ids"
          then or_none (value_text digest sprint valid_date (concrete_param f))
          else value_text digest sprint valid_date (concrete_param f))
        ≡ some v
      → FieldValue f v
  from_param f v plain h = elim (Bool-cases (str_eq f "dept_ids")) [
    | inl e ↦ elim (none-or-some (concrete_param f) v (sym (if_true _ _ _ e) ∙ h)) [
      | inl (missing, is) ↦ no_departments (named f _ e) missing is
      | inr (value, there, is) ↦ param value plain there is
    ]
    | inr e ↦
        let (value, there, is) = value-some (concrete_param f) v (sym (if_false _ _ _ e) ∙ h) in
        param value plain there is
  ]

  -- The value of a field is the one that `FieldValue` says.
  pub idempotency_field_value-FieldValue :
      (f v : String)
      → idempotency_field_value digest sprint valid_date f input ≡ some v
      → FieldValue f v
  unfolding idempotency_field_value
  idempotency_field_value-FieldValue f v h0 = elim (Bool-cases (str_eq f "tenant_id")) [
    | inl e ↦ tenant (named f _ e) (number_text-Number _ _ v (sym (if_true _ _ _ e) ∙ h0))
    | inr e1 ↦
        let h1 = sym (if_false _ _ _ e1) ∙ h0 in
        elim (Bool-cases (str_eq f "actor_user_id")) [
          | inl e ↦ actor (named f _ e) (number_text-Number _ _ v (sym (if_true _ _ _ e) ∙ h1))
          | inr e2 ↦
              let h2 = sym (if_false _ _ _ e2) ∙ h1 in
              elim (Bool-cases (str_eq f "conversation_id")) [
                | inl e ↦
                    conversation (named f _ e)
                      (filled_text-Conversation v (sym (if_true _ _ _ e) ∙ h2))
                | inr e3 ↦
                    let h3 = sym (if_false _ _ _ e3) ∙ h2 in
                    elim (Bool-cases (str_eq f "operation")) [
                      | inl e ↦
                          let (is, filled) = filled-some _ v (sym (if_true _ _ _ e) ∙ h3) in
                          operation (named f _ e) is filled
                      | inr e4 ↦
                          let h4 = sym (if_false _ _ _ e4) ∙ h3 in
                          elim (Bool-cases (str_eq f "workflow_id")) [
                            | inl e ↦
                                let (w, there, reads) =
                                  workflow-some input.workflow v (sym (if_true _ _ _ e) ∙ h4) in
                                let (is, filled) = filled-some (trim_space w.id) v reads in
                                workflow w (named f _ e) there is filled
                            | inr e5 ↦
                                let h5 = sym (if_false _ _ _ e5) ∙ h4 in
                                let plain : any (λ name. str_eq f name) identity_fields ≡ false =
                                  ground (arith, e1, e2, e3, e4, e5) in
                                from_param f v plain h5
                          ]
                    ]
              ]
        ]
  ]
