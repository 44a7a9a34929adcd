-- ===== src/Agent/ExecutionGate/Trust.antt =====
-- internal/agent/execution_gate.go: what the parameters of a built request are.
use ding_ding_schedule.Prelude.{
  Bool, true, false, not, ◌&&◌, ◌||◌, ◌≡◌, ◌≢◌, refl, sym, subst, ◌∙◌, inl, inr, ◌⊎◌, String,
  Option, none, some, List, [], ◌∷◌, ◌==◌, All, arith, Bool-cases, Option-cases, if_true, if_false,
  if◌then◌else◌, str_eq, eq_iff, eq_of_some,
}
use ding_ding_schedule.Prelude.Int.{ltb_ℤ}
use ding_ding_schedule.Agent.Protocol.{Value, SourceKind, derived, TrustedParam, TrustedEntities}
use ding_ding_schedule.Agent.Catalog.{lookup_operation}
use ding_ding_schedule.Agent.Catalog.Manifest.{OperationManifest, QueryShapeMetadata}
use ding_ding_schedule.Agent.Workflow.Engine.{Params, find_param, put_param, remove_param}
use ding_ding_schedule.Agent.ExecutionGate.{
  OperationRequest, canonical_trusted_param_value, from_value, trusted_param_from_trusted_entity,
  from_entities, settled, given, trusted_param_value,
}
use ding_ding_schedule.Agent.ExecutionGate.Canonical.{canonical_again}
use ding_ding_schedule.Agent.ExecutionGate.Resource.{subscription_scope_valid}
use ding_ding_schedule.Agent.ExecutionGate.Requests.{
  param_names, is_some, put_if, put_optional, put_required, query_shape_param, request_from, shaped,
  by_shape, built, select_query_shape, build_operation_request,
}

same_text : (a : String) → str_eq a a ≡ true
same_text a = (eq_iff a a).1 refl

not_both : (a b c : String) → str_eq b c ≡ false → str_eq a b ≡ true → str_eq a c ≡ false
not_both a b c h g = rw ((eq_iff a b).0 g) h

module _ (valid_date : String → Bool) (t : TrustedEntities) where
  -- A parameter of the entities' tenant, in canonical form or derived by the code itself.
  pub record Own (field : String) (p : TrustedParam) : Type 0 where
    pub named : p.field ≡ field
    pub of_tenant : t.tenant_id ≢ 0 → p.tenant_id ≡ t.tenant_id
    pub canonical :
        (canonical_trusted_param_value valid_date field p.value ≡ some p.value)
        ⊎ (p.source.kind ≡ derived)

  abbrev pub AllOwn : Params → Type 0
  AllOwn params = All (λ (entry : String × TrustedParam). Own entry.0 entry.1) params

  remove_param-AllOwn :
      (key : String) (params : Params) → AllOwn params → AllOwn (remove_param key params)
  unfolding remove_param
  remove_param-AllOwn key [] own = tt
  remove_param-AllOwn key ((field, param) ∷ params) own = elim (Bool-cases (str_eq field key)) [
    | inl gone ↦ rw gone (remove_param-AllOwn key params own.1)
    | inr kept ↦ rw kept (own.0, remove_param-AllOwn key params own.1)
  ]

  put_param-AllOwn :
      (key : String) (p : TrustedParam) (params : Params)
      → Own key p
      → AllOwn params
      → AllOwn (put_param key p params)
  unfolding put_param
  put_param-AllOwn key p params own rest = (own, remove_param-AllOwn key params rest)

  OwnIf : String → Option TrustedParam → Type 0
  OwnIf field o = (p : TrustedParam) → o ≡ some p → Own field p

  own_either :
      (field : String) (b : Bool) (x y : Option TrustedParam)
      → OwnIf field x
      → OwnIf field y
      → OwnIf field (if b then x else y)
  own_either field true x y h g = h
  own_either field false x y h g = g

  own_none : (field : String) → OwnIf field none
  unfolding OwnIf
  own_none field p e = cc

  from_value-OwnIf :
      (field : String) (kind : SourceKind) (resolver : String) (v : Value) (o : Option Value)
      → canonical_trusted_param_value valid_date field v ≡ o
      → OwnIf field (from_value valid_date t field kind resolver o)
  unfolding OwnIf
  from_value-OwnIf field kind resolver v none h p e = cc
  from_value-OwnIf field kind resolver v (some w) h p e = subst (Own field) (eq_of_some e) (record {
    named = refl;
    of_tenant = λ tenant. refl;
    canonical = inl (canonical_again valid_date field v w h);
  })

  entity-OwnIf :
      (field : String) (v : Value) (kind : SourceKind) (resolver : String)
      → OwnIf field (trusted_param_from_trusted_entity valid_date t field v kind resolver)
  unfolding trusted_param_from_trusted_entity
  entity-OwnIf field v kind resolver = from_value-OwnIf field kind resolver v _ refl

  from_entities-OwnIf : (field : String) → OwnIf field (from_entities valid_date t field)
  from_entities-OwnIf field =
      own_either field (str_eq field "conversation_id") _ _ (entity-OwnIf field _ _ _) (
        own_either field (str_eq field "scope") _ _ (entity-OwnIf field _ _ _) (
          own_either field (str_eq field "dept_ids") _ _ (entity-OwnIf field _ _ _) (
            own_either field (str_eq field "user_id") _ _ (entity-OwnIf field _ _ _) (
              own_either field (str_eq field "date") _ _ (entity-OwnIf field _ _ _) (
                own_either field (str_eq field "section") _ _ (entity-OwnIf field _ _ _) (
                  own_either field (str_eq field "week") _ _ (entity-OwnIf field _ _ _)
                    (own_none field)))))))

  settled-OwnIf :
      (field : String) (param : TrustedParam) (o : Option Value)
      → (t.tenant_id ≢ 0 → param.tenant_id ≡ t.tenant_id)
      → canonical_trusted_param_value valid_date field param.value ≡ o
      → OwnIf field (settled valid_date t field param o)
  unfolding OwnIf
  settled-OwnIf field param none same h p e = cc
  settled-OwnIf field param (some w) same h p e = subst (Own field) (eq_of_some e) (record {
    named = refl;
    of_tenant = λ tenant. rw (same tenant) ground (arith);
    canonical = inl (canonical_again valid_date field param.value w h);
  })

  given-OwnIf :
      (field : String) (o : Option TrustedParam) → OwnIf field (given valid_date t field o)
  given-OwnIf field none = from_entities-OwnIf field
  given-OwnIf field (some param) =
      elim (Bool-cases (not (t.tenant_id == 0) && not (param.tenant_id == t.tenant_id))) [
        | inl foreign ↦ subst (OwnIf field) (sym (if_true _ _ _ foreign)) (own_none field)
        | inr own ↦
            subst (OwnIf field) (sym (if_false _ _ _ own))
              (settled-OwnIf field param _ (λ tenant. ground arith) refl)
      ]

  trusted_param_value-Own :
      (field : String) (p : TrustedParam)
      → trusted_param_value valid_date t field ≡ some p
      → Own field p
  unfolding trusted_param_value OwnIf
  trusted_param_value-Own field p h = given-OwnIf field (find_param field t.trusted_params) p h

  put_if-AllOwn :
      (field : String) (o : Option TrustedParam) (params : Params)
      → OwnIf field o
      → AllOwn params
      → AllOwn (put_if valid_date t field o params)
  unfolding OwnIf
  put_if-AllOwn field none params own rest = rest
  put_if-AllOwn field (some p) params own rest = put_param-AllOwn field p params (own p refl) rest

  value-OwnIf : (field : String) → OwnIf field (trusted_param_value valid_date t field)
  unfolding OwnIf
  value-OwnIf field p h = trusted_param_value-Own field p h

  pub put_optional-AllOwn :
      (fields : List String) (params : Params)
      → AllOwn params
      → AllOwn (put_optional valid_date t fields params)
  unfolding put_optional
  put_optional-AllOwn [] params own = own
  put_optional-AllOwn (field ∷ fields) params own =
      put_optional-AllOwn fields _ (put_if-AllOwn field _ params (value-OwnIf field) own)

  abbrev pub has_param : String → Params → Bool
  has_param field params = is_some (find_param field params)

  find_param-remove_param :
      (field key : String) (params : Params)
      → str_eq key field ≡ false
      → find_param field (remove_param key params) ≡ find_param field params
  unfolding find_param remove_param
  find_param-remove_param field key [] h = refl
  find_param-remove_param field key ((name, p) ∷ params) h =
      let differ = not_both name key field h in
      ground (arith, find_param-remove_param field key params h)

  -- A parameter that is put is there, and the others stay.
  has_param-put_param :
      (field key : String) (p : TrustedParam) (params : Params)
      → has_param field (put_param key p params) ≡ (str_eq key field || has_param field params)
  unfolding put_param find_param
  has_param-put_param field key p params = elim (Bool-cases (str_eq key field)) [
    | inl own ↦ ground arith
    | inr other ↦ let kept = find_param-remove_param field key params other in ground arith
  ]

  has_param-put_if :
      (field key : String) (o : Option TrustedParam) (params : Params)
      → has_param field (put_if valid_date t key o params)
        ≡ ((is_some o && str_eq key field) || has_param field params)
  has_param-put_if field key none params = refl
  has_param-put_if field key (some p) params = has_param-put_param field key p params

  has_param-put_optional :
      (field : String) (fields : List String) (params : Params)
      → has_param field params ≡ true
      → has_param field (put_optional valid_date t fields params) ≡ true
  unfolding put_optional
  has_param-put_optional field [] params h = h
  has_param-put_optional field (key ∷ fields) params h =
      let one = has_param-put_if field key (trusted_param_value valid_date t key) params in
      has_param-put_optional field fields _ ground (arith)

  -- What the loop over the required parameters leaves.
  put_required-AllOwn :
      (fields : List String) (params done : Params)
      → put_required valid_date t fields params ≡ some done
      → AllOwn params
      → AllOwn done
        × ((field : String) → has_param field params ≡ true → has_param field done ≡ true)
        × All (λ field. has_param field done ≡ true) fields
  unfolding put_required
  put_required-AllOwn [] params done h own =
      subst
        (λ d.
          AllOwn d
          × ((field : String) → has_param field params ≡ true → has_param field d ≡ true)
          × Unit)
        (eq_of_some h) (own, (λ field there. there), tt)
  put_required-AllOwn (key ∷ fields) params done h own =
      elim (Bool-cases (is_some (trusted_param_value valid_date t key))) [
        | inl found ↦
            let (all_own, kept, rest) =
              put_required-AllOwn fields
                (put_if valid_date t key (trusted_param_value valid_date t key) params) done
                (sym (if_true _ _ _ found) ∙ h)
                (put_if-AllOwn key (trusted_param_value valid_date t key) params (value-OwnIf key)
                  own) in
            let same = same_text key in
            (
              all_own,
              (λ field there. kept field (
                  has_param-put_if field key (trusted_param_value valid_date t key) params
                  ∙ ground (arith, there))),
              (
                kept key (
                    has_param-put_if key key (trusted_param_value valid_date t key) params
                    ∙ ground (arith, same)),
                rest,
              ),
            )
        | inr missing ↦ let refused = sym (if_false _ _ _ missing) ∙ h in cc
      ]

  abbrev pub Holds : String → List String → OperationRequest → Type 0
  Holds operation required req =
      (req.operation ≡ operation)
      × (subscription_scope_valid operation req.trusted_params ≡ true)
      × AllOwn req.trusted_params
      × All (λ field. has_param field req.trusted_params ≡ true) required

  put_optional-All :
      (fields optional : List String) (params : Params)
      → All (λ field. has_param field params ≡ true) fields
      → All (λ field. has_param field (put_optional valid_date t optional params) ≡ true) fields
  put_optional-All [] optional params h = tt
  put_optional-All (field ∷ fields) optional params (here, rest) = (
    has_param-put_optional field optional params here,
    put_optional-All fields optional params rest,
  )

  request_from-Holds :
      (operation : String) (required optional : List String) (before : Params)
      (req : OperationRequest)
      → AllOwn before
      → request_from valid_date t operation optional (put_required valid_date t required before)
        ≡ some req
      → Holds operation required req
  request_from-Holds operation required optional before req own made =
      elim (Option-cases (put_required valid_date t required before)) [
        | inl missing ↦
            let nothing =
              subst (λ o. request_from valid_date t operation optional o ≡ some req) missing made in
            cc
        | inr (params, put) ↦
            let made_from =
              subst (λ o. request_from valid_date t operation optional o ≡ some req) put made in
            let (all_own, _, present) = put_required-AllOwn required before params put own in
            elim (Bool-cases
              (subscription_scope_valid operation (put_optional valid_date t optional params))) [
                | inl valid ↦
                    subst (Holds operation required)
                      (eq_of_some (sym (if_true _ _ _ valid) ∙ made_from))
                      (
                        refl,
                        valid,
                        put_optional-AllOwn optional params all_own,
                        put_optional-All required optional params present,
                      )
                | inr invalid ↦ let refused = sym (if_false _ _ _ invalid) ∙ made_from in cc
              ]
      ]

  shape_param_own :
      (shape : QueryShapeMetadata)
      → AllOwn (put_param "query_shape" (query_shape_param valid_date t shape) [])
  shape_param_own shape =
      put_param-AllOwn "query_shape" (query_shape_param valid_date t shape) []
        (record { named = refl; of_tenant = λ tenant. refl; canonical = inr refl }) tt

  -- the fields that the chosen shape requires, or the operation when it has no shapes
  unfoldable pub Required : List QueryShapeMetadata → List String → List String → Type 0
  Required [] required fields = fields ≡ param_names required
  Required (shape ∷ shapes) required fields =
      (chosen : QueryShapeMetadata) × (select_query_shape valid_date t (shape ∷ shapes)
        ≡ some chosen)
      × (fields ≡ param_names chosen.required_trusted_params)

  by_shape-Holds :
      (operation : String) (m : OperationManifest) (shapes : List QueryShapeMetadata)
      (req : OperationRequest)
      → by_shape valid_date t operation m shapes ≡ some req
      → (fields : List String) × Required shapes m.required_trusted_params fields
        × Holds operation fields req
  unfolding Required
  by_shape-Holds operation m [] req made = (
    param_names m.required_trusted_params,
    refl,
    request_from-Holds operation _ (param_names m.optional_trusted_params) [] req tt made,
  )
  by_shape-Holds operation m (shape ∷ shapes) req made =
      elim (Option-cases (select_query_shape valid_date t (shape ∷ shapes))) [
        | inl none_fits ↦
            let refused =
              subst (λ o. shaped valid_date t operation m o ≡ some req) none_fits made in
            cc
        | inr (chosen, fits) ↦ (
          param_names chosen.required_trusted_params,
          (chosen, fits, refl),
          request_from-Holds operation (param_names chosen.required_trusted_params)
              (param_names m.optional_trusted_params) _ req (shape_param_own chosen)
              (subst (λ o. shaped valid_date t operation m o ≡ some req) fits made),
        )
      ]

  built-Holds :
      (operation : String) (o : Option OperationManifest) (req : OperationRequest)
      → built valid_date t operation o ≡ some req
      → (m : OperationManifest) × (fields : List String) × (o ≡ some m)
        × (m.is_write ≡ true → ltb_ℤ t.user_role m.min_role ≡ false)
        × Required m.query_shapes m.required_trusted_params fields
        × Holds operation fields req
  built-Holds operation none req made = cc
  built-Holds operation (some m) req made =
      elim (Bool-cases (m.is_write && ltb_ℤ t.user_role m.min_role)) [
        | inl low ↦ let refused = sym (if_true _ _ _ low) ∙ made in cc
        | inr high ↦
            let (fields, required, holds) =
              by_shape-Holds operation m m.query_shapes req (sym (if_false _ _ _ high) ∙ made) in
            (m, fields, refl, (λ w. ground (arith, w)), required, holds)
      ]

  -- A request that is built is of a catalogued operation, which the role of the entities may call if it
  -- writes. Its scope is valid; each of its parameters is named by its key, belongs to the tenant of the
  -- entities if there is one, and is in canonical form or derived by the code; and every parameter
  -- is there that the operation requires, or its query shape where it has shapes.
  pub request_trusted :
      (operation : String) (req : OperationRequest)
      → build_operation_request valid_date t operation ≡ some req
      → (m : OperationManifest) × (fields : List String) × (lookup_operation operation ≡ some m)
        × (m.is_write ≡ true → ltb_ℤ t.user_role m.min_role ≡ false)
        × Required m.query_shapes m.required_trusted_params fields
        × Holds operation fields req
  unfolding build_operation_request
  request_trusted operation req made = built-Holds operation (lookup_operation operation) req made
