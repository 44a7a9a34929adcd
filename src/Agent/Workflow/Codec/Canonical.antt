-- ===== src/Agent/Workflow/Codec/Canonical.antt =====
-- A reservation that was written and read back stands unchanged when that is done again.
use ding_ding_schedule.Prelude.{
  ℕ, ◌==◌, ◌≡◌, refl, sym, ap, ◌∙◌, Bool, true, false, String, List, [], ◌∷◌, arith, if◌then◌else◌,
  str_eq, any, leb, length,
}
use ding_ding_schedule.Prelude.Int.{ℤ, pos, leb_ℤ}
use ding_ding_schedule.Agent.Protocol.{Value, str, int, int64, uint, int64_slice, bool, other_value}
use ding_ding_schedule.Agent.Workflow.Errors.{
  Result, ok, err, >>=-eq-ok, guard-eq-ok, ok-injective, WorkflowError, not_normalized,
  operation_unsupported, identifier_too_long, too_many_params, payload_too_large,
  schema_unsupported,
}
use ding_ding_schedule.Agent.Workflow.Execution.{
  TrustedParams, ReservedExecution, normalize_database_time, validate_reserved_execution,
}
use ding_ding_schedule.Agent.Workflow.Codec.{
  PersistedTypedValue, PersistedReservedExecution, encode_typed_value, decode_typed_value,
  decode_typed, normalize_str, normalize_ids, normalize_role, normalize_trusted_param,
  encode_params, decode_params, reserved_execution_to_v1, reserved_execution_from_v1,
  marshal_reserved_execution, unmarshal_reserved_execution, canonical_reserved_execution, persisted,
  restored, format_workflow_time, parse_execution_time, identifiers_normalized, supported_operation,
  identifiers_within, execution_max_trusted_params, max_bytes, execution_schema_version,
  max_int64_slice_items,
}
use ding_ding_schedule.Agent.Workflow.Codec.Ids.{sorted_unique_int64s}
use ding_ding_schedule.Agent.Workflow.Codec.IdOrder.{sorted_unique_again, sorted_unique-any}

-- Normalising what was normalised, and can be encoded, changes nothing.
abbrev Stable : (Value → Result Value) → Type 0
Stable f =
    (v w : Value) (e : PersistedTypedValue) → f v ≡ ok w → encode_typed_value w ≡ ok e → f w ≡ ok w

Stable-if :
    (b : Bool) (f g : Value → Result Value)
    → Stable f
    → Stable g
    → Stable (λ v. if b then f v else g v)
Stable-if true f g hf hg = hf
Stable-if false f g hf hg = hg

Stable-err : (failure : WorkflowError) → Stable (λ v. err failure)
Stable-err failure v w e h k = cc

normalize_str-Stable : (valid : String → Bool) → Stable (normalize_str valid)
normalize_str-Stable valid (str s) w e h k = ground arith
normalize_str-Stable valid _ w e h k = cc

normalize_role-Stable : Stable normalize_role
normalize_role-Stable (int n) w e h k = ground arith
normalize_role-Stable _ w e h k = cc

-- what is known of ids that were normalised and encoded
ids_again :
    (ids : List ℤ)
    → any (λ i. leb_ℤ i (pos 0)) ids ≡ false
    → leb (length (sorted_unique_int64s ids)) max_int64_slice_items ≡ true
    → normalize_ids (int64_slice (sorted_unique_int64s ids))
      ≡ ok (int64_slice (sorted_unique_int64s ids))
ids_again ids positive fits =
    rw (fits, sorted_unique-any (λ i. leb_ℤ i (pos 0)) ids positive, sorted_unique_again ids) refl

encoded_length :
    (ids : List ℤ) (e : PersistedTypedValue)
    → encode_typed_value (int64_slice ids) ≡ ok e
    → leb (length ids) max_int64_slice_items ≡ true
unfolding encode_typed_value
encoded_length ids e h = ground arith

ids_found :
    (ids : List ℤ) (w : Value)
    → normalize_ids (int64_slice ids) ≡ ok w
    → (any (λ i. leb_ℤ i (pos 0)) ids ≡ false) × (w ≡ int64_slice (sorted_unique_int64s ids))
ids_found ids w h = (ground arith, ground arith)

normalize_ids-Stable : Stable normalize_ids
normalize_ids-Stable (int64_slice ids) w e h k =
    let (positive, is) = ids_found ids w h in
    rw is (
      ids_again ids positive
        (encoded_length (sorted_unique_int64s ids) e (sym (ap encode_typed_value is) ∙ k)))
normalize_ids-Stable _ w e h k = cc

normalize_trusted_param-Stable : (key : String) → Stable (normalize_trusted_param key)
unfolding normalize_trusted_param
normalize_trusted_param-Stable key =
    Stable-if (str_eq key "conversation_id") _ _ (normalize_str-Stable _) (
      Stable-if (str_eq key "scope") _ _ (normalize_str-Stable _) (
        Stable-if (str_eq key "dept_ids") _ _ normalize_ids-Stable (
          Stable-if (str_eq key "actor_role") _ _ normalize_role-Stable (
            Stable-if (str_eq key "conversation_type") _ _ (normalize_str-Stable _) (
              Stable-if (str_eq key "conversation_title") _ _ (normalize_str-Stable _)
                (Stable-err _))))))

decode-encode :
    (v : Value) (e : PersistedTypedValue)
    → encode_typed_value v ≡ ok e
    → decode_typed_value e ≡ ok v
unfolding encode_typed_value decode_typed_value decode_typed
decode-encode (str s) e h = ground arith
decode-encode (int n) e h = ground arith
decode-encode (int64 n) e h = ground arith
decode-encode (uint n) e h = ground arith
decode-encode (int64_slice ns) e h = ground arith
decode-encode (bool b) e h = ground arith
decode-encode (other_value t) e h = cc

-- the parts of a parameter that was encoded
encode-found :
    (key : String) (v : Value) (rest : TrustedParams) {es : List (String × PersistedTypedValue)}
    → encode_params ((key, v) ∷ rest) ≡ ok es
    → (w : Value) × (e : PersistedTypedValue) × (more : List (String × PersistedTypedValue))
      × (normalize_trusted_param key v ≡ ok w)
      × (encode_typed_value w ≡ ok e)
      × (encode_params rest ≡ ok more)
      × (es ≡ (key, e) ∷ more)
unfolding encode_params
encode-found key v rest h =
    let (w, n, h₁) = >>=-eq-ok (normalize_trusted_param key v) _ h in
    let (e, c, h₂) = >>=-eq-ok (encode_typed_value w) _ h₁ in
    let (more, r, h₃) = >>=-eq-ok (encode_params rest) _ h₂ in
    (w, e, more, n, c, r, sym (ok-injective h₃))

encode-step :
    (key : String) (w : Value) (e : PersistedTypedValue) (rest : TrustedParams)
    (more : List (String × PersistedTypedValue))
    → normalize_trusted_param key w ≡ ok w
    → encode_typed_value w ≡ ok e
    → encode_params rest ≡ ok more
    → encode_params ((key, w) ∷ rest) ≡ ok ((key, e) ∷ more)
unfolding encode_params
encode-step key w e rest more n c r = rw (n, c, r) refl

decode-step :
    (key : String) (w : Value) (e : PersistedTypedValue)
    (more : List (String × PersistedTypedValue)) {qs : TrustedParams}
    → decode_typed_value e ≡ ok w
    → normalize_trusted_param key w ≡ ok w
    → decode_params ((key, e) ∷ more) ≡ ok qs
    → (rest : TrustedParams) × (decode_params more ≡ ok rest) × (qs ≡ (key, w) ∷ rest)
unfolding decode_params
decode-step key w e more d n h =
    let (rest, r, h₁) = >>=-eq-ok (decode_params more) _ (rw (d, n) at h) in
    (rest, r, sym (ok-injective h₁))

encode-decode_params :
    (ps : TrustedParams) (es : List (String × PersistedTypedValue)) (qs : TrustedParams)
    → encode_params ps ≡ ok es
    → decode_params es ≡ ok qs
    → encode_params qs ≡ ok es
encode-decode_params [] es qs h k = none es h qs k
  where
    none :
        (es : List (String × PersistedTypedValue))
        → encode_params [] ≡ ok es
        → (qs : TrustedParams) → decode_params es ≡ ok qs
        → encode_params qs ≡ ok es
    none [] h [] k = h
    none [] h (q ∷ qs) k = unfold decode_params in cc
    none (e ∷ es) h qs k = unfold encode_params in cc
encode-decode_params ((key, v) ∷ ps) es qs h k =
    let (w, e, more, n, c, r, es_is) = encode-found key v ps h in
    let stable = normalize_trusted_param-Stable key v w e n c in
    let (rest, d, qs_is) =
      decode-step key w e more (decode-encode w e c) stable (sym (ap decode_params es_is) ∙ k) in
    ap encode_params qs_is
    ∙ encode-step key w e rest more stable c (encode-decode_params ps more rest r d)
    ∙ ap ok (sym es_is)

to_v1-found :
    (r : ReservedExecution) {dto : PersistedReservedExecution}
    → reserved_execution_to_v1 r ≡ ok dto
    → (es : List (String × PersistedTypedValue)) × (encode_params r.trusted_params ≡ ok es)
      × (dto ≡ persisted r es)
unfolding reserved_execution_to_v1
to_v1-found r h =
    let (_, _, h₁) = >>=-eq-ok (validate_reserved_execution r) _ h in
    let (_, h₂) = guard-eq-ok (identifiers_normalized r) not_normalized _ h₁ in
    let (_, h₃) = guard-eq-ok (supported_operation r.operation) operation_unsupported _ h₂ in
    let (_, h₄) = guard-eq-ok (identifiers_within r) identifier_too_long _ h₃ in
    let (_, h₅) =
      guard-eq-ok (leb (length r.trusted_params) execution_max_trusted_params) too_many_params _
        h₄ in
    let (es, encoded, h₆) =
      >>=-eq-ok (encode_params r.trusted_params) (λ x. ok (persisted r x)) h₅ in
    (es, encoded, sym (ok-injective h₆))

from_v1-found :
    (dto : PersistedReservedExecution) {m : ReservedExecution}
    → reserved_execution_from_v1 dto ≡ ok m
    → (dto' : PersistedReservedExecution) × (parse_execution_time dto.started_at ≡ ok m.started_at)
      × (parse_execution_time dto.lease_expires_at ≡ ok m.lease_expires_at)
      × (decode_params dto.trusted_params ≡ ok m.trusted_params)
      × (reserved_execution_to_v1 m ≡ ok dto')
      × (m ≡ restored dto m.started_at m.lease_expires_at m.trusted_params)
unfolding reserved_execution_from_v1
from_v1-found dto {m} h =
    let (started, s, h₁) = >>=-eq-ok (parse_execution_time dto.started_at) _ h in
    let (lease, l, h₂) = >>=-eq-ok (parse_execution_time dto.lease_expires_at) _ h₁ in
    let (params, p, h₃) = >>=-eq-ok (decode_params dto.trusted_params) _ h₂ in
    let (dto', v, h₄) =
      >>=-eq-ok (reserved_execution_to_v1 (restored dto started lease params)) _ h₃ in
    let is : restored dto started lease params ≡ m = ok-injective h₄ in
    (
      dto',
      s ∙ ap (λ x. ok x.started_at) is,
      l ∙ ap (λ x. ok x.lease_expires_at) is,
      p ∙ ap (λ x. ok x.trusted_params) is,
      sym (ap reserved_execution_to_v1 is) ∙ v,
      cc,
    )

time_again :
    (t s : ℕ)
    → parse_execution_time (format_workflow_time (normalize_database_time t)) ≡ ok s
    → format_workflow_time (normalize_database_time s)
      ≡ format_workflow_time (normalize_database_time t)
unfolding parse_execution_time format_workflow_time normalize_database_time
time_again t s h = ground arith

form_eq :
    (r m : ReservedExecution) (es es' : List (String × PersistedTypedValue))
    → m.operation ≡ r.operation
    → m.business_key ≡ r.business_key
    → m.execution_token ≡ r.execution_token
    → m.attempt_request_id ≡ r.attempt_request_id
    → es' ≡ es
    → format_workflow_time (normalize_database_time m.started_at)
      ≡ format_workflow_time (normalize_database_time r.started_at)
    → format_workflow_time (normalize_database_time m.lease_expires_at)
      ≡ format_workflow_time (normalize_database_time r.lease_expires_at)
    → persisted m es' ≡ persisted r es
form_eq r m es es' o b t a e s l = rw (o, b, t, a, e, s, l) refl

-- The second writing gives the first one's form.
same_form :
    (r m : ReservedExecution) {dto : PersistedReservedExecution}
    → reserved_execution_to_v1 r ≡ ok dto
    → reserved_execution_from_v1 dto ≡ ok m
    → reserved_execution_to_v1 m ≡ ok dto
same_form r m {dto} h k =
    let (es, encoded, is) = to_v1-found r h in
    let (dto', started, lease, params, again, m_is) = from_v1-found dto k in
    let (es', encoded', is') = to_v1-found m again in
    let es_same : es' ≡ es = ok-injective (
      sym encoded'
      ∙ encode-decode_params r.trusted_params es m.trusted_params encoded
          (sym (ap (λ d. decode_params d.trusted_params) is) ∙ params)) in
    let start_same =
      time_again r.started_at m.started_at
        (sym (ap (λ d. parse_execution_time d.started_at) is) ∙ started) in
    let lease_same =
      time_again r.lease_expires_at m.lease_expires_at
        (sym (ap (λ d. parse_execution_time d.lease_expires_at) is) ∙ lease) in
    let form =
      form_eq r m es es' (ap (λ x. x.operation) m_is ∙ ap (λ d. d.operation) is)
        (ap (λ x. x.business_key) m_is ∙ ap (λ d. d.business_key) is)
        (ap (λ x. x.execution_token) m_is ∙ ap (λ d. d.execution_token) is)
        (ap (λ x. x.attempt_request_id) m_is ∙ ap (λ d. d.attempt_request_id) is) es_same start_same
        lease_same in
    again ∙ ap ok (is' ∙ form ∙ sym is)

module _ (json_length : PersistedReservedExecution → ℕ) where
  marshal-found :
      (r : ReservedExecution) {dto : PersistedReservedExecution}
      → marshal_reserved_execution json_length r ≡ ok dto
      → (reserved_execution_to_v1 r ≡ ok dto) × (leb (json_length dto) max_bytes ≡ true)
  unfolding marshal_reserved_execution
  marshal-found r h =
      let (dto', v, h₁) = >>=-eq-ok (reserved_execution_to_v1 r) _ h in
      let (fits, h₂) = guard-eq-ok (leb (json_length dto') max_bytes) payload_too_large _ h₁ in
      (v ∙ h₂, ap (λ d. leb (json_length d) max_bytes) (sym (ok-injective h₂)) ∙ fits)

  unmarshal-found :
      (dto : PersistedReservedExecution) {m : ReservedExecution}
      → unmarshal_reserved_execution json_length dto ≡ ok m
      → reserved_execution_from_v1 dto ≡ ok m
  unfolding unmarshal_reserved_execution
  unmarshal-found dto h =
      let (_, h₁) = guard-eq-ok (leb (json_length dto) max_bytes) payload_too_large _ h in
      (guard-eq-ok (dto.schema_version == execution_schema_version) schema_unsupported _ h₁).1

  marshal-step :
      (m : ReservedExecution) (dto : PersistedReservedExecution)
      → reserved_execution_to_v1 m ≡ ok dto
      → leb (json_length dto) max_bytes ≡ true
      → marshal_reserved_execution json_length m ≡ ok dto
  unfolding marshal_reserved_execution
  marshal-step m dto v fits = rw (v, fits) refl

  -- A reservation that was brought into its canonical form stays the same when that is done again.
  pub canonical_reserved_execution_again :
      (r m : ReservedExecution)
      → canonical_reserved_execution json_length r ≡ ok m
      → canonical_reserved_execution json_length m ≡ ok m
  unfolding canonical_reserved_execution
  canonical_reserved_execution_again r m h =
      let (dto, written, read) = >>=-eq-ok (marshal_reserved_execution json_length r) _ h in
      let (v, fits) = marshal-found r written in
      rw (marshal-step m dto (same_form r m v (unmarshal-found dto read)) fits) read
