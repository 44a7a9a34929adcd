-- ===== src/Agent/ExecutionGate/WriteGuard/Admission.antt =====
-- internal/agent/execution_gate.go: what the write guard lets through, and its answer before and after a confirmation.
use ding_ding_schedule.Prelude.{
  Bool, true, false, not, ◌&&◌, ◌≡◌, ◌≢◌, refl, sym, subst, ◌∙◌, ap, inl, inr, ◌⊎◌, String, Option,
  none, some, List, [], ◌∷◌, arith, Bool-cases, Option-cases, if_true, if_false, is_empty, str_eq,
  eq_iff, eq_of_some,
}
use ding_ding_schedule.Agent.Protocol.{Value, confirm}
use ding_ding_schedule.Agent.Catalog.Manifest.{OperationManifest, write_medium, write_high}
use ding_ding_schedule.Agent.Catalog.{lookup_operation}
use ding_ding_schedule.Agent.ExecutionGate.WriteGuard
use ding_ding_schedule.Agent.ExecutionGate.WriteGuard.{
  WriteGuardInput, WriteGuardResult, write_requires_confirmation, write_guard_manifest,
  idempotency_field_value, named_part, key_parts, key_from, key_of, build_idempotency_key, keyed,
  checked, check, join_text,
}
use ding_ding_schedule.Agent.ExecutionGate.WriteGuard.Fields.{
  FieldValue, idempotency_field_value-FieldValue,
}
use Prim.Native.String.{◌++◌}

text_of_empty : (s : String) → is_empty s ≡ true → s ≡ ""
text_of_empty String.[] h = refl
text_of_empty (String.◌∷◌ c s) h = cc

module _ (digest : String → String) (sprint : Value → String) (valid_date : String → Bool) where
  -- One part for each field: the field, and the value that `FieldValue` says.
  abbrev pub Parts : WriteGuardInput → List String → List String → Type 0
  Parts input [] [] = Unit
  Parts input [] (p ∷ parts) = ⊥
  Parts input (field ∷ fields) [] = ⊥
  Parts input (field ∷ fields) (p ∷ parts) =
      ((value : String) × FieldValue digest sprint valid_date input field value
        × (p ≡ field ++ ("=" ++ value)))
      × Parts input fields parts

  named_part-some :
      (field : String) (o : Option String) (later : Option (List String)) (parts : List String)
      → named_part digest sprint valid_date field o later ≡ some parts
      → (value : String) × (rest : List String) × (o ≡ some value)
        × (later ≡ some rest)
        × ((field ++ ("=" ++ value)) ∷ rest ≡ parts)
  named_part-some field none later parts h = cc
  named_part-some field (some value) none parts h = cc
  named_part-some field (some value) (some rest) parts h = (value, rest, refl, refl, eq_of_some h)

  key_parts-Parts :
      (fields : List String) (input : WriteGuardInput) (parts : List String)
      → key_parts digest sprint valid_date fields input ≡ some parts
      → Parts input fields parts
  unfolding key_parts
  key_parts-Parts [] input parts h = subst (Parts input []) (eq_of_some h) tt
  key_parts-Parts (field ∷ fields) input parts h =
      let (value, rest, there, after, made) =
        named_part-some field (idempotency_field_value digest sprint valid_date field input)
          (key_parts digest sprint valid_date fields input) parts h in
      subst (Parts input (field ∷ fields)) made (
        (
          value,
          idempotency_field_value-FieldValue digest sprint valid_date input field value there,
          refl,
        ),
        key_parts-Parts fields input rest after,
      )

  -- The key of a write: the name of the operation, and the digest of one part for each of its fields.
  abbrev pub Keyed : WriteGuardInput → OperationManifest → String → Type 0
  Keyed input m key =
      (parts : List String) × Parts input m.idempotency.key_fields parts
      × (m.idempotency.key_fields ≢ [])
      × (key ≡ m.name ++ (":" ++ digest (join_text "|" parts)))
      × (is_empty key ≡ false)

  key_of-Parts :
      (m : OperationManifest) (fields : List String) (input : WriteGuardInput)
      → is_empty (key_of digest sprint valid_date m fields input) ≡ false
      → (parts : List String) × Parts input fields parts
        × (fields ≢ [])
        × (key_of digest sprint valid_date m fields input
            ≡ m.name ++ (":" ++ digest (join_text "|" parts)))
  key_of-Parts m [] input filled = cc
  key_of-Parts m (field ∷ fields) input filled =
      elim (Option-cases (key_parts digest sprint valid_date (field ∷ fields) input)) [
        | inl missing ↦
            let nothing =
              subst (λ o. is_empty (key_from digest sprint valid_date m o) ≡ false) missing
                filled in
            cc
        | inr (parts, there) ↦ (
          parts,
          key_parts-Parts (field ∷ fields) input parts there,
          (λ e. cc),
          ap (key_from digest sprint valid_date m) there,
        )
      ]

  -- The operation is the one that is given, or, where none is, the catalogued one of the request.
  abbrev pub Asked : WriteGuardInput → OperationManifest → Type 0
  Asked input m =
      ((is_empty input.manifest.name ≡ false) × (m ≡ input.manifest))
      ⊎ ((is_empty input.manifest.name ≡ true)
          × (lookup_operation input.request.operation ≡ some m))

  write_guard_manifest-Asked :
      (input : WriteGuardInput) (m : OperationManifest)
      → write_guard_manifest input ≡ some m
      → Asked input m
  unfolding write_guard_manifest
  write_guard_manifest-Asked input m h = elim (Bool-cases (is_empty input.manifest.name)) [
    | inl e ↦ inr (e, sym (if_true _ _ _ e) ∙ h)
    | inr e ↦ inl (e, sym (eq_of_some (sym (if_false _ _ _ e) ∙ h)))
  ]

  confirmation_asked :
      (m : OperationManifest)
      → ((m.risk ≡ write_medium) ⊎ (m.risk ≡ write_high))
      → write_requires_confirmation m.risk ≡ true
  unfolding write_requires_confirmation
  confirmation_asked m (inl medium) = rw medium refl
  confirmation_asked m (inr high) = rw high refl

  -- What the guard asks of an operation before it runs.
  abbrev pub Admitted : WriteGuardInput → OperationManifest → Type 0
  Admitted input m =
      (m.is_write ≡ true
        → ((m.risk ≡ write_medium) ⊎ (m.risk ≡ write_high))
        → input.confirmed ≡ true)
      × (m.is_write ≡ true → Keyed input m (check digest sprint valid_date input).idempotency_key)

  keyed-filled :
      (m : OperationManifest) (key : String)
      → (keyed digest sprint valid_date m key).allow ≡ true
      → (is_empty key ≡ false) × ((keyed digest sprint valid_date m key).idempotency_key ≡ key)
  keyed-filled m key allowed = elim (Bool-cases (is_empty key)) [
    | inl none_there ↦
        let refused : keyed digest sprint valid_date m key
            ≡ WriteGuard.refused digest sprint valid_date "idempotency_key_missing" =
          if_true _ _ _ none_there in
        let off = subst (λ (r : WriteGuardResult). r.allow ≡ true) refused allowed in cc
    | inr there ↦ (there, ap {A = WriteGuardResult} (λ r. r.idempotency_key) (if_false _ _ _ there))
  ]

  -- The answer of the guard on the manifest that it finds.
  pub check_after :
      (input : WriteGuardInput) (o : Option OperationManifest)
      → write_guard_manifest input ≡ o
      → check digest sprint valid_date input ≡ checked digest sprint valid_date input o
  unfolding check
  check_after input o found = ap (checked digest sprint valid_date input) found

  abbrev pub unconfirmed : WriteGuardInput → OperationManifest → Bool
  unconfirmed input m = write_requires_confirmation m.risk && not input.confirmed

  abbrev pub confirmation : WriteGuardInput → OperationManifest → WriteGuardResult
  confirmation input m = record {
    allow = false;
    response_kind = confirm;
    blocked_reason = "write_confirmation_required";
    idempotency_key = build_idempotency_key digest sprint valid_date m input;
  }

  write_unconfirmed :
      (input : WriteGuardInput) (m : OperationManifest)
      → m.is_write ≡ true
      → unconfirmed input m ≡ true
      → checked digest sprint valid_date input (some m) ≡ confirmation input m
  write_unconfirmed input m writes asked =
      if_false (not m.is_write) _ _ ground (arith, writes) ∙ if_true _ _ _ asked

  write_confirmed :
      (input : WriteGuardInput) (m : OperationManifest)
      → m.is_write ≡ true
      → unconfirmed input m ≡ false
      → checked digest sprint valid_date input (some m)
        ≡ keyed digest sprint valid_date m (build_idempotency_key digest sprint valid_date m input)
  write_confirmed input m writes asked =
      if_false (not m.is_write) _ _ ground (arith, writes) ∙ if_false _ _ _ asked

  admitted :
      (input : WriteGuardInput) (m : OperationManifest)
      → write_guard_manifest input ≡ some m
      → (check digest sprint valid_date input).allow ≡ true
      → m.is_write ≡ true
      → (unconfirmed input m ≡ false)
        × (is_empty (build_idempotency_key digest sprint valid_date m input) ≡ false)
        × ((check digest sprint valid_date input).idempotency_key
            ≡ build_idempotency_key digest sprint valid_date m input)
  admitted input m found allowed writes = elim (Bool-cases (unconfirmed input m)) [
    | inl asked ↦
        let off =
          subst (λ (r : WriteGuardResult). r.allow ≡ true)
            (check_after input (some m) found ∙ write_unconfirmed input m writes asked) allowed in
        cc
    | inr passed ↦
        let answer = check_after input (some m) found ∙ write_confirmed input m writes passed in
        let (filled, key) =
          keyed-filled m (build_idempotency_key digest sprint valid_date m input)
            (subst (λ (r : WriteGuardResult). r.allow ≡ true) answer allowed) in
        (passed, filled, ap {A = WriteGuardResult} (λ r. r.idempotency_key) answer ∙ key)
  ]

  build_idempotency_key-Keyed :
      (m : OperationManifest) (input : WriteGuardInput)
      → is_empty (build_idempotency_key digest sprint valid_date m input) ≡ false
      → Keyed input m (build_idempotency_key digest sprint valid_date m input)
  unfolding build_idempotency_key
  build_idempotency_key-Keyed m input filled =
      let (parts, each, several, is) = key_of-Parts m m.idempotency.key_fields input filled in
      (parts, each, several, is, filled)

  -- A call that the write guard lets through is of the given operation or, where none is given, of the
  -- catalogued one. A write of medium or high risk was confirmed. A write has key fields, and is answered
  -- with a key that is not empty: the name of the operation and the digest of its fields, each with the
  -- value that its source gives.
  pub check-Admitted :
      (input : WriteGuardInput)
      → (check digest sprint valid_date input).allow ≡ true
      → (m : OperationManifest) × Asked input m × Admitted input m
  check-Admitted input allowed = elim (Option-cases (write_guard_manifest input)) [
    | inl missing ↦
        let off =
          subst (λ (r : WriteGuardResult). r.allow ≡ true) (check_after input none missing)
            allowed in
        cc
    | inr (m, found) ↦ (
      m,
      write_guard_manifest-Asked input m found,
      (
        (λ writes risky.
            let passed = (admitted input m found allowed writes).0 in
            let asked = confirmation_asked m risky in ground (arith)),
        λ writes.
            let (passed, filled, key) = admitted input m found allowed writes in
            subst (Keyed input m) (sym key) (build_idempotency_key-Keyed m input filled),
      ),
    )
  ]

  abbrev pub with_confirmation : WriteGuardInput → WriteGuardInput
  with_confirmation input = record input { confirmed = true }

  key_parts_confirmed :
      (fields : List String) (input : WriteGuardInput)
      → key_parts digest sprint valid_date fields (with_confirmation input)
        ≡ key_parts digest sprint valid_date fields input
  unfolding key_parts idempotency_field_value
  key_parts_confirmed [] input = refl
  key_parts_confirmed (field ∷ fields) input =
      ap
        (named_part digest sprint valid_date field
          (idempotency_field_value digest sprint valid_date field input))
        (key_parts_confirmed fields input)

  key_of_confirmed :
      (m : OperationManifest) (fields : List String) (input : WriteGuardInput)
      → key_of digest sprint valid_date m fields (with_confirmation input)
        ≡ key_of digest sprint valid_date m fields input
  key_of_confirmed m [] input = refl
  key_of_confirmed m (field ∷ fields) input =
      ap (key_from digest sprint valid_date m) (key_parts_confirmed (field ∷ fields) input)

  -- Confirmation does not change the key.
  key_confirmed :
      (m : OperationManifest) (input : WriteGuardInput)
      → build_idempotency_key digest sprint valid_date m (with_confirmation input)
        ≡ build_idempotency_key digest sprint valid_date m input
  unfolding build_idempotency_key
  key_confirmed m input = key_of_confirmed m m.idempotency.key_fields input

  manifest_confirmed :
      (input : WriteGuardInput)
      → write_guard_manifest (with_confirmation input) ≡ write_guard_manifest input
  unfolding write_guard_manifest
  manifest_confirmed input = refl

  abbrev pub asks : String
  asks = "write_confirmation_required"

  other_reason : (reason : String) → str_eq reason asks ≡ false → reason ≢ asks
  other_reason reason differ same = let equal = (eq_iff reason asks).1 same in cc

  keyed_does_not_ask :
      (m : OperationManifest) (key : String)
      → (keyed digest sprint valid_date m key).blocked_reason ≢ asks
  keyed_does_not_ask m key h = elim (Bool-cases (is_empty key)) [
    | inl none_there ↦
        other_reason "idempotency_key_missing" refl
          (subst (λ (r : WriteGuardResult). r.blocked_reason ≡ asks) (if_true _ _ _ none_there) h)
    | inr there ↦
        other_reason "" refl
          (subst (λ (r : WriteGuardResult). r.blocked_reason ≡ asks) (if_false _ _ _ there) h)
  ]

  asked_write :
      (input : WriteGuardInput) (o : Option OperationManifest)
      → (checked digest sprint valid_date input o).blocked_reason ≡ asks
      → (m : OperationManifest) × (o ≡ some m) × (m.is_write ≡ true) × (unconfirmed input m ≡ true)
  asked_write input none h = absurd (other_reason "operation_not_allowed" refl h)
  asked_write input (some m) h = elim (Bool-cases m.is_write) [
    | inr reads ↦ absurd (
        other_reason "" refl (
          subst (λ (r : WriteGuardResult). r.blocked_reason ≡ asks)
            (if_true (not m.is_write) _ _ ground (arith, reads)) h))
    | inl writes ↦ elim (Bool-cases (unconfirmed input m)) [
      | inl asked ↦ (m, refl, writes, asked)
      | inr passed ↦ absurd (
          keyed_does_not_ask m (build_idempotency_key digest sprint valid_date m input) (
            subst (λ (r : WriteGuardResult). r.blocked_reason ≡ asks)
              (write_confirmed input m writes passed) h))
    ]
  ]

  keyed-settled :
      (m : OperationManifest) (key : String)
      → ((keyed digest sprint valid_date m key).idempotency_key ≡ key)
        × ((keyed digest sprint valid_date m key).allow ≡ not (is_empty key))
  keyed-settled m key = elim (Bool-cases (is_empty key)) [
    | inl none_there ↦ (
      ap {A = WriteGuardResult} (λ r. r.idempotency_key) (if_true _ _ _ none_there)
          ∙ sym (text_of_empty key none_there),
      ap {A = WriteGuardResult} (λ r. r.allow) (if_true _ _ _ none_there) ∙ sym (ap not none_there),
    )
    | inr there ↦ (
      ap {A = WriteGuardResult} (λ r. r.idempotency_key) (if_false _ _ _ there),
      ap {A = WriteGuardResult} (λ r. r.allow) (if_false _ _ _ there) ∙ sym (ap not there),
    )
  ]

  -- When the write guard asks for a confirmation, the call was not confirmed; and the same call with a
  -- confirmation has the key that was answered with the question, and is let through if that
  -- key is not empty.
  pub confirmation_settles :
      (input : WriteGuardInput)
      → (check digest sprint valid_date input).blocked_reason ≡ asks
      → (input.confirmed ≡ false)
        × ((check digest sprint valid_date (with_confirmation input)).idempotency_key
            ≡ (check digest sprint valid_date input).idempotency_key)
        × ((check digest sprint valid_date (with_confirmation input)).allow
            ≡ not (is_empty (check digest sprint valid_date input).idempotency_key))
  confirmation_settles input h =
      let (m, found, writes, asked) =
        asked_write input (write_guard_manifest input) (
          subst (λ (r : WriteGuardResult). r.blocked_reason ≡ asks) (check_after input _ refl) h) in
      let question =
        ap {A = WriteGuardResult} (λ r. r.idempotency_key)
          (check_after input (some m) found ∙ write_unconfirmed input m writes asked) in
      let answer =
        check_after (with_confirmation input) (some m) (manifest_confirmed input ∙ found)
        ∙ write_confirmed (with_confirmation input) m writes ground (arith)
        ∙ ap (keyed digest sprint valid_date m) (key_confirmed m input) in
      let (key, allowed) =
        keyed-settled m (build_idempotency_key digest sprint valid_date m input) in
      (
        ground (arith, asked),
        ap {A = WriteGuardResult} (λ r. r.idempotency_key) answer ∙ key ∙ sym question,
        ap {A = WriteGuardResult} (λ r. r.allow) answer
            ∙ allowed
            ∙ ap (λ k. not (is_empty k)) (sym question),
      )
