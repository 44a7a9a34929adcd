-- ===== src/Agent/ExecutionGate/Canonical.antt =====
-- internal/agent/execution_gate.go: canonicalTrustedParamValue leaves a canonical value as it is.
use ding_ding_schedule.Prelude.{
  Bool, true, false, ◌≡◌, subst, String, Option, none, some, [], ◌∷◌, ◌==◌, if◌then◌else◌, str_eq,
  is_empty, eq_of_some,
}
use ding_ding_schedule.Prelude.Int.{ℤ, pos, leb_ℤ}
use ding_ding_schedule.Agent.Protocol.{Value, str, int, int64, uint, int64_slice, bool, other_value}
use ding_ding_schedule.Agent.ExecutionGate.{
  canonical_trusted_param_value, nonempty_text, any_text, department_list, user_number, int_from,
  date_text,
}

module _ (valid_date : String → Bool) where
  Same : Option Value → Value → Type 0
  Same o v = (w : Value) → o ≡ some w → v ≡ w

  ite-Same :
      (b : Bool) (x y : Option Value) (v : Value)
      → Same x v
      → Same y v
      → Same (if b then x else y) v
  ite-Same true x y v h g = h
  ite-Same false x y v h g = g

  some-Same : (v : Value) → Same (some v) v
  unfolding Same
  some-Same v w e = eq_of_some e

  none-Same : (v : Value) → Same none v
  unfolding Same
  none-Same v w e = cc

  nonempty_text-Same : (v : Value) → Same (nonempty_text v) v
  nonempty_text-Same (str s) = ite-Same (is_empty s) _ _ _ (none-Same (str s)) (some-Same (str s))
  nonempty_text-Same (int n) = none-Same (int n)
  nonempty_text-Same (int64 n) = none-Same (int64 n)
  nonempty_text-Same (uint n) = none-Same (uint n)
  nonempty_text-Same (int64_slice ns) = none-Same (int64_slice ns)
  nonempty_text-Same (bool b) = none-Same (bool b)
  nonempty_text-Same (other_value n) = none-Same (other_value n)

  any_text-Same : (v : Value) → Same (any_text v) v
  any_text-Same (str s) = some-Same (str s)
  any_text-Same (int n) = none-Same (int n)
  any_text-Same (int64 n) = none-Same (int64 n)
  any_text-Same (uint n) = none-Same (uint n)
  any_text-Same (int64_slice ns) = none-Same (int64_slice ns)
  any_text-Same (bool b) = none-Same (bool b)
  any_text-Same (other_value n) = none-Same (other_value n)

  department_list-Same : (v : Value) → Same (department_list v) v
  department_list-Same (str s) = none-Same (str s)
  department_list-Same (int n) = none-Same (int n)
  department_list-Same (int64 n) = none-Same (int64 n)
  department_list-Same (uint n) = none-Same (uint n)
  department_list-Same (int64_slice []) = none-Same (int64_slice [])
  department_list-Same (int64_slice (d ∷ ds)) = some-Same (int64_slice (d ∷ ds))
  department_list-Same (bool b) = none-Same (bool b)
  department_list-Same (other_value n) = none-Same (other_value n)

  user_number-Same : (v : Value) → Same (user_number v) v
  user_number-Same (str s) = none-Same (str s)
  user_number-Same (int n) = none-Same (int n)
  user_number-Same (int64 n) = none-Same (int64 n)
  user_number-Same (uint n) = ite-Same (n == 0) _ _ _ (none-Same (uint n)) (some-Same (uint n))
  user_number-Same (int64_slice ns) = none-Same (int64_slice ns)
  user_number-Same (bool b) = none-Same (bool b)
  user_number-Same (other_value n) = none-Same (other_value n)

  int_from-Same : (least : ℤ) (v : Value) → Same (int_from least v) v
  int_from-Same least (str s) = none-Same (str s)
  int_from-Same least (int n) =
      ite-Same (leb_ℤ least n) _ _ _ (some-Same (int n)) (none-Same (int n))
  int_from-Same least (int64 n) = none-Same (int64 n)
  int_from-Same least (uint n) = none-Same (uint n)
  int_from-Same least (int64_slice ns) = none-Same (int64_slice ns)
  int_from-Same least (bool b) = none-Same (bool b)
  int_from-Same least (other_value n) = none-Same (other_value n)

  date_text-Same : (v : Value) → Same (date_text valid_date v) v
  date_text-Same (str s) =
      ite-Same (is_empty s) _ _ _ (none-Same (str s))
        (ite-Same (valid_date s) _ _ _ (some-Same (str s)) (none-Same (str s)))
  date_text-Same (int n) = none-Same (int n)
  date_text-Same (int64 n) = none-Same (int64 n)
  date_text-Same (uint n) = none-Same (uint n)
  date_text-Same (int64_slice ns) = none-Same (int64_slice ns)
  date_text-Same (bool b) = none-Same (bool b)
  date_text-Same (other_value n) = none-Same (other_value n)

  canonical-Same :
      (field : String) (v : Value) → Same (canonical_trusted_param_value valid_date field v) v
  unfolding canonical_trusted_param_value
  canonical-Same field v = ite-Same (str_eq field "conversation_id") _ _ _ (nonempty_text-Same v) (
      ite-Same (str_eq field "scope") _ _ _ (nonempty_text-Same v) (
        ite-Same (str_eq field "dept_ids") _ _ _ (department_list-Same v) (
          ite-Same (str_eq field "user_id") _ _ _ (user_number-Same v) (
            ite-Same (str_eq field "date") _ _ _ (date_text-Same v) (
              ite-Same (str_eq field "section") _ _ _ (int_from-Same (pos 1) v) (
                ite-Same (str_eq field "week") _ _ _ (int_from-Same (pos 1) v) (
                  ite-Same (str_eq field "rule_topic") _ _ _ (nonempty_text-Same v) (
                    ite-Same (str_eq field "query_shape") _ _ _ (nonempty_text-Same v) (
                      ite-Same (str_eq field "actor_role") _ _ _ (int_from-Same (pos 0) v) (
                        ite-Same (str_eq field "conversation_type") _ _ _ (nonempty_text-Same v) (
                          ite-Same (str_eq field "conversation_title") _ _ _ (any_text-Same v)
                            (none-Same v))))))))))))

  -- The canonical form of a value is canonical.
  pub canonical_again :
      (field : String) (v w : Value)
      → canonical_trusted_param_value valid_date field v ≡ some w
      → canonical_trusted_param_value valid_date field w ≡ some w
  unfolding Same
  canonical_again field v w h =
      subst (λ x. canonical_trusted_param_value valid_date field x ≡ some w)
        (canonical-Same field v w h) h
