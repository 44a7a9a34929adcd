-- ===== src/Agent/Workflow/Store/Isolation.antt =====
-- A call of the in-memory workflow store touches no key but its own.
use ding_ding_schedule.Prelude.{
  ℕ, ◌≡◌, refl, true, false, Option, none, some, arith, eq_iff, not, str_eq, trim_space,
}
use ding_ding_schedule.Agent.Workflow.Contract.{Time}
use ding_ding_schedule.Agent.Workflow.Errors.{Result, ok, err, ◌>>◌, guard, takeover_token_reused}
use ding_ding_schedule.Agent.Workflow.Execution.{validate_execution_result}
use ding_ding_schedule.Agent.Workflow.Codec.{PersistedReservedExecution}
use ding_ding_schedule.Agent.Workflow.Store.{
  WorkflowKey, VersionedWorkflow, Store, Readings, Context, key_eq, write, purge, active_record,
  require,
}
use ding_ding_schedule.Agent.Workflow.Store.Operations.{
  checked, commit, erase, load, create, compare_and_swap, delete_if_version,
  record_execution_result, finalize_execution, delete_reserved_execution, create_reserved_execution,
  reserve_execution, takeover_expired_execution, entry, if_absent, fresh, swapped, deletable,
  executing_now, recorded, finalized, reserved_deletable, taken_over, canonical,
}
use ding_ding_schedule.Agent.Workflow.Store.Trace.{
  Request, loads, creates, swaps, deletes, creates_reserved, reserves, records, finalizes, releases,
  takes_over, serve, Call, step,
}

pub key_eq→eq : (j k : WorkflowKey) → key_eq j k ≡ true → j ≡ k
unfolding key_eq
key_eq→eq j k h = ground (arith, eq_iff j.conversation_id k.conversation_id)

module _ (j k : WorkflowKey) (other : key_eq k j ≡ false) (s : Store) where
  write-other : (r : Option VersionedWorkflow) → write s k r j ≡ s j
  unfolding write
  write-other r = rw other

  purge-other : (now : Time) → purge s k now j ≡ s j
  unfolding purge
  purge-other now = write-other _

module _ (j k : WorkflowKey) (other : key_eq k j ≡ false) (s : Store) (now : Time) where
  commit-other : (m : Result VersionedWorkflow) → (commit (purge s k now) k m).0 j ≡ s j
  unfolding commit
  commit-other (ok r) =
      rw (write-other j k other (purge s k now) (some r)) (purge-other j k other s now)
  commit-other (err e) = purge-other j k other s now

  erase-other : (m : Result (Unit {0})) → (erase (purge s k now) k m).0 j ≡ s j
  unfolding erase
  erase-other (ok u) = rw (write-other j k other (purge s k now) none) (purge-other j k other s now)
  erase-other (err e) = purge-other j k other s now

checked-other :
    {A B : Type 0} (j : WorkflowKey) (s : Store) (m : Result A) (f : A → Store × Result B)
    → ((a : A) → (f a).0 j ≡ s j)
    → (checked s m f).0 j ≡ s j
checked-other j s (ok a) f h = h a
checked-other j s (err e) f h = refl

module _ (json_length : PersistedReservedExecution → ℕ) (j k : WorkflowKey)
    (other : key_eq k j ≡ false) (s : Store) (ctx : Context) (t : Readings) where
  serve-other : (q : Request) → serve json_length q ctx k t s j ≡ s j
  unfolding serve load create compare_and_swap delete_if_version record_execution_result
      finalize_execution delete_reserved_execution create_reserved_execution reserve_execution
      takeover_expired_execution
  serve-other loads = checked-other j s (entry ctx k) _ λ _. purge-other j k other s t.first
  serve-other (creates next) = checked-other j s (entry ctx k >> require next) _ λ w.
      commit-other j k other s t.first (if_absent (active_record s k t.first) (fresh k w none t))
  serve-other (swaps v next) =
      checked-other j s (entry ctx k >> require next) _
        λ w. commit-other j k other s t.first (swapped s k v w none t)
  serve-other (deletes v) =
      checked-other j s (entry ctx k) _ λ _. erase-other j k other s t.first (deletable s k v t)
  serve-other (creates_reserved next n) = checked-other j s (entry ctx k >> require next) _ λ w.
      checked-other j s (canonical json_length n) _ λ m.
        commit-other j k other s t.first
          (if_absent (active_record s k t.first) (fresh k w (some (executing_now m)) t))
  serve-other (reserves v next n) = checked-other j s (entry ctx k >> require next) _ λ w.
      checked-other j s (canonical json_length n) _
        λ m. commit-other j k other s t.first (swapped s k v w (some (executing_now m)) t)
  serve-other (records v token result) =
      checked-other j s (entry ctx k >> validate_execution_result result) _
        λ _. commit-other j k other s t.first (recorded s k v token result t)
  serve-other (finalizes v token next) =
      checked-other j s (entry ctx k >> require next) _
        λ w. commit-other j k other s t.first (finalized s k v token w t)
  serve-other (releases v token) =
      checked-other j s (entry ctx k) _
        λ _. erase-other j k other s t.first (reserved_deletable s k v token t)
  serve-other (takes_over v token n) =
      checked-other j s (entry ctx k >> canonical json_length n) _ λ m.
        checked-other j s
          (guard (not (str_eq (trim_space token) m.execution_token)) takeover_token_reused) _
          λ _. commit-other j k other s t.first (taken_over s k v token m t)

-- A call leaves the content of every key but its own as it was.
pub step-other :
    (json_length : PersistedReservedExecution → ℕ) (c : Call) (s : Store) (j : WorkflowKey)
    → key_eq c.key j ≡ false
    → step json_length c s j ≡ s j
unfolding step
step-other json_length c s j other =
    serve-other json_length j c.key other s c.context c.readings c.request
