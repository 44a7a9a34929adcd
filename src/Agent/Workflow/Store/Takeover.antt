-- ===== src/Agent/Workflow/Store/Takeover.antt =====
-- Leases of the in-memory workflow store: when an execution may be taken over, and what its former
-- holder can still do.
use ding_ding_schedule.Prelude.{
  ℕ, ◌≤◌, ◌≡◌, ◌≢◌, refl, sym, ◌∙◌, ap, String, Option, some, not, trim_space, str_eq, eq_of_some,
  arith, eq_iff, subst,
}
use ding_ding_schedule.Agent.Workflow.Errors.{
  Result, ok, err, ◌>>◌, guard, >>=-eq-ok, ok-injective, takeover_token_reused,
}
use ding_ding_schedule.Agent.Workflow.Execution.{Execution, ReservedExecution}
use ding_ding_schedule.Agent.Workflow.Codec.{PersistedReservedExecution}
use ding_ding_schedule.Agent.Workflow.Store.{
  WorkflowKey, VersionedWorkflow, Store, Readings, Context, purge, clone_versioned_workflow,
  next_version, set_workflow_snapshot_version,
}
use ding_ding_schedule.Agent.Workflow.Store.Operations.{
  checked, commit, entry, canonical, status_after, taken_over, takeover_expired_execution,
}
use ding_ding_schedule.Agent.Workflow.Store.Inversion.{Held, taken_over-found}
use ding_ding_schedule.Agent.Workflow.Store.Refinement.{write_self}
use ding_ding_schedule.Agent.Workflow.Store.Trace.{Call, step, shown}
use ding_ding_schedule.Agent.Workflow.Store.Exclusion.{held_execution_fenced}

checked-ok :
    {A B : Type 0} (s : Store) (m : Result A) (f : A → Store × Result B) {b : B}
    → (checked s m f).1 ≡ ok b
    → (a : A) × (m ≡ ok a) × (checked s m f ≡ f a) × ((f a).1 ≡ ok b)
checked-ok s (ok a) f h = (a, refl, refl, h)
checked-ok s (err e) f h = cc

commit-ok :
    (s : Store) (k : WorkflowKey) (m : Result VersionedWorkflow) {b : VersionedWorkflow}
    → (commit s k m).1 ≡ ok b
    → (r : VersionedWorkflow) × (m ≡ ok r)
      × ((commit s k m).0 k ≡ some r)
      × (b ≡ clone_versioned_workflow r)
unfolding commit
commit-ok s k (ok r) h = (r, refl, write_self s k (some r), sym (ok-injective h))
commit-ok s k (err e) h = cc

not_reused : (a b : String) → guard (not (str_eq a b)) takeover_token_reused ≡ ok tt → b ≢ a
not_reused a b h e = ground (arith, eq_iff a b)

at_version :
    (old : VersionedWorkflow) (e : Option Execution) (v : ℕ)
    → old.version ≡ v
    → ◌≡◌ {A = Option VersionedWorkflow}
        (some (record {
          snapshot = set_workflow_snapshot_version old.snapshot (next_version old.version);
          version = next_version old.version;
          execution = e;
        }))
        (some (record {
          snapshot = set_workflow_snapshot_version old.snapshot (next_version v);
          version = next_version v;
          execution = e;
        }))
at_version old e v same = rw same

module _ (json_length : PersistedReservedExecution → ℕ) (ctx : Context) (k : WorkflowKey) (v : ℕ)
    (token : String) (n : ReservedExecution) (t : Readings) (s : Store) where
  -- A takeover that succeeds found the expected version and the token of the running execution, and
  -- a lease that had ended. It keeps the operation, the business key and a recorded result, and
  -- stores the new reservation, under another token, with the next version.
  pub takeover_succeeds :
      {b : VersionedWorkflow}
      → (takeover_expired_execution json_length ctx k v token n t s).1 ≡ ok b
      → (m : ReservedExecution) × (h : Held s k v token) × (canonical json_length n ≡ ok m)
        × (h.execution.reservation.lease_expires_at ≤ t.second)
        × (m.operation ≡ h.execution.reservation.operation)
        × (m.business_key ≡ h.execution.reservation.business_key)
        × (m.execution_token ≢ trim_space token)
        × ((takeover_expired_execution json_length ctx k v token n t s).0 k
            ≡ some (record {
              snapshot = set_workflow_snapshot_version h.old.snapshot (next_version v);
              version = next_version v;
              execution = some (record {
                status = status_after h.execution.result;
                reservation = m;
                result = h.execution.result;
              });
            }))
  unfolding takeover_expired_execution
  takeover_succeeds done =
      let (m, enter, to_inner, rest) =
        checked-ok s (entry ctx k >> canonical json_length n) _ done in
      let (_, _, canon) = >>=-eq-ok (entry ctx k) (λ _. canonical json_length n) enter in
      let (_, new, to_commit, last) =
        checked-ok s
          (guard (not (str_eq (trim_space token) m.execution_token)) takeover_token_reused)
          (λ _. commit (purge s k t.first) k (taken_over s k v token m t)) rest in
      let (r, over, at, _) = commit-ok (purge s k t.first) k (taken_over s k v token m t) last in
      let (h, late, same_op, same_key, stored) = taken_over-found s k v token t m over in
      (
        m,
        h,
        canon,
        late,
        sym same_op,
        sym same_key,
        not_reused (trim_space token) m.execution_token new,
        content to_inner
            ∙ content to_commit
            ∙ at
            ∙ ap some stored
            ∙ at_version h.old _ v h.version_eq,
      )
    where
      content : {x y : Store × Result VersionedWorkflow} → x ≡ y → x.0 k ≡ y.0 k
      content e = ap (λ x. x.0 k) e

  -- After a takeover that succeeded, a call that shows the token of the former holder leaves the
  -- record as the takeover stored it.
  pub takeover_fences_former_holder :
      (c : Call) {b : VersionedWorkflow}
      → (takeover_expired_execution json_length ctx k v token n t s).1 ≡ ok b
      → c.key ≡ k
      → shown c.request ≡ some (trim_space token)
      → step json_length c (takeover_expired_execution json_length ctx k v token n t s).0 k
        ≡ (takeover_expired_execution json_length ctx k v token n t s).0 k
  takeover_fences_former_holder c done same former =
      let (m, h, canon, late, same_op, same_key, new, stored) = takeover_succeeds done in
      let after : Store = (takeover_expired_execution json_length ctx k v token n t s).0 in
      subst (λ j. step json_length c after j ≡ after j) same
        (held_execution_fenced json_length c after _ _ (ap after same ∙ stored) refl
            (λ e. new (eq_of_some (sym e ∙ former)))
          ∙ sym (ap after same ∙ stored))
