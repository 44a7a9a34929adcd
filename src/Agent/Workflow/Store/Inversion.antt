-- ===== src/Agent/Workflow/Store/Inversion.antt =====
-- What a successful step of the in-memory workflow store has read and found.
use ding_ding_schedule.Prelude.{
  ℕ, ◌≤◌, ◌≢◌, Bool, true, not, ◌&&◌, ◌≡◌, sym, String, Option, none, some, trim_space, ltb, arith,
  eq_iff,
}
use ding_ding_schedule.Agent.Workflow.Contract.{Time, WorkflowSnapshot}
use ding_ding_schedule.Agent.Workflow.Errors.{
  ok, >>=-eq-ok, guard-eq-ok, ok-injective, business_key_mismatch, in_progress,
  takeover_identity_changed,
}
use ding_ding_schedule.Agent.Workflow.Execution.{
  Execution, ReservedExecution, ExecutionResult, result_recorded,
}
use ding_ding_schedule.Agent.Workflow.Store.{
  WorkflowKey, VersionedWorkflow, Store, Readings, workflow_expired, active, active_record,
  unreserved, expect_token, record_for_versioned_mutation, record_for_execution_mutation,
  next_version, prepare_snapshot, set_workflow_snapshot_version,
}
use ding_ding_schedule.Agent.Workflow.Store.Operations.{
  swapped, deletable, recorded, is_recorded, finalized, reserved_deletable, status_after,
  taken_over,
}

both : (a b : Bool) → (a && b) ≡ true → (a ≡ true) × (b ≡ true)
both a b h = ground arith

not_before : (a b : ℕ) → not (ltb a b) ≡ true → b ≤ a
not_before a b h = ground arith

pub active-eq-some :
    (o : Option VersionedWorkflow) (now : Time) {r : VersionedWorkflow}
    → active o now ≡ some r
    → o ≡ some r
active-eq-some none now h = cc
active-eq-some (some r) now h = ground arith

-- A record goes away by itself only when it holds no execution and its time is up.
pub active-eq-none :
    (r : VersionedWorkflow) (now : Time)
    → active (some r) now ≡ none
    → (r.execution ≡ none) × (r.snapshot.expires_at ≢ 0) × (r.snapshot.expires_at ≤ now)
unfolding workflow_expired
active-eq-none r now h = ground arith

pub versioned-found :
    (s : Store) (k : WorkflowKey) (v : ℕ) (now : Time) {r : VersionedWorkflow}
    → record_for_versioned_mutation s k v now ≡ ok r
    → (s k ≡ some r) × (r.version ≡ v)
unfolding record_for_versioned_mutation active_record
versioned-found s k v now h = ground (arith, active-eq-some (s k) now)

expect_token-found :
    (r : VersionedWorkflow) (o : Option Execution) (token : String) {r' : VersionedWorkflow}
    {e : Execution}
    → expect_token r o token ≡ ok (r', e)
    → (r ≡ r') × (o ≡ some e) × (e.reservation.execution_token ≡ trim_space token)
expect_token-found r none token h = cc
expect_token-found r (some e) token h =
    ground (arith, eq_iff e.reservation.execution_token (trim_space token))

pub execution-found :
    (s : Store) (k : WorkflowKey) (v : ℕ) (token : String) (now : Time) {r : VersionedWorkflow}
    {e : Execution}
    → record_for_execution_mutation s k v token now ≡ ok (r, e)
    → (s k ≡ some r)
      × (r.version ≡ v)
      × (r.execution ≡ some e)
      × (e.reservation.execution_token ≡ trim_space token)
unfolding record_for_execution_mutation
execution-found s k v token now h =
    let (r, found, rest) = >>=-eq-ok (record_for_versioned_mutation s k v now) _ h in
    let (same, held, token_eq) = expect_token-found r r.execution token rest in
    let (at, version_eq) = versioned-found s k v now found in (cc, cc, cc, token_eq)

unreserved-none : (e : Option Execution) → unreserved e ≡ true → e ≡ none
unreserved-none e h = ground arith

pub swapped-found :
    (s : Store) (k : WorkflowKey) (v : ℕ) (w : WorkflowSnapshot) (e : Option Execution)
    (t : Readings) {r' : VersionedWorkflow}
    → swapped s k v w e t ≡ ok r'
    → (r : VersionedWorkflow) × (s k ≡ some r)
      × (r.version ≡ v)
      × (r.execution ≡ none)
      × (r' ≡ record {
        snapshot = prepare_snapshot k w (next_version r.version) (some r.snapshot) t.second;
        version = next_version r.version;
        execution = e;
      })
unfolding swapped
swapped-found s k v w e t h =
    let (r, found, rest) = >>=-eq-ok (record_for_versioned_mutation s k v t.first) _ h in
    let (at, version_eq) = versioned-found s k v t.first found in
    let (idle, stored) = guard-eq-ok _ in_progress _ rest in
    (r, at, version_eq, unreserved-none r.execution idle, sym (ok-injective stored))

pub deletable-found :
    (s : Store) (k : WorkflowKey) (v : ℕ) (t : Readings)
    → deletable s k v t ≡ ok tt
    → (r : VersionedWorkflow) × (s k ≡ some r) × (r.version ≡ v) × (r.execution ≡ none)
unfolding deletable
deletable-found s k v t h =
    let (r, found, rest) = >>=-eq-ok (record_for_versioned_mutation s k v t.first) _ h in
    let (at, version_eq) = versioned-found s k v t.first found in (r, at, version_eq, ground arith)

-- The record and the execution that a step under a token has found.
pub record Held (s : Store) (k : WorkflowKey) (v : ℕ) (token : String) : Type 0 where
  pub old : VersionedWorkflow
  pub execution : Execution
  pub at : s k ≡ some old
  pub version_eq : old.version ≡ v
  pub execution_eq : old.execution ≡ some execution
  pub token_eq : execution.reservation.execution_token ≡ trim_space token

module _ (s : Store) (k : WorkflowKey) (v : ℕ) (token : String) (t : Readings) where
  held :
      {r : VersionedWorkflow} {e : Execution}
      → record_for_execution_mutation s k v token t.first ≡ ok (r, e)
      → Held s k v token
  held {r} {e} found =
      let (at, version_eq, execution_eq, token_eq) = execution-found s k v token t.first found in
      record {
        old = r;
        execution = e;
        at = at;
        version_eq = version_eq;
        execution_eq = execution_eq;
        token_eq = token_eq;
      }

  pub recorded-found :
      (result : ExecutionResult) {r' : VersionedWorkflow}
      → recorded s k v token result t ≡ ok r'
      → (h : Held s k v token) × (h.execution.reservation.business_key
          ≡ trim_space result.business_key)
        × (r' ≡ record {
          snapshot = set_workflow_snapshot_version h.old.snapshot (next_version h.old.version);
          version = next_version h.old.version;
          execution = some (record {
            status = result_recorded;
            reservation = h.execution.reservation;
            result = some (record result { business_key = trim_space result.business_key });
          });
        })
  unfolding recorded held
  recorded-found result h =
      let ((r, e), found, rest) =
        >>=-eq-ok (record_for_execution_mutation s k v token t.first) _ h in
      let (key_eq, done) = guard-eq-ok _ business_key_mismatch _ rest in
      (held found, (eq_iff _ _).0 key_eq, sym (ok-injective done))

  pub finalized-found :
      (w : WorkflowSnapshot) {r' : VersionedWorkflow}
      → finalized s k v token w t ≡ ok r'
      → (h : Held s k v token) × (is_recorded h.execution.status h.execution.result ≡ true)
        × (r' ≡ record {
          snapshot =
              prepare_snapshot k w (next_version h.old.version) (some h.old.snapshot) t.second;
          version = next_version h.old.version;
          execution = none;
        })
  unfolding finalized held
  finalized-found w h =
      let ((r, e), found, rest) =
        >>=-eq-ok (record_for_execution_mutation s k v token t.first) _ h in
      let (done, stored) = guard-eq-ok _ in_progress _ rest in
      (held found, done, sym (ok-injective stored))

  pub reserved_deletable-found :
      reserved_deletable s k v token t ≡ ok tt
      → (h : Held s k v token) × (is_recorded h.execution.status h.execution.result ≡ true)
  unfolding reserved_deletable held
  reserved_deletable-found h =
      let ((r, e), found, rest) =
        >>=-eq-ok (record_for_execution_mutation s k v token t.first) _ h in
      (held found, ground arith)

  pub taken_over-found :
      (next : ReservedExecution) {r' : VersionedWorkflow}
      → taken_over s k v token next t ≡ ok r'
      → (h : Held s k v token) × (h.execution.reservation.lease_expires_at ≤ t.second)
        × (h.execution.reservation.operation ≡ next.operation)
        × (h.execution.reservation.business_key ≡ next.business_key)
        × (r' ≡ record {
          snapshot = set_workflow_snapshot_version h.old.snapshot (next_version h.old.version);
          version = next_version h.old.version;
          execution = some (record {
            status = status_after h.execution.result;
            reservation = next;
            result = h.execution.result;
          });
        })
  unfolding taken_over held
  taken_over-found next h =
      let ((r, e), found, rest) =
        >>=-eq-ok (record_for_execution_mutation s k v token t.first) _ h in
      let (late, more) = guard-eq-ok _ in_progress _ rest in
      let (same, stored) = guard-eq-ok _ takeover_identity_changed _ more in
      let (same_op, same_key) = both _ _ same in
      (
        held found,
        not_before _ _ late,
        (eq_iff _ _).0 same_op,
        (eq_iff _ _).0 same_key,
        sym (ok-injective stored),
      )
