-- ===== src/Agent/Workflow/Store/Refinement.antt =====
-- Each call of the in-memory workflow store makes a change that the contract allows, at its own key.
use ding_ding_schedule.Prelude.{
  ℕ, true, not, ◌≡◌, refl, sym, ◌∙◌, ap, ◌⊎◌, inl, inr, String, Option, none, some, trim_space,
  str_eq, arith, eq_refl, eq_iff, Option-cases, subst,
}
use ding_ding_schedule.Agent.Workflow.Contract.{Time, WorkflowSnapshot}
use ding_ding_schedule.Agent.Workflow.Errors.{
  Result, ok, err, guard, ◌>>◌, ok-injective, takeover_token_reused,
}
use ding_ding_schedule.Agent.Workflow.Execution.{
  ReservedExecution, ExecutionResult, Execution, validate_execution_result,
}
use ding_ding_schedule.Agent.Workflow.Codec.{PersistedReservedExecution}
use ding_ding_schedule.Agent.Workflow.Store.{
  WorkflowKey, VersionedWorkflow, Store, Readings, Context, key_eq, write, active, active_record,
  purge, prepare_snapshot, next_version, require,
}
use ding_ding_schedule.Agent.Workflow.Store.Operations
use ding_ding_schedule.Agent.Workflow.Store.Operations.{
  checked, commit, erase, load, create, compare_and_swap, delete_if_version,
  record_execution_result, finalize_execution, delete_reserved_execution, create_reserved_execution,
  reserve_execution, takeover_expired_execution, executing_now, entry, if_absent, fresh, swapped,
  canonical, reserved_deletable,
}
use ding_ding_schedule.Agent.Workflow.Store.Inversion.{
  active-eq-some, active-eq-none, swapped-found, deletable-found, recorded-found, finalized-found,
  reserved_deletable-found, taken_over-found,
}
use ding_ding_schedule.Agent.Workflow.Store.Trace.{
  Request, loads, creates, swaps, deletes, creates_reserved, reserves, records, finalizes, releases,
  takes_over, expected, shown, serve, Call, step,
}
use ding_ding_schedule.Agent.Workflow.Store.Spec.{
  Fits, Lapsed, Starts, Change, kept, lapsed, inserted, replaced, deleted, recorded, finalized,
  released, taken_over,
}

pub key_eq_refl : (k : WorkflowKey) → key_eq k k ≡ true
unfolding key_eq
key_eq_refl k = ground (arith, eq_refl k.conversation_id)

pub write_self : (s : Store) (k : WorkflowKey) (r : Option VersionedWorkflow) → write s k r k ≡ r
unfolding write
write_self s k r = rw (key_eq_refl k)

pub purge_self : (s : Store) (k : WorkflowKey) (now : Time) → purge s k now k ≡ active (s k) now
unfolding purge
purge_self s k now = write_self s k _

-- The rules for the two ends of an operation.
checked_rule :
    {A B : Type 0} (P : Option VersionedWorkflow → Type 0) (k : WorkflowKey) (s : Store)
    (m : Result A) (f : A → Store × Result B)
    → P (s k)
    → ((a : A) → m ≡ ok a → P ((f a).0 k))
    → P ((checked s m f).0 k)
checked_rule P k s (ok a) f refused run = run a refl
checked_rule P k s (err e) f refused run = refused

commit_rule :
    (P : Option VersionedWorkflow → Type 0) (k : WorkflowKey) (s : Store)
    (m : Result VersionedWorkflow)
    → P (s k)
    → ((r : VersionedWorkflow) → m ≡ ok r → P (some r))
    → P ((commit s k m).0 k)
unfolding commit
commit_rule P k s (ok r) refused done = rw (write_self s k (some r)) (done r refl)
commit_rule P k s (err e) refused done = refused

erase_rule :
    (P : Option VersionedWorkflow → Type 0) (k : WorkflowKey) (s : Store) (m : Result (Unit {0}))
    → P (s k)
    → (m ≡ ok tt → P none)
    → P ((erase s k m).0 k)
unfolding erase
erase_rule P k s (ok tt) refused done = rw (write_self s k none) (done refl)
erase_rule P k s (err e) refused done = refused

pub prepare-Fits :
    (k : WorkflowKey) (w : WorkflowSnapshot) (v : ℕ) (old : Option WorkflowSnapshot) (now : Time)
    (e : Option Execution)
    → Fits k (record { snapshot = prepare_snapshot k w v old now; version = v; execution = e })
unfolding prepare_snapshot
prepare-Fits k w v old now e = record {
  tenant = refl;
  conversation = refl;
  actor = refl;
  version = refl;
}

if_absent-found :
    (o : Option VersionedWorkflow) (r : VersionedWorkflow) {r' : VersionedWorkflow}
    → if_absent o r ≡ ok r'
    → (o ≡ none) × (r ≡ r')
if_absent-found none r h = (refl, ok-injective h)
if_absent-found (some old) r h = cc

entry-canonical :
    (m : Result (Unit {0})) (n : Result ReservedExecution) {a : ReservedExecution}
    → (m >> n) ≡ ok a
    → n ≡ ok a
entry-canonical (ok u) n h = h
entry-canonical (err e) n h = cc

differs : (a b : String) → guard (not (str_eq a b)) takeover_token_reused ≡ ok tt → ¬ (a ≡ b)
differs a b h e = ground (arith, eq_iff a b)

module _ (json_length : PersistedReservedExecution → ℕ) where
  active-Change :
      (k : WorkflowKey) (o : Option VersionedWorkflow) (now : Time) (v : Option ℕ)
      (token : Option String) (second : Time)
      → Change json_length k v token (record { first = now; second = second }) o (active o now)
  active-Change k none now v token second = kept refl
  active-Change k (some r) now v token second = elim (Option-cases (active (some r) now)) [
    | inl gone ↦ lapsed r refl (active-eq-none r now gone) gone
    | inr (r', stays) ↦ kept (stays ∙ sym (active-eq-some (some r) now stays))
  ]

  purge-Change :
      (k : WorkflowKey) (s : Store) (t : Readings) (v : Option ℕ) (token : Option String)
      → Change json_length k v token t (s k) (purge s k t.first k)
  purge-Change k s t v token =
      rw (purge_self s k t.first) (active-Change k (s k) t.first v token t.second)

  absent :
      (o : Option VersionedWorkflow) (now : Time)
      → active o now ≡ none
      → (o ≡ none) ⊎ ((old : VersionedWorkflow) × (o ≡ some old) × Lapsed now old)
  absent none now gone = inl refl
  absent (some r) now gone = inr (r, refl, active-eq-none r now gone)

  module _ (ctx : Context) (k : WorkflowKey) (t : Readings) (s : Store) where
    abbrev Allowed : Option ℕ → Option String → Option VersionedWorkflow → Type 0
    Allowed v token p = Change json_length k v token t (s k) p

    load-Change : Allowed (none) (none) ((load ctx k t s).0 k)
    unfolding load
    load-Change =
        checked_rule (Allowed (none) (none)) k s (entry ctx k) _ (kept refl)
          λ _ _. purge-Change k s t (none) (none)

    delete-Change : (v : ℕ) → Allowed (some v) (none) ((delete_if_version ctx k v t s).0 k)
    unfolding delete_if_version
    delete-Change v = checked_rule (Allowed (some v) (none)) k s (entry ctx k) _ (kept refl) λ _ _.
        erase_rule (Allowed (some v) (none)) k _ _ (purge-Change k s t (some v) (none)) λ h.
          let (old, at, same, idle) = deletable-found s k v t h in
          deleted old at (ap some (sym same)) idle refl

    -- the ends of `Create` and `CreateReservedExecution`
    insert-Change :
        (w : WorkflowSnapshot) (e : Option Execution)
        → Starts json_length e
        → Allowed (none) (none) (
            (commit (purge s k t.first) k (if_absent (active_record s k t.first) (fresh k w e t))).0
              k)
    unfolding active_record
    insert-Change w e starts =
        commit_rule (Allowed (none) (none)) k (purge s k t.first)
          (if_absent (active_record s k t.first) (fresh k w e t)) (purge-Change k s t (none) (none))
          λ r h.
            let (gone, same) = if_absent-found (active_record s k t.first) (fresh k w e t) h in
            subst (λ x. Allowed (none) (none) (some x)) same
              (inserted (fresh k w e t) (absent (s k) t.first gone) refl refl starts
                (prepare-Fits k w 1 none t.second e) refl)

    -- the ends of `CompareAndSwap` and `ReserveExecution`
    swap-Change :
        (v : ℕ) (w : WorkflowSnapshot) (e : Option Execution)
        → Starts json_length e
        → Allowed (some v) (none) ((commit (purge s k t.first) k (swapped s k v w e t)).0 k)
    swap-Change v w e starts =
        commit_rule (Allowed (some v) (none)) k (purge s k t.first) (swapped s k v w e t)
          (purge-Change k s t (some v) (none))
          λ r h.
            let (old, at, same, idle, stored) = swapped-found s k v w e t h in
            subst (λ x. Allowed (some v) (none) (some x)) (sym stored)
              (replaced old _ at (ap some (sym same)) idle refl starts
                (prepare-Fits k w (next_version old.version) (some old.snapshot) t.second e) refl)

    create-Change :
        (next : Option WorkflowSnapshot) → Allowed (none) (none) ((create ctx k next t s).0 k)
    unfolding create
    create-Change next =
        checked_rule (Allowed (none) (none)) k s (entry ctx k >> require next) _ (kept refl)
          λ w _. insert-Change w none (inl refl)

    compare_and_swap-Change :
        (v : ℕ) (next : Option WorkflowSnapshot)
        → Allowed (some v) (none) ((compare_and_swap ctx k v next t s).0 k)
    unfolding compare_and_swap
    compare_and_swap-Change v next =
        checked_rule (Allowed (some v) (none)) k s (entry ctx k >> require next) _ (kept refl)
          λ w _. swap-Change v w none (inl refl)

    create_reserved-Change :
        (next : Option WorkflowSnapshot) (n : ReservedExecution)
        → Allowed (none) (none) ((create_reserved_execution json_length ctx k next n t s).0 k)
    unfolding create_reserved_execution
    create_reserved-Change next n =
        checked_rule (Allowed (none) (none)) k s (entry ctx k >> require next) _ (kept refl) λ w _.
          checked_rule (Allowed (none) (none)) k s (canonical json_length n) _ (kept refl)
            λ m c. insert-Change w (some (executing_now m)) (inr (m, (n, c), refl))

    reserve-Change :
        (v : ℕ) (next : Option WorkflowSnapshot) (n : ReservedExecution)
        → Allowed (some v) (none) ((reserve_execution json_length ctx k v next n t s).0 k)
    unfolding reserve_execution
    reserve-Change v next n =
        checked_rule (Allowed (some v) (none)) k s (entry ctx k >> require next) _ (kept refl)
          λ w _.
            checked_rule (Allowed (some v) (none)) k s (canonical json_length n) _ (kept refl)
              λ m c. swap-Change v w (some (executing_now m)) (inr (m, (n, c), refl))

    record-Change :
        (v : ℕ) (token : String) (result : ExecutionResult)
        → Allowed
            (some v)
            (some (trim_space token))
            ((record_execution_result ctx k v token result t s).0 k)
    unfolding record_execution_result
    record-Change v token result =
        checked_rule (Allowed (some v) (some (trim_space token))) k s
          (entry ctx k >> validate_execution_result result) _ (kept refl)
          λ _ _.
            commit_rule (Allowed (some v) (some (trim_space token))) k (purge s k t.first)
              (Operations.recorded s k v token result t)
              (purge-Change k s t (some v) (some (trim_space token)))
              λ r h.
                let (found, same_key, stored) = recorded-found s k v token t result h in
                recorded found.old found.execution _ found.at (ap some (sym found.version_eq))
                  (ap some (sym found.token_eq)) found.execution_eq (sym same_key) (ap some stored)

    finalize-Change :
        (v : ℕ) (token : String) (next : Option WorkflowSnapshot)
        → Allowed
            (some v)
            (some (trim_space token))
            ((finalize_execution ctx k v token next t s).0 k)
    unfolding finalize_execution
    finalize-Change v token next =
        checked_rule (Allowed (some v) (some (trim_space token))) k s (entry ctx k >> require next)
          _ (kept refl)
          λ w _.
            commit_rule (Allowed (some v) (some (trim_space token))) k (purge s k t.first)
              (Operations.finalized s k v token w t)
              (purge-Change k s t (some v) (some (trim_space token)))
              λ r h.
                let (found, done, stored) = finalized-found s k v token t w h in
                subst (λ x. Allowed (some v) (some (trim_space token)) (some x)) (sym stored)
                  (finalized found.old _ found.execution found.at (ap some (sym found.version_eq))
                    (ap some (sym found.token_eq)) found.execution_eq done refl refl
                    (prepare-Fits k w _ (some found.old.snapshot) t.second none) refl)

    release-Change :
        (v : ℕ) (token : String)
        → Allowed
            (some v)
            (some (trim_space token))
            ((delete_reserved_execution ctx k v token t s).0 k)
    unfolding delete_reserved_execution
    release-Change v token =
        checked_rule (Allowed (some v) (some (trim_space token))) k s (entry ctx k) _ (kept refl)
          λ _ _.
            erase_rule (Allowed (some v) (some (trim_space token))) k (purge s k t.first)
              (reserved_deletable s k v token t)
              (purge-Change k s t (some v) (some (trim_space token)))
              λ h.
                let (found, done) = reserved_deletable-found s k v token t h in
                released found.old found.execution found.at (ap some (sym found.version_eq))
                  (ap some (sym found.token_eq)) found.execution_eq done refl

    takeover-Change :
        (v : ℕ) (token : String) (n : ReservedExecution)
        → Allowed
            (some v)
            (some (trim_space token))
            ((takeover_expired_execution json_length ctx k v token n t s).0 k)
    unfolding takeover_expired_execution
    takeover-Change v token n =
        checked_rule (Allowed (some v) (some (trim_space token))) k s
          (entry ctx k >> canonical json_length n) _ (kept refl)
          λ m c.
            checked_rule (Allowed (some v) (some (trim_space token))) k s
              (guard (not (str_eq (trim_space token) m.execution_token)) takeover_token_reused) _
              (kept refl)
              λ _ new.
                commit_rule (Allowed (some v) (some (trim_space token))) k (purge s k t.first)
                  (Operations.taken_over s k v token m t)
                  (purge-Change k s t (some v) (some (trim_space token)))
                  λ r h.
                    let (found, late, same_op, same_key, stored) =
                      taken_over-found s k v token t m h in
                    taken_over found.old found.execution m found.at (ap some (sym found.version_eq))
                      (ap some (sym found.token_eq)) found.execution_eq late
                      (n, entry-canonical _ _ c) (sym same_op) (sym same_key)
                      (λ e. differs _ _ new (sym (found.token_eq) ∙ sym e)) (ap some stored)

  serve-Change :
      (q : Request) (ctx : Context) (k : WorkflowKey) (t : Readings) (s : Store)
      → Change json_length k (expected q) (shown q) t (s k) (serve json_length q ctx k t s k)
  unfolding serve
  serve-Change loads ctx k t s = load-Change ctx k t s
  serve-Change (creates next) ctx k t s = create-Change ctx k t s next
  serve-Change (swaps v next) ctx k t s = compare_and_swap-Change ctx k t s v next
  serve-Change (deletes v) ctx k t s = delete-Change ctx k t s v
  serve-Change (creates_reserved next n) ctx k t s = create_reserved-Change ctx k t s next n
  serve-Change (reserves v next n) ctx k t s = reserve-Change ctx k t s v next n
  serve-Change (records v token result) ctx k t s = record-Change ctx k t s v token result
  serve-Change (finalizes v token next) ctx k t s = finalize-Change ctx k t s v token next
  serve-Change (releases v token) ctx k t s = release-Change ctx k t s v token
  serve-Change (takes_over v token n) ctx k t s = takeover-Change ctx k t s v token n

  -- Every call changes the content of its own key only in a way that the contract `Change` allows: a
  -- record that holds no execution may go, or give way to a new one, when its time is up by the
  -- call's own clock; and the rest only under the version, the token and the lease that `Change` asks for.
  pub step-Change :
      (c : Call) (s : Store)
      → Change json_length c.key
          (expected c.request)
          (shown c.request)
          c.readings
          (s c.key)
          (step json_length c s c.key)
  unfolding step
  step-Change c s = serve-Change c.request c.context c.key c.readings s
