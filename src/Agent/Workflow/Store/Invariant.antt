-- ===== src/Agent/Workflow/Store/Invariant.antt =====
-- What holds of every record of the in-memory workflow store after any history of calls.
use ding_ding_schedule.Prelude.{
  ℕ, ◌^◌, ◌<◌, ◌≡◌, refl, sym, ◌∙◌, subst, inl, inr, Option, none, some, List, [], ◌∷◌, arith,
  Bool-cases, String, eq_of_some,
}
use ding_ding_schedule.Agent.Workflow.Execution.{ExecutionResult, Execution, result_recorded}
use ding_ding_schedule.Agent.Workflow.Codec.{PersistedReservedExecution}
use ding_ding_schedule.Agent.Workflow.Store.{
  WorkflowKey, VersionedWorkflow, Store, Readings, key_eq, new_memory_workflow_store, next_version,
}
use ding_ding_schedule.Agent.Workflow.Store.Operations.{status_after}
use ding_ding_schedule.Agent.Workflow.Store.Trace.{Call, step, run}
use ding_ding_schedule.Agent.Workflow.Store.Spec.{
  Fits, IsCanonical, Starts, Change, kept, lapsed, inserted, replaced, deleted, recorded, finalized,
  released, taken_over,
}
use ding_ding_schedule.Agent.Workflow.Store.Refinement.{step-Change}
use ding_ding_schedule.Agent.Workflow.Store.Isolation.{key_eq→eq, step-other}

abbrev pub ResultMatches : Option ExecutionResult → String → Type 0
ResultMatches none business_key = Unit
ResultMatches (some r) business_key = r.business_key ≡ business_key

module _ (json_length : PersistedReservedExecution → ℕ) where
  -- A held execution has a canonical reservation, a status that says whether it has a result, and
  -- a result for the business key that was reserved.
  abbrev pub ExecutionOk : Option Execution → Type 0
  ExecutionOk none = Unit
  ExecutionOk (some e) =
      IsCanonical json_length e.reservation
      × (e.status ≡ status_after e.result)
      × ResultMatches e.result e.reservation.business_key

  pub record WellFormed (k : WorkflowKey) (r : VersionedWorkflow) : Type 0 where
    pub fits : Fits k r
    pub version_bounded : r.version < 2 ^ 64
    pub execution_ok : ExecutionOk r.execution

  pub Inv : Store → Type 0
  Inv s = (k : WorkflowKey) (r : VersionedWorkflow) → s k ≡ some r → WellFormed k r

  next_bounded : (v : ℕ) → next_version v < 2 ^ 64
  next_bounded v = omega arith

  Starts-ok : (e : Option Execution) → Starts json_length e → ExecutionOk e
  Starts-ok e (inl idle) = rw idle tt
  Starts-ok e (inr (n, canonical, held)) = rw held (canonical, refl, tt)

  held_ok :
      {k : WorkflowKey} {old : VersionedWorkflow} {e : Execution}
      → WellFormed k old
      → old.execution ≡ some e
      → ExecutionOk (some e)
  held_ok w held = subst ExecutionOk held w.execution_ok

  matches_again :
      (o : Option ExecutionResult) (a b : String) → a ≡ b → ResultMatches o b → ResultMatches o a
  matches_again none a b e h = tt
  matches_again (some r) a b e h = h ∙ sym e

  -- the same workflow under its next version, with another execution
  reversioned :
      (k : WorkflowKey) (old : VersionedWorkflow) (e : Execution)
      → WellFormed k old
      → ExecutionOk (some e)
      → WellFormed k (record {
        snapshot = record (old.snapshot) { version = next_version old.version };
        version = next_version old.version;
        execution = some e;
      })
  reversioned k old e w ok_e = record {
    fits = record {
      tenant = w.fits.tenant;
      conversation = w.fits.conversation;
      actor = w.fits.actor;
      version = refl;
    };
    version_bounded = next_bounded old.version;
    execution_ok = ok_e;
  }

  Change-WellFormed :
      {k : WorkflowKey} {v : Option ℕ} {token : Option String} {t : Readings}
      {o p : Option VersionedWorkflow}
      → ((r : VersionedWorkflow) → o ≡ some r → WellFormed k r)
      → Change json_length k v token t o p
      → (r : VersionedWorkflow) → p ≡ some r
      → WellFormed k r
  Change-WellFormed w (kept same) r e = w r (sym same ∙ e)
  Change-WellFormed w (lapsed old at idle gone) r e = cc
  Change-WellFormed {k} w (inserted new free anew one starts fits at) r e =
      subst (WellFormed k) (eq_of_some (sym at ∙ e)) (record {
        fits = fits;
        version_bounded = omega arith;
        execution_ok = Starts-ok new.execution starts;
      })
  Change-WellFormed {k} w (replaced old new at at_v idle next starts fits stored) r e =
      subst (WellFormed k) (eq_of_some (sym stored ∙ e)) (record {
        fits = fits;
        version_bounded = rw next (next_bounded old.version);
        execution_ok = Starts-ok new.execution starts;
      })
  Change-WellFormed w (deleted old at at_v idle gone) r e = cc
  Change-WellFormed {k} w (recorded old e result at at_v bears held same stored) r h =
      subst (WellFormed k) (eq_of_some (sym stored ∙ h)) (
        reversioned k old
          (record { status = result_recorded; reservation = e.reservation; result = some result })
          (w old at) ((held_ok (w old at) held).0, refl, same))
  Change-WellFormed {k} w (finalized old new e at at_v bears held done next idle fits stored) r h =
      subst (WellFormed k) (eq_of_some (sym stored ∙ h)) (record {
        fits = fits;
        version_bounded = rw next (next_bounded old.version);
        execution_ok = rw idle tt;
      })
  Change-WellFormed w (released old e at at_v bears held done gone) r h = cc
  Change-WellFormed {k} w
        (taken_over old e n at at_v bears held late canonical same_op same_key new stored) r h =
      subst (WellFormed k) (eq_of_some (sym stored ∙ h)) (
        reversioned k old
          (record { status = status_after e.result; reservation = n; result = e.result }) (w old at)
          (canonical, refl, matches_again e.result _ _ same_key (held_ok (w old at) held).2))

  step-Inv : (c : Call) (s : Store) → Inv s → Inv (step json_length c s)
  unfolding Inv
  step-Inv c s inv j r e = elim (Bool-cases (key_eq c.key j)) [
    | inl same ↦
        subst (λ k. (r : VersionedWorkflow) → step json_length c s k ≡ some r → WellFormed k r)
          (key_eq→eq c.key j same) (Change-WellFormed (inv c.key) (step-Change json_length c s)) r e
    | inr other ↦ inv j r (sym (step-other json_length c s j other) ∙ e)
  ]

  run-Inv : (cs : List Call) (s : Store) → Inv s → Inv (run json_length cs s)
  unfolding run
  run-Inv [] s inv = inv
  run-Inv (c ∷ cs) s inv = run-Inv cs (step json_length c s) (step-Inv c s inv)

  new-Inv : Inv new_memory_workflow_store
  unfolding Inv new_memory_workflow_store
  new-Inv k r e = cc

  -- After any history of calls on a new store, every record carries its key and its version in its
  -- snapshot, its version fits in 64 bits, and an execution that it holds has a canonical
  -- reservation, a status that says whether a result is recorded, and no result for another
  -- business key than the reserved one.
  pub run-WellFormed :
      (cs : List Call) (k : WorkflowKey) (r : VersionedWorkflow)
      → run json_length cs new_memory_workflow_store k ≡ some r
      → WellFormed k r
  unfolding Inv
  run-WellFormed cs = run-Inv cs new_memory_workflow_store new-Inv
