-- ===== src/Agent/Workflow/Store/Exclusion.antt =====
-- Optimistic versions and execution tokens of the in-memory workflow store keep callers apart.
use ding_ding_schedule.Prelude.{
  ℕ, ◌≡◌, ◌≢◌, refl, sym, ◌∙◌, ap, ◌⊎◌, inl, inr, String, Option, none, some, arith, eq_of_some,
  true,
}
use ding_ding_schedule.Agent.Workflow.Contract.{Time}
use ding_ding_schedule.Agent.Workflow.Execution.{Execution}
use ding_ding_schedule.Agent.Workflow.Codec.{PersistedReservedExecution}
use ding_ding_schedule.Agent.Workflow.Store.{
  WorkflowKey, VersionedWorkflow, Store, Readings, next_version,
}
use ding_ding_schedule.Agent.Workflow.Store.Operations.{is_recorded}
use ding_ding_schedule.Agent.Workflow.Store.Trace.{Call, step, expected, shown}
use ding_ding_schedule.Agent.Workflow.Store.Spec.{
  Lapsed, Change, kept, lapsed, inserted, replaced, deleted, recorded, finalized, released,
  taken_over,
}
use ding_ding_schedule.Agent.Workflow.Store.Refinement.{step-Change}

pub next_version-ne : (v : ℕ) → next_version v ≢ v
next_version-ne v e = omega arith

abbrev version_of : VersionedWorkflow → ℕ
version_of r = r.version

next_is_new :
    {r : VersionedWorkflow} {v : ℕ} (old new : VersionedWorkflow)
    → old.version ≡ v
    → new.version ≡ next_version old.version
    → new ≡ r
    → r.version ≢ v
next_is_new {r} {v} old new same next stored e =
    next_version-ne v (ap next_version (sym same) ∙ sym next ∙ ap version_of stored ∙ e)

-- the record of the key was dropped because it had lapsed at `now`, and nothing else happened to it
abbrev pub Dropped : Time → Option VersionedWorkflow → Option VersionedWorkflow → Type 0
Dropped now o p = (r : VersionedWorkflow) × (o ≡ some r) × Lapsed now r × (p ≡ none)

module _ (json_length : PersistedReservedExecution → ℕ) where
  stale-Change :
      {k : WorkflowKey} {w : Option ℕ} {token : Option String} {t : Readings}
      {o p : Option VersionedWorkflow} {v : ℕ}
      → w ≡ some v
      → ((r : VersionedWorkflow) → o ≡ some r → r.version ≢ v)
      → Change json_length k w token t o p
      → (p ≡ o) ⊎ Dropped t.first o p
  stale-Change ex stale (kept same) = inl same
  stale-Change ex stale (lapsed r at idle gone) = inr (r, at, idle, gone)
  stale-Change ex stale (inserted new free anew one starts fits at) = cc
  stale-Change ex stale (replaced old new at same idle next starts fits stored) =
      absurd (stale old at (eq_of_some (sym same ∙ ex)))
  stale-Change ex stale (deleted old at same idle gone) =
      absurd (stale old at (eq_of_some (sym same ∙ ex)))
  stale-Change ex stale (recorded old e result at same bears held key_eq stored) =
      absurd (stale old at (eq_of_some (sym same ∙ ex)))
  stale-Change ex stale (finalized old new e at same bears held done next idle fits stored) =
      absurd (stale old at (eq_of_some (sym same ∙ ex)))
  stale-Change ex stale (released old e at same bears held done gone) =
      absurd (stale old at (eq_of_some (sym same ∙ ex)))
  stale-Change ex stale
        (taken_over old e n at same bears held late canonical op key_eq new stored) =
      absurd (stale old at (eq_of_some (sym same ∙ ex)))

  -- A call that expects another version than the one stored changes nothing at its key, but for
  -- dropping a record without an execution whose time is up by the call's own clock.
  pub stale_version_refused :
      (c : Call) (s : Store) (v : ℕ)
      → expected c.request ≡ some v
      → ((r : VersionedWorkflow) → s c.key ≡ some r → r.version ≢ v)
      → (step json_length c s c.key ≡ s c.key)
        ⊎ Dropped c.readings.first (s c.key) (step json_length c s c.key)
  stale_version_refused c s v expects stale =
      stale-Change expects stale (step-Change json_length c s)

  execution_of :
      {r old : VersionedWorkflow} {e e' : Execution}
      → r.execution ≡ some e
      → some r ≡ some old
      → old.execution ≡ some e'
      → e ≡ e'
  execution_of held at held' = cc

  token_of :
      {r old : VersionedWorkflow} {e e' : Execution}
      → r.execution ≡ some e
      → some r ≡ some old
      → old.execution ≡ some e'
      → e'.reservation.execution_token ≡ e.reservation.execution_token
  token_of held at held' = cc

  fenced-Change :
      {k : WorkflowKey} {v : Option ℕ} {token : Option String} {t : Readings}
      {o p : Option VersionedWorkflow} (r : VersionedWorkflow) (e : Execution)
      → o ≡ some r
      → r.execution ≡ some e
      → token ≢ some e.reservation.execution_token
      → Change json_length k v token t o p
      → p ≡ some r
  fenced-Change r e here held other (kept same) = same ∙ here
  fenced-Change r e here held other (lapsed old at idle gone) = cc idle.0
  fenced-Change r e here held other (inserted new (inl free) anew one starts fits at) = cc
  fenced-Change r e here held other
        (inserted new (inr (old, at, idle)) anew one starts fits stored) =
      cc idle.0
  fenced-Change r e here held other (replaced old new at same idle next starts fits stored) = cc
  fenced-Change r e here held other (deleted old at same idle gone) = cc
  fenced-Change r e here held other (recorded old e' result at same bears held' key_eq stored) =
      absurd (other (bears ∙ ap some (token_of held (sym here ∙ at) held')))
  fenced-Change r e here held other
        (finalized old new e' at same bears held' done next idle fits stored) =
      absurd (other (bears ∙ ap some (token_of held (sym here ∙ at) held')))
  fenced-Change r e here held other (released old e' at same bears held' done gone) =
      absurd (other (bears ∙ ap some (token_of held (sym here ∙ at) held')))
  fenced-Change r e here held other
        (taken_over old e' n at same bears held' late canonical op key_eq new stored) =
      absurd (other (bears ∙ ap some (token_of held (sym here ∙ at) held')))

  -- While a record holds an execution, a call that does not show the token of that execution leaves
  -- the record exactly as it was, whatever it asks for and however late it is.
  pub held_execution_fenced :
      (c : Call) (s : Store) (r : VersionedWorkflow) (e : Execution)
      → s c.key ≡ some r
      → r.execution ≡ some e
      → shown c.request ≢ some e.reservation.execution_token
      → step json_length c s c.key ≡ some r
  held_execution_fenced c s r e at held other =
      fenced-Change r e at held other (step-Change json_length c s)

  moved-Change :
      {k : WorkflowKey} {w : Option ℕ} {token : Option String} {t : Readings}
      {o p : Option VersionedWorkflow} {v : ℕ}
      → w ≡ some v
      → p ≢ o
      → Change json_length k w token t o p
      → (r : VersionedWorkflow) → p ≡ some r
      → r.version ≢ v
  moved-Change ex moved (kept same) r e = absurd (moved same)
  moved-Change ex moved (lapsed old at idle gone) r e = cc
  moved-Change ex moved (inserted new free anew one starts fits at) r e = cc
  moved-Change ex moved (replaced old new at same idle next starts fits stored) r e =
      next_is_new old new (eq_of_some (sym same ∙ ex)) next (eq_of_some (sym stored ∙ e))
  moved-Change ex moved (deleted old at same idle gone) r e = cc
  moved-Change ex moved (recorded old h result at same bears held key_eq stored) r e =
      next_is_new old _ (eq_of_some (sym same ∙ ex)) refl (eq_of_some (sym stored ∙ e))
  moved-Change ex moved (finalized old new h at same bears held done next idle fits stored) r e =
      next_is_new old new (eq_of_some (sym same ∙ ex)) next (eq_of_some (sym stored ∙ e))
  moved-Change ex moved (released old h at same bears held done gone) r e = cc
  moved-Change ex moved (taken_over old h n at same bears held late canonical op key_eq new stored)
        r e =
      next_is_new old _ (eq_of_some (sym same ∙ ex)) refl (eq_of_some (sym stored ∙ e))

  -- Of two calls that expect the same version of a key, the second has no effect once the first has
  -- changed the key, but for dropping what the first left, when that holds no execution and its time is
  -- up by the clock of the second call.
  pub second_writer_loses :
      (c d : Call) (s : Store) (v : ℕ)
      → expected c.request ≡ some v
      → expected d.request ≡ some v
      → d.key ≡ c.key
      → step json_length c s c.key ≢ s c.key
      → (step json_length d (step json_length c s) d.key ≡ step json_length c s d.key)
        ⊎ Dropped d.readings.first
            (step json_length c s d.key)
            (step json_length d (step json_length c s) d.key)
  second_writer_loses c d s v ce de same moved =
      stale_version_refused d (step json_length c s) v de λ r at.
        moved-Change ce moved (step-Change json_length c s) r
          (ap (step json_length c s) (sym same) ∙ at)

  ended-Change :
      {k : WorkflowKey} {v : Option ℕ} {token : Option String} {t : Readings}
      {o p : Option VersionedWorkflow} (r : VersionedWorkflow) (e : Execution)
      → o ≡ some r
      → r.execution ≡ some e
      → ((r' : VersionedWorkflow) (e' : Execution) → p ≡ some r' → r'.execution ≢ some e')
      → Change json_length k v token t o p
      → (is_recorded e.status e.result ≡ true) × (token ≡ some e.reservation.execution_token)
  ended-Change r e here held ended (kept same) = absurd (ended r e (same ∙ here) held)
  ended-Change r e here held ended (lapsed old at idle gone) = cc idle.0
  ended-Change r e here held ended (inserted new (inl free) anew one starts fits at) = cc
  ended-Change r e here held ended
        (inserted new (inr (old, at, idle)) anew one starts fits stored) =
      cc idle.0
  ended-Change r e here held ended (replaced old new at same idle next starts fits stored) = cc
  ended-Change r e here held ended (deleted old at same idle gone) = cc
  ended-Change r e here held ended (recorded old e' result at same bears held' key_eq stored) =
      absurd (ended _ _ stored refl)
  ended-Change r e here held ended
        (finalized old new e' at same bears held' done next idle fits stored) =
      (
        rw (execution_of held (sym here ∙ at) held') done,
        bears ∙ ap some (token_of held (sym here ∙ at) held'),
      )
  ended-Change r e here held ended (released old e' at same bears held' done gone) = (
    rw (execution_of held (sym here ∙ at) held') done,
    bears ∙ ap some (token_of held (sym here ∙ at) held'),
  )
  ended-Change r e here held ended
        (taken_over old e' n at same bears held' late canonical op key_eq new stored) =
      absurd (ended _ _ stored refl)

  -- An execution goes away only when its result is recorded, and only by a call that shows its token.
  pub execution_ends_recorded :
      (c : Call) (s : Store) (r : VersionedWorkflow) (e : Execution)
      → s c.key ≡ some r
      → r.execution ≡ some e
      → ((r' : VersionedWorkflow) (e' : Execution)
          → step json_length c s c.key ≡ some r'
          → r'.execution ≢ some e')
      → (is_recorded e.status e.result ≡ true)
        × (shown c.request ≡ some e.reservation.execution_token)
  execution_ends_recorded c s r e at held ended =
      ended-Change r e at held ended (step-Change json_length c s)
