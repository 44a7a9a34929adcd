-- ===== src/Agent/Workflow/Database/Fencing.antt =====
-- What callers of the repository can rely on against each other: versions and tokens.
use ding_ding_schedule.Prelude.{
  ℕ, ◌+◌, Bool, true, false, ◌≡◌, refl, sym, ◌∙◌, subst, ap, inl, inr, ◌⊎◌, String, Option, none,
  some, arith, eq_of_some,
}
use ding_ding_schedule.Agent.Workflow.Database.{
  Database, AgentWorkflowKey, AgentWorkflow, Environment, RepositoryError, Error, is_idle,
  is_result_recorded,
}
use ding_ding_schedule.Agent.Workflow.Database.Table.{
  Table, equals, idle_execution, snapshot_updates, add_reservation_updates, begin_execution,
  result_updates, clear_execution_updates, final_updates, deferral_updates,
}
use ding_ding_schedule.Agent.Workflow.Database.Operations.{
  idle_at, executing_at, recorded_at, expired_at, running_at,
}
use ding_ding_schedule.Agent.Workflow.Database.Calls.{
  Request, creates, swaps, deletes, creates_reserved, reserves, records, finalizes, releases,
  takes_over, defers, key_of, expected, shown, Call, statement, step,
}
use ding_ding_schedule.Agent.Workflow.Database.Unique.{IsCollation, Unique}
use ding_ding_schedule.Agent.Workflow.Database.Outcome.{
  found, Succeeded, step-Outcome, step-at_key, success-Done,
}

-- whether a call shows a token that the collation takes for the one in the row
abbrev pub bears : Database → Option String → Option String → Bool
bears db stored none = false
bears db stored (some token) = equals db stored token

module _ (db : Database) where
  -- A statement for a version works on a row of that version and leaves the next one or no row.
  versioned :
      (env : Environment) (q : Request) (v : ℕ) (before after : Option AgentWorkflow)
      → expected q ≡ some v
      → Succeeded db env (key_of q) (statement db q) before after
      → ((old : AgentWorkflow) × (before ≡ some old) × (old.version ≡ v))
        × ((after ≡ none) ⊎ ((new : AgentWorkflow) × (after ≡ some new) × (new.version ≡ v + 1)))
  unfolding Succeeded snapshot_updates add_reservation_updates begin_execution result_updates
      clear_execution_updates final_updates deferral_updates idle_at executing_at recorded_at
      expired_at running_at
  versioned env (creates w) v before after e s = cc
  versioned env (creates_reserved w r) v before after e s = cc
  versioned env (swaps k x next) v before after e (old, at, admitted, fits, stored) =
      ((old, at, ground (arith)), inr (_, stored, ground (arith)))
  versioned env (deletes k x) v before after e (old, at, admitted, gone) =
      ((old, at, ground (arith)), inl gone)
  versioned env (reserves k x next r) v before after e (old, at, admitted, fits, stored) =
      ((old, at, ground (arith)), inr (_, stored, ground (arith)))
  versioned env (records k x token result) v before after e (old, at, admitted, fits, stored) =
      ((old, at, ground (arith)), inr (_, stored, ground (arith)))
  versioned env (finalizes k x token next) v before after e (old, at, admitted, fits, stored) =
      ((old, at, ground (arith)), inr (_, stored, ground (arith)))
  versioned env (releases k x token) v before after e (old, at, admitted, gone) =
      ((old, at, ground (arith)), inl gone)
  versioned env (takes_over k x token t next) v before after e (old, at, admitted, fits, stored) =
      ((old, at, ground (arith)), inr (_, stored, ground (arith)))
  versioned env (defers k x token t) v before after e (old, at, admitted, fits, stored) =
      ((old, at, ground (arith)), inr (_, stored, ground (arith)))

  busy_not_idle {ℓ} :
      {A : Type ℓ} (k : AgentWorkflowKey) (v : ℕ) (w old : AgentWorkflow)
      → is_idle w.execution_status ≡ false
      → some w ≡ some old
      → idle_at db k v old ≡ true
      → A
  unfolding idle_at idle_execution
  busy_not_idle k v w old busy at admitted =
      let also = subst (λ u. is_idle u.execution_status ≡ false) (eq_of_some at) busy in
      ground (arith)

  -- Only a call that shows its token changes a row that is not idle.
  held :
      (env : Environment) (q : Request) (w : AgentWorkflow) (after : Option AgentWorkflow)
      → is_idle w.execution_status ≡ false
      → Succeeded db env (key_of q) (statement db q) (some w) after
      → bears db w.execution_token (shown q) ≡ true
  unfolding Succeeded executing_at recorded_at expired_at running_at
  held env (creates new) w after busy s = cc
  held env (creates_reserved new r) w after busy s = cc
  held env (swaps k v next) w after busy (old, at, admitted, fits, stored) =
      busy_not_idle k v w old busy at admitted
  held env (deletes k v) w after busy (old, at, admitted, gone) =
      busy_not_idle k v w old busy at admitted
  held env (reserves k v next r) w after busy (old, at, admitted, fits, stored) =
      busy_not_idle k v w old busy at admitted
  held env (records k v token result) w after busy (old, at, admitted, fits, stored) =
      rw (eq_of_some at) ground (arith)
  held env (finalizes k v token next) w after busy (old, at, admitted, fits, stored) =
      rw (eq_of_some at) ground (arith)
  held env (releases k v token) w after busy (old, at, admitted, gone) =
      rw (eq_of_some at) ground (arith)
  held env (takes_over k v token t next) w after busy (old, at, admitted, fits, stored) =
      rw (eq_of_some at) ground (arith)
  held env (defers k v token t) w after busy (old, at, admitted, fits, stored) =
      rw (eq_of_some at) ground (arith)

  -- the row is gone, or no execution is in it
  abbrev pub Ended : Option AgentWorkflow → Type 0
  Ended none = Unit
  Ended (some w) = is_idle w.execution_status ≡ true

  still_busy {ℓ} :
      {A : Type ℓ} (w : AgentWorkflow) (after : Option AgentWorkflow)
      → after ≡ some w
      → is_idle w.execution_status ≡ false
      → Ended after
      → A
  still_busy w after stored busy ended = let idle_again = subst Ended stored ended in cc

  Ended-recorded :
      (env : Environment) (q : Request) (w : AgentWorkflow) (after : Option AgentWorkflow)
      → is_idle w.execution_status ≡ false
      → Succeeded db env (key_of q) (statement db q) (some w) after
      → Ended after
      → is_result_recorded w.execution_status ≡ true
  unfolding Succeeded recorded_at snapshot_updates add_reservation_updates begin_execution
      result_updates deferral_updates
  Ended-recorded env (creates new) w after busy s ended = cc
  Ended-recorded env (creates_reserved new r) w after busy s ended = cc
  Ended-recorded env (swaps k v next) w after busy (old, at, admitted, fits, stored) ended =
      busy_not_idle k v w old busy at admitted
  Ended-recorded env (deletes k v) w after busy (old, at, admitted, gone) ended =
      busy_not_idle k v w old busy at admitted
  Ended-recorded env (reserves k v next r) w after busy (old, at, admitted, fits, stored) ended =
      busy_not_idle k v w old busy at admitted
  Ended-recorded env (records k v token result) w after busy (old, at, admitted, fits, stored)
        ended =
      still_busy _ after stored refl ended
  Ended-recorded env (finalizes k v token next) w after busy (old, at, admitted, fits, stored)
        ended =
      rw (eq_of_some at) ground (arith)
  Ended-recorded env (releases k v token) w after busy (old, at, admitted, gone) ended =
      rw (eq_of_some at) ground (arith)
  Ended-recorded env (takes_over k v token t next) w after busy (old, at, admitted, fits, stored)
        ended =
      still_busy _ after stored refl ended
  Ended-recorded env (defers k v token t) w after busy (old, at, admitted, fits, stored) ended =
      still_busy _ after stored refl ended

  pair_of : (r : Table × Error) {t : Table} {e : Error} → r.1 ≡ e → r.0 ≡ t → r ≡ (t, e)
  pair_of r h g = cc

  module _ (lawful : IsCollation db) where
    -- In a table where no two rows share a key: when a call that expects a version has succeeded, a
    -- second call for the same key that expects the same version fails and changes nothing.
    pub second_writer_fails :
        (c d : Call) (t : Table) (v : ℕ)
        → Unique db t
        → key_of d.request ≡ key_of c.request
        → expected c.request ≡ some v
        → expected d.request ≡ some v
        → (step db c t).1 ≡ none
        → (e : RepositoryError) × (step db d (step db c t).0 ≡ ((step db c t).0, some e))
    second_writer_fails c d t v u same expects_c expects_d first =
        let d_c = success-Done db lawful c t u first in
        elim (step-Outcome db lawful d (step db c t).0 d_c.unique) [
          | inl (e, failed, kept) ↦ (e, pair_of _ failed kept)
          | inr (succeeded, d_d) ↦
              let (old, at, old_version) =
                (versioned d.environment d.request v _ _ expects_d d_d.at_own_key).0 in
              let there = subst (λ k. found db k (step db c t).0 ≡ some old) same at in
              elim (versioned c.environment c.request v _ _ expects_c d_c.at_own_key).1 [
                | inl gone ↦ cc
                | inr (new, stored, new_version) ↦
                    let one_row = eq_of_some (sym there ∙ stored) in
                    let versions = sym old_version ∙ ap (λ w. w.version) one_row ∙ new_version in
                    absurd (omega arith)
              ]
        ]

    -- In a table where no two rows share a key, a call of any operation leaves a row that is not
    -- idle, as long as it does not show the token that the row holds.
    pub held_row_fenced :
        (c : Call) (t : Table) (k : AgentWorkflowKey) (w : AgentWorkflow)
        → Unique db t
        → found db k t ≡ some w
        → is_idle w.execution_status ≡ false
        → bears db w.execution_token (shown c.request) ≡ false
        → found db k (step db c t).0 ≡ some w
    held_row_fenced c t k w u at busy foreign = elim (step-at_key db lawful c t k u) [
      | inl same ↦ same ∙ at
      | inr succeeded ↦
          let borne = held c.environment c.request w _ busy (
            subst
              (λ b.
                Succeeded db c.environment (key_of c.request) (statement db c.request) b
                  (found db k (step db c t).0))
              at succeeded) in
          cc
    ]

    -- In a table where no two rows share a key, when a call removes a row that is not idle or makes it
    -- idle, the result of the row's execution was recorded, and the call shows the token of the row.
    pub execution_ends_recorded_in_database :
        (c : Call) (t : Table) (k : AgentWorkflowKey) (w : AgentWorkflow)
        → Unique db t
        → found db k t ≡ some w
        → is_idle w.execution_status ≡ false
        → Ended (found db k (step db c t).0)
        → (is_result_recorded w.execution_status ≡ true)
          × (bears db w.execution_token (shown c.request) ≡ true)
    execution_ends_recorded_in_database c t k w u at busy ended =
        elim (step-at_key db lawful c t k u) [
          | inl same ↦ still_busy w _ (same ∙ at) busy ended
          | inr succeeded ↦
              let s =
                subst
                  (λ b.
                    Succeeded db c.environment (key_of c.request) (statement db c.request) b
                      (found db k (step db c t).0))
                  at succeeded in
              (
                Ended-recorded c.environment c.request w _ busy s ended,
                held c.environment c.request w _ busy s,
              )
        ]
