-- ===== src/Agent/Workflow/Database/Scan.antt =====
-- internal/repository/agent_workflow_repository.go: the scan for executions to recover.
-- `ordered` stands for ORDER BY updated_at: it gives the rows that it is given, in another order.
use ding_ding_schedule.Prelude.{
  ℕ, zero, suc, ◌≤◌, Bool, true, false, not, ◌&&◌, ◌||◌, ◌≡◌, refl, subst, ◌∙◌, inl, inr, ◌⊎◌, none,
  some, List, [], ◌∷◌, ◌==◌, arith, any, keep_if, length, All,
}
use ding_ding_schedule.Prelude.Int.{ℤ, pos, negsuc, leb_ℤ, ltb_ℤ, pos_part}
use ding_ding_schedule.Agent.Workflow.Contract.{Time}
use ding_ding_schedule.Agent.Workflow.Database.{
  AgentWorkflow, Error, Environment, RowStatus, idle, executing, result_recorded, recovery_required,
  is_idle, is_result_recorded, is_executing, is_recovery_required, when, first_error,
  database_missing, context_done, database_failure, scan_invalid,
}
use ding_ding_schedule.Agent.Workflow.Database.Table.{Table}
use ding_ding_schedule.Agent.Workflow.Database.Operations.{Found, rows, queried, lease_ended}

abbrev pub take {ℓ} : {A : Type ℓ} → ℕ → List A → List A
take zero xs = []
take (suc n) [] = []
take (suc n) (x ∷ xs) = x ∷ take n xs

unfoldable pub recoverable : Time → AgentWorkflow → Bool
recoverable now w =
    is_result_recorded w.execution_status
    || ((is_executing w.execution_status || is_recovery_required w.execution_status)
        && lease_ended w.lease_expires_at now)

unfoldable pub list_recoverable_executions :
    (List AgentWorkflow → List AgentWorkflow) → Environment → Time → ℤ → Table → Found
unfolding recoverable
list_recoverable_executions ordered env now limit t =
    queried
      (first_error (
        when (not env.has_database) database_missing
        ∷ when env.context_ended context_done
        ∷ when (now == 0 || leb_ℤ limit (pos 0) || ltb_ℤ (pos 100) limit) scan_invalid
        ∷ when env.fails database_failure
        ∷ []))
      (rows (take (pos_part limit) (ordered (keep_if (recoverable now) t))))

-- a row that a recovery may work on
abbrev pub Pending : Time → AgentWorkflow → Type 0
Pending now w =
    (is_idle w.execution_status ≡ false)
    × ((is_result_recorded w.execution_status ≡ true) ⊎ (lease_ended w.lease_expires_at now ≡ true))

length-take : (n : ℕ) (xs : List AgentWorkflow) → length (take n xs) ≤ n
length-take zero xs = omega arith
length-take (suc n) [] = omega arith
length-take (suc n) (x ∷ xs) = omega (arith, length-take n xs)

pending_status :
    (s : RowStatus) (late : Bool)
    → (is_result_recorded s || ((is_executing s || is_recovery_required s) && late)) ≡ true
    → (is_idle s ≡ false) × ((is_result_recorded s ≡ true) ⊎ (late ≡ true))
pending_status idle late h = cc
pending_status executing late h = (refl, inr h)
pending_status result_recorded late h = (refl, inl refl)
pending_status recovery_required late h = (refl, inr h)

recoverable-Pending : (now : Time) (w : AgentWorkflow) → recoverable now w ≡ true → Pending now w
unfolding recoverable
recoverable-Pending now w h =
    pending_status w.execution_status (lease_ended w.lease_expires_at now) h

take-Pending :
    (now : Time) (n : ℕ) (xs : List AgentWorkflow)
    → any (λ w. not (recoverable now w)) xs ≡ false
    → All (Pending now) (take n xs)
take-Pending now zero xs h = tt
take-Pending now (suc n) [] h = tt
take-Pending now (suc n) (x ∷ xs) h =
    (recoverable-Pending now x ground (arith), take-Pending now n xs ground (arith))

kept_recoverable :
    (now : Time) (t : Table)
    → any (λ w. not (recoverable now w)) (keep_if (recoverable now) t) ≡ false
kept_recoverable now [] = refl
kept_recoverable now (w ∷ t) = ground (arith, kept_recoverable now t)

queried_rows :
    (e : Error) (found : List AgentWorkflow) (ws : List AgentWorkflow)
    → queried e (rows found) ≡ rows ws
    → (e ≡ none) × (found ≡ ws)
queried_rows none found ws h = (refl, cc)
queried_rows (some e) found ws h = cc

-- When ordering keeps the rows, a scan that answers was asked for 1 to 100 rows and gives no more than
-- that, each of them of an execution that is recorded, or whose lease has ended, and none idle.
pub scan_bounded :
    (ordered : List AgentWorkflow → List AgentWorkflow) (env : Environment) (now : Time) (limit : ℤ)
    (t : Table) (ws : List AgentWorkflow)
    → ((p : AgentWorkflow → Bool) (xs : List AgentWorkflow) → any p (ordered xs) ≡ any p xs)
    → list_recoverable_executions ordered env now limit t ≡ rows ws
    → (n : ℕ) × (limit ≡ pos n) × (1 ≤ n) × (n ≤ 100) × (length ws ≤ n) × All (Pending now) ws
unfolding list_recoverable_executions
scan_bounded ordered env now (negsuc n) t ws keeps h =
    let (no_error, _) = queried_rows _ _ ws h in absurd ground (arith)
scan_bounded ordered env now (pos n) t ws keeps h =
    let (no_error, answer) = queried_rows _ _ ws h in
    let kept = keeps (λ w. not (recoverable now w)) (keep_if (recoverable now) t) in
    let pending =
      take-Pending now n (ordered (keep_if (recoverable now) t)) (kept ∙ kept_recoverable now t) in
    let short = length-take n (ordered (keep_if (recoverable now) t)) in
    (
      n,
      refl,
      ground (arith),
      ground (arith),
      rw⁻¹ answer short,
      subst (All (Pending now)) answer pending,
    )
