-- ===== src/Remediate/Order.antt =====
-- The order in which internal/remediate/workflow.go executes the steps of a runbook.
use sentinel_flow_project.Base.{
  ℕ, ◌+◌, String, ◌≡◌, refl, Bool, true, false, ◌||◌, Option, none, some, List, [], ◌∷◌,
}
use sentinel_flow_project.Base.Time.{Duration}
use sentinel_flow_project.Base.Results.{Result, ok, err}
use sentinel_flow_project.Incident.{Status, active}
use sentinel_flow_project.Runbook.{Mode, auto, approval, other_mode, Step, Runbook}
use sentinel_flow_project.Remediate.{
  Signal, Flags, no_decision, deliver, Detail, ActionRecord, StepWorld, Mark, executed, finished,
  Trace, hear, write_then, after_execute, execute_step, approved_record, decide, await_decision,
  waited, live_step, after_check, run_step, run_steps, remediate,
}

-- The executions of a run: the steps with the numbers that they were given.
unfoldable pub executions : List Mark → List (ℕ × Step)
executions [] = []
executions (executed n s ∷ ms) = (n, s) ∷ executions ms
executions (_ ∷ ms) = executions ms

-- The first list is a beginning of the second, numbered from n on.
abbrev pub Begins : List (ℕ × Step) → ℕ → List Step → Type 0
Begins [] n ss = Unit
Begins (x ∷ xs) n [] = ⊥
Begins (x ∷ xs) n (s ∷ ss) = (x ≡ (n, s)) × Begins xs (n + 1) ss

abbrev Orderly : ℕ → List Step → Trace → Type 0
Orderly n ss x = Begins (executions x.0) n ss

module _ (n : ℕ) (ss : List Step) where
  hear-Orderly : (xs : List Signal) (x : Trace) → Orderly n ss x → Orderly n ss (hear xs x)
  unfolding hear executions
  hear-Orderly [] x h = h
  hear-Orderly (y ∷ xs) x h = hear-Orderly xs x h

  write_then-Orderly :
      (o : Option String) (rec : ActionRecord) (x : Trace)
      → Orderly n ss x
      → Orderly n ss (write_then o rec x)
  unfolding write_then executions
  write_then-Orderly none rec x h = h
  write_then-Orderly (some e) rec x h = tt

stopped-Orderly : (n : ℕ) (ss : List Step) → Orderly n ss ([], finished)
unfolding executions
stopped-Orderly n ss = tt

module _ (w : StepWorld) (n : ℕ) (s : Step) (ss : List Step) (rest : Flags → Trace)
    (next : (f : Flags) → Orderly (n + 1) ss (rest f)) where
  after_execute-Orderly :
      (rec : ActionRecord) (f : Flags) (answer : Result String Detail)
      → Orderly (n + 1) ss (after_execute w rec f rest answer)
  unfolding after_execute
  after_execute-Orderly rec f (err e) =
      write_then-Orderly (n + 1) ss _ _ _ (stopped-Orderly (n + 1) ss)
  after_execute-Orderly rec f (ok d) =
      write_then-Orderly (n + 1) ss _ _ _
        (hear-Orderly (n + 1) ss w.succeeded_signals _ (next (deliver w.succeeded_signals f)))

  execute_step-Orderly :
      (rec : ActionRecord) (f : Flags) → Orderly n (s ∷ ss) (execute_step w n s rec f rest)
  unfolding execute_step executions
  execute_step-Orderly rec f = (
    refl,
    hear-Orderly (n + 1) ss w.execute_signals _
        (after_execute-Orderly rec (deliver w.execute_signals f) w.execution),
  )

  decide-Orderly :
      (b r : Bool) (rec : ActionRecord) (f : Flags)
      → Orderly n (s ∷ ss) (decide b r w n s rec f rest)
  unfolding decide
  decide-Orderly false r rec f = write_then-Orderly n (s ∷ ss) _ _ _ (stopped-Orderly n (s ∷ ss))
  decide-Orderly true true rec f = write_then-Orderly n (s ∷ ss) _ _ _ (stopped-Orderly n (s ∷ ss))
  decide-Orderly true false rec f = write_then-Orderly n (s ∷ ss) _ _ _ (
      hear-Orderly n (s ∷ ss) w.approved_signals _
        (execute_step-Orderly (approved_record f.actor rec) no_decision))

  await_decision-Orderly :
      (canceled : Option String) (rec : ActionRecord) (f : Flags)
      → Orderly n (s ∷ ss) (await_decision canceled w n s rec f rest)
  unfolding await_decision
  await_decision-Orderly (some x) rec f = unfold executions in tt
  await_decision-Orderly none rec f = decide-Orderly (f.approved || f.rejected) f.rejected rec f

  live_step-Orderly :
      (timeout : String) (m : Mode) (rec : ActionRecord) (f : Flags)
      → Orderly n (s ∷ ss) (live_step timeout m w n s rec f rest)
  unfolding live_step
  live_step-Orderly timeout approval rec f =
      let f' = deliver w.pending_signals f in
      write_then-Orderly n (s ∷ ss) _ _ _ (
        hear-Orderly n (s ∷ ss) w.pending_signals _ (
          hear-Orderly n (s ∷ ss) (waited w f') _
            (await_decision-Orderly w.wait_canceled _ (deliver (waited w f') f'))))
  live_step-Orderly timeout auto rec f = execute_step-Orderly rec f
  live_step-Orderly timeout (other_mode x) rec f = execute_step-Orderly rec f

  after_check-Orderly :
      (timeout : String) (live : Bool) (st : Status) (rec : ActionRecord) (f : Flags)
      → Orderly n (s ∷ ss) (after_check timeout live st w n s rec f rest)
  unfolding after_check
  after_check-Orderly timeout false st rec f =
      write_then-Orderly n (s ∷ ss) _ _ _ (stopped-Orderly n (s ∷ ss))
  after_check-Orderly timeout true st rec f = live_step-Orderly timeout s.mode rec f

  run_step-Orderly :
      (timeout : String) (answer : Result String Status) (rec : ActionRecord) (f : Flags)
      → Orderly n (s ∷ ss) (run_step timeout answer w n s rec f rest)
  unfolding run_step executions
  run_step-Orderly timeout (err x) rec f = tt
  run_step-Orderly timeout (ok st) rec f =
      hear-Orderly n (s ∷ ss) w.check_signals _
        (after_check-Orderly timeout (active st) st rec (deliver w.check_signals f))

module _ (action_id : String → ℕ → String) (incident_id runbook_id timeout : String)
    (world : ℕ → StepWorld) where
  run_steps-Orderly :
      (ss : List Step) (n : ℕ) (f : Flags)
      → Orderly n ss (run_steps action_id incident_id runbook_id timeout world ss n f)
  unfolding run_steps
  run_steps-Orderly [] n f = unfold executions in tt
  run_steps-Orderly (s ∷ ss) n f =
      run_step-Orderly (world n) n s ss
        (run_steps action_id incident_id runbook_id timeout world ss (n + 1))
        (run_steps-Orderly ss (n + 1)) timeout (world n).status _ f

-- In every run, the steps executed are the first ones of the runbook, each once and in its order,
-- under the numbers from 1 on.
pub remediate-in_order :
    (action_id : String → ℕ → String) (duration_text : Duration → String) (incident_id : String)
    (rb : Runbook) (world : ℕ → StepWorld)
    → Begins (executions (remediate action_id duration_text incident_id rb world).0) 1 rb.steps
unfolding remediate
remediate-in_order action_id duration_text incident_id rb world =
    run_steps-Orderly action_id incident_id rb.id (duration_text rb.approval_timeout) world rb.steps
      1 no_decision
