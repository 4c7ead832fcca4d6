-- ===== src/Remediate/Deaf.antt =====
-- The signals that internal/remediate/workflow.go hears and does not heed.
use sentinel_flow_project.Base.{
  ℕ, ◌+◌, String, ◌≡◌, refl, ap, Bool, true, false, ◌||◌, Option, none, some, List, [], ◌∷◌,
}
use sentinel_flow_project.Base.Time.{Duration}
use sentinel_flow_project.Base.Results.{Result, ok, err}
use sentinel_flow_project.Incident.{Status, active}
use sentinel_flow_project.Runbook.{Mode, auto, approval, other_mode, Step, Runbook}
use sentinel_flow_project.Remediate.{
  Signal, Flags, no_decision, deliver, Detail, ActionRecord, StepWorld, Mark, heard, checked,
  recorded, executed, Trace, hear, write_then, after_execute, execute_step, approved_record, decide,
  await_decision, waited, live_step, after_check, run_step, run_steps, remediate,
}

-- What the workflow itself did: its checks, records and executions.
unfoldable pub acts : List Mark → List Mark
acts [] = []
acts (heard x ∷ ms) = acts ms
acts (m ∷ ms) = m ∷ acts ms

-- The same world, but for the signals that arrive while the record of an approval is written.
unfoldable pub deafened : StepWorld → StepWorld
deafened w = record w { approved_signals = [] }

abbrev Same : Trace → Trace → Type 0
Same x y = (acts x.0 ≡ acts y.0)

acts-hear : (xs : List Signal) (x : Trace) → acts (hear xs x).0 ≡ acts x.0
unfolding hear acts
acts-hear [] x = refl
acts-hear (y ∷ xs) x = acts-hear xs x

hear-Same : (xs ys : List Signal) (x y : Trace) → Same x y → Same (hear xs x) (hear ys y)
hear-Same xs ys x y h = rw (acts-hear xs x, acts-hear ys y) h

write_then-Same :
    (o : Option String) (rec : ActionRecord) (x y : Trace)
    → Same x y
    → Same (write_then o rec x) (write_then o rec y)
unfolding write_then acts
write_then-Same none rec x y h = ap (◌∷◌ (recorded rec)) h
write_then-Same (some e) rec x y h = refl

module _ (w : StepWorld) (n : ℕ) (s : Step) (rest rest' : Flags → Trace)
    (next : (f : Flags) → Same (rest f) (rest' f)) where
  after_execute-Same :
      (rec : ActionRecord) (f : Flags) (answer : Result String Detail)
      → Same (after_execute w rec f rest answer) (after_execute (deafened w) rec f rest' answer)
  unfolding after_execute deafened
  after_execute-Same rec f (err e) = refl
  after_execute-Same rec f (ok d) =
      write_then-Same _ _ _ _ (
        hear-Same w.succeeded_signals w.succeeded_signals _ _
          (next (deliver w.succeeded_signals f)))

  execute_step-Same :
      (rec : ActionRecord) (f : Flags)
      → Same (execute_step w n s rec f rest) (execute_step (deafened w) n s rec f rest')
  unfolding execute_step acts deafened
  execute_step-Same rec f = ap (◌∷◌ (executed n s)) (
      hear-Same w.execute_signals w.execute_signals _ _
        (after_execute-Same rec (deliver w.execute_signals f) w.execution))

  decide-Same :
      (b r : Bool) (rec : ActionRecord) (f : Flags)
      → Same (decide b r w n s rec f rest) (decide b r (deafened w) n s rec f rest')
  unfolding decide deafened
  decide-Same false r rec f = refl
  decide-Same true true rec f = refl
  decide-Same true false rec f = write_then-Same _ _ _ _ (
      hear-Same w.approved_signals []
        (execute_step w n s (approved_record f.actor rec) no_decision rest)
        (execute_step (deafened w) n s (approved_record f.actor rec) no_decision rest')
        (execute_step-Same (approved_record f.actor rec) no_decision))

  await_decision-Same :
      (canceled : Option String) (rec : ActionRecord) (f : Flags)
      → Same
          (await_decision canceled w n s rec f rest)
          (await_decision canceled (deafened w) n s rec f rest')
  unfolding await_decision
  await_decision-Same (some x) rec f = refl
  await_decision-Same none rec f = decide-Same (f.approved || f.rejected) f.rejected rec f

  live_step-Same :
      (timeout : String) (m : Mode) (rec : ActionRecord) (f : Flags)
      → Same
          (live_step timeout m w n s rec f rest)
          (live_step timeout m (deafened w) n s rec f rest')
  unfolding live_step deafened waited
  live_step-Same timeout approval rec f =
      let f' = deliver w.pending_signals f in
      write_then-Same _ _ _ _ (
        hear-Same w.pending_signals w.pending_signals _ _ (
          hear-Same (waited w f') (waited w f') _ _
            (await_decision-Same w.wait_canceled _ (deliver (waited w f') f'))))
  live_step-Same timeout auto rec f = execute_step-Same rec f
  live_step-Same timeout (other_mode x) rec f = execute_step-Same rec f

  after_check-Same :
      (timeout : String) (live : Bool) (st : Status) (rec : ActionRecord) (f : Flags)
      → Same
          (after_check timeout live st w n s rec f rest)
          (after_check timeout live st (deafened w) n s rec f rest')
  unfolding after_check
  after_check-Same timeout false st rec f = unfold deafened in refl
  after_check-Same timeout true st rec f = live_step-Same timeout s.mode rec f

  run_step-Same :
      (timeout : String) (answer : Result String Status) (rec : ActionRecord) (f : Flags)
      → Same
          (run_step timeout answer w n s rec f rest)
          (run_step timeout answer (deafened w) n s rec f rest')
  unfolding run_step acts deafened
  run_step-Same timeout (err x) rec f = refl
  run_step-Same timeout (ok st) rec f = ap (◌∷◌ (checked n st)) (
      hear-Same w.check_signals w.check_signals _ _
        (after_check-Same timeout (active st) st rec (deliver w.check_signals f)))

module _ (action_id : String → ℕ → String) (incident_id runbook_id timeout : String)
    (world : ℕ → StepWorld) where
  run_steps-Same :
      (ss : List Step) (n : ℕ) (f : Flags)
      → Same
          (run_steps action_id incident_id runbook_id timeout world ss n f)
          (run_steps action_id incident_id runbook_id timeout (λ k. deafened (world k)) ss n f)
  unfolding run_steps deafened
  run_steps-Same [] n f = refl
  run_steps-Same (s ∷ ss) n f =
      run_step-Same (world n) n s _ _ (run_steps-Same ss (n + 1)) timeout (world n).status _ f

-- The signals that arrive while the record of an approval is written, a rejection among them, change
-- nothing: the workflow makes the same checks, records and executions as if they had not been sent.
pub remediate-deaf :
    (action_id : String → ℕ → String) (duration_text : Duration → String) (incident_id : String)
    (rb : Runbook) (world : ℕ → StepWorld)
    → acts (remediate action_id duration_text incident_id rb world).0
      ≡ acts (remediate action_id duration_text incident_id rb (λ n. deafened (world n))).0
unfolding remediate
remediate-deaf action_id duration_text incident_id rb world =
    run_steps-Same action_id incident_id rb.id (duration_text rb.approval_timeout) world rb.steps 1
      no_decision
