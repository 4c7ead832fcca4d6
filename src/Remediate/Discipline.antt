-- ===== src/Remediate/Discipline.antt =====
-- What every run of internal/remediate/workflow.go keeps to.
use sentinel_flow_project.Base.{
  ℕ, ◌+◌, ◌-◌, ◌<◌, String, ◌≡◌, refl, Bool, true, false, not, ◌&&◌, ◌||◌, Option, none, some, List,
  [], ◌∷◌, arith, ltb, if◌then◌else◌,
}
use sentinel_flow_project.Base.Time.{Duration}
use sentinel_flow_project.Base.Results.{Result, ok, err}
use sentinel_flow_project.Incident.{Status, active}
use sentinel_flow_project.Runbook.{Mode, auto, approval, other_mode, Step, Runbook}
use sentinel_flow_project.Remediate.{
  Signal, approve, reject, Flags, no_decision, deliver, RecordStatus, rejected, timed_out, failed,
  skipped, Detail, ActionRecord, StepWorld, Mark, heard, checked, recorded, unrecorded, executed,
  finished, Trace, hear, write_then, after_execute, execute_step, approved_record, decide,
  await_decision, waited, live_step, after_check, run_step, run_steps, remediate,
}

abbrev pub is_gated : Mode → Bool
is_gated approval = true
is_gated _ = false

-- The outcomes after which the automation stands down.
abbrev pub halts : RecordStatus → Bool
halts skipped = true
halts rejected = true
halts timed_out = true
halts failed = true
halts _ = false

abbrev pub is_nil : List Mark → Bool
is_nil [] = true
is_nil (m ∷ ms) = false

-- The rules of the audit trail: `credit` approvals are unspent, and `live` says that the incident was
-- found active and no step was executed since. A step is executed only on a live incident, and a
-- gated one spends an approval; nothing follows an outcome that halts, or a failed write.
unfoldable pub disciplined : ℕ → Bool → List Mark → Bool
unfolding active
disciplined credit live [] = true
disciplined credit live (heard (approve who) ∷ ms) = disciplined (credit + 1) live ms
disciplined credit live (heard (reject who) ∷ ms) = disciplined credit live ms
disciplined credit live (checked n st ∷ ms) = disciplined credit (active st) ms
disciplined credit live (recorded r ∷ ms) =
    let rest = disciplined credit live ms in if halts r.status then is_nil ms else rest
disciplined credit live (unrecorded r ∷ ms) = is_nil ms
disciplined credit live (executed n s ∷ ms) =
    live
    && (not (is_gated s.mode) || ltb 0 credit)
    && disciplined (if is_gated s.mode then credit - 1 else credit) false ms

-- A decision to approve rests on an unspent approval.
abbrev Paid : ℕ → Flags → Type 0
Paid credit f = f.approved ≡ true → 0 < credit

-- What follows keeps the rules, from any credit that pays for the flags.
abbrev Continues : (Flags → Trace) → Type 0
Continues rest =
    (credit : ℕ) (live : Bool) (f : Flags)
    → Paid credit f
    → disciplined credit live (rest f).0 ≡ true

hear-disciplined :
    (xs : List Signal) (credit : ℕ) (live : Bool) (f : Flags) (x : Trace)
    → Paid credit f
    → ((c : ℕ) → Paid c (deliver xs f) → disciplined c live x.0 ≡ true)
    → disciplined credit live (hear xs x).0 ≡ true
unfolding hear deliver disciplined
hear-disciplined [] credit live f x p k = k credit p
hear-disciplined (approve who ∷ xs) credit live f x p k =
    hear-disciplined xs (credit + 1) live (record f { approved = true; actor = who }) x
      (λ h. omega arith) k
hear-disciplined (reject who ∷ xs) credit live f x p k =
    hear-disciplined xs credit live (record f { rejected = true; actor = who }) x p k

deliver-approved :
    (xs : List Signal) (f : Flags) → f.approved ≡ true → (deliver xs f).approved ≡ true
unfolding deliver
deliver-approved [] f h = h
deliver-approved (approve who ∷ xs) f h =
    deliver-approved xs (record f { approved = true; actor = who }) refl
deliver-approved (reject who ∷ xs) f h =
    deliver-approved xs (record f { rejected = true; actor = who }) h

write_then-disciplined :
    (o : Option String) (rec : ActionRecord) (rest : Trace) (credit : ℕ) (live : Bool)
    → halts rec.status ≡ false
    → disciplined credit live rest.0 ≡ true
    → disciplined credit live (write_then o rec rest).0 ≡ true
unfolding write_then disciplined
write_then-disciplined none rec rest credit live going h = rw going h
write_then-disciplined (some x) rec rest credit live going h = refl

write_then-halts :
    (o : Option String) (rec : ActionRecord) (credit : ℕ) (live : Bool)
    → halts rec.status ≡ true
    → disciplined credit live (write_then o rec ([], finished)).0 ≡ true
unfolding write_then disciplined
write_then-halts none rec credit live over = rw over refl
write_then-halts (some x) rec credit live over = refl

module _ (w : StepWorld) (n : ℕ) (s : Step) (rest : Flags → Trace) (next : Continues rest) where
  after_execute-disciplined :
      (rec : ActionRecord) (f : Flags) (credit : ℕ) (live : Bool) (answer : Result String Detail)
      → Paid credit f
      → disciplined credit live (after_execute w rec f rest answer).0 ≡ true
  unfolding after_execute
  after_execute-disciplined rec f credit live (err e) p = write_then-halts _ _ credit live refl
  after_execute-disciplined rec f credit live (ok d) p =
      write_then-disciplined _ _ _ credit live refl (
        hear-disciplined w.succeeded_signals credit live f _ p
          (λ c q. next c live (deliver w.succeeded_signals f) q))

  execute_step-disciplined :
      (rec : ActionRecord) (f : Flags) (credit : ℕ)
      → (is_gated s.mode ≡ true → 0 < credit)
      → Paid (if is_gated s.mode then credit - 1 else credit) f
      → disciplined credit true (execute_step w n s rec f rest).0 ≡ true
  unfolding execute_step disciplined
  execute_step-disciplined rec f credit gate p =
      let left = if is_gated s.mode then credit - 1 else credit in
      let h =
        hear-disciplined w.execute_signals left false f
          (after_execute w rec (deliver w.execute_signals f) rest w.execution) p
          (λ c q.
            after_execute-disciplined rec (deliver w.execute_signals f) c false w.execution q) in
      let free : (not (is_gated s.mode) || ltb 0 credit) ≡ true = ground (arith, gate) in
      rw (free, h) refl

  decide-disciplined :
      (b r : Bool) (rec : ActionRecord) (f : Flags) (credit : ℕ)
      → (b ≡ true → r ≡ false → 0 < credit)
      → disciplined credit true (decide b r w n s rec f rest).0 ≡ true
  unfolding decide
  decide-disciplined false r rec f credit p = write_then-halts _ _ credit true refl
  decide-disciplined true true rec f credit p = write_then-halts _ _ credit true refl
  decide-disciplined true false rec f credit p = write_then-disciplined _ _ _ credit true refl (
      hear-disciplined w.approved_signals credit true (record f { approved = true }) _
        (λ h. p refl refl)
        (λ c q.
          execute_step-disciplined (approved_record f.actor rec) no_decision c
            (λ h. q (deliver-approved w.approved_signals (record f { approved = true }) refl))
            (λ h. cc)))

  await_decision-disciplined :
      (canceled : Option String) (rec : ActionRecord) (f : Flags) (credit : ℕ)
      → Paid credit f
      → disciplined credit true (await_decision canceled w n s rec f rest).0 ≡ true
  unfolding await_decision
  await_decision-disciplined (some x) rec f credit p = unfold disciplined in refl
  await_decision-disciplined none rec f credit p =
      decide-disciplined (f.approved || f.rejected) f.rejected rec f credit
        (λ h g. p (ground arith))

  gated_step-disciplined :
      (timeout : String) (rec : ActionRecord) (f : Flags) (credit : ℕ)
      → Paid credit f
      → disciplined credit true (live_step timeout approval w n s rec f rest).0 ≡ true
  unfolding live_step
  gated_step-disciplined timeout rec f credit p =
      let f' = deliver w.pending_signals f in
      write_then-disciplined _ _ _ credit true refl (
        hear-disciplined w.pending_signals credit true f _ p (λ c q.
          hear-disciplined (waited w f') c true f' _ q
            (λ d r. await_decision-disciplined w.wait_canceled _ (deliver (waited w f') f') d r)))

  live_step-disciplined :
      (timeout : String) (m : Mode) (rec : ActionRecord) (f : Flags) (credit : ℕ)
      → s.mode ≡ m
      → Paid credit f
      → disciplined credit true (live_step timeout m w n s rec f rest).0 ≡ true
  unfolding live_step
  live_step-disciplined timeout approval rec f credit e p =
      gated_step-disciplined timeout rec f credit p
  live_step-disciplined timeout auto rec f credit e p =
      execute_step-disciplined rec f credit (rw e (λ h. cc)) (rw e p)
  live_step-disciplined timeout (other_mode x) rec f credit e p =
      execute_step-disciplined rec f credit (rw e (λ h. cc)) (rw e p)

  after_check-disciplined :
      (timeout : String) (live : Bool) (st : Status) (rec : ActionRecord) (f : Flags) (credit : ℕ)
      → Paid credit f
      → disciplined credit live (after_check timeout live st w n s rec f rest).0 ≡ true
  unfolding after_check
  after_check-disciplined timeout false st rec f credit p = write_then-halts _ _ credit false refl
  after_check-disciplined timeout true st rec f credit p =
      live_step-disciplined timeout s.mode rec f credit refl p

  run_step-disciplined :
      (timeout : String) (answer : Result String Status) (rec : ActionRecord) (f : Flags)
      (credit : ℕ) (live : Bool)
      → Paid credit f
      → disciplined credit live (run_step timeout answer w n s rec f rest).0 ≡ true
  unfolding run_step disciplined
  run_step-disciplined timeout (err x) rec f credit live p = refl
  run_step-disciplined timeout (ok st) rec f credit live p =
      hear-disciplined w.check_signals credit (active st) f _ p
        (λ c q. after_check-disciplined timeout (active st) st rec (deliver w.check_signals f) c q)

module _ (action_id : String → ℕ → String) (incident_id runbook_id timeout : String)
    (world : ℕ → StepWorld) where
  run_steps-disciplined :
      (ss : List Step) (n : ℕ)
      → Continues (run_steps action_id incident_id runbook_id timeout world ss n)
  unfolding run_steps
  run_steps-disciplined [] n credit live f p = unfold disciplined in refl
  run_steps-disciplined (s ∷ ss) n credit live f p =
      run_step-disciplined (world n) n s
        (run_steps action_id incident_id runbook_id timeout world ss (n + 1))
        (run_steps-disciplined ss (n + 1)) timeout (world n).status _ f credit live p

-- Whatever the activities answer and whatever signals arrive when: in every run of the workflow, each
-- executed step was preceded by a status check that found the incident active, with no execution in
-- between; at every moment the gated steps executed are at most the approvals heard; and nothing
-- follows the record of a rejection, a timeout, a failure or a skip, nor a record that could not be
-- written.
pub remediate-disciplined :
    (action_id : String → ℕ → String) (duration_text : Duration → String) (incident_id : String)
    (rb : Runbook) (world : ℕ → StepWorld)
    → disciplined 0 false (remediate action_id duration_text incident_id rb world).0 ≡ true
unfolding remediate
remediate-disciplined action_id duration_text incident_id rb world =
    run_steps-disciplined action_id incident_id rb.id (duration_text rb.approval_timeout) world
      rb.steps 1 0 false no_decision (λ h. cc)
