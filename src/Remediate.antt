-- ===== src/Remediate.antt =====
-- internal/remediate/workflow.go: the workflow that runs a runbook against one incident.
pub mod Discipline
pub mod Order
pub mod Deaf
pub mod Starter
use sentinel_flow_project.Base.{
  ℕ, ◌+◌, String, Bool, true, false, ◌||◌, Option, none, some, List, [], ◌∷◌, ◌++◌, map,
  if◌then◌else◌,
}
use sentinel_flow_project.Base.Time.{Duration}
use sentinel_flow_project.Base.Results.{Result, ok, err}
use sentinel_flow_project.Incident.{Status, status_text, active}
use sentinel_flow_project.Runbook.{ActionKind, Mode, approval, Step, Runbook}

-- The signals of a human, with the actor of their Decision.
pub data Signal : Type 0 where
  approve reject : String → Signal

pub record Flags : Type 0 where
  pub approved : Bool
  pub rejected : Bool
  pub actor : String

abbrev pub no_decision : Flags
no_decision = record { approved = false; rejected = false; actor = "" }

-- The two goroutines, over the signals in the order in which they receive them.
unfoldable pub deliver : List Signal → Flags → Flags
deliver [] f = f
deliver (approve who ∷ xs) f = deliver xs (record f { approved = true; actor = who })
deliver (reject who ∷ xs) f = deliver xs (record f { rejected = true; actor = who })

pub data RecordStatus : Type 0 where
  unset pending approved rejected timed_out succeeded failed skipped : RecordStatus

abbrev pub Detail : Type 0
Detail = List (String × String)

pub record ActionRecord : Type 0 where
  pub id : String
  pub incident_id : String
  pub runbook_id : String
  pub step_index : ℕ
  pub step_name : String
  pub action_kind : ActionKind
  pub mode : Mode
  pub status : RecordStatus
  pub actor : String
  pub detail : Detail

-- What one step meets: the answers of the activities, and the signals that are delivered while the
-- workflow is blocked in each of them. A write of the audit trail may answer an error.
pub record StepWorld : Type 0 where
  pub status : Result String Status
  pub check_signals : List Signal
  pub write : RecordStatus → Option String
  pub pending_signals : List Signal
  pub wait_signals : List Signal
  pub wait_canceled : Option String
  pub approved_signals : List Signal
  pub execution : Result String Detail
  pub execute_signals : List Signal
  pub succeeded_signals : List Signal

-- What happens in a run, in order.
pub data Mark : Type 0 where
  heard : Signal → Mark
  checked : ℕ → Status → Mark
  recorded unrecorded : ActionRecord → Mark
  executed : ℕ → Step → Mark

-- How the workflow returns: nil, or an error.
pub data End : Type 0 where
  finished : End
  workflow_error : String → End

abbrev pub Trace : Type 0
Trace = List Mark × End

abbrev pub before : Mark → Trace → Trace
before m (ms, e) = (m ∷ ms, e)

unfoldable pub hear : List Signal → Trace → Trace
hear [] x = x
hear (s ∷ xs) x = before (heard s) (hear xs x)

-- record(rec), and what follows it when it succeeds.
unfoldable pub write_then : Option String → ActionRecord → Trace → Trace
write_then none rec rest = before (recorded rec) rest
write_then (some x) rec rest = (unrecorded rec ∷ [], workflow_error x)

-- After the execution: halt on an error, else record it and go on.
unfoldable pub after_execute :
    StepWorld → ActionRecord → Flags → (Flags → Trace) → Result String Detail → Trace
unfolding write_then hear deliver
after_execute w rec f rest (err e) =
    write_then (w.write failed) (record rec { status = failed; detail = ("error", e) ∷ [] })
      ([], finished)
after_execute w rec f rest (ok d) =
    write_then (w.write succeeded) (record rec { status = succeeded; detail = d })
      (hear w.succeeded_signals (rest (deliver w.succeeded_signals f)))

unfoldable pub execute_step : StepWorld → ℕ → Step → ActionRecord → Flags → (Flags → Trace) → Trace
unfolding hear deliver after_execute
execute_step w n s rec f rest =
    before (executed n s)
      (hear w.execute_signals (after_execute w rec (deliver w.execute_signals f) rest w.execution))

-- The record of a step once an actor has approved it.
abbrev pub approved_record : String → ActionRecord → ActionRecord
approved_record who rec = record rec {
  status = approved;
  actor = who;
  detail = ("approved_by", who) ∷ [];
}

-- The switch after AwaitWithTimeout, by its two flags: decided at all, and rejected.
unfoldable pub decide :
    Bool → Bool → StepWorld → ℕ → Step → ActionRecord → Flags → (Flags → Trace) → Trace
unfolding write_then hear execute_step
decide false r w n s rec f rest =
    write_then (w.write timed_out)
      (record rec {
        status = timed_out;
        detail = ("reason", "nobody approved within the timeout") ∷ [];
      })
      ([], finished)
decide true true w n s rec f rest =
    write_then (w.write rejected)
      (record rec {
        status = rejected;
        actor = f.actor;
        detail = ("reason", "rejected by an operator") ∷ [];
      })
      ([], finished)
decide true false w n s rec f rest =
    write_then (w.write approved) (approved_record f.actor rec)
      (hear w.approved_signals (execute_step w n s (approved_record f.actor rec) no_decision rest))

-- AwaitWithTimeout: it answers at once if a decision is there, else after the signals of the wait.
unfoldable pub await_decision :
    Option String → StepWorld → ℕ → Step → ActionRecord → Flags → (Flags → Trace) → Trace
unfolding decide
await_decision (some x) w n s rec f rest = ([], workflow_error x)
await_decision none w n s rec f rest = decide (f.approved || f.rejected) f.rejected w n s rec f rest

-- The signals that the wait hears.
unfoldable pub waited : StepWorld → Flags → List Signal
waited w f = if f.approved || f.rejected then [] else w.wait_signals

-- One step of a live incident. `timeout` is the text of the runbook's ApprovalTimeout.
unfoldable pub live_step :
    String → Mode → StepWorld → ℕ → Step → ActionRecord → Flags → (Flags → Trace) → Trace
unfolding write_then hear deliver waited await_decision execute_step
live_step timeout approval w n s rec f rest =
    let f' = deliver w.pending_signals f in
    let rec' = record rec {
      status = pending;
      detail = ("awaiting", "approval") ∷ ("timeout", timeout) ∷ [];
    } in
    write_then (w.write pending) rec' (
      hear w.pending_signals (
        hear (waited w f')
          (await_decision w.wait_canceled w n s rec' (deliver (waited w f') f') rest)))
live_step timeout _ w n s rec f rest = execute_step w n s rec f rest

-- The step after its status check: halt if the incident is no longer active.
unfoldable pub after_check :
    String → Bool → Status → StepWorld → ℕ → Step → ActionRecord → Flags → (Flags → Trace) → Trace
unfolding write_then live_step status_text
after_check timeout false st w n s rec f rest =
    write_then (w.write skipped)
      (record rec {
        status = skipped;
        detail =
            ("reason", "incident is no longer active") ∷ ("incident_status", status_text st) ∷ [];
      })
      ([], finished)
after_check timeout true st w n s rec f rest = live_step timeout s.mode w n s rec f rest

unfoldable pub run_step :
    String
    → Result String Status
    → StepWorld
    → ℕ
    → Step
    → ActionRecord
    → Flags
    → (Flags → Trace)
    → Trace
unfolding active hear deliver after_check
run_step timeout (err x) w n s rec f rest = ([], workflow_error x)
run_step timeout (ok st) w n s rec f rest = before (checked n st) (
    hear w.check_signals
      (after_check timeout (active st) st w n s rec (deliver w.check_signals f) rest))

-- The loop for one incident and runbook. `action_id` is actionID, the
-- SHA-1 identifier of a step.
module _ (action_id : String → ℕ → String) (incident_id : String) (runbook_id timeout : String)
    (world : ℕ → StepWorld) where
  unfoldable pub new_record : ℕ → Step → ActionRecord
  new_record n s = record {
    id = action_id incident_id n;
    incident_id = incident_id;
    runbook_id = runbook_id;
    step_index = n;
    step_name = s.name;
    action_kind = s.kind;
    mode = s.mode;
    status = unset;
    actor = "";
    detail = [];
  }

  -- The loop over the steps, from step n on.
  unfoldable pub run_steps : List Step → ℕ → Flags → Trace
  unfolding run_step new_record
  run_steps [] n f = ([], finished)
  run_steps (s ∷ ss) n f =
      run_step timeout (world n).status (world n) n s (new_record n s) f (run_steps ss (n + 1))

-- IncidentRemediationWorkflow
unfoldable pub remediate :
    (String → ℕ → String) → (Duration → String) → String → Runbook → (ℕ → StepWorld) → Trace
unfolding run_steps
remediate action_id duration_text incident_id rb world =
    run_steps action_id incident_id rb.id (duration_text rb.approval_timeout) world rb.steps 1
      no_decision
