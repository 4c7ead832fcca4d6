-- ===== src/Scenarios/Remediation.antt =====
-- A run of internal/remediate/workflow.go: an operator approves, and rejects at once.
use Prim.Native.String.{◌++◌ as append}
use sentinel_flow_project.Base.{ℕ, String, ◌≡◌, refl, true, false, none, [], ◌∷◌}
use sentinel_flow_project.Base.Results.{ok}
use sentinel_flow_project.Base.Int.{pos}
use sentinel_flow_project.Base.Time.{Duration}
use sentinel_flow_project.Incident.{active, status_open}
use sentinel_flow_project.Runbook.{webhook, Mode, auto, approval, Step, Runbook}
use sentinel_flow_project.Remediate.{
  approve, reject, StepWorld, remediate, hear, deliver, write_then, after_execute, execute_step,
  decide, await_decision, waited, live_step, after_check, run_step, new_record, run_steps,
}
use sentinel_flow_project.Remediate.Discipline.{disciplined, remediate-disciplined}
use sentinel_flow_project.Remediate.Order.{executions, Begins, remediate-in_order}
use sentinel_flow_project.Remediate.Deaf.{acts, deafened, remediate-deaf}

abbrev step : String → Mode → Step
step name m = record { name = name; kind = webhook; mode = m; target = "http://ops"; params = [] }

abbrev restart : Runbook
restart = record {
  id = "rb-1";
  name = "Restart";
  matcher = record { rule_id = "error-rate"; service_name = ""; severity = "" };
  steps = step "diagnose" auto ∷ step "drain" approval ∷ step "restart" auto ∷ [];
  approval_timeout = pos 600;
}

-- Ada approves while the workflow waits, and rejects while the approval is being recorded.
abbrev world : ℕ → StepWorld
world n = record {
  status = ok status_open;
  check_signals = [];
  write = λ s. none;
  pending_signals = [];
  wait_signals = approve "ada" ∷ [];
  wait_canceled = none;
  approved_signals = reject "ada" ∷ [];
  execution = ok [];
  execute_signals = [];
  succeeded_signals = [];
}

abbrev action_id : String → ℕ → String
action_id incident n = append incident ":n"

abbrev duration_text : Duration → String
duration_text d = "10m0s"

-- All three steps are executed all the same.
three_executed :
    executions (remediate action_id duration_text "i-1" restart world).0
    ≡ (1, step "diagnose" auto) ∷ (2, step "drain" approval) ∷ (3, step "restart" auto) ∷ []
unfolding executions remediate run_steps run_step after_check live_step waited await_decision decide
    execute_step after_execute write_then hear deliver new_record active
three_executed = refl

remediate-disciplined_example :
    disciplined 0 false (remediate action_id duration_text "i-1" restart world).0 ≡ true
remediate-disciplined_example = remediate-disciplined action_id duration_text "i-1" restart world

remediate-in_order_example :
    Begins (executions (remediate action_id duration_text "i-1" restart world).0) 1 (restart.steps)
remediate-in_order_example = remediate-in_order action_id duration_text "i-1" restart world

remediate-deaf_example :
    acts (remediate action_id duration_text "i-1" restart world).0
    ≡ acts (remediate action_id duration_text "i-1" restart (λ n. deafened (world n))).0
remediate-deaf_example = remediate-deaf action_id duration_text "i-1" restart world
