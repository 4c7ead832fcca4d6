-- ===== src/Scenarios/Paging.antt =====
-- Runs of internal/oncall and of internal/alerting/workflow.go under a policy of two levels.
use Prim.Native.String.{◌++◌ as append}
use sentinel_flow_project.Base.{
  ℕ, String, ◌+◌, ◌*◌, ◌%◌, ◌≡◌, refl, true, false, none, [], ◌∷◌, length, get_elem?, arith, All,
}
use sentinel_flow_project.Base.Results.{ok}
use sentinel_flow_project.Base.Int.{pos}
use sentinel_flow_project.Base.Text.{is_blank}
use sentinel_flow_project.Base.Time.{day}
use sentinel_flow_project.Incident.{status_open}
use sentinel_flow_project.Oncall.{
  Contact, Rotation, Level, EscalationPolicy, on_call_at, contacts_error, level_error, levels_error,
  policy_error,
}
use sentinel_flow_project.Oncall.Schedule.{Named, policy_error-Named, on_call_at-turns}
use sentinel_flow_project.Alerting.{acknowledge, Reason, IncidentRef, LevelWorld, alert, returned}
use sentinel_flow_project.Alerting.Quiet.{quiet, alert-quiet}
use sentinel_flow_project.Alerting.Escalation.{
  notices, Escalates, IsSilent, alert-Escalates, alert_exhausts,
}

abbrev ada : Contact
ada = record { name = "ada"; address = "" }

abbrev grace : Contact
grace = record { name = "grace"; address = "http://page/grace" }

abbrev monday : ℕ
monday = 740000 * day

abbrev weekly : Rotation
weekly = record { contacts = ada ∷ grace ∷ []; start = monday; shift = pos (7 * day) }

abbrev pub policy : EscalationPolicy
policy =
    record { target = "primary"; ack_timeout = pos 120; rotation = weekly }
    ∷ record {
      target = "lead";
      ack_timeout = pos 300;
      rotation = record { contacts = grace ∷ []; start = 0; shift = pos 0 };
    }
    ∷ []

policy_valid : policy_error policy ≡ none
unfolding policy_error levels_error level_error contacts_error is_blank
policy_valid = refl

policy_error-Named_example :
    All (λ (l : Level). Named (on_call_at l.rotation (monday + 8 * day))) policy
policy_error-Named_example = policy_error-Named policy (monday + 8 * day) policy_valid

on_call_at-turns_example :
    on_call_at weekly (monday + (7 * day * 3 + 2 * day)) ≡ get_elem? (ada ∷ grace ∷ []) (3 % 2)
on_call_at-turns_example =
    on_call_at-turns weekly (7 * day) 3 (2 * day) (omega arith) refl (omega arith) (omega arith)

abbrev incident : IncidentRef
incident = record {
  id = "i-1";
  tenant_id = "acme";
  service_name = "checkout";
  severity = "critical";
  title = "High error rate";
}

abbrev notification_id : String → ℕ → Reason → String
notification_id id n r = append id ":n"

-- Nobody answers.
abbrev silence : ℕ → LevelWorld
silence n = record {
  status = ok status_open;
  check_signals = [];
  now = monday + n;
  send_error = none;
  send_signals = [];
  wait_canceled = none;
  wait_signals = [];
}

-- Somebody acknowledges during each wait.
abbrev answered_world : ℕ → LevelWorld
answered_world n = record (silence n) { wait_signals = acknowledge ∷ [] }

silence-IsSilent : (k : ℕ) → IsSilent (silence k)
silence-IsSilent k = record {
  still_open = refl;
  check_silent = refl;
  delivered = refl;
  send_silent = refl;
  awaited = refl;
  wait_silent = refl;
}

alert-quiet_example :
    quiet false (alert notification_id incident policy answered_world none).0 ≡ true
alert-quiet_example = alert-quiet notification_id incident policy answered_world none

alert-Escalates_example :
    Escalates (notices (alert notification_id incident policy silence none).0) 1 policy
alert-Escalates_example = alert-Escalates notification_id incident policy silence none

alert_exhausts_example :
    let x = alert notification_id incident policy silence none in
    (length (notices x.0) ≡ 3) × (x.1 ≡ returned)
alert_exhausts_example =
    alert_exhausts notification_id incident policy silence policy_valid silence-IsSilent
