-- ===== src/Alerting.antt =====
-- internal/alerting/workflow.go: the workflow that pages for one incident, level by level.
pub mod Quiet
pub mod Escalation
pub mod Starter
use sentinel_flow_project.Base.{
  ℕ, ◌+◌, String, Bool, true, false, ◌||◌, Option, none, some, List, [], ◌∷◌, length, if◌then◌else◌,
}
use sentinel_flow_project.Base.Results.{Result, ok, err}
use sentinel_flow_project.Base.Time.{Time}
use sentinel_flow_project.Incident.{
  Status, status_open, status_acknowledged, status_resolved, unknown,
}
use sentinel_flow_project.Oncall.{Contact, Level, EscalationPolicy, on_call_at}

-- The two signals that stop an escalation.
pub data Signal : Type 0 where
  acknowledge resolve : Signal

pub record Flags : Type 0 where
  pub acked : Bool
  pub resolved : Bool

-- The two goroutines. Each receives one signal; a second would set a flag that is set.
unfoldable pub deliver : List Signal → Flags → Flags
deliver [] f = f
deliver (acknowledge ∷ xs) f = deliver xs (record f { acked = true })
deliver (resolve ∷ xs) f = deliver xs (record f { resolved = true })

-- The switch on the status that was read.
unfoldable pub observe : Status → Flags → Flags
observe status_resolved f = record f { resolved = true }
observe status_acknowledged f = record f { acked = true }
observe _ f = f

abbrev pub owned : Flags → Bool
owned f = f.acked || f.resolved

pub data Reason : Type 0 where
  escalation exhausted : Reason

-- SendNotificationArgs
pub record Notification : Type 0 where
  pub notification_id : String
  pub incident_id : String
  pub level : ℕ
  pub target : String
  pub contact : String
  pub contact_address : String
  pub title : String
  pub severity : String
  pub reason : Reason

-- IncidentRef
pub record IncidentRef : Type 0 where
  pub id : String
  pub tenant_id : String
  pub service_name : String
  pub severity : String
  pub title : String

-- What one level meets: the answers of the activities, workflow.Now, and the signals that are
-- delivered while the workflow is blocked in each of them.
pub record LevelWorld : Type 0 where
  pub status : Result String Status
  pub check_signals : List Signal
  pub now : Time
  pub send_error : Option String
  pub send_signals : List Signal
  pub wait_canceled : Option String
  pub wait_signals : List Signal

pub data Mark : Type 0 where
  heard : Signal → Mark
  checked : Status → Mark
  sent unsent : Notification → Mark

-- How the workflow ends: nil, an error, or a panic.
pub data End : Type 0 where
  returned panicked : End
  failed : String → End

abbrev pub Trace : Type 0
Trace = List Mark × End

abbrev pub before : Mark → Trace → Trace
before m (ms, e) = (m ∷ ms, e)

unfoldable pub hear : List Signal → Trace → Trace
hear [] x = x
hear (s ∷ xs) x = before (heard s) (hear xs x)

-- The activity SendNotification, and what follows it when it succeeds.
unfoldable pub send_then : Option String → Notification → Trace → Trace
send_then none n rest = before (sent n) rest
send_then (some x) n rest = (unsent n ∷ [], failed x)

-- `notification_id` is notificationID, the SHA-1 identifier; `world` has what each level meets, and
-- `last_error` the answer of the last activity.
module _ (notification_id : String → ℕ → Reason → String) (inc : IncidentRef)
    (world : ℕ → LevelWorld) (last_error : Option String) (levels : ℕ) where
  unfoldable pub exhausted_notice : Notification
  exhausted_notice = record {
    notification_id = notification_id inc.id levels exhausted;
    incident_id = inc.id;
    level = levels;
    target = "escalation exhausted";
    contact = "none";
    contact_address = "";
    title = inc.title;
    severity = inc.severity;
    reason = exhausted;
  }

  unfoldable pub page : ℕ → Level → Contact → Notification
  page n l c = record {
    notification_id = notification_id inc.id n escalation;
    incident_id = inc.id;
    level = n;
    target = l.target;
    contact = c.name;
    contact_address = c.address;
    title = inc.title;
    severity = inc.severity;
    reason = escalation;
  }

  -- After the loop.
  unfoldable pub finish : Bool → Trace
  unfolding send_then exhausted_notice
  finish true = ([], returned)
  finish false = send_then last_error exhausted_notice ([], returned)

  -- Leave the loop if the incident is owned, else go on to the next level.
  unfoldable pub leave_or : Flags → (Flags → Trace) → Bool → Trace
  unfolding finish
  leave_or f next true = finish true
  leave_or f next false = next f

  -- AwaitWithTimeout: it answers at once if the incident is owned, else after the signals of the wait.
  unfoldable pub waited : LevelWorld → Flags → List Signal
  waited w f = if owned f then [] else w.wait_signals

  unfoldable pub await_owner : Option String → LevelWorld → Flags → (Flags → Trace) → Trace
  unfolding hear deliver leave_or waited
  await_owner (some x) w f next = ([], failed x)
  await_owner none w f next =
      hear (waited w f) (leave_or (deliver (waited w f) f) next (owned (deliver (waited w f) f)))

  unfoldable pub page_contact :
      Option Contact → LevelWorld → ℕ → Level → Flags → (Flags → Trace) → Trace
  unfolding send_then hear deliver await_owner page
  page_contact none w n l f next = ([], panicked)
  page_contact (some c) w n l f next =
      send_then w.send_error (page n l c)
        (hear w.send_signals (await_owner w.wait_canceled w (deliver w.send_signals f) next))

  -- A level after its status was read.
  unfoldable pub page_level : Bool → LevelWorld → ℕ → Level → Flags → (Flags → Trace) → Trace
  unfolding finish page_contact on_call_at
  page_level true w n l f next = finish true
  page_level false w n l f next = page_contact (on_call_at l.rotation w.now) w n l f next

  unfoldable pub run_level :
      Result String Status → LevelWorld → ℕ → Level → Flags → (Flags → Trace) → Trace
  unfolding hear deliver observe page_level
  run_level (err x) w n l f next = ([], failed x)
  run_level (ok st) w n l f next =
      let f' = observe st (deliver w.check_signals f) in
      hear w.check_signals (before (checked st) (page_level (owned f') w n l f' next))

  -- The loop over the levels, from level n on.
  unfoldable pub run_levels : List Level → ℕ → Flags → Trace
  unfolding run_level finish
  run_levels [] n f = finish (owned f)
  run_levels (l ∷ ls) n f = run_level (world n).status (world n) n l f (run_levels ls (n + 1))

-- IncidentAlertWorkflow
unfoldable pub alert :
    (String → ℕ → Reason → String)
    → IncidentRef
    → EscalationPolicy
    → (ℕ → LevelWorld)
    → Option String
    → Trace
unfolding run_levels
alert notification_id inc policy world last_error =
    run_levels notification_id inc world last_error (length policy) policy 1
      (record { acked = false; resolved = false })
