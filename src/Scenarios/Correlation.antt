-- ===== src/Scenarios/Correlation.antt =====
-- Runs of internal/correlate/evaluator.go: two cycles over one rule.
use sentinel_flow_project.Base.{
  ◌++◌, ◌-◌, arith, All, str_eq, true, ℕ, String, ◌+◌, ◌*◌, ◌≡◌, refl, ◌⊎◌, Option, none, some,
  List, [], ◌∷◌, ltb, leb, if◌then◌else◌,
}
use sentinel_flow_project.Base.Text.{is_blank}
use sentinel_flow_project.Base.Time.{zero_time}
use sentinel_flow_project.Severity.{
  Severity, error, info, critical, severity_text, supported_severities,
}
use sentinel_flow_project.Incident.{
  fingerprint, Details, is_valid, find_severity, supported_severity, problems_of, validate,
}
use sentinel_flow_project.Store.Database.{up}
use sentinel_flow_project.Store.Events.{EventRow, EventTable}
use sentinel_flow_project.Store.Incidents.{upsert_open}
use sentinel_flow_project.Correlate.Rule.{Floats, error_rate, Rule, evaluate}
use sentinel_flow_project.Correlate.Evaluator.{
  count_since, Evaluator, Cycle, CycleError, by_window_from, visit_group, detect, after_detect,
  evaluate_once, each,
}
use sentinel_flow_project.Correlate.Shares.{key_of}
use sentinel_flow_project.Correlate.Gains.{all_events, IsActive}
use sentinel_flow_project.Correlate.Errors.{errors_from, errors_between}
use sentinel_flow_project.Correlate.Tallies.{rule_fingerprint, fires_on}
use sentinel_flow_project.Correlate.Counting.{evaluate_once-accounting}
use sentinel_flow_project.Scenarios.Incidents.{open_row}
use sentinel_flow_project.Store.Incidents.{Table, has_fingerprint, exists_row}
use sentinel_flow_project.Correlate.Accounting.{evaluate_once-remembers}

-- Rates in whole percents.
abbrev percents : Floats ℕ
percents = record {
  of_int64 = λ n. n * 100;
  divide = λ a b. if leb (b * 50) (a * 100) then 50 else 0;
  less = ltb;
  percent = λ n. "50";
  float_text = λ n. "0.5";
  decimal = λ n. if ltb n 10 then "few" else "many";
  duration_text = λ n. "5m0s";
}

abbrev rule : Rule ℕ
rule = record {
  id = "error-rate";
  name = "High error rate";
  kind = error_rate;
  window = 300;
  threshold = 50;
  min_events = 2;
  incident_severity = critical;
}

abbrev evaluator : Evaluator ℕ
evaluator = record { rules = rule ∷ []; resolve_after = 600; last_cycle_at = zero_time }

-- An event of a severity, so many seconds after the clock's start.
abbrev event_at : Severity → ℕ → EventRow
event_at s t = record {
  event = record {
    event_id = "e";
    schema_version = "1.0";
    tenant_id = "acme";
    service_name = "checkout";
    environment = "prod";
    event_type = "request";
    severity = s;
    timestamp = zero_time + t;
    trace_id = "";
    attributes = some [];
  };
  received_at = zero_time + t;
}

-- An error of another service.
abbrev other_event : EventRow
other_event =
    let r = event_at error 910 in record r { event = record (r.event) { service_name = "search" } }

-- Two errors in the window of the first cycle, one of them dated after its start.
abbrev rows : EventTable
rows = event_at error 900 ∷ other_event ∷ event_at info 950 ∷ event_at critical 1010 ∷ []

-- A late error and a timely one.
abbrev arrivals : EventTable
arrivals = event_at error 990 ∷ event_at error 1005 ∷ []

-- A cycle at a time, over these rows.
abbrev cycle : ℕ → EventTable → Cycle
cycle at t = record {
  start = zero_time + at;
  snapshot = λ w. some t;
  visit = λ n. record { now = zero_time + at; new_id = "i-1"; db_now = zero_time + at; link = up };
  resolve_now = zero_time + at;
  resolve_db_now = zero_time + at;
  resolve_link = up;
}

abbrev marshal : Details → Option String
marshal d = some "{}"

abbrev in_order : List (ℕ × List (Rule ℕ)) → List (ℕ × List (Rule ℕ))
in_order gs = gs

first_succeeds :
    (evaluate_once percents marshal in_order (cycle 1000 rows) evaluator []).failure ≡ none
unfolding evaluate_once detect after_detect by_window_from visit_group each evaluate upsert_open
    validate problems_of is_blank is_valid supported_severity find_severity supported_severities
    severity_text
first_succeeds = refl

evaluate_once-remembers_example :
    ((evaluate_once percents marshal in_order (cycle 1000 rows) evaluator []).failure ≡ none
      × (evaluate_once percents marshal in_order (cycle 1000 rows) evaluator []).evaluator
        ≡ record evaluator { last_cycle_at = zero_time + 1000 })
    ⊎ ((x : CycleError) × ((evaluate_once percents marshal in_order
              (cycle 1000 rows)
              evaluator
              []).failure
            ≡ some x
          × (evaluate_once percents marshal in_order (cycle 1000 rows) evaluator []).evaluator
            ≡ evaluator))
evaluate_once-remembers_example =
    evaluate_once-remembers percents marshal in_order (cycle 1000 rows) evaluator []

-- The unresolved incident that both cycles meet.
abbrev met : Table
met =
    record open_row {
      fingerprint = fingerprint "error-rate" "acme" "checkout";
      last_seen_at = zero_time + 800;
    }
    ∷ []

abbrev first : Cycle
first = cycle 1000 rows

abbrev second : Cycle
second = cycle 1030 (rows ++ arrivals)

steps : Unit {0}
unfolding evaluate_once detect after_detect by_window_from visit_group each evaluate upsert_open
    validate problems_of is_blank is_valid supported_severity find_severity supported_severities
    severity_text fires_on fingerprint
steps = tt

met-IsActive : IsActive (rule_fingerprint percents rule ("acme", "checkout")) met
unfolding has_fingerprint exists_row fingerprint
met-IsActive = refl

no_failure_in_first : (evaluate_once percents marshal in_order first evaluator met).failure ≡ none
unfolding steps
no_failure_in_first = refl

no_failure_in_second :
    (evaluate_once percents marshal in_order second
      (evaluate_once percents marshal in_order first evaluator met).evaluator
      met).failure
    ≡ none
unfolding steps
no_failure_in_second = refl

fires_first :
    fires_on percents rule
      (zero_time + 1000 - 300)
      (count_since zero_time (zero_time + 1000 - 300))
      rows
      ("acme", "checkout")
    ≡ true
unfolding steps
fires_first = refl

fires_second :
    fires_on percents rule
      (zero_time + 1030 - 300)
      (zero_time + 1000)
      (rows ++ arrivals)
      ("acme", "checkout")
    ≡ true
unfolding steps
fires_second = refl

alone :
    All
      (λ x.
        str_eq
            (rule_fingerprint percents rule (key_of x))
            (rule_fingerprint percents rule ("acme", "checkout"))
          ≡ true
        → key_of x ≡ ("acme", "checkout"))
      (rows ++ arrivals)
unfolding fingerprint
alone = (λ h. refl, (λ h. cc, (λ h. refl, (λ h. refl, (λ h. refl, (λ h. refl, tt))))))

alone_first :
    All
      (λ x.
        str_eq
            (rule_fingerprint percents rule (key_of x))
            (rule_fingerprint percents rule ("acme", "checkout"))
          ≡ true
        → key_of x ≡ ("acme", "checkout"))
      rows
alone_first = (alone.0, (alone.1.0, (alone.1.1.0, (alone.1.1.1.0, tt))))

evaluate_once-accounting_example :
    let one = evaluate_once percents marshal in_order first evaluator met in
    let two = evaluate_once percents marshal in_order second one.evaluator met in
    let bound = count_since zero_time (zero_time + 1000 - 300) in
    let fp = rule_fingerprint percents rule ("acme", "checkout") in
    all_events fp one.incidents
      + all_events fp two.incidents
      + errors_between ("acme", "checkout") bound (zero_time + 1000) arrivals
    ≡ all_events fp met
      + all_events fp met
      + errors_from ("acme", "checkout") bound (rows ++ arrivals)
      + errors_from ("acme", "checkout") (zero_time + 1000) rows
evaluate_once-accounting_example =
    evaluate_once-accounting percents rule marshal in_order first second 600 zero_time met met rows
      arrivals ("acme", "checkout") refl refl refl (omega arith) (omega arith) (omega arith)
      alone_first alone met-IsActive met-IsActive no_failure_in_first no_failure_in_second
      fires_first fires_second

-- The first cycle adds the two errors that it reads of the group.
counted :
    all_events
      (fingerprint "error-rate" "acme" "checkout")
      (evaluate_once percents marshal in_order first evaluator met).incidents
    ≡ 9
unfolding steps all_events
counted = refl
