-- ===== src/Scenarios/Processing.antt =====
-- Runs of internal/engine on a few messages.
use Prim.Native.Char.{Char}
use sentinel_flow_project.Base.{
  String, ◌+◌, ◌*◌, ◌^◌, ◌≤◌, ◌<◌, min, ◌≡◌, ◌≢◌, refl, inl, inr, true, false, none, some, List, [],
  ◌∷◌, arith, str_eq, ◌==◌, if◌then◌else◌,
}
use sentinel_flow_project.Base.Int.{pos}
use sentinel_flow_project.Base.Text.{is_space, trim_space}
use sentinel_flow_project.Base.Time.{Time, second, day, sub_time, is_zero}
use sentinel_flow_project.Severity.{critical, is_supported, severity_text}
use sentinel_flow_project.Event.{
  Event, normalize, event_id_errors, schema_version_errors, append_string_errors, max_len_errors,
  severity_errors, timestamp_errors, structural_errors, to_lower, severity_of,
}
use sentinel_flow_project.Event.Freshness.{
  future_errors, age_errors, check, future_only, validate_within,
}
use sentinel_flow_project.Store.Events.{
  DriverError, network, server, any_code, is_retryable, EventRow, EventTable, same_key, Attempt,
  answered, lost, refused, canceled,
}
use sentinel_flow_project.Engine.{
  stored, float64, delay_base, delay_cap, delay, Surroundings, permanent, Message, Processor,
  accepted_event, received_time, process,
}
use sentinel_flow_project.Engine.Retry.{delay_bounds}
use sentinel_flow_project.Engine.Durable.{holds, Processed, process-Processed}
use sentinel_flow_project.Engine.Recovery.{
  Recovers, answers, fails, process-Recovers, process_redelivered,
}
use sentinel_flow_project.Engine.Runner.{
  Delivery, commit_failed, Poll, polled, process_error, Consumer, run,
}
use sentinel_flow_project.Engine.Runner.Commits.{
  IsConsistent, run-IsConsistent, permanent_failure_stops,
}
use sentinel_flow_project.Store.Events as Events

abbrev noon : Time
noon = 740000 * day

-- A normalised event, as decoded from a value that is an identifier.
abbrev event_of : String → Event
event_of id = record {
  event_id = id;
  schema_version = "1.0";
  tenant_id = "acme";
  service_name = "checkout";
  environment = "prod";
  event_type = "request";
  severity = critical;
  timestamp = noon;
  trace_id = "";
  attributes = some [];
}

-- The default policy: five attempts, from 100 ms up to 5 s; five minutes ahead.
abbrev processor : Processor
processor = record {
  retry = record { max_attempts = 5; base_delay = pos 100000000; max_delay = pos 5000000000 };
  bounds = record { max_future = pos (300 * second); max_age = pos 0 };
  decode = λ s. if str_eq s "not json" then none else some (event_of s);
  is_uuid = λ s. if str_eq s "" then false else true;
  lower = λ (c : Char). c;
}

abbrev message : Message
message = record { value = "e-1"; timestamp = noon }

-- The first insert runs but its answer is lost, the second does not run, the third is answered.
abbrev flaky : Surroundings
flaky = record {
  attempt =
      λ k. if k == 1 then lost network else if k == 2 then refused (server "57P01") else answered;
  sleep = λ k d. none;
}

-- The database refuses every insert for a reason that no retry mends.
abbrev broken : Surroundings
broken = record { attempt = λ k. refused (server "42P01"); sleep = λ k d. none }

methods : Unit {0}
unfolding sub_time is_zero is_supported severity_text event_id_errors schema_version_errors
    append_string_errors max_len_errors severity_errors timestamp_errors structural_errors
    future_errors age_errors check future_only validate_within is_space to_lower trim_space
    severity_of normalize accepted_event any_code is_retryable
methods = tt

accepted : accepted_event processor (noon + second) message ≡ some (event_of "e-1")
unfolding methods
accepted = refl

flaky-Recovers : Recovers processor.retry flaky 4 1
unfolding methods
flaky-Recovers =
    fails network (inl refl) refl refl (fails (server "57P01") (inr refl) refl refl (answers refl))

-- The first number that float64 does not have, and one that lies between two of its numbers.
rounded_base : float64 (2 ^ 53 + 1) ≡ 2 ^ 53
unfolding float64
rounded_base = refl

rounded_up : float64 (2 ^ 54 + 3) ≡ 2 ^ 54 + 4
unfolding float64
rounded_up = refl

delay_bounds_example :
    (delay processor.retry 3
      ≡ min (delay_cap processor.retry) (delay_base processor.retry * 2 ^ min 2 20))
    × (0 < delay processor.retry 3)
    × (delay processor.retry 3 ≤ delay processor.retry 9)
    × (delay processor.retry 9 ≤ delay_cap processor.retry)
delay_bounds_example = delay_bounds processor.retry 2 8 (omega arith) (omega arith) (omega arith)

process-Processed_example :
    Processed
      (accepted_event processor (noon + second) message)
      (received_time (noon + second) message)
      []
      (process processor flaky (noon + second) message [])
process-Processed_example = process-Processed processor flaky (noon + second) message []

process-Recovers_example :
    ((process processor flaky (noon + second) message []).2 ≡ none)
    × (holds (event_of "e-1") (process processor flaky (noon + second) message []).0 ≡ true)
process-Recovers_example =
    process-Recovers processor flaky (noon + second) message [] (event_of "e-1") accepted
      flaky-Recovers

abbrev one_row : EventTable
one_row = record { event = event_of "e-1"; received_at = noon } ∷ []

one_row_holds : holds (event_of "e-1") one_row ≡ true
unfolding Events.stored same_key
one_row_holds = refl

process_redelivered_example :
    ((process processor flaky (noon + second) message one_row).0 ≡ one_row)
    × ((process processor flaky (noon + second) message one_row).1 ≢ stored)
process_redelivered_example =
    process_redelivered processor flaky (noon + second) message one_row (event_of "e-1") accepted
      one_row_holds

abbrev delivery : Surroundings → String → Delivery
delivery w s = record {
  message = record { value = s; timestamp = noon };
  now = noon + second;
  surroundings = w;
}

-- A batch with a malformed record, a batch whose commit fails, and one that is never reached.
abbrev polls : List Poll
polls =
    polled (delivery flaky "e-1" ∷ delivery broken "not json" ∷ delivery flaky "e-2" ∷ []) none
    ∷ polled [] none
    ∷ polled (delivery flaky "e-1" ∷ []) (some (commit_failed "rebalance"))
    ∷ polled (delivery flaky "e-3" ∷ []) none
    ∷ []

abbrev start : Consumer
start = record { table = []; committed = []; polls = 0; allowed = 0 }

run-IsConsistent_example : IsConsistent processor (run processor polls start).0
run-IsConsistent_example =
    run-IsConsistent processor polls start (record { settled = tt; released = refl })

not_retryable : is_retryable (server "42P01") ≡ false
unfolding methods
not_retryable = refl

permanent_failure_stops_example :
    let (c', result) = run processor (polled (delivery broken "e-1" ∷ []) none ∷ polls) start in
    (result ≡ process_error (permanent (server "42P01"))) × (c'.committed ≡ []) × (c'.table ≡ [])
permanent_failure_stops_example =
    permanent_failure_stops processor (delivery broken "e-1") [] none polls start (event_of "e-1")
      (server "42P01") accepted refl not_retryable (λ h. cc)
