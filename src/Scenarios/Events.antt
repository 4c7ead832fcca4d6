-- ===== src/Scenarios/Events.antt =====
-- Runs of internal/event on one event.
use Prim.Native.Char.{Char, code}
use sentinel_flow_project.Base.{
  String, str_eq, ◌+◌, ◌*◌, ◌≡◌, ◌≢◌, refl, ◌↔◌, inl, inr, Bool, true, false, none, some, [], arith,
  ◌==◌, if◌then◌else◌, Bool-cases,
}
use sentinel_flow_project.Base.Results.{ok}
use sentinel_flow_project.Base.Int.{pos}
use sentinel_flow_project.Base.Text.{is_space}
use sentinel_flow_project.Base.Time.{Time, second, day, sub_time, is_zero}
use sentinel_flow_project.Severity.{error, other, is_supported, severity_text}
use sentinel_flow_project.Event.{
  Event, normalize, event_id_errors, schema_version_errors, append_string_errors, max_len_errors,
  severity_errors, timestamp_errors, structural_errors,
}
use sentinel_flow_project.Event.Normalization.{IsLowering, normalize_idem}
use sentinel_flow_project.Event.Freshness.{
  TimeBounds, future_errors, age_errors, check, future_only, validate_within,
}
use sentinel_flow_project.Event.Conformance.{
  Conforms, InBounds, InRange, validate_within_iff, validate_within_later,
}

abbrev pub noon : Time
noon = 740000 * day

-- A stand-in for uuid.Parse: one identifier.
abbrev pub is_uuid : String → Bool
is_uuid s = str_eq s "6f1c2d3e-4a5b-41ee-be56-0242ac120002"

abbrev pub failure_event : Event
failure_event = record {
  event_id = "6f1c2d3e-4a5b-41ee-be56-0242ac120002";
  schema_version = "1.0";
  tenant_id = "acme";
  service_name = "checkout";
  environment = "prod";
  event_type = "request";
  severity = error;
  timestamp = noon;
  trace_id = "";
  attributes = some [];
}

-- The same event as a producer may write it.
abbrev sent_event : Event
sent_event = record failure_event {
  tenant_id = " acme\t";
  severity = other " ERROR ";
  environment = " ";
  attributes = none;
}

-- Five minutes ahead, a day behind.
abbrev pub bounds : TimeBounds
bounds = record { max_future = pos (300 * second); max_age = pos (86400 * second) }

pub bounds-InRange : InRange bounds
bounds-InRange = record { future_range = omega arith; age_range = omega arith }

methods : Unit {0}
unfolding sub_time is_zero is_supported severity_text event_id_errors schema_version_errors
    append_string_errors max_len_errors severity_errors timestamp_errors structural_errors
    future_errors age_errors check future_only validate_within is_space
methods = tt

accepted_now : validate_within is_uuid bounds (noon + second) failure_event ≡ ok tt
unfolding methods
accepted_now = refl

refused_later : validate_within is_uuid bounds (noon + 2 * day) failure_event ≢ ok tt
unfolding methods
refused_later h = cc

validate_within_iff_example :
    (validate_within is_uuid bounds (noon + second) failure_event ≡ ok tt)
    ↔ (Conforms is_uuid failure_event × InBounds bounds (noon + second) noon)
validate_within_iff_example =
    validate_within_iff is_uuid bounds (noon + second) failure_event bounds-InRange

validate_within_later_example :
    validate_within is_uuid (future_only bounds) (noon + 2 * day) failure_event ≡ ok tt
validate_within_later_example =
    validate_within_later is_uuid bounds (noon + second) (noon + 2 * day) failure_event
      bounds-InRange (omega arith) accepted_now

-- Lower case for one letter.
abbrev pub lower_e : Char → Char
lower_e c = if code c == 69 then "e" else c

pub lower_e-IsLowering : IsLowering lower_e
unfolding is_space
lower_e-IsLowering = record {
  stable = λ c. elim (Bool-cases (code c == 69)) [ inl h ↦ rw h refl | inr h ↦ rw (h, h) refl ];
  keeps_space =
      λ c. elim (Bool-cases (code c == 69)) [ inl h ↦ rw h (space c h) | inr h ↦ rw h refl ];
}
  where
    space : (c : Char) → code c == 69 ≡ true → false ≡ is_space (code c)
    space c h = let same : code c ≡ 69 = ground arith in rw same refl

normalize_idem_example :
    normalize lower_e (normalize lower_e sent_event) ≡ normalize lower_e sent_event
normalize_idem_example = normalize_idem lower_e sent_event lower_e-IsLowering
