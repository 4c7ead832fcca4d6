-- ===== src/Event.antt =====
-- internal/event/event.go and freshness.go: the telemetry event, its normalisation and validation.
pub mod Normalization
pub mod Freshness
pub mod Fields
pub mod Conformance
use Prim.Native.Char.{Char}
use Prim.Native.String.{◌++◌ as append, ◌∷◌ as prepend, len}
use sentinel_flow_project.Base.{
  ℕ, ◌+◌, String, Bool, true, false, ◌&&◌, Option, none, some, List, [], ◌∷◌, ◌++◌, str_eq, ltb,
  if◌then◌else◌,
}
use sentinel_flow_project.Base.Results.{Result, ok, err}
use sentinel_flow_project.Base.Int.{ℤ, pos, positive, ltb_ℤ}
use sentinel_flow_project.Base.Text.{is_empty, trim_space}
use sentinel_flow_project.Base.Time.{Time, Duration, is_zero, sub_time}
use sentinel_flow_project.Severity.{
  Severity, debug, info, warn, error, critical, other, severity_text, is_supported,
}

-- The values of attributes are kept as the text that the producer sent; nil is `none`.
abbrev pub Attributes : Type 0
Attributes = Option (List (String × String))

-- A Timestamp is an instant: the location of a time.Time shows in no result here.
pub record Event : Type 0 where
  pub event_id : String
  pub schema_version : String
  pub tenant_id : String
  pub service_name : String
  pub environment : String
  pub event_type : String
  pub severity : Severity
  pub timestamp : Time
  pub trace_id : String
  pub attributes : Attributes

unfoldable pub partition_key : Event → String
partition_key e = append e.tenant_id (append ":" e.service_name)

-- The conversion Severity(s) of a text.
unfoldable pub severity_of : String → Severity
severity_of s =
    if str_eq s "debug"
    then debug
    else if str_eq s "info"
    then info
    else if str_eq s "warn"
    then warn
    else if str_eq s "error"
    then error
    else if str_eq s "critical"
    then critical
    else other s

-- strings.ToLower, over unicode.ToLower of one character.
unfoldable pub to_lower : (Char → Char) → String → String
to_lower lower String.[] = String.[]
to_lower lower (prepend c s) = prepend (lower c) (to_lower lower s)

-- A nil map becomes an empty one.
abbrev pub or_empty : Attributes → Attributes
or_empty none = some []
or_empty (some a) = some a

-- Normalize
unfoldable pub normalize : (Char → Char) → Event → Event
unfolding to_lower trim_space severity_text severity_of
normalize lower e =
    let environment = trim_space e.environment in
    record {
      event_id = to_lower lower (trim_space e.event_id);
      schema_version = trim_space e.schema_version;
      tenant_id = trim_space e.tenant_id;
      service_name = trim_space e.service_name;
      environment = if is_empty environment then "unknown" else environment;
      event_type = trim_space e.event_type;
      severity = severity_of (to_lower lower (trim_space (severity_text e.severity)));
      timestamp = e.timestamp;
      trace_id = trim_space e.trace_id;
      attributes = or_empty e.attributes;
    }

-- The message of a FieldError, as its template with the values written into it.
pub data Message : Type 0 where
  required invalid_uuid required_rfc3339 : Message
  unsupported_version : String → Message
  unsupported_severity : Severity → Message
  too_long : ℕ → Message
  in_the_future too_old : Duration → Duration → Time → Message

pub record FieldError : Type 0 where
  pub field : String
  pub message : Message

abbrev pub ValidationErrors : Type 0
ValidationErrors = List FieldError

abbrev pub max_identifier_len : ℕ
max_identifier_len = 128

abbrev pub max_trace_id_len : ℕ
max_trace_id_len = 128

-- append(errs, FieldError{field, message})
abbrev pub add_error : ValidationErrors → String → Message → ValidationErrors
add_error errs field message = errs ++ record { field = field; message = message } ∷ []

-- appendStringErrors
unfoldable pub append_string_errors : ValidationErrors → String → String → ℕ → ValidationErrors
append_string_errors errs field value max_len =
    if is_empty value
    then add_error errs field required
    else if ltb max_len (len value)
    then add_error errs field (too_long max_len)
    else errs

unfoldable pub event_id_errors : (String → Bool) → ValidationErrors → String → ValidationErrors
event_id_errors is_uuid errs id =
    if is_empty id
    then add_error errs "event_id" required
    else if is_uuid id
    then errs
    else add_error errs "event_id" invalid_uuid

-- The map supportedSchemaVersions has the one key "1.0".
unfoldable pub schema_version_errors : ValidationErrors → String → ValidationErrors
schema_version_errors errs version =
    if is_empty version
    then add_error errs "schema_version" required
    else if str_eq version "1.0"
    then errs
    else add_error errs "schema_version" (unsupported_version version)

unfoldable pub max_len_errors : ValidationErrors → String → String → ℕ → ValidationErrors
max_len_errors errs field value max_len =
    if ltb max_len (len value) then add_error errs field (too_long max_len) else errs

unfoldable pub severity_errors : ValidationErrors → Severity → ValidationErrors
unfolding severity_text is_supported
severity_errors errs severity =
    if is_empty (severity_text severity)
    then add_error errs "severity" required
    else if is_supported severity
    then errs
    else add_error errs "severity" (unsupported_severity severity)

unfoldable pub timestamp_errors : ValidationErrors → Time → ValidationErrors
unfolding is_zero
timestamp_errors errs t = if is_zero t then add_error errs "timestamp" required_rfc3339 else errs

-- validate: the problems of every field, in the order of the source. uuid.Parse is `is_uuid`.
unfoldable pub structural_errors : (String → Bool) → Event → ValidationErrors
unfolding event_id_errors schema_version_errors append_string_errors max_len_errors severity_errors
    timestamp_errors
structural_errors is_uuid e =
    let e₁ = event_id_errors is_uuid [] e.event_id in
    let e₂ = schema_version_errors e₁ e.schema_version in
    let e₃ = append_string_errors e₂ "tenant_id" e.tenant_id max_identifier_len in
    let e₄ = append_string_errors e₃ "service_name" e.service_name max_identifier_len in
    let e₅ = append_string_errors e₄ "event_type" e.event_type max_identifier_len in
    let e₆ = max_len_errors e₅ "environment" e.environment max_identifier_len in
    let e₇ = severity_errors e₆ e.severity in
    let e₈ = timestamp_errors e₇ e.timestamp in
    max_len_errors e₈ "trace_id" e.trace_id max_trace_id_len

-- A non-empty set of errors is an error.
abbrev pub report : ValidationErrors → Result ValidationErrors (Unit {0})
report [] = ok tt
report (x ∷ xs) = err (x ∷ xs)

-- Validate
unfoldable pub validate : (String → Bool) → Event → Result ValidationErrors (Unit {0})
unfolding structural_errors
validate is_uuid e = report (structural_errors is_uuid e)
