-- ===== src/Event/Fields.antt =====
-- When each check of internal/event/event.go and freshness.go finds nothing to report.
use Prim.Native.String.{len}
use sentinel_flow_project.Base.{
  ◌+◌, ◌≤◌, ◌<◌, String, ◌≡◌, ◌≢◌, ◌↔◌, refl, Bool, true, false, [], ◌∷◌, arith, eq_iff,
}
use sentinel_flow_project.Base.Int.{pos_part, positive}
use sentinel_flow_project.Base.Text.{is_empty}
use sentinel_flow_project.Base.Time.{Time, zero_time, max_duration, sub_time}
use sentinel_flow_project.Severity.{Severity, debug, other, severity_text, is_supported}
use sentinel_flow_project.Event.{
  Message, required, invalid_uuid, required_rfc3339, unsupported_version, unsupported_severity,
  too_long, in_the_future, too_old, ValidationErrors, add_error, append_string_errors,
  event_id_errors, schema_version_errors, max_len_errors, severity_errors, timestamp_errors,
}
use sentinel_flow_project.Event.Freshness.{TimeBounds, future_errors, age_errors}

-- A name that the contract accepts.
abbrev pub IsName : String → Type 0
IsName s = (is_empty s ≡ false) × (len s ≤ 128)

add_error-ne-nil :
    (errs : ValidationErrors) (field : String) (m : Message) → add_error errs field m ≢ []
add_error-ne-nil [] field m h = cc
add_error-ne-nil (x ∷ xs) field m h = cc

version_given : (s : String) → s ≡ "1.0" → is_empty s ≡ false
version_given s h = rw h

supported_given : (s : Severity) → is_supported s ≡ true → is_empty (severity_text s) ≡ false
unfolding is_supported severity_text
supported_given (other s) h = cc
supported_given debug h = refl
supported_given _ h = refl

-- Each check leaves no error exactly if there was none and its field conforms.
module _ (errs : ValidationErrors) where
  pub event_id_iff :
      (is_uuid : String → Bool) (id : String)
      → (event_id_errors is_uuid errs id ≡ [])
        ↔ ((errs ≡ []) × (is_empty id ≡ false) × (is_uuid id ≡ true))
  unfolding event_id_errors
  event_id_iff is_uuid id = ground (
    arith,
    add_error-ne-nil errs "event_id" required,
    add_error-ne-nil errs "event_id" invalid_uuid,
  )

  pub version_iff : (s : String) → (schema_version_errors errs s ≡ []) ↔ ((errs ≡ []) × (s ≡ "1.0"))
  unfolding schema_version_errors
  version_iff s = ground (
    arith,
    add_error-ne-nil errs "schema_version" required,
    add_error-ne-nil errs "schema_version" (unsupported_version s),
    eq_iff s "1.0",
    version_given s,
  )

  pub IsName-iff :
      (field s : String) → (append_string_errors errs field s 128 ≡ []) ↔ ((errs ≡ []) × IsName s)
  unfolding append_string_errors
  IsName-iff field s =
      ground
        (arith, add_error-ne-nil errs field required, add_error-ne-nil errs field (too_long 128))

  pub max_len_iff :
      (field s : String) → (max_len_errors errs field s 128 ≡ []) ↔ ((errs ≡ []) × (len s ≤ 128))
  unfolding max_len_errors
  max_len_iff field s = ground (arith, add_error-ne-nil errs field (too_long 128))

  pub severity_iff :
      (s : Severity) → (severity_errors errs s ≡ []) ↔ ((errs ≡ []) × (is_supported s ≡ true))
  unfolding severity_errors
  severity_iff s = ground (
    arith,
    add_error-ne-nil errs "severity" required,
    add_error-ne-nil errs "severity" (unsupported_severity s),
    supported_given s,
  )

  pub timestamp_iff : (t : Time) → (timestamp_errors errs t ≡ []) ↔ ((errs ≡ []) × (t ≢ zero_time))
  unfolding timestamp_errors
  timestamp_iff t = ground (arith, add_error-ne-nil errs "timestamp" required_rfc3339)

  pub future_iff :
      (b : TimeBounds) (t now : Time)
      → pos_part b.max_future < max_duration
      → (future_errors b t now errs ≡ [])
        ↔ ((errs ≡ []) × (positive b.max_future ≡ true → t ≤ now + pos_part b.max_future))
  unfolding future_errors
  future_iff b t now range =
      ground
        (arith, add_error-ne-nil errs "timestamp" (in_the_future (sub_time t now) b.max_future now))

  pub age_iff :
      (b : TimeBounds) (t now : Time)
      → pos_part b.max_age < max_duration
      → (age_errors b t now errs ≡ [])
        ↔ ((errs ≡ []) × (positive b.max_age ≡ true → now ≤ t + pos_part b.max_age))
  unfolding age_errors
  age_iff b t now range =
      ground (arith, add_error-ne-nil errs "timestamp" (too_old (sub_time now t) b.max_age now))
