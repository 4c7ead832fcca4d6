-- ===== src/Event/Conformance.antt =====
-- What an accepted event satisfies: internal/event/event.go and freshness.go against a description
-- of each field.
use Prim.Native.String.{len}
use sentinel_flow_project.Base.{
  ◌+◌, ◌≤◌, ◌<◌, String, ◌≡◌, ◌≢◌, ◌↔◌, refl, Bool, true, false, [], ◌∷◌, ◌++◌, arith,
}
use sentinel_flow_project.Base.Results.{ok}
use sentinel_flow_project.Base.Int.{pos_part, positive}
use sentinel_flow_project.Base.Text.{is_empty}
use sentinel_flow_project.Base.Time.{Time, zero_time, is_zero, max_duration}
use sentinel_flow_project.Severity.{is_supported}
use sentinel_flow_project.Event.{
  Event, ValidationErrors, append_string_errors, event_id_errors, schema_version_errors,
  max_len_errors, severity_errors, timestamp_errors, structural_errors, report,
}
use sentinel_flow_project.Event.Freshness.{
  TimeBounds, future_errors, check, future_only, validate_within,
}
use sentinel_flow_project.Event.Fields.{
  IsName, event_id_iff, version_iff, IsName-iff, max_len_iff, severity_iff, timestamp_iff,
  future_iff, age_iff,
}

-- The structural contract of an event, field by field.
pub record Conforms (is_uuid : String → Bool) (e : Event) : Type 0 where
  pub id_given : is_empty e.event_id ≡ false
  pub id_uuid : is_uuid e.event_id ≡ true
  pub version : e.schema_version ≡ "1.0"
  pub tenant : IsName e.tenant_id
  pub service : IsName e.service_name
  pub kind : IsName e.event_type
  pub environment_fits : len e.environment ≤ 128
  pub severity_known : is_supported e.severity ≡ true
  pub dated : e.timestamp ≢ zero_time
  pub trace_fits : len e.trace_id ≤ 128

-- A timestamp no further ahead of now, and no further behind it, than the bounds that are set.
pub record InBounds (b : TimeBounds) (now t : Time) : Type 0 where
  pub not_ahead : positive b.max_future ≡ true → t ≤ now + pos_part b.max_future
  pub not_old : positive b.max_age ≡ true → now ≤ t + pos_part b.max_age

structural_iff :
    (is_uuid : String → Bool) (e : Event) → (structural_errors is_uuid e ≡ []) ↔ Conforms is_uuid e
unfolding structural_errors
structural_iff is_uuid e =
    let e₁ = event_id_errors is_uuid [] e.event_id in
    let e₂ = schema_version_errors e₁ e.schema_version in
    let e₃ = append_string_errors e₂ "tenant_id" e.tenant_id 128 in
    let e₄ = append_string_errors e₃ "service_name" e.service_name 128 in
    let e₅ = append_string_errors e₄ "event_type" e.event_type 128 in
    let e₆ = max_len_errors e₅ "environment" e.environment 128 in
    let e₇ = severity_errors e₆ e.severity in
    let e₈ = timestamp_errors e₇ e.timestamp in
    chain (event_id_iff [] is_uuid e.event_id) (version_iff e₁ e.schema_version)
      (IsName-iff e₂ "tenant_id" e.tenant_id) (IsName-iff e₃ "service_name" e.service_name)
      (IsName-iff e₄ "event_type" e.event_type) (max_len_iff e₅ "environment" e.environment)
      (severity_iff e₆ e.severity) (timestamp_iff e₇ e.timestamp)
      (max_len_iff e₈ "trace_id" e.trace_id)
  where
    chain :
        {e₁ e₂ e₃ e₄ e₅ e₆ e₇ e₈ e₉ : ValidationErrors}
        → (e₁ ≡ []) ↔ (
            (◌≡◌ {A = ValidationErrors} [] [])
            × (is_empty e.event_id ≡ false)
            × (is_uuid e.event_id ≡ true))
        → (e₂ ≡ []) ↔ ((e₁ ≡ []) × (e.schema_version ≡ "1.0"))
        → (e₃ ≡ []) ↔ ((e₂ ≡ []) × IsName e.tenant_id)
        → (e₄ ≡ []) ↔ ((e₃ ≡ []) × IsName e.service_name)
        → (e₅ ≡ []) ↔ ((e₄ ≡ []) × IsName e.event_type)
        → (e₆ ≡ []) ↔ ((e₅ ≡ []) × (len e.environment ≤ 128))
        → (e₇ ≡ []) ↔ ((e₆ ≡ []) × (is_supported e.severity ≡ true))
        → (e₈ ≡ []) ↔ ((e₇ ≡ []) × (e.timestamp ≢ zero_time))
        → (e₉ ≡ []) ↔ ((e₈ ≡ []) × (len e.trace_id ≤ 128))
        → (e₉ ≡ []) ↔ Conforms is_uuid e
    chain c₁ c₂ c₃ c₄ c₅ c₆ c₇ c₈ c₉ = (
      λ h.
          let (h₈, trace) = c₉.0 h in
          let (h₇, dated) = c₈.0 h₈ in
          let (h₆, severity) = c₇.0 h₇ in
          let (h₅, environment) = c₆.0 h₆ in
          let (h₄, kind) = c₅.0 h₅ in
          let (h₃, service) = c₄.0 h₄ in
          let (h₂, tenant) = c₃.0 h₃ in
          let (h₁, version) = c₂.0 h₂ in
          let (_, given, uuid) = c₁.0 h₁ in
          record {
            id_given = given;
            id_uuid = uuid;
            version = version;
            tenant = tenant;
            service = service;
            kind = kind;
            environment_fits = environment;
            severity_known = severity;
            dated = dated;
            trace_fits = trace;
          },
      λ k.
          let h₁ = c₁.1 (refl, k.id_given, k.id_uuid) in
          let h₅ = c₅.1 (c₄.1 (c₃.1 (c₂.1 (h₁, k.version), k.tenant), k.service), k.kind) in
          let h₈ = c₈.1 (c₇.1 (c₆.1 (h₅, k.environment_fits), k.severity_known), k.dated) in
          c₉.1 (h₈, k.trace_fits),
    )

report_iff : (xs : ValidationErrors) → (report xs ≡ ok tt) ↔ (xs ≡ [])
report_iff [] = (λ h. refl, λ h. refl)
report_iff (x ∷ xs) = (λ h. cc, λ h. cc)

append-nil_iff : (xs ys : ValidationErrors) → (xs ++ ys ≡ []) ↔ ((xs ≡ []) × (ys ≡ []))
append-nil_iff [] ys = (λ h. (refl, h), λ h. h.1)
append-nil_iff (x ∷ xs) ys = (λ h. absurd (ground arith), λ h. absurd (ground arith))

-- No bound is so large that the difference of two times, which is held to an int64, hides a breach.
pub record InRange (b : TimeBounds) : Type 0 where
  pub future_range : pos_part b.max_future < max_duration
  pub age_range : pos_part b.max_age < max_duration

check_iff :
    (b : TimeBounds) (t now : Time)
    → InRange b
    → t ≢ zero_time
    → (check b t now ≡ []) ↔ InBounds b now t
unfolding check
check_iff b t now range dated =
    let future = future_iff [] b t now range.future_range in
    let age = age_iff (future_errors b t now []) b t now range.age_range in
    rw (not_zero t dated) (
      λ h. record { not_ahead = (future.0 (age.0 h).0).1; not_old = (age.0 h).1 },
      λ k. age.1 (future.1 (refl, k.not_ahead), k.not_old),
    )
  where
    not_zero : (t : Time) → t ≢ zero_time → is_zero t ≡ false
    not_zero t h = unfold is_zero in ground arith

-- ValidateWithin accepts exactly the events that conform field by field and whose timestamp lies
-- within the bounds that are set, for bounds below the largest duration.
pub validate_within_iff :
    (is_uuid : String → Bool) (b : TimeBounds) (now : Time) (e : Event)
    → InRange b
    → (validate_within is_uuid b now e ≡ ok tt) ↔ (Conforms is_uuid e × InBounds b now e.timestamp)
unfolding validate_within
validate_within_iff is_uuid b now e range =
    let whole = report_iff (structural_errors is_uuid e ++ check b e.timestamp now) in
    let parts = append-nil_iff (structural_errors is_uuid e) (check b e.timestamp now) in
    let fields = structural_iff is_uuid e in
    (
      λ h.
          let (s, c) = parts.0 (whole.0 h) in
          let k = fields.0 s in (k, (check_iff b e.timestamp now range k.dated).0 c),
      λ h. whole.1 (parts.1 (fields.1 h.0, (check_iff b e.timestamp now range h.0.dated).1 h.1)),
    )

-- An event that the ingestion API accepts, under any bounds below the largest duration, is accepted
-- again at every later moment under the future bound alone.
pub validate_within_later :
    (is_uuid : String → Bool) (b : TimeBounds) (now later : Time) (e : Event)
    → InRange b
    → now ≤ later
    → validate_within is_uuid b now e ≡ ok tt
    → validate_within is_uuid (future_only b) later e ≡ ok tt
unfolding future_only
validate_within_later is_uuid b now later e range order h =
    let (fields, bounds) = (validate_within_iff is_uuid b now e range).0 h in
    let kept : InRange (future_only b) = record {
      future_range = range.future_range;
      age_range = omega arith;
    } in
    (validate_within_iff is_uuid (future_only b) later e kept).1 (
      fields,
      record { not_ahead = λ p. ground (arith, bounds.not_ahead p); not_old = λ p. ground arith },
    )
