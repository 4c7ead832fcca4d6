-- ===== src/Event/Freshness.antt =====
-- internal/event/freshness.go: the bounds on how far a timestamp lies from now.
use sentinel_flow_project.Base.{Bool, String, [], ◌++◌, if◌then◌else◌, ◌&&◌}
use sentinel_flow_project.Base.Results.{Result}
use sentinel_flow_project.Base.Int.{pos, ltb_ℤ, positive}
use sentinel_flow_project.Base.Time.{Time, Duration, is_zero, sub_time}
use sentinel_flow_project.Event.{
  Event, ValidationErrors, in_the_future, too_old, add_error, structural_errors, report,
}

pub record TimeBounds : Type 0 where
  pub max_future : Duration
  pub max_age : Duration

unfoldable pub future_errors : TimeBounds → Time → Time → ValidationErrors → ValidationErrors
unfolding sub_time
future_errors b t now errs =
    let ahead = sub_time t now in
    if positive b.max_future && ltb_ℤ b.max_future ahead
    then add_error errs "timestamp" (in_the_future ahead b.max_future now)
    else errs

unfoldable pub age_errors : TimeBounds → Time → Time → ValidationErrors → ValidationErrors
unfolding sub_time
age_errors b t now errs =
    let age = sub_time now t in
    if positive b.max_age && ltb_ℤ b.max_age age
    then add_error errs "timestamp" (too_old age b.max_age now)
    else errs

-- check
unfoldable pub check : TimeBounds → Time → Time → ValidationErrors
unfolding is_zero future_errors age_errors
check b t now = if is_zero t then [] else age_errors b t now (future_errors b t now [])

-- ValidateWithin
unfoldable pub validate_within :
    (String → Bool) → TimeBounds → Time → Event → Result ValidationErrors (Unit {0})
unfolding structural_errors check
validate_within is_uuid b now e = report (structural_errors is_uuid e ++ check b e.timestamp now)

-- The bounds that the processor of internal/engine keeps: those of the future alone.
unfoldable pub future_only : TimeBounds → TimeBounds
future_only b = record { max_future = b.max_future; max_age = pos 0 }
