-- ===== src/Incident.antt =====
-- internal/incident/incident.go: what an incident is, its lifecycle and its validation.
use Prim.Native.String.{◌++◌ as append}
use sentinel_flow_project.Base.{
  ℕ, String, Bool, true, false, Option, none, some, List, [], ◌∷◌, ◌++◌, str_eq, if◌then◌else◌,
}
use sentinel_flow_project.Base.Results.{Result, ok, err}
use sentinel_flow_project.Base.Text.{is_blank}
use sentinel_flow_project.Base.Time.{Time}
use sentinel_flow_project.Severity.{Severity, severity_text, supported_severities}

-- `unknown` is a string that is none of the three constants.
pub data Status : Type 0 where
  status_open status_acknowledged status_resolved : Status
  unknown : String → Status

unfoldable pub status_text : Status → String
status_text status_open = "open"
status_text status_acknowledged = "acknowledged"
status_text status_resolved = "resolved"
status_text (unknown s) = s

-- Membership in the map supportedStatuses.
unfoldable pub is_valid : Status → Bool
is_valid (unknown s) = false
is_valid status_open = true
is_valid _ = true

unfoldable pub active : Status → Bool
active status_open = true
active status_acknowledged = true
active _ = false

unfoldable pub can_transition_to : Status → Status → Bool
can_transition_to status_open status_acknowledged = true
can_transition_to status_open status_resolved = true
can_transition_to status_acknowledged status_resolved = true
can_transition_to _ _ = false

-- The separator is the unit separator, U+001F.
unfoldable pub fingerprint : String → String → String → String
fingerprint rule_id tenant_id service_name =
    append rule_id (append "\u{1f}" (append tenant_id (append "\u{1f}" service_name)))

-- The evidence of a detection: keys with their values written out as text.
abbrev pub Details : Type 0
Details = List (String × String)

pub record Incident : Type 0 where
  pub id : String
  pub fingerprint : String
  pub tenant_id : String
  pub service_name : String
  pub rule_id : String
  pub title : String
  pub severity : Severity
  pub status : Status
  pub event_count : ℕ
  pub first_seen_at : Time
  pub last_seen_at : Time
  pub opened_at : Time
  pub acknowledged_at : Option Time
  pub resolved_at : Option Time
  pub updated_at : Time
  pub details : Option Details

-- supportedSeverity: the loop over the texts of the event package's severities.
unfoldable pub find_severity : Severity → List String → Option Severity
unfolding severity_text
find_severity sev [] = none
find_severity sev (s ∷ rest) =
    if str_eq (severity_text sev) s then some sev else find_severity sev rest

unfoldable pub supported_severity : Severity → Option Severity
unfolding find_severity supported_severities
supported_severity sev = find_severity sev supported_severities

abbrev is_none : Option Severity → Bool
is_none none = true
is_none (some s) = false

-- Appends a problem when the test holds.
abbrev pub problem_if : Bool → String → List String → List String
problem_if b p problems = if b then problems ++ p ∷ [] else problems

abbrev not_valid : Status → Bool
not_valid s = if is_valid s then false else true

unfoldable pub problems_of : Incident → List String
unfolding is_blank is_valid status_text severity_text supported_severity
problems_of i =
    let p₁ = problem_if (is_blank i.fingerprint) "fingerprint is required" [] in
    let p₂ = problem_if (is_blank i.tenant_id) "tenant_id is required" p₁ in
    let p₃ = problem_if (is_blank i.service_name) "service_name is required" p₂ in
    let p₄ = problem_if (is_blank i.rule_id) "rule_id is required" p₃ in
    let p₅ = problem_if (is_blank i.title) "title is required" p₄ in
    let p₆ =
      problem_if (not_valid i.status)
        (append "status " (append (status_text i.status) " is not recognised")) p₅ in
    problem_if (is_none (supported_severity i.severity))
      (append "severity " (append (severity_text i.severity) " is not recognised")) p₆

-- Validate: a ValidationError carries every problem found.
unfoldable pub validate : Incident → Result (List String) (Unit {0})
unfolding problems_of
validate i = elim (problems_of i) [ [] ↦ ok tt | p ∷ rest ↦ err (p ∷ rest) ]
