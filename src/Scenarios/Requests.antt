-- ===== src/Scenarios/Requests.antt =====
-- Requests to internal/incidentapi over a table with a resolved incident and an open one.
use sentinel_flow_project.Base.{
  String, ◌≡◌, refl, Bool, false, ◌||◌, if◌then◌else◌, inl, inr, Option, none, some, [], ◌∷◌,
  str_eq, Bool-cases,
}
use sentinel_flow_project.Base.Text.{is_empty}
use sentinel_flow_project.Incident.{status_acknowledged, status_resolved, can_transition_to}
use sentinel_flow_project.Store.Database.{up}
use sentinel_flow_project.Store.Incidents.{Row, has_id, find_row}
use sentinel_flow_project.Store.Incidents.Transitions.{decode_details}
use sentinel_flow_project.IncidentApi.{
  acknowledged, resolved, acknowledge_incident, resolve_incident,
}
use sentinel_flow_project.IncidentApi.Lifecycle.{
  IsReadable, key_status, expected_status, IsAnswer, lifecycle-IsAnswer,
}
use sentinel_flow_project.Scenarios.Incidents.{
  unmarshal, two_rows, two_rows-IsKeyed, two_rows-valid,
}

-- Stand-ins for uuid.Parse and for PostgreSQL's reading: two spellings of one id, and a form that
-- uuid.Parse alone takes.
abbrev is_known : String → Bool
is_known id = str_eq id "i-1" || str_eq id "I-1" || str_eq id "urn:uuid:i-1"

abbrev key_of : String → Option String
key_of id = if str_eq id "i-1" || str_eq id "I-1" then some "i-1" else none

decoded : (r : Row) → IsReadable unmarshal r
unfolding decode_details
decoded r = elim (Bool-cases (is_empty r.details)) [
  | inl e ↦ (none, rw e)
  | inr e ↦ (some (("text", r.details) ∷ []), rw e)
]

-- The other spelling: the row is met, and the workflow of the other spelling is signalled.
lifecycle-IsAnswer_example :
    IsAnswer
      (expected_status is_known key_of
        (λ s. can_transition_to s status_acknowledged)
        "I-1"
        two_rows)
      (acknowledged "I-1")
      ((acknowledge_incident is_known key_of unmarshal up up 140 "I-1" two_rows).1)
    × IsAnswer
        (expected_status is_known key_of (λ s. can_transition_to s status_resolved) "I-1" two_rows)
        (resolved "I-1")
        ((resolve_incident is_known key_of unmarshal up up 140 "I-1" two_rows).1)
lifecycle-IsAnswer_example =
    lifecycle-IsAnswer is_known key_of unmarshal 140 "I-1" two_rows (decoded _, (decoded _, tt))
      two_rows-IsKeyed two_rows-valid

met :
    expected_status is_known key_of (λ s. can_transition_to s status_resolved) "I-1" two_rows ≡ 200
unfolding expected_status key_status has_id find_row can_transition_to
met = refl

unread : expected_status is_known key_of (λ s. false) "urn:uuid:i-1" two_rows ≡ 500
unfolding expected_status key_status
unread = refl
