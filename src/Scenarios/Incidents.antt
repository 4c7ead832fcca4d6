-- ===== src/Scenarios/Incidents.antt =====
-- Runs of internal/store/incidents.go on a table of one or two incidents.
use sentinel_flow_project.Base.{
  ℕ, String, ◌≤◌, ◌≡◌, refl, true, Option, none, some, List, [], ◌∷◌, arith, count_if, All, eq_iff,
  str_eq, subst, Bool-cases, inl, inr,
}
use sentinel_flow_project.Base.Results.{ok}
use sentinel_flow_project.Base.Text.{is_blank}
use sentinel_flow_project.Severity.{critical, severity_text, supported_severities}
use sentinel_flow_project.Incident.{
  status_open, status_acknowledged, status_resolved, is_valid, can_transition_to, Details, Incident,
  find_severity, supported_severity, problems_of, validate,
}
use sentinel_flow_project.Store.Database.{up, lost, refused}
use sentinel_flow_project.Store.Incidents.{
  Row, Table, has_id, has_fingerprint, exists_row, find_row, upsert_open, acknowledge_row,
  resolve_row, auto_resolve_stale,
}
use sentinel_flow_project.Store.Incidents.Transitions.{acknowledge, resolve}
use sentinel_flow_project.Store.Incidents.Calls.{
  Call, upsert, acknowledge_call, resolve_call, auto_resolve, alerted, apply_calls,
}
use sentinel_flow_project.Store.Incidents.Unique.{active_count, IsUnique, apply_calls-IsUnique}
use sentinel_flow_project.Store.Incidents.Lifecycle.{Evolves, apply_calls-Evolves}
use sentinel_flow_project.Store.Incidents.Answers.{
  IsKeyed, lifecycle_answer, acknowledge_answer, resolve_answer,
}
use sentinel_flow_project.Store.Incidents.Counts.{
  Upserted, upsert_open-Upserted, Swept, auto_resolve_stale-Swept,
}

abbrev marshal : Details → Option String
marshal [] = some "{}"
marshal ((k, v) ∷ d) = some v

abbrev pub unmarshal : String → Option Details
unmarshal s = some (("text", s) ∷ [])

abbrev detection : Incident
detection = record {
  id = "i-1";
  fingerprint = "error-rate|acme|checkout";
  tenant_id = "acme";
  service_name = "checkout";
  rule_id = "error-rate";
  title = "High error rate";
  severity = critical;
  status = status_open;
  event_count = 7;
  first_seen_at = 100;
  last_seen_at = 100;
  opened_at = 0;
  acknowledged_at = none;
  resolved_at = none;
  updated_at = 0;
  details = some (("error_count", "7") ∷ []);
}

-- The incident that the detection opens at time 101.
abbrev pub open_row : Row
open_row = record {
  id = "i-1";
  fingerprint = "error-rate|acme|checkout";
  tenant_id = "acme";
  service_name = "checkout";
  rule_id = "error-rate";
  title = "High error rate";
  severity = critical;
  status = status_open;
  event_count = 7;
  first_seen_at = 100;
  last_seen_at = 100;
  opened_at = 101;
  acknowledged_at = none;
  resolved_at = none;
  updated_at = 101;
  details = "7";
  alerted_at = none;
  remediated_at = none;
}

-- An earlier incident of the same fingerprint.
abbrev old_row : Row
old_row = record open_row { id = "i-0"; status = status_resolved; resolved_at = some 50 }

abbrev pub two_rows : Table
two_rows = old_row ∷ open_row ∷ []

-- A second detection whose answer is lost, the call repeated, an acknowledgement, a resolution while
-- the connection is down, and an automatic resolution.
abbrev calls : List Call
calls =
    upsert up 101 detection 7
    ∷ upsert (lost "reset") 130 (record detection { id = "i-2"; last_seen_at = 129 }) 3
    ∷ upsert up 131 (record detection { id = "i-3"; last_seen_at = 130 }) 3
    ∷ acknowledge_call up up 140 "i-1"
    ∷ resolve_call (refused "down") up 150 "i-1"
    ∷ alerted up 151 "i-1"
    ∷ auto_resolve up 500 400
    ∷ upsert up 600 (record detection { id = "i-4" }) 2
    ∷ []

empty-IsUnique : IsUnique []
unfolding active_count
empty-IsUnique = record { at_most_one = λ fp. omega arith }

two_rows-IsUnique : IsUnique two_rows
unfolding active_count has_fingerprint
two_rows-IsUnique = record { at_most_one = λ fp. ground arith }

pub two_rows-IsKeyed : IsKeyed two_rows
unfolding has_id
two_rows-IsKeyed = record { one_row = few }
  where
    few : (id : String) → count_if (has_id id) two_rows ≤ 1
    few id = elim (Bool-cases (str_eq "i-0" id)) [
      | inl h ↦
          let same : "i-0" ≡ id = ground (arith, eq_iff "i-0" id) in
          subst (λ (s : String). count_if (has_id s) two_rows ≤ 1) same (omega arith)
      | inr h ↦ rw (count_if, h) (ground arith)
    ]

apply_calls-IsUnique_example : IsUnique (apply_calls marshal unmarshal calls [])
apply_calls-IsUnique_example = apply_calls-IsUnique marshal unmarshal calls [] empty-IsUnique

apply_calls-Evolves_example : Evolves two_rows (apply_calls marshal unmarshal calls two_rows)
apply_calls-Evolves_example = apply_calls-Evolves marshal unmarshal calls two_rows

acknowledge_answer_example :
    (acknowledge unmarshal up up 140 "i-1" two_rows).1
    ≡ lifecycle_answer unmarshal
        (λ s. can_transition_to s status_acknowledged)
        (acknowledge_row 140)
        "i-1"
        (find_row (has_id "i-1") two_rows)
acknowledge_answer_example = acknowledge_answer unmarshal 140 "i-1" two_rows two_rows-IsKeyed

pub two_rows-valid : All (λ (r : Row). is_valid r.status ≡ true) two_rows
unfolding is_valid
two_rows-valid = (refl, (refl, tt))

resolve_answer_example :
    (resolve unmarshal up up 140 "i-0" two_rows).1
    ≡ lifecycle_answer unmarshal
        (λ s. can_transition_to s status_resolved)
        (resolve_row 140)
        "i-0"
        (find_row (has_id "i-0") two_rows)
resolve_answer_example = resolve_answer unmarshal 140 "i-0" two_rows two_rows-IsKeyed two_rows-valid

detection_valid : validate (record detection { id = "i-2" }) ≡ ok tt
unfolding validate problems_of is_blank is_valid supported_severity find_severity
    supported_severities severity_text
detection_valid = refl

upsert_open-Upserted_example :
    Upserted
      (record detection { id = "i-2" })
      3
      two_rows
      (upsert_open marshal up 131 (record detection { id = "i-2" }) 3 two_rows)
upsert_open-Upserted_example =
    upsert_open-Upserted marshal 131 (record detection { id = "i-2" }) 3 "7" two_rows
      two_rows-IsUnique detection_valid refl (unfold exists_row has_id in refl)

-- The open one of the two rows is stale.
auto_resolve_stale-Swept_example :
    (n : ℕ) × ((auto_resolve_stale up 500 400 two_rows).1 ≡ ok n)
    × Swept 500 400 two_rows (auto_resolve_stale up 500 400 two_rows).0 n
auto_resolve_stale-Swept_example = auto_resolve_stale-Swept 500 400 two_rows
