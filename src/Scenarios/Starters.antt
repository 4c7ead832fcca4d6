-- ===== src/Scenarios/Starters.antt =====
-- One cycle of each starter over a table with one open incident.
use sentinel_flow_project.Base.{◌≡◌, refl, none, some, List, [], ◌∷◌, map, All, false, ◌&&◌}
use sentinel_flow_project.Base.Results.{ok}
use sentinel_flow_project.Severity.{critical}
use sentinel_flow_project.Incident.{Incident, status_open}
use sentinel_flow_project.Store.Database.{up}
use sentinel_flow_project.Store.Incidents.{has_id, exists_row}
use sentinel_flow_project.Store.Incidents.Transitions.{
  open_unalerted, open_unremediated, select_where,
}
use sentinel_flow_project.Store.Incidents.Marks.{among}
use sentinel_flow_project.Store.Pages.Queries.{list_open_pending}
use sentinel_flow_project.Alerting.Starter
use sentinel_flow_project.Remediate.Starter as RemediateStarter
use sentinel_flow_project.Scenarios.Incidents.{unmarshal, open_row}
use sentinel_flow_project.Scenarios.Paging.{policy}
use sentinel_flow_project.Scenarios.Catalog.{catalog}

abbrev working : Starter.StarterWorld
working = record { list = up; start = λ i. none; mark = λ id. up }

abbrev listed : List Incident
listed =
    record {
      id = "i-1";
      fingerprint = "error-rate|acme|checkout";
      tenant_id = "acme";
      service_name = "checkout";
      rule_id = "error-rate";
      title = "High error rate";
      severity = critical;
      status = status_open;
      event_count = 7;
      first_seen_at = 100;
      last_seen_at = 100;
      opened_at = 101;
      acknowledged_at = none;
      resolved_at = none;
      updated_at = 101;
      details = some (("text", open_row.details) ∷ []);
    }
    ∷ []

listed_open : list_open_pending unmarshal up open_unalerted 50 (open_row ∷ []) ≡ ok listed
unfolding list_open_pending open_unalerted
listed_open = refl

start_pending-starts_example :
    ((Starter.start_pending working policy 200 unmarshal 50 (open_row ∷ [])).1
      ≡ ok (map (Starter.input_of working policy 200) listed))
    × All
        (λ inc.
          exists_row
            (λ r. has_id inc.id r && open_unalerted r)
            ((Starter.start_pending working policy 200 unmarshal 50 (open_row ∷ [])).0)
          ≡ false)
        listed
start_pending-starts_example =
    Starter.start_pending-starts working policy 200 unmarshal 50 (open_row ∷ []) listed listed_open
      (λ i. refl) refl

-- The workflow service is down.
abbrev broken : RemediateStarter.StarterWorld
broken = record { list = up; start = λ i. some "unavailable"; mark = λ id. up }

unhandled :
    among "i-1" (
      RemediateStarter.handled broken catalog 200 (
        RemediateStarter.listed_of broken catalog 200
          (list_open_pending unmarshal up open_unremediated 50 (open_row ∷ []))))
    ≡ false
unfolding among RemediateStarter.handled list_open_pending open_unremediated
unhandled = refl

start_pending-other_example :
    select_where
      (has_id "i-1")
      ((RemediateStarter.start_pending broken catalog 200 unmarshal 50 (open_row ∷ [])).0)
    ≡ select_where (has_id "i-1") (open_row ∷ [])
start_pending-other_example =
    RemediateStarter.start_pending-other broken catalog 200 unmarshal 50 (open_row ∷ []) "i-1"
      unhandled
