-- ===== src/Scenarios/Catalog.antt =====
-- A run of internal/runbook/runbook.go on a catalog of two runbooks.
use sentinel_flow_project.Base.{◌≡◌, refl, none, List, [], ◌∷◌}
use sentinel_flow_project.Base.Int.{pos}
use sentinel_flow_project.Base.Text.{is_blank}
use sentinel_flow_project.Runbook.{
  noop, webhook, auto, approval, Step, Runbook, find, kind_problem, step_problem, steps_problem,
  seen_id, runbook_problem, runbooks_problem, catalog_problem,
}
use sentinel_flow_project.Runbook.Catalog.{Answer, catalog_problem-Answer}

abbrev look : Step
look = record { name = "diagnose"; kind = noop; mode = auto; target = ""; params = [] }

abbrev drain : Step
drain = record {
  name = "drain";
  kind = webhook;
  mode = approval;
  target = "http://ops";
  params = [];
}

abbrev pub catalog : List Runbook
catalog =
    record {
      id = "rb-1";
      name = "Payments";
      matcher = record { rule_id = "error-rate"; service_name = "payments"; severity = "" };
      steps = look ∷ [];
      approval_timeout = pos 600;
    }
    ∷ record {
      id = "rb-2";
      name = "Any service";
      matcher = record { rule_id = "error-rate"; service_name = ""; severity = "critical" };
      steps = look ∷ drain ∷ [];
      approval_timeout = pos 900;
    }
    ∷ []

catalog_valid : catalog_problem catalog ≡ none
unfolding catalog_problem runbooks_problem runbook_problem seen_id steps_problem step_problem
    kind_problem is_blank
catalog_valid = refl

catalog_problem-Answer_example :
    Answer catalog "error-rate" "checkout" "critical"
      (find catalog "error-rate" "checkout" "critical")
catalog_problem-Answer_example =
    catalog_problem-Answer catalog "error-rate" "checkout" "critical" catalog_valid
