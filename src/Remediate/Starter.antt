-- ===== src/Remediate/Starter.antt =====
-- internal/remediate/starter.go: the poll that starts one remediation for each new incident that a
-- runbook covers.
use sentinel_flow_project.Base.{
  ℕ, String, ◌≡◌, refl, ap, ◌∙◌, false, Option, none, some, List, [], ◌∷◌, map,
}
use sentinel_flow_project.Base.Results.{Result, ok, err}
use sentinel_flow_project.Base.Time.{Time}
use sentinel_flow_project.Severity.{severity_text}
use sentinel_flow_project.Incident.{Incident, Details}
use sentinel_flow_project.Store.Database.{Link, up, lost, refused, StoreError, exec}
use sentinel_flow_project.Store.Incidents.{Table, is_null, has_id}
use sentinel_flow_project.Store.Incidents.Transitions.{
  remediate_row, mark_remediated, open_unremediated, select_where,
}
use sentinel_flow_project.Store.Incidents.Marks.{
  among, mark_where, mark_with, mark_all, mark_all-other, remediate_row-IsMark,
}
use sentinel_flow_project.Store.Pages.Queries.{list_open_pending}
use sentinel_flow_project.Runbook.{Runbook, find}
use sentinel_flow_project.Alerting.{IncidentRef}
use sentinel_flow_project.Alerting.Starter.{ref_of}

-- IncidentRemediationInput
pub record IncidentRemediationInput : Type 0 where
  pub incident : IncidentRef
  pub runbook : Runbook

-- What the database and the workflow service answer in one cycle.
pub record StarterWorld : Type 0 where
  pub list : Link
  pub start : IncidentRemediationInput → Option String
  pub mark : String → Link

module _ (w : StarterWorld) (catalog : List Runbook) (now : Time) where
  unfoldable pub runbook_for : Incident → Option Runbook
  unfolding find severity_text
  runbook_for inc = find catalog inc.rule_id inc.service_name (severity_text inc.severity)

  unfoldable pub input_of : Incident → Runbook → IncidentRemediationInput
  unfolding ref_of
  input_of inc rb = record { incident = ref_of inc; runbook = rb }

  unfoldable pub marked : Incident → Table → Table
  unfolding mark_remediated
  marked inc t = (mark_remediated (w.mark inc.id) now inc.id t).0

  -- The answer of StartRemediationWorkflow.
  unfoldable pub after_start :
      Option String
      → Incident
      → Runbook
      → (Table → Table × List IncidentRemediationInput)
      → Table
      → Table × List IncidentRemediationInput
  unfolding marked input_of
  after_start (some e) inc rb rest t = rest t
  after_start none inc rb rest t =
      let (t', started) = rest (marked inc t) in (t', input_of inc rb ∷ started)

  -- An incident that no runbook covers is marked without a start.
  unfoldable pub start_covered :
      Option Runbook
      → Incident
      → (Table → Table × List IncidentRemediationInput)
      → Table
      → Table × List IncidentRemediationInput
  unfolding after_start marked input_of
  start_covered none inc rest t = rest (marked inc t)
  start_covered (some rb) inc rest t = after_start (w.start (input_of inc rb)) inc rb rest t

  unfoldable pub start_each : List Incident → Table → Table × List IncidentRemediationInput
  unfolding start_covered runbook_for
  start_each [] t = (t, [])
  start_each (inc ∷ incs) t = start_covered (runbook_for inc) inc (start_each incs) t

  unfoldable pub start_listed :
      Result StoreError (List Incident)
      → Table
      → Table × Result StoreError (List IncidentRemediationInput)
  unfolding start_each
  start_listed (err e) t = (t, err e)
  start_listed (ok incs) t = let (t', started) = start_each incs t in (t', ok started)

  -- StartPending, with the workflows that it started.
  unfoldable pub start_pending :
      (String → Option Details)
      → ℕ
      → Table
      → Table × Result StoreError (List IncidentRemediationInput)
  unfolding start_listed list_open_pending open_unremediated
  start_pending unmarshal batch_size t =
      start_listed (list_open_pending unmarshal w.list open_unremediated batch_size t) t

abbrev pub started_ids : List IncidentRemediationInput → List String
started_ids = map (λ (i : IncidentRemediationInput). i.incident.id)

module _ (w : StarterWorld) (catalog : List Runbook) (now : Time) where
  marking : List String → Table → Table
  marking =
      mark_all (λ r. is_null r.remediated_at) open_unremediated (remediate_row now)
        (remediate_row-IsMark now) w.mark

  mark_remediated-mark_with :
      (link : Link) (id : String) (t : Table)
      → (mark_remediated link now id t).0
        ≡ mark_with
            (λ r. is_null r.remediated_at)
            open_unremediated
            (remediate_row now)
            (remediate_row-IsMark now)
            link
            id
            t
  unfolding mark_remediated exec mark_with mark_where
  mark_remediated-mark_with up id t = refl
  mark_remediated-mark_with (lost e) id t = refl
  mark_remediated-mark_with (refused e) id t = refl

  marking-marked :
      (inc : Incident) (ids : List String) (t : Table)
      → marking ids (marked w catalog now inc t) ≡ marking (inc.id ∷ ids) t
  unfolding marking mark_all marked
  marking-marked inc ids t = ap (marking ids) (mark_remediated-mark_with (w.mark inc.id) inc.id t)

  -- The incidents that a cycle is through with: those that no runbook covers, and those it started.
  unfoldable pub after_handling : Option String → Incident → List String → List String
  after_handling none inc ids = inc.id ∷ ids
  after_handling (some e) inc ids = ids

  unfoldable pub handle : Option Runbook → Incident → List String → List String
  unfolding after_handling input_of
  handle none inc ids = inc.id ∷ ids
  handle (some rb) inc ids = after_handling (w.start (input_of w catalog now inc rb)) inc ids

  unfoldable pub handled : List Incident → List String
  unfolding handle runbook_for
  handled [] = []
  handled (inc ∷ incs) = handle (runbook_for w catalog now inc) inc (handled incs)

  after_start-marks :
      (o : Option String) (inc : Incident) (rb : Runbook)
      (rest : Table → Table × List IncidentRemediationInput) (ids : List String)
      → ((u : Table) → (rest u).0 ≡ marking ids u)
      → (t : Table)
      → (after_start w catalog now o inc rb rest t).0 ≡ marking (after_handling o inc ids) t
  unfolding after_start after_handling
  after_start-marks (some e) inc rb rest ids h t = h t
  after_start-marks none inc rb rest ids h t =
      h (marked w catalog now inc t) ∙ marking-marked inc ids t

  start_covered-marks :
      (o : Option Runbook) (inc : Incident) (rest : Table → Table × List IncidentRemediationInput)
      (ids : List String)
      → ((u : Table) → (rest u).0 ≡ marking ids u)
      → (t : Table) → (start_covered w catalog now o inc rest t).0 ≡ marking (handle o inc ids) t
  unfolding start_covered handle
  start_covered-marks none inc rest ids h t =
      h (marked w catalog now inc t) ∙ marking-marked inc ids t
  start_covered-marks (some rb) inc rest ids h t =
      after_start-marks (w.start (input_of w catalog now inc rb)) inc rb rest ids h t

  start_each-marks :
      (incs : List Incident) (t : Table)
      → (start_each w catalog now incs t).0 ≡ marking (handled incs) t
  unfolding start_each handled marking mark_all
  start_each-marks [] t = refl
  start_each-marks (inc ∷ incs) t =
      start_covered-marks (runbook_for w catalog now inc) inc (start_each w catalog now incs)
        (handled incs) (start_each-marks incs) t

  abbrev pub listed_of : Result StoreError (List Incident) → List Incident
  listed_of (err e) = []
  listed_of (ok l) = l

  start_listed-other :
      (l : Result StoreError (List Incident)) (t : Table) (id : String)
      → among id (handled (listed_of l)) ≡ false
      → select_where (has_id id) ((start_listed w catalog now l t).0) ≡ select_where (has_id id) t
  unfolding start_listed marking
  start_listed-other (err e) t id h = refl
  start_listed-other (ok incs) t id h =
      ap (select_where (has_id id)) (start_each-marks incs t)
      ∙ mark_all-other _ _ _ (remediate_row-IsMark now) w.mark _ id h t

  -- A cycle changes only rows of incidents that it listed and that no runbook covers or whose workflow
  -- it started: after a failed start the incident is pending as before.
  pub start_pending-other :
      (unmarshal : String → Option Details) (batch_size : ℕ) (t : Table) (id : String)
      → among id
          (handled (listed_of (list_open_pending unmarshal w.list open_unremediated batch_size t)))
        ≡ false
      → select_where (has_id id) ((start_pending w catalog now unmarshal batch_size t).0)
        ≡ select_where (has_id id) t
  unfolding start_pending
  start_pending-other unmarshal batch_size t id h =
      start_listed-other (list_open_pending unmarshal w.list open_unremediated batch_size t) t id h
