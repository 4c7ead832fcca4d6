-- ===== src/Store/Pages/Queries.antt =====
-- internal/store/incidents.go and events.go: the list queries and the pages that they answer.
use sentinel_flow_project.Base.{
  ℕ, ◌-◌, String, Bool, Option, none, some, List, [], ◌∷◌, ltb, if◌then◌else◌, length, get_elem?,
  take,
}
use sentinel_flow_project.Base.Int.{ℤ}
use sentinel_flow_project.Base.Results.{Result, ok, err}
use sentinel_flow_project.Base.Time.{Time}
use sentinel_flow_project.Severity.{severity_text}
use sentinel_flow_project.Incident.{Incident, Details, status_text}
use sentinel_flow_project.Store.Database.{Link, StoreError, incident_not_found, database, exec}
use sentinel_flow_project.Store.Incidents.{Row, Table, has_id, find_row}
use sentinel_flow_project.Store.Incidents.Transitions.{scan_incident, open_pending}
use sentinel_flow_project.Store.Events.{EventRow, EventTable}
use sentinel_flow_project.Store.Pages.{Cursor, start}
use sentinel_flow_project.Store.Pages.Builder.{
  Value, text, instant, at_least, at_most, Query, empty_builder, add_text, add_instant, after,
  paginate, run_query,
}

-- IncidentFilter
pub record IncidentFilter : Type 0 where
  pub status : String
  pub tenant_id : String
  pub service_name : String
  pub severity : String
  pub limit : ℤ
  pub offset : ℤ
  pub from : Cursor

-- EventFilter
pub record EventFilter : Type 0 where
  pub tenant_id : String
  pub service_name : String
  pub severity : String
  pub event_type : String
  pub trace_id : String
  pub since : Time
  pub until : Time
  pub limit : ℤ
  pub offset : ℤ
  pub from : Cursor

-- The columns that the list queries name.
pub data IncidentColumn : Type 0 where
  id_column status_column tenant_column service_column severity_column last_seen_column :
      IncidentColumn

pub data EventColumn : Type 0 where
  event_id_column tenant_column service_column severity_column type_column trace_column
        timestamp_column :
      EventColumn

abbrev pub incident_cell : IncidentColumn → Row → Value
incident_cell IncidentColumn.id_column r = text r.id
incident_cell IncidentColumn.status_column r = text (status_text r.status)
incident_cell IncidentColumn.tenant_column r = text r.tenant_id
incident_cell IncidentColumn.service_column r = text r.service_name
incident_cell IncidentColumn.severity_column r = text (severity_text r.severity)
incident_cell IncidentColumn.last_seen_column r = instant r.last_seen_at

abbrev pub event_cell : EventColumn → EventRow → Value
event_cell EventColumn.event_id_column r = text r.event.event_id
event_cell EventColumn.tenant_column r = text r.event.tenant_id
event_cell EventColumn.service_column r = text r.event.service_name
event_cell EventColumn.severity_column r = text (severity_text r.event.severity)
event_cell EventColumn.type_column r = text r.event.event_type
event_cell EventColumn.trace_column r = text r.event.trace_id
event_cell EventColumn.timestamp_column r = instant r.event.timestamp

-- buildIncidentListQuery
unfoldable pub build_incident_list_query : IncidentFilter → Query IncidentColumn × ℕ
unfolding add_text after paginate
build_incident_list_query f =
    let b₁ = add_text IncidentColumn.status_column f.status empty_builder in
    let b₂ = add_text IncidentColumn.tenant_column f.tenant_id b₁ in
    let b₃ = add_text IncidentColumn.service_column f.service_name b₂ in
    let b₄ = add_text IncidentColumn.severity_column f.severity b₃ in
    let b₅ = after IncidentColumn.last_seen_column IncidentColumn.id_column f.from b₄ in
    paginate IncidentColumn.last_seen_column IncidentColumn.id_column f.limit f.offset b₅

-- buildEventListQuery
unfoldable pub build_event_list_query : EventFilter → Query EventColumn × ℕ
unfolding add_text add_instant after paginate
build_event_list_query f =
    let b₁ = add_text EventColumn.tenant_column f.tenant_id empty_builder in
    let b₂ = add_text EventColumn.service_column f.service_name b₁ in
    let b₃ = add_text EventColumn.severity_column f.severity b₂ in
    let b₄ = add_text EventColumn.type_column f.event_type b₃ in
    let b₅ = add_text EventColumn.trace_column f.trace_id b₄ in
    let b₆ = add_instant (at_least EventColumn.timestamp_column) f.since b₅ in
    let b₇ = add_instant (at_most EventColumn.timestamp_column) f.until b₆ in
    let b₈ = after EventColumn.timestamp_column EventColumn.event_id_column f.from b₇ in
    paginate EventColumn.timestamp_column EventColumn.event_id_column f.limit f.offset b₈

module _ {R A : Type 0} (scan : R → Result StoreError A) where
  -- rows.Next: the first row that fails to scan ends the read.
  unfoldable pub scan_rows : List R → Result StoreError (List A)
  scan_rows [] = ok []
  scan_rows (r ∷ rs) =
      let rest = scan_rows rs in
      elim (scan r) [ err e ↦ err e | ok a ↦ elim rest [ err e ↦ err e | ok list ↦ ok (a ∷ list) ] ]

module _ {A : Type 0} (key : A → Cursor) where
  unfoldable pub cursor_of : Option A → Cursor
  cursor_of none = start
  cursor_of (some a) = key a

  -- The extra row is dropped; the last row that is kept is the cursor.
  unfoldable pub cut_page : ℕ → List A → List A × Cursor
  unfolding cursor_of
  cut_page limit rows =
      let kept = take limit rows in
      if ltb limit (length rows)
      then (kept, cursor_of (get_elem? kept (length kept - 1)))
      else (rows, start)

  unfoldable pub page_of : ℕ → Result StoreError (List A) → Result StoreError (List A × Cursor)
  unfolding cut_page
  page_of limit (err e) = err e
  page_of limit (ok rows) = ok (cut_page limit rows)

-- The rows that PostgreSQL sends, or its refusal of the query.
unfoldable pub answer_rows : {A : Type 0} → Option (List A) → Result StoreError (List A)
answer_rows none = err (database "the query was refused")
answer_rows (some rows) = ok rows

unfoldable pub scan_answer :
    {R A : Type 0}
    → (R → Result StoreError A)
    → Result StoreError (List R)
    → Result StoreError (List A)
unfolding scan_rows
scan_answer scan (err e) = err e
scan_answer scan (ok rows) = scan_rows scan rows

abbrev pub incident_key : Incident → Cursor
incident_key inc = record { time = inc.last_seen_at; id = inc.id }

abbrev pub event_key : EventRow → Cursor
event_key r = record { time = r.event.timestamp; id = r.event.event_id }

module _ (collates : String → String → Bool) where
  -- List
  unfoldable pub list_incidents :
      (String → Option Details)
      → Link
      → IncidentFilter
      → Table
      → Result StoreError (List Incident × Cursor)
  unfolding exec build_incident_list_query run_query answer_rows scan_answer scan_incident page_of
  list_incidents unmarshal link f t =
      let (q, limit) = build_incident_list_query f in
      let sent = exec link (λ t. (t, answer_rows (run_query collates incident_cell q t))) t in
      page_of incident_key limit (scan_answer (scan_incident unmarshal) sent.1)

  -- ListEvents, with what scanStoredEvent makes of a row.
  unfoldable pub list_events :
      (EventRow → Result StoreError EventRow)
      → Link
      → EventFilter
      → EventTable
      → Result StoreError (List EventRow × Cursor)
  unfolding exec build_event_list_query run_query answer_rows scan_answer page_of
  list_events scan link f t =
      let (q, limit) = build_event_list_query f in
      let sent = exec link (λ t. (t, answer_rows (run_query collates event_cell q t))) t in
      page_of event_key limit (scan_answer scan sent.1)

-- Get
unfoldable pub get_row : Option Row → Result StoreError Row
get_row none = err incident_not_found
get_row (some r) = ok r

unfoldable pub scan_row :
    (String → Option Details) → Result StoreError Row → Result StoreError Incident
unfolding scan_incident
scan_row unmarshal (err e) = err e
scan_row unmarshal (ok r) = scan_incident unmarshal r

unfoldable pub get : (String → Option Details) → Link → String → Table → Result StoreError Incident
unfolding exec find_row has_id get_row scan_row
get unmarshal link id t =
    scan_row unmarshal (exec link (λ t. (t, get_row (find_row (has_id id) t))) t).1

-- listOpenPending: ListOpenUnalerted and ListOpenUnremediated, by the condition they share it with.
unfoldable pub list_open_pending :
    (String → Option Details) → Link → (Row → Bool) → ℕ → Table → Result StoreError (List Incident)
unfolding exec open_pending scan_answer scan_incident
list_open_pending unmarshal link pending limit t =
    scan_answer (scan_incident unmarshal)
      (exec link (λ t. (t, ok (open_pending pending limit t))) t).1
