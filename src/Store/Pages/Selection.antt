-- ===== src/Store/Pages/Selection.antt =====
-- internal/store/incidents.go and events.go: what the rows of a list query are, read off its filter.
use sentinel_flow_project.Base.{
  suc, String, ◌≡◌, refl, Bool, ◌||◌, some, List, [], ◌∷◌, ◌++◌, str_eq, leb, take, drop,
}
use sentinel_flow_project.Base.Int.{ℤ}
use sentinel_flow_project.Base.Text.{is_empty}
use sentinel_flow_project.Base.Time.{is_zero}
use sentinel_flow_project.Severity.{severity_text}
use sentinel_flow_project.Incident.{status_text}
use sentinel_flow_project.Store.Incidents.{Row, Table}
use sentinel_flow_project.Store.Events.{EventRow, EventTable}
use sentinel_flow_project.Store.Pages.{Cursor, is_start, normalize_limit}
use sentinel_flow_project.Store.Pages.Order.{filter, order_by}
use sentinel_flow_project.Store.Pages.Builder.{
  at_least, at_most, cursor_before, holds, holds_at, run_query,
}
use sentinel_flow_project.Store.Pages.Queries.{
  IncidentFilter, EventFilter, IncidentColumn, EventColumn, incident_cell, event_cell, event_key,
  build_incident_list_query, build_event_list_query,
}
use sentinel_flow_project.Store.Pages.Placeholders.{
  all_of, to_skip, empty-Means, add_text-Means, add_instant-Means, after-Means, paginate-Means,
}

abbrev pub row_position : Row → Cursor
row_position r = record { time = r.last_seen_at; id = r.id }

-- A field that is set asks for equality with its column, and a cursor for a row that stands after it.
unfoldable pub selects_incident : (String → String → Bool) → IncidentFilter → Row → Bool
unfolding all_of is_start cursor_before status_text severity_text
selects_incident collates f r = all_of (
    (is_empty f.status || str_eq (status_text r.status) f.status)
    ∷ (is_empty f.tenant_id || str_eq r.tenant_id f.tenant_id)
    ∷ (is_empty f.service_name || str_eq r.service_name f.service_name)
    ∷ (is_empty f.severity || str_eq (severity_text r.severity) f.severity)
    ∷ (is_start f.from || cursor_before collates (row_position r) f.from)
    ∷ [])

unfoldable pub event_tests : EventFilter → EventRow → List Bool
unfolding is_zero severity_text
event_tests f r =
    (is_empty f.tenant_id || str_eq r.event.tenant_id f.tenant_id)
    ∷ (is_empty f.service_name || str_eq r.event.service_name f.service_name)
    ∷ (is_empty f.severity || str_eq (severity_text r.event.severity) f.severity)
    ∷ (is_empty f.event_type || str_eq r.event.event_type f.event_type)
    ∷ (is_empty f.trace_id || str_eq r.event.trace_id f.trace_id)
    ∷ (is_zero f.since || leb f.since r.event.timestamp)
    ∷ (is_zero f.until || leb r.event.timestamp f.until)
    ∷ []

unfoldable pub selects_event : (String → String → Bool) → EventFilter → EventRow → Bool
unfolding all_of event_tests is_start cursor_before
selects_event collates f r =
    all_of
      (event_tests f r ++ (is_start f.from || cursor_before collates (event_key r) f.from) ∷ [])

-- The rows asked for: those selected, newest first, one more than the page, past the offset.
unfoldable pub fetched :
    {A : Type 0} → (String → String → Bool) → (A → Cursor) → ℤ → ℤ → (A → Bool) → List A → List A
unfolding normalize_limit to_skip order_by cursor_before filter
fetched collates key limit offset p t =
    take (suc (normalize_limit limit))
      (drop (to_skip offset) (order_by (cursor_before collates) key (filter p t)))

-- PostgreSQL, given the query and the arguments that List builds, answers exactly the rows that the
-- filter selects, ordered by last_seen_at and id, from the offset on, one more than the page holds.
pub build_incident_list_query-selects :
    (collates : String → String → Bool) (f : IncidentFilter) (t : Table)
    → run_query collates incident_cell (build_incident_list_query f).0 t
      ≡ some (fetched collates row_position f.limit f.offset (selects_incident collates f) t)
unfolding build_incident_list_query selects_incident fetched
build_incident_list_query-selects collates f t =
    let status = IncidentColumn.status_column in
    let tenant = IncidentColumn.tenant_column in
    let service = IncidentColumn.service_column in
    let severity = IncidentColumn.severity_column in
    let seen = IncidentColumn.last_seen_column in
    let id = IncidentColumn.id_column in
    let m₁ =
      add_text-Means collates incident_cell status f.status (empty-Means collates incident_cell) in
    let m₂ = add_text-Means collates incident_cell tenant f.tenant_id m₁ in
    let m₃ = add_text-Means collates incident_cell service f.service_name m₂ in
    let m₄ = add_text-Means collates incident_cell severity f.severity m₃ in
    let m₅ = after-Means collates incident_cell seen id f.from m₄ (λ r. refl) in
    paginate-Means collates incident_cell seen id f.limit f.offset m₅ t

-- PostgreSQL, given the query and the arguments that ListEvents builds, answers exactly the events
-- that the filter selects, its bounds on time included, ordered by event_timestamp and event_id, from
-- the offset on, one more than the page holds.
pub build_event_list_query-selects :
    (collates : String → String → Bool) (f : EventFilter) (t : EventTable)
    → run_query collates event_cell (build_event_list_query f).0 t
      ≡ some (fetched collates event_key f.limit f.offset (selects_event collates f) t)
unfolding build_event_list_query selects_event event_tests fetched holds holds_at
build_event_list_query-selects collates f t =
    let tenant = EventColumn.tenant_column in
    let service = EventColumn.service_column in
    let severity = EventColumn.severity_column in
    let type = EventColumn.type_column in
    let trace = EventColumn.trace_column in
    let stamp = EventColumn.timestamp_column in
    let id = EventColumn.event_id_column in
    let m₁ =
      add_text-Means collates event_cell tenant f.tenant_id (empty-Means collates event_cell) in
    let m₂ = add_text-Means collates event_cell service f.service_name m₁ in
    let m₃ = add_text-Means collates event_cell severity f.severity m₂ in
    let m₄ = add_text-Means collates event_cell type f.event_type m₃ in
    let m₅ = add_text-Means collates event_cell trace f.trace_id m₄ in
    let m₆ =
      add_instant-Means collates event_cell (at_least stamp) f.since
        (λ r. leb f.since r.event.timestamp) m₅ (λ args n r found. rw found) in
    let m₇ =
      add_instant-Means collates event_cell (at_most stamp) f.until
        (λ r. leb r.event.timestamp f.until) m₆ (λ args n r found. rw found) in
    let m₈ = after-Means collates event_cell stamp id f.from m₇ (λ r. refl) in
    paginate-Means collates event_cell stamp id f.limit f.offset m₈ t
