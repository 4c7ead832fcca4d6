-- ===== src/Scenarios/Pages.antt =====
-- Pages of a small event list, in the "C" collation, and a token with stand-ins for the codecs.
use Prim.Native.Char.{code}
use Prim.Native.String.{◌∷◌ as prepend, count}
use sentinel_flow_project.Base.{
  ℕ, zero, suc, String, ◌≡◌, ◌≢◌, refl, ap₂, subst, str_eq, str_eq_refl, Bool, true, false, ◌&&◌,
  ◌||◌, Option, none, some, [], ◌∷◌, arith, ltb, ◌==◌,
}
use sentinel_flow_project.Base.Int.{pos}
use sentinel_flow_project.Base.Time.{Time, zero_time}
use text.Mathlib.TextEquality.{Char-path}
use sentinel_flow_project.Severity.{error}
use sentinel_flow_project.Incident.{Status, status_open, status_resolved}
use sentinel_flow_project.Store.Incidents.{Row, Table}
use sentinel_flow_project.Store.Events.{EventRow, EventTable}
use sentinel_flow_project.Scenarios.Incidents.{open_row}
use sentinel_flow_project.Store.Pages.{Cursor, start}
use sentinel_flow_project.Store.Pages.Order.{HasDistinctKeys}
use sentinel_flow_project.Store.Pages.Builder.{run_query}
use sentinel_flow_project.Store.Pages.Queries.{
  EventFilter, IncidentFilter, event_cell, incident_cell, event_key, build_event_list_query,
  build_incident_list_query,
}
use sentinel_flow_project.Store.Pages.Placeholders.{to_skip}
use sentinel_flow_project.Store.Pages.Selection.{
  fetched, selects_event, selects_incident, row_position, build_event_list_query-selects,
  build_incident_list_query-selects,
}
use sentinel_flow_project.Store.Pages.Walk.{walk}
use sentinel_flow_project.Store.Pages.Tokens.{Codec}
use sentinel_flow_project.Store.Pages.Listing.{
  IsCollation, event_pages, whole_list, walk-whole_list,
}

str_before : String → String → Bool
str_before String.[] String.[] = false
str_before String.[] (prepend d t) = true
str_before (prepend c s) String.[] = false
str_before (prepend c s) (prepend d t) =
    ltb (code c) (code d) || (code c == code d && str_before s t)

str_before_irrefl : (s : String) → str_before s s ≡ false
unfolding str_before
str_before_irrefl String.[] = refl
str_before_irrefl (prepend c s) = ground (arith, str_before_irrefl s)

str_before_trans :
    (s t u : String) → str_before s t ≡ true → str_before t u ≡ true → str_before s u ≡ true
unfolding str_before
str_before_trans String.[] String.[] u h k = ground arith
str_before_trans String.[] (prepend d t) String.[] h k = ground arith
str_before_trans String.[] (prepend d t) (prepend e u) h k = refl
str_before_trans (prepend c s) String.[] u h k = ground arith
str_before_trans (prepend c s) (prepend d t) String.[] h k = ground arith
str_before_trans (prepend c s) (prepend d t) (prepend e u) h k =
    ground (arith, str_before_trans s t u)

str_before_total : (s t : String) → str_before s t ≡ false → str_before t s ≡ false → s ≡ t
unfolding str_before
str_before_total String.[] String.[] h k = refl
str_before_total String.[] (prepend d t) h k = ground arith
str_before_total (prepend c s) String.[] h k = ground arith
str_before_total (prepend c s) (prepend d t) h k =
    ap₂ prepend (Char-path c d (ground arith)) (str_before_total s t (ground arith) (ground arith))

str_before-IsCollation : IsCollation str_before
str_before-IsCollation = record {
  irreflexive = str_before_irrefl;
  transitive = str_before_trans;
  total = str_before_total;
}

-- A stroke for each nanosecond, and a mark before the bytes.
strokes : Time → String
strokes zero = ""
strokes (suc t) = prepend "I" (strokes t)

strip : String → Option String
strip String.[] = none
strip (prepend c s) = some s

abbrev stroke_codec : Codec
stroke_codec = record {
  encode_bytes = λ s. prepend "~" s;
  decode_bytes = strip;
  format_time = strokes;
  parse_time = λ s. some (count s);
}

-- Two failures of one service at one instant, an older one, and an event of another tenant.
abbrev pub event_of : String → String → Time → EventRow
event_of id tenant t = record {
  event = record {
    event_id = id;
    schema_version = "1.0";
    tenant_id = tenant;
    service_name = "checkout";
    environment = "prod";
    event_type = "request";
    severity = error;
    timestamp = t;
    trace_id = "";
    attributes = none;
  };
  received_at = 90;
}

abbrev four_events : EventTable
four_events =
    event_of "a" "acme" 7
    ∷ event_of "b" "acme" 8
    ∷ event_of "c" "other" 8
    ∷ event_of "d" "acme" 8
    ∷ []

abbrev acme_pages : EventFilter
acme_pages = record {
  tenant_id = "acme";
  service_name = "";
  severity = "";
  event_type = "";
  trace_id = "";
  since = zero_time;
  until = zero_time;
  limit = pos 2;
  offset = pos 0;
  from = start;
}

abbrev open_incidents : IncidentFilter
open_incidents = record {
  status = "open";
  tenant_id = "";
  service_name = "checkout";
  severity = "";
  limit = pos 1;
  offset = pos 0;
  from = record { time = 150; id = "22222222-2222-4222-8222-222222222222" };
}

abbrev row_of : String → Status → ℕ → Row
row_of id status seen = record open_row { id = id; status = status; last_seen_at = seen }

-- After the row of the cursor come, of the open ones, the row of the same instant and a smaller id, then
-- those of earlier instants.
abbrev incident_rows : Table
incident_rows =
    row_of "11111111-1111-4111-8111-111111111111" status_open 150
    ∷ row_of "22222222-2222-4222-8222-222222222222" status_open 150
    ∷ row_of "33333333-3333-4333-8333-333333333333" status_open 150
    ∷ row_of "44444444-4444-4444-8444-444444444444" status_resolved 140
    ∷ row_of "55555555-5555-4555-8555-555555555555" status_open 120
    ∷ row_of "66666666-6666-4666-8666-666666666666" status_open 130
    ∷ []

build_event_list_query-selects_example :
    run_query str_before event_cell (build_event_list_query acme_pages).0 four_events
    ≡ some (
        fetched str_before event_key
          (pos 2)
          (pos 0)
          (selects_event str_before acme_pages)
          four_events)
build_event_list_query-selects_example =
    build_event_list_query-selects str_before acme_pages four_events

build_incident_list_query-selects_example :
    run_query str_before incident_cell (build_incident_list_query open_incidents).0 incident_rows
    ≡ some (
        fetched str_before row_position
          (pos 1)
          (pos 0)
          (selects_incident str_before open_incidents)
          incident_rows)
build_incident_list_query-selects_example =
    build_incident_list_query-selects str_before open_incidents incident_rows

-- A page of one and the extra row.
fetched_incidents :
    fetched str_before row_position
      (pos 1)
      (pos 0)
      (selects_incident str_before open_incidents)
      incident_rows
    ≡ row_of "11111111-1111-4111-8111-111111111111" status_open 150
      ∷ row_of "66666666-6666-4666-8666-666666666666" status_open 130
      ∷ []
unfolding fetched selects_incident str_before
fetched_incidents = refl

ids_differ : (a b : Cursor) → str_eq a.id b.id ≡ false → a ≢ b
ids_differ a b h e =
    let same : str_eq a.id b.id ≡ true =
      subst (λ c. str_eq a.id c.id ≡ true) e (str_eq_refl a.id) in
    ground arith

four_keys : HasDistinctKeys event_key four_events
four_keys =
    let differ = λ (i : String) (t : Time) (j : String) (u : Time).
      ids_differ (record { time = t; id = i }) (record { time = u; id = j }) in
    (
      (differ "b" 8 "a" 7 refl, (differ "c" 8 "a" 7 refl, (differ "d" 8 "a" 7 refl, tt))),
      (
        (differ "c" 8 "b" 8 refl, (differ "d" 8 "b" 8 refl, tt)),
        ((differ "d" 8 "c" 8 refl, tt), (tt, tt)),
      ),
    )

walk-whole_list_example :
    walk (event_pages str_before str_before-IsCollation acme_pages four_events) 5 start
    ≡ some (whole_list str_before str_before-IsCollation acme_pages four_events)
unfolding to_skip
walk-whole_list_example =
    walk-whole_list str_before str_before-IsCollation acme_pages four_events four_keys
      (refl, (refl, (refl, (refl, tt)))) refl 5 (ground arith)

-- Three rows in pages of two: the two at instant 8 by their ids, then the one at instant 7.
whole_list_order :
    whole_list str_before str_before-IsCollation acme_pages four_events
    ≡ event_of "d" "acme" 8 ∷ event_of "b" "acme" 8 ∷ event_of "a" "acme" 7 ∷ []
unfolding whole_list str_before
whole_list_order = refl
