-- ===== src/IncidentApi/Queries.antt =====
-- internal/incidentapi/handler.go: the filters read from a query string, and the two list handlers.
use sentinel_flow_project.Base.{
  String, Bool, false, ◌&&◌, ◌||◌, not, Option, none, some, List, [], ◌∷◌, str_eq, if◌then◌else◌,
  length,
}
use sentinel_flow_project.Base.Int.{ℤ, pos, negsuc, positive}
use sentinel_flow_project.Base.Results.{Result, ok, err, ◌>>=◌}
use sentinel_flow_project.Base.Text.{is_empty}
use sentinel_flow_project.Base.Time.{Time, zero_time}
use sentinel_flow_project.Severity.{supported_severities}
use sentinel_flow_project.Incident.{
  Incident, status_text, status_open, status_acknowledged, status_resolved,
}
use sentinel_flow_project.Store.Database.{StoreError}
use sentinel_flow_project.Store.Events.{EventRow}
use sentinel_flow_project.Store.Pages.{Cursor, is_start}
use sentinel_flow_project.Store.Pages.Tokens.{
  Codec, TokenError, not_a_token, malformed, bad_timestamp, encode, decode_cursor,
}
use sentinel_flow_project.Store.Pages.Queries.{IncidentFilter, EventFilter}
use sentinel_flow_project.IncidentApi.{Response, error_response, incidents_body, events_body}

pub data QueryError : Type 0 where
  bad_status bad_severity bad_limit bad_offset bad_since bad_until cursor_and_offset : QueryError
  bad_cursor : TokenError → QueryError

-- The text of an error.
unfoldable pub query_message : QueryError → String
query_message bad_status = "status must be one of open, acknowledged, resolved"
query_message bad_severity = "severity must be one of debug, info, warn, error, critical"
query_message bad_limit = "limit must be a non-negative integer"
query_message bad_offset = "offset must be a non-negative integer"
query_message bad_since = "since must be an RFC3339 timestamp"
query_message bad_until = "until must be an RFC3339 timestamp"
query_message cursor_and_offset = "cursor and offset cannot be combined; use one or the other"
query_message (bad_cursor not_a_token) = "cursor is not a valid token"
query_message (bad_cursor malformed) = "cursor is malformed"
query_message (bad_cursor bad_timestamp) = "cursor carries an invalid timestamp"

-- q.Get of a query string; strconv.Atoi and time.Parse are Go's.
pub record QueryReader : Type 0 where
  pub atoi : String → Option ℤ
  pub parse_rfc3339 : String → Option Time
  pub codec : Codec

abbrev pub Query : Type 0
Query = String → String

unfoldable pub one_of : String → List String → Bool
one_of s [] = false
one_of s (x ∷ xs) = str_eq s x || one_of s xs

-- validateSeverity
unfoldable pub validate_severity : String → Result QueryError (Unit {0})
unfolding one_of supported_severities
validate_severity s =
    if is_empty s || one_of s supported_severities then ok tt else err bad_severity

-- Status(s).Valid(), of a text.
unfoldable pub validate_status : String → Result QueryError (Unit {0})
unfolding one_of status_text
validate_status s =
    if is_empty s
      || one_of s (
          status_text status_open
          ∷ status_text status_acknowledged
          ∷ status_text status_resolved
          ∷ [])
    then ok tt
    else err bad_status

unfoldable pub non_negative : QueryError → Option ℤ → Result QueryError ℤ
non_negative e none = err e
non_negative e (some (negsuc n)) = err e
non_negative e (some (pos n)) = ok (pos n)

unfoldable pub parsed_time : QueryError → Option Time → Result QueryError Time
parsed_time e none = err e
parsed_time e (some t) = ok t

unfoldable pub cursor_result : Result TokenError Cursor → Result QueryError Cursor
cursor_result (err e) = err (bad_cursor e)
cursor_result (ok c) = ok c

pub record Pagination : Type 0 where
  pub limit : ℤ
  pub offset : ℤ
  pub from : Cursor

unfoldable pub combined : ℤ → ℤ → Cursor → Result QueryError Pagination
unfolding is_start
combined limit offset from =
    if not (is_start from) && positive offset
    then err cursor_and_offset
    else ok (record { limit = limit; offset = offset; from = from })

module _ (k : QueryReader) (q : Query) where
  -- parseNonNegative
  unfoldable pub parse_non_negative : QueryError → String → Result QueryError ℤ
  unfolding non_negative
  parse_non_negative e raw = if is_empty raw then ok (pos 0) else non_negative e (k.atoi raw)

  -- parseTime
  unfoldable pub parse_time : QueryError → String → Result QueryError Time
  unfolding parsed_time
  parse_time e raw = if is_empty raw then ok zero_time else parsed_time e (k.parse_rfc3339 raw)

  -- parsePagination
  unfoldable pub parse_pagination : Result QueryError Pagination
  unfolding parse_non_negative cursor_result decode_cursor combined
  parse_pagination = parse_non_negative bad_limit (q "limit") >>= λ limit.
      parse_non_negative bad_offset (q "offset") >>= λ offset.
      cursor_result (decode_cursor k.codec (q "cursor")) >>= λ from. combined limit offset from

  -- parseIncidentFilter
  unfoldable pub parse_incident_filter : Result QueryError IncidentFilter
  unfolding validate_status validate_severity parse_pagination
  parse_incident_filter = validate_status (q "status") >>= λ u.
      validate_severity (q "severity") >>= λ v. parse_pagination >>= λ p. ok (record {
        status = q "status";
        tenant_id = q "tenant_id";
        service_name = q "service";
        severity = q "severity";
        limit = p.limit;
        offset = p.offset;
        from = p.from;
      })

  -- parseEventFilter
  unfoldable pub parse_event_filter : Result QueryError EventFilter
  unfolding validate_severity parse_time parse_pagination
  parse_event_filter = validate_severity (q "severity") >>= λ v.
      parse_time bad_since (q "since") >>= λ since. parse_time bad_until (q "until") >>= λ until.
      parse_pagination >>= λ p. ok (record {
        tenant_id = q "tenant_id";
        service_name = q "service";
        severity = q "severity";
        event_type = q "event_type";
        trace_id = q "trace_id";
        since = since;
        until = until;
        limit = p.limit;
        offset = p.offset;
        from = p.from;
      })

  unfoldable pub incidents_answer : Result StoreError (List Incident × Cursor) → Response
  unfolding encode
  incidents_answer (err e) = error_response 500 "internal_error" "could not list incidents"
  incidents_answer (ok (incs, next)) = record {
    status = 200;
    body = incidents_body incs (length incs) (encode k.codec next);
  }

  unfoldable pub events_answer : Result StoreError (List EventRow × Cursor) → Response
  unfolding encode
  events_answer (err e) = error_response 500 "internal_error" "could not list events"
  events_answer (ok (events, next)) = record {
    status = 200;
    body = events_body events (length events) (encode k.codec next);
  }

  -- ListIncidents and ListEvents, over what the store answers to a filter.
  unfoldable pub list_incidents_page :
      (IncidentFilter → Result StoreError (List Incident × Cursor)) → Response
  unfolding parse_incident_filter incidents_answer query_message
  list_incidents_page list = elim parse_incident_filter [
    | err e ↦ error_response 400 "invalid_query" (query_message e)
    | ok f ↦ incidents_answer (list f)
  ]

  unfoldable pub list_events_page :
      (EventFilter → Result StoreError (List EventRow × Cursor)) → Response
  unfolding parse_event_filter events_answer query_message
  list_events_page list = elim parse_event_filter [
    | err e ↦ error_response 400 "invalid_query" (query_message e)
    | ok f ↦ events_answer (list f)
  ]
