-- ===== src/Ingest.antt =====
-- internal/ingest: the HTTP handlers that validate events and hand the accepted ones to Kafka.
pub mod Batch
pub mod Accepted
pub mod Report
pub mod Survival
use Prim.Native.Char.{Char, code}
use Prim.Native.String.{◌∷◌ as prepend, ◌++◌ as append}
use sentinel_flow_project.Base.{
  ℕ, suc, ◌+◌, ◌*◌, String, Bool, true, false, not, ◌&&◌, ◌||◌, Option, none, some, List, [], ◌∷◌,
  str_eq, ◌==◌, if◌then◌else◌,
}
use sentinel_flow_project.Base.Int.{ℤ, pos_part, positive}
use sentinel_flow_project.Base.Results.{Result, ok, err}
use sentinel_flow_project.Base.Text.{is_empty, trim_space}
use sentinel_flow_project.Base.Time.{Time}
use sentinel_flow_project.Event.{Event, ValidationErrors, normalize, to_lower}
use sentinel_flow_project.Event.Freshness.{TimeBounds, validate_within}

-- Options, without the publisher, the logger and the clock.
pub record Options : Type 0 where
  pub max_body_bytes : ℤ
  pub max_batch_bytes : ℤ
  pub max_batch_events : ℤ
  pub bounds : TimeBounds

pub record Handler : Type 0 where
  pub max_body_bytes : ℕ
  pub max_batch_bytes : ℕ
  pub max_batch_events : ℕ
  pub bounds : TimeBounds

abbrev positive_or : ℤ → ℕ → ℕ
positive_or n d = if positive n then pos_part n else d

-- NewHandler
unfoldable pub new_handler : Options → Handler
new_handler opts = record {
  max_body_bytes = positive_or opts.max_body_bytes (64 * 1024);
  max_batch_bytes = positive_or opts.max_batch_bytes (5 * 1024 * 1024);
  max_batch_events = positive_or opts.max_batch_events 1000;
  bounds = opts.bounds;
}

-- An error of a JSON decoder, by the first test of writeDecodeError that it meets.
pub data DecodeError : Type 0 where
  too_many_bytes end_of_file : DecodeError
  wrong_type : String → String → DecodeError
  bad_syntax other_error : String → DecodeError

-- A request: its headers and body, the trace id of a valid span, and the time it is handled at.
pub record Request : Type 0 where
  pub content_type : String
  pub body : String
  pub span : Option String
  pub now : Time

-- What is not in the repository: uuid.Parse, unicode.ToLower, encoding/json over a body cut at so many
-- bytes, whether its second Decode meets the end, %d of fmt, and how the brokers answer.
pub record Outside : Type 0 where
  pub is_uuid : String → Bool
  pub lower : Char → Char
  pub decode_event : ℕ → String → Result DecodeError Event
  pub decode_envelope : ℕ → String → Result DecodeError (List String)
  pub decode_item : String → Result String Event
  pub ends : ℕ → String → Bool
  pub decimal : ℕ → String
  pub publish : Event → Option String
  pub publish_batch : List Event → Option String

-- batchItemError
pub record BatchItemError : Type 0 where
  pub index : ℕ
  pub event_id : String
  pub error : String
  pub message : String
  pub details : ValidationErrors

-- errorResponse, acceptedResponse and batchResponse.
pub data Body : Type 0 where
  error_response : String → String → ValidationErrors → Body
  accepted_response : String → String → String → Body
  batch_response : String → ℕ → ℕ → List BatchItemError → Body

pub record Response : Type 0 where
  pub status : ℕ
  pub retry_after : String
  pub body : Body

abbrev pub error_with : ℕ → String → String → Response
error_with status error message = record {
  status = status;
  retry_after = "";
  body = error_response error message [];
}

-- strings.IndexByte(s, ';'), and what stands before it.
unfoldable pub before_semicolon : String → String
before_semicolon String.[] = String.[]
before_semicolon (prepend c s) =
    let rest = before_semicolon s in if code c == 59 then String.[] else prepend c rest

unfoldable pub has_suffix : String → String → Bool
has_suffix suffix String.[] = is_empty suffix
has_suffix suffix (prepend c s) = str_eq (prepend c s) suffix || has_suffix suffix s

-- isJSONContentType
unfoldable pub is_json_content_type : (Char → Char) → String → Bool
unfolding before_semicolon has_suffix to_lower trim_space
is_json_content_type lower content_type =
    let media_type = to_lower lower (trim_space (before_semicolon content_type)) in
    str_eq media_type "application/json" || has_suffix "+json" media_type

unfoldable pub unsupported : (Char → Char) → String → Bool
unfolding is_json_content_type
unsupported lower content_type =
    not (is_empty content_type) && not (is_json_content_type lower content_type)

abbrev pub unsupported_media_type : Response
unsupported_media_type =
    error_with 415 "unsupported_media_type" "Content-Type must be application/json"

-- writeDecodeError
unfoldable pub decode_response : DecodeError → Response
decode_response too_many_bytes =
    error_with 413 "payload_too_large" "request body exceeds the maximum accepted size"
decode_response end_of_file = error_with 400 "invalid_json" "request body is empty"
decode_response (wrong_type field type) =
    error_with 400 "invalid_json" (append "field " (append field (append " must be of type " type)))
decode_response (bad_syntax message) =
    error_with 400 "invalid_json" (append "request body is not valid JSON: " message)
decode_response (other_error message) = error_with 400 "invalid_json" message

abbrev pub trailing_content : Response
trailing_content = error_with 400 "invalid_json" "request body must contain exactly one JSON object"

-- An event without a trace id inherits that of the request.
unfoldable pub inherit_trace : Option String → Event → Event
inherit_trace none e = e
inherit_trace (some id) e = if is_empty e.trace_id then record e { trace_id = id } else e

unfoldable pub prepare : (Char → Char) → Option String → Event → Event
unfolding normalize inherit_trace
prepare lower span e = inherit_trace span (normalize lower e)

module _ (o : Outside) (h : Handler) (r : Request) where
  -- The response, with the events that the brokers acknowledged.
  unfoldable pub after_publish : Event → Option String → Response × List Event
  after_publish e none = (
    record {
      status = 202;
      retry_after = "";
      body = accepted_response "accepted" e.event_id e.trace_id;
    },
    e ∷ [],
  )
  after_publish e (some x) = (
    record {
      status = 503;
      retry_after = "1";
      body =
          error_response "publish_failed" "the event could not be durably queued; retry the request"
            [];
    },
    [],
  )

  unfoldable pub after_validation :
      Event → Result ValidationErrors (Unit {0}) → Response × List Event
  unfolding after_publish
  after_validation e (err details) = (
    record {
      status = 400;
      retry_after = "";
      body =
          error_response "validation_failed"
            "the event does not satisfy the telemetry event contract" details;
    },
    [],
  )
  after_validation e (ok u) = after_publish e (o.publish e)

  unfoldable pub after_decode : Result DecodeError Event → Response × List Event
  unfolding decode_response prepare after_validation validate_within
  after_decode (err x) = (decode_response x, [])
  after_decode (ok e) =
      let e' = prepare o.lower r.span e in
      if o.ends h.max_body_bytes r.body
      then after_validation e' (validate_within o.is_uuid h.bounds r.now e')
      else (trailing_content, [])

  -- PostEvent
  unfoldable pub post_event : Response × List Event
  unfolding after_decode unsupported
  post_event =
      if unsupported o.lower r.content_type
      then (unsupported_media_type, [])
      else after_decode (o.decode_event h.max_body_bytes r.body)
