-- ===== src/Scenarios/Ingest.antt =====
-- Requests to internal/ingest, and the engine that reads their events a day later.
use Prim.Native.String.{◌++◌ as append}
use sentinel_flow_project.Base.{
  ◌+◌, ◌≤◌, String, str_eq, ◌≡◌, ◌≢◌, refl, sym, true, none, some, [], ◌∷◌, arith, All, length,
  if◌then◌else◌, subst,
}
use sentinel_flow_project.Base.Int.{pos}
use sentinel_flow_project.Base.Results.{ok, err}
use sentinel_flow_project.Base.Time.{Time, second}
use sentinel_flow_project.Event.{Event}
use sentinel_flow_project.Event.Freshness.{future_only}
use sentinel_flow_project.Ingest.{Handler, Outside, Request, post_event}
use sentinel_flow_project.Ingest.Batch.{post_event_batch}
use sentinel_flow_project.Ingest.Report.{IsReport, post_event_batch-IsReport}
use sentinel_flow_project.Ingest.Survival.{HasPlainSpan, IsMatched, as_sent, post_event-survives}
use sentinel_flow_project.Engine.{Processor, accepted_event}
use sentinel_flow_project.Scenarios.Events.{
  noon, is_uuid, failure_event, bounds, bounds-InRange, lower_e, lower_e-IsLowering,
}

abbrev handler : Handler
handler = record {
  max_body_bytes = 65536;
  max_batch_bytes = 5242880;
  max_batch_events = 1000;
  bounds = bounds;
}

-- A JSON of two texts: the event, and one that does not decode.
abbrev outside : Outside
outside = record {
  is_uuid = is_uuid;
  lower = lower_e;
  decode_event = λ n s. ok failure_event;
  decode_envelope = λ n s. ok ("event" ∷ "{" ∷ "event" ∷ []);
  decode_item =
      λ s. if str_eq s "event" then ok failure_event else err "unexpected end of JSON input";
  ends = λ n s. true;
  decimal = λ n. "1000";
  publish = λ e. none;
  publish_batch = λ es. none;
}

abbrev request : Request
request = record { content_type = ""; body = "event"; span = none; now = noon + second }

abbrev written_event : String
written_event = "6f1c2d3e-4a5b-41ee-be56-0242ac120002 acme"

-- What it reads has no attributes where the event has an empty map of them.
abbrev processor : Processor
processor = record {
  retry = record { max_attempts = 5; base_delay = pos 1; max_delay = pos 5 };
  bounds = future_only bounds;
  decode = λ s. if str_eq s written_event then some (as_sent failure_event) else none;
  is_uuid = is_uuid;
  lower = lower_e;
}

-- A stand-in for json.Marshal that writes two of the fields.
abbrev marshal : Event → String
marshal e = append e.event_id (append " " e.tenant_id)

matched : IsMatched outside handler request processor marshal
matched = record { uuids = refl; lowering = refl; future = refl }

no_span : HasPlainSpan request
no_span id h = ground arith

accepted_request : (post_event outside handler request).0.status ≡ 202
unfolding post_event
accepted_request = refl

acknowledged : (post_event outside handler request).1 ≡ failure_event ∷ []
unfolding post_event
acknowledged = refl

post_event-survives_example :
    ((post_event outside handler request).0.status ≡ 202
      → 1 ≤ length (post_event outside handler request).1)
    × (((post_event outside handler request).0.status ≢ 202
          → (post_event outside handler request).1 ≡ [])
        × All
            (λ e.
              (later written : Time)
              → request.now ≤ later
              → accepted_event processor later (record { value = marshal e; timestamp = written })
                ≡ some e)
            (post_event outside handler request).1)
post_event-survives_example =
    post_event-survives outside handler request processor marshal matched lower_e-IsLowering
      bounds-InRange no_span
      (subst (All (λ e. processor.decode (marshal e) ≡ some (as_sent e))) (sym acknowledged)
        (refl, tt))

accepted_batch : (post_event_batch outside handler request).0.status ≡ 202
unfolding post_event_batch
accepted_batch = refl

post_event_batch-IsReport_example :
    IsReport outside handler request
      ("event" ∷ "{" ∷ "event" ∷ [])
      (post_event_batch outside handler request)
post_event_batch-IsReport_example =
    post_event_batch-IsReport outside handler request ("event" ∷ "{" ∷ "event" ∷ []) refl
      accepted_batch
