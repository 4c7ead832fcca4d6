-- ===== src/Ingest/Batch.antt =====
-- internal/ingest/batch.go: PostEventBatch, which sorts the events of a request one by one.
use Prim.Native.String.{◌++◌ as append}
use sentinel_flow_project.Base.{
  ℕ, suc, String, Option, none, some, List, [], ◌∷◌, ltb, ◌==◌, if◌then◌else◌, length,
}
use sentinel_flow_project.Base.Results.{Result, ok, err}
use sentinel_flow_project.Event.{Event, ValidationErrors}
use sentinel_flow_project.Event.Freshness.{validate_within}
use sentinel_flow_project.Ingest.{
  Handler, Request, Outside, BatchItemError, Response, batch_response, error_response, DecodeError,
  error_with, unsupported, unsupported_media_type, trailing_content, decode_response, prepare,
}

-- The two slices that the loop fills.
pub record Sorted : Type 0 where
  pub accepted : List Event
  pub rejected : List BatchItemError

unfoldable pub put : Result BatchItemError Event → Sorted → Sorted
put (ok e) s = record s { accepted = e ∷ s.accepted }
put (err x) s = record s { rejected = x ∷ s.rejected }

abbrev pub empty_batch : Response
empty_batch = error_with 400 "empty_batch" "events must contain at least one event"

abbrev pub batch_too_large : (ℕ → String) → ℕ → Response
batch_too_large decimal n =
    error_with 413 "batch_too_large"
      (append "a batch may contain at most " (append (decimal n) " events"))

module _ (o : Outside) (h : Handler) (r : Request) where
  unfoldable pub validated :
      ℕ → Event → Result ValidationErrors (Unit {0}) → Result BatchItemError Event
  validated i e (ok u) = ok e
  validated i e (err details) = err (record {
    index = i;
    event_id = e.event_id;
    error = "validation_failed";
    message = "";
    details = details;
  })

  unfoldable pub prepared_item : Result String Event → Result String Event
  unfolding prepare
  prepared_item (err message) = err message
  prepared_item (ok e) = ok (prepare o.lower r.span e)

  -- decodeBatchEvent
  unfoldable pub decode_batch_event : String → Result String Event
  unfolding prepared_item
  decode_batch_event raw = prepared_item (o.decode_item raw)

  unfoldable pub verdict : ℕ → Result String Event → Result BatchItemError Event
  unfolding validated validate_within
  verdict i (err message) =
      err (record {
        index = i;
        event_id = "";
        error = "invalid_json";
        message = message;
        details = [];
      })
  verdict i (ok e) = validated i e (validate_within o.is_uuid h.bounds r.now e)

  -- The loop over req.Events, from number i.
  unfoldable pub sort_out : ℕ → List String → Sorted
  unfolding put verdict decode_batch_event
  sort_out i [] = record { accepted = []; rejected = [] }
  sort_out i (raw ∷ raws) = put (verdict i (decode_batch_event raw)) (sort_out (suc i) raws)

  unfoldable pub after_publish_batch : Sorted → Option String → Response × List Event
  after_publish_batch s (some x) = (
    record {
      status = 503;
      retry_after = "1";
      body =
          error_response "publish_failed" "the batch could not be durably queued; retry the request"
            [];
    },
    [],
  )
  after_publish_batch s none = (
    record {
      status = 202;
      retry_after = "";
      body = batch_response "accepted" (length s.accepted) (length s.rejected) s.rejected;
    },
    s.accepted,
  )

  unfoldable pub publish_accepted : List Event → Sorted → Response × List Event
  unfolding after_publish_batch
  publish_accepted [] s = (
    record {
      status = 400;
      retry_after = "";
      body = batch_response "rejected" 0 (length s.rejected) s.rejected;
    },
    [],
  )
  publish_accepted (e ∷ es) s = after_publish_batch s (o.publish_batch s.accepted)

  unfoldable pub after_sort : Sorted → Response × List Event
  unfolding publish_accepted
  after_sort s = publish_accepted s.accepted s

  unfoldable pub after_envelope : Result DecodeError (List String) → Response × List Event
  unfolding decode_response sort_out after_sort
  after_envelope (err x) = (decode_response x, [])
  after_envelope (ok raws) =
      if o.ends h.max_batch_bytes r.body
      then (if length raws == 0
          then (empty_batch, [])
          else if ltb h.max_batch_events (length raws)
          then (batch_too_large o.decimal h.max_batch_events, [])
          else after_sort (sort_out 0 raws))
      else (trailing_content, [])

  -- PostEventBatch
  unfoldable pub post_event_batch : Response × List Event
  unfolding after_envelope unsupported
  post_event_batch =
      if unsupported o.lower r.content_type
      then (unsupported_media_type, [])
      else after_envelope (o.decode_envelope h.max_batch_bytes r.body)
