-- ===== src/Store/Events.antt =====
-- internal/store/events.go and postgres.go: the telemetry_events table, the idempotent insert, and
-- which database errors are worth retrying.
use Prim.Native.String.{len}
use sentinel_flow_project.Base.{
  String, Bool, true, false, ◌&&◌, ◌||◌, List, [], ◌∷◌, ◌++◌, str_eq, leb, ◌==◌, if◌then◌else◌,
}
use sentinel_flow_project.Base.Results.{Result, ok, err}
use sentinel_flow_project.Base.Time.{Time}
use sentinel_flow_project.Event.{Event}
use text.Mathlib.Text.{starts_with}

-- An error of the driver, named by the first test of IsRetryable that it meets.
pub data DriverError : Type 0 where
  canceled deadline_exceeded network safe_to_retry timeout conn_closed connect other : DriverError
  server : String → DriverError

unfoldable pub any_code : String → List String → Bool
any_code code [] = false
any_code code (c ∷ cs) = if str_eq code c then true else any_code code cs

abbrev retryable_codes : List String
retryable_codes =
    "40001" ∷ "40P01" ∷ "53300" ∷ "53400" ∷ "57P01" ∷ "57P02" ∷ "57P03" ∷ "58000" ∷ "58030" ∷ []

-- IsRetryable, of an error that is not nil.
unfoldable pub is_retryable : DriverError → Bool
unfolding any_code
is_retryable canceled = false
is_retryable (server code) =
    any_code code retryable_codes || (leb 2 (len code) && starts_with code "08")
is_retryable other = false
is_retryable _ = true

-- One row. processed_at and the columns that no query here reads are left out of the key.
pub record EventRow : Type 0 where
  pub event : Event
  pub received_at : Time

abbrev pub EventTable : Type 0
EventTable = List EventRow

-- The primary key (event_timestamp, event_id).
unfoldable pub same_key : Event → Event → Bool
same_key a b = a.timestamp == b.timestamp && str_eq a.event_id b.event_id

unfoldable pub stored : Event → EventTable → Bool
unfolding same_key
stored e [] = false
stored e (r ∷ rs) = same_key r.event e || stored e rs

-- insertEventSQL: ON CONFLICT (event_timestamp, event_id) DO NOTHING, with RowsAffected() == 1.
unfoldable pub insert_statement : Event → Time → EventTable → EventTable × Bool
unfolding stored
insert_statement e received_at t =
    if stored e t
    then (t, false)
    else (t ++ record { event = e; received_at = received_at } ∷ [], true)

-- The connection while the insert runs: it answers; it executes and the answer is lost; or it does
-- not execute, as when the attributes cannot be encoded.
pub data Attempt : Type 0 where
  answered : Attempt
  lost refused : DriverError → Attempt

-- Insert
unfoldable pub insert : Attempt → Event → Time → EventTable → EventTable × Result DriverError Bool
unfolding insert_statement
insert answered e at t = let (t', new) = insert_statement e at t in (t', ok new)
insert (lost x) e at t = ((insert_statement e at t).0, err x)
insert (refused x) e at t = (t, err x)
