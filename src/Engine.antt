-- ===== src/Engine.antt =====
-- internal/engine: the consumer that stores each telemetry event of the Kafka topic.
pub mod Retry
pub mod Durable
pub mod Recovery
pub mod Runner
use Prim.Native.Char.{Char}
use sentinel_flow_project.Base.{
  ℕ, zero, suc, ◌+◌, ◌-◌, ◌*◌, ◌/◌, ◌%◌, ◌^◌, ◌&&◌, min, String, Bool, true, false, ◌||◌, Option,
  none, some, ltb, leb, ◌==◌, if◌then◌else◌,
}
use sentinel_flow_project.Base.Results.{Result, ok, err}
use sentinel_flow_project.Base.Int.{ℤ, pos, pos_part, positive}
use sentinel_flow_project.Base.Time.{Time, Duration, second, is_zero}
use sentinel_flow_project.Event.{Event, normalize}
use sentinel_flow_project.Event.Freshness.{TimeBounds, future_only, validate_within}
use sentinel_flow_project.Store.Events.{DriverError, EventTable, Attempt, is_retryable, insert}

pub data Outcome : Type 0 where
  stored duplicate invalid failed : Outcome

pub record RetryPolicy : Type 0 where
  pub max_attempts : ℕ
  pub base_delay : Duration
  pub max_delay : Duration

abbrev pub delay_base : RetryPolicy → ℕ
delay_base p = if positive p.base_delay then pos_part p.base_delay else 100000000

abbrev pub delay_cap : RetryPolicy → ℕ
delay_cap p = if positive p.max_delay then pos_part p.max_delay else 5 * second

-- The exponent of the backoff before a given attempt, counted from 1.
unfoldable pub exponent : ℕ → ℕ
exponent attempt = let attempt' = if ltb attempt 1 then 1 else attempt in min (attempt' - 1) 20

-- A delay that is above the cap, or that does not fit an int64, becomes the cap.
unfoldable pub cap_delay : ℕ → ℕ → ℕ
cap_delay cap d = if ltb cap d || leb (2 ^ 63) d then cap else d

-- A multiple of a unit next to n: the nearer one, and of two as near the even multiple.
unfoldable pub round_to : ℕ → ℕ → ℕ
round_to unit n =
    let whole = n / unit in
    let twice = 2 * (n % unit) in
    if ltb unit twice || (twice == unit && whole % 2 == 1) then (whole + 1) * unit else whole * unit

-- The float64 of an int64: 53 bits are kept. The unit is doubled until the number has them, at most
-- `left` times; ten serve every number below 2^63.
unfoldable pub float64_from : ℕ → ℕ → ℕ → ℕ
unfolding round_to
float64_from zero unit n = round_to unit n
float64_from (suc left) unit n = elim (ltb (2 ^ 53 * unit) n) [
  | true ↦ float64_from left (2 * unit) n
  | false ↦ round_to unit n
]

unfoldable pub float64 : ℕ → ℕ
unfolding float64_from
float64 n = float64_from 10 1 n

-- Delay, in nanoseconds. The base is converted to float64; its product with a power of two is exact,
-- and one that does not fit an int64 is not positive, or not below any cap, when it is converted back.
unfoldable pub delay : RetryPolicy → ℕ → ℕ
unfolding exponent cap_delay float64
delay p attempt = cap_delay (delay_cap p) (float64 (delay_base p) * 2 ^ exponent attempt)

-- Why an insert was given up.
pub data InsertError : Type 0 where
  permanent : DriverError → InsertError
  interrupted : DriverError → InsertError
  exhausted : DriverError → InsertError

-- What surrounds one message: the connection of each attempt, and what each sleep answers for the
-- delay that it is given.
pub record Surroundings : Type 0 where
  pub attempt : ℕ → Attempt
  pub sleep : ℕ → ℕ → Option DriverError

-- After an error that is or is not retryable, and the answer of the sleep before the next attempt.
unfoldable pub resume :
    Bool
    → Option DriverError
    → (EventTable → EventTable × Result InsertError Bool)
    → DriverError
    → EventTable
    → EventTable × Result InsertError Bool
resume false slept again x t = (t, err (permanent x))
resume true (some y) again x t = (t, err (interrupted y))
resume true none again x t = again t

-- What follows one attempt of insertWithRetry. `rest` is the rest of the loop, none after the last
-- attempt.
unfoldable pub settle :
    RetryPolicy
    → Surroundings
    → Option (EventTable → EventTable × Result InsertError Bool)
    → ℕ
    → EventTable × Result DriverError Bool
    → EventTable × Result InsertError Bool
unfolding is_retryable delay resume
settle p w rest k (t, ok inserted) = (t, ok inserted)
settle p w none k (t, err x) = (t, err (if is_retryable x then exhausted x else permanent x))
settle p w (some again) k (t, err x) = resume (is_retryable x) (w.sleep k (delay p k)) again x t

-- The loop of insertWithRetry at attempt k, with `left` attempts after it.
unfoldable pub insert_loop :
    RetryPolicy
    → Surroundings
    → Event
    → Time
    → ℕ
    → ℕ
    → EventTable
    → EventTable × Result InsertError Bool
unfolding insert settle
insert_loop p w e at zero k t = settle p w none k (insert (w.attempt k) e at t)
insert_loop p w e at (suc left) k t =
    settle p w (some (insert_loop p w e at left (k + 1))) k (insert (w.attempt k) e at t)

unfoldable pub insert_with_retry :
    RetryPolicy → Surroundings → Event → Time → EventTable → EventTable × Result InsertError Bool
unfolding insert_loop
insert_with_retry p w e at t = insert_loop p w e at (p.max_attempts - 1) 1 t

-- One Kafka record: its value, and the time at which the producer's record was made.
pub record Message : Type 0 where
  pub value : String
  pub timestamp : Time

-- A Processor, with what it takes from outside the repository: json.Unmarshal into an Event,
-- uuid.Parse and unicode.ToLower.
pub record Processor : Type 0 where
  pub retry : RetryPolicy
  pub bounds : TimeBounds
  pub decode : String → Option Event
  pub is_uuid : String → Bool
  pub lower : Char → Char

-- NewProcessor: at least one attempt, and of the bounds only that of the future.
unfoldable pub new_processor : Processor → Processor
unfolding future_only
new_processor opts = record opts {
  retry = record (opts.retry) {
    max_attempts = if ltb opts.retry.max_attempts 1 then 5 else opts.retry.max_attempts;
  };
  bounds = future_only opts.bounds;
}

-- The outcome of the insert: the error is present exactly if the offset must not be committed.
abbrev pub insert_outcome : Result InsertError Bool → Outcome × Option InsertError
insert_outcome (ok true) = (stored, none)
insert_outcome (ok false) = (duplicate, none)
insert_outcome (err x) = (failed, some x)

-- The normalised event of a message, if it decodes and conforms at the time now.
unfoldable pub accepted_event : Processor → Time → Message → Option Event
unfolding normalize validate_within
accepted_event p now m = elim (p.decode m.value) [
  | none ↦ none
  | some e ↦ elim (validate_within p.is_uuid p.bounds now (normalize p.lower e)) [
    | err problems ↦ none
    | ok _ ↦ some (normalize p.lower e)
  ]
]

-- The time a row is received at: the record's, or now if the record has none.
abbrev pub received_time : Time → Message → Time
received_time now m = if is_zero m.timestamp then now else m.timestamp

-- Process, of a message whose event is the first argument.
unfoldable pub process_event :
    Option Event
    → Processor
    → Surroundings
    → Time
    → Message
    → EventTable
    → EventTable × Outcome × Option InsertError
unfolding insert_with_retry is_zero
process_event none p w now m t = (t, invalid, none)
process_event (some e) p w now m t =
    let (t', answer) = insert_with_retry p.retry w e (received_time now m) t in
    let (outcome, error) = insert_outcome answer in (t', outcome, error)

unfoldable pub process :
    Processor
    → Surroundings
    → Time
    → Message
    → EventTable
    → EventTable × Outcome × Option InsertError
unfolding accepted_event process_event
process p w now m t = process_event (accepted_event p now m) p w now m t
