-- ===== src/Store/Partitions.antt =====
-- internal/store/partitions.go: the daily partitions of telemetry_events and the default one.
pub mod Naming
pub mod Routing
pub mod Shapes
pub mod Drain
pub mod Calls
use Prim.Native.String.{◌++◌ as append, ◌∷◌ as prepend, len}
use Prim.Native.Char.{code}
use sentinel_flow_project.Base.{
  ℕ, ◌+◌, String, Bool, true, false, not, ◌&&◌, ◌||◌, Option, none, some, List, [], ◌∷◌, ◌++◌,
  str_eq, ltb, leb, ◌==◌, if◌then◌else◌, length,
}
use sentinel_flow_project.Base.Results.{Result, ok, err}
use sentinel_flow_project.Base.Time.{Time, day, truncate_day}
use sentinel_flow_project.Store.Events.{DriverError, server, EventRow}
use sentinel_flow_project.Store.Pages.Order.{filter}

abbrev pub partition_prefix : String
partition_prefix = "telemetry_events_"

abbrev pub default_partition_name : String
default_partition_name = "telemetry_events_default"

-- Format and Parse of the layout 20060102, in UTC.
pub record DateCodec : Type 0 where
  pub format_date : Time → String
  pub parse_date : String → Option Time

-- s[:len(p)] == p, with s[len(p):] where it holds.
unfoldable pub strip_prefix : String → String → Option String
strip_prefix String.[] s = some s
strip_prefix (prepend c p) String.[] = none
strip_prefix (prepend c p) (prepend d s) =
    let rest = strip_prefix p s in if code c == code d then rest else none

module _ (k : DateCodec) where
  -- PartitionName
  unfoldable pub partition_name : Time → String
  partition_name t = append partition_prefix (k.format_date t)

  unfoldable pub parse_suffix : Option String → Option Time
  parse_suffix none = none
  parse_suffix (some s) = k.parse_date s

  -- PartitionDay
  unfoldable pub partition_day : String → Option Time
  unfolding strip_prefix parse_suffix
  partition_day name =
      if len name == len partition_prefix + 8
      then parse_suffix (strip_prefix partition_prefix name)
      else none

-- A partition attached to the table holds the rows from its lower bound on, below its upper one.
pub record Partition : Type 0 where
  pub name : String
  pub lower : Time
  pub upper : Time
  pub rows : List EventRow

pub record Partitioned : Type 0 where
  pub attached : List Partition
  pub default_rows : List EventRow

-- event_timestamp >= $1 AND event_timestamp < $2
unfoldable pub in_range : Time → Time → EventRow → Bool
in_range lower upper r = leb lower r.event.timestamp && ltb r.event.timestamp upper

-- dayBounds
unfoldable pub day_bounds : Time → Time × Time
unfolding truncate_day
day_bounds t = let lower = truncate_day t in (lower, lower + day)

unfoldable pub has_partition : String → List Partition → Bool
has_partition name [] = false
has_partition name (p ∷ ps) = str_eq p.name name || has_partition name ps

unfoldable pub overlaps : Time → Time → List Partition → Bool
overlaps lower upper [] = false
overlaps lower upper (p ∷ ps) = (ltb lower p.upper && ltb p.lower upper) || overlaps lower upper ps

unfoldable pub any_row : (EventRow → Bool) → List EventRow → Bool
any_row p [] = false
any_row p (r ∷ rs) = p r || any_row p rs

-- CREATE TABLE IF NOT EXISTS ... PARTITION OF ...: nothing for a name that is there; refused where
-- the range overlaps a partition or the default partition holds a row of it.
unfoldable pub attach_statement :
    String → Time → Time → Partitioned → Partitioned × Option DriverError
unfolding has_partition overlaps any_row in_range
attach_statement name lower upper s =
    if has_partition name s.attached
    then (s, none)
    else if overlaps lower upper s.attached
    then (s, some (server "42P17"))
    else if any_row (in_range lower upper) s.default_rows
    then (s, some (server "23514"))
    else (
      record s {
        attached = record { name = name; lower = lower; upper = upper; rows = [] } ∷ s.attached;
      },
      none,
    )

-- INSERT INTO telemetry_events routes a row to the partition of its range, or else to the default.
unfoldable pub route : EventRow → List Partition → Option (List Partition)
unfolding in_range
route r [] = none
route r (p ∷ ps) =
    let rest : Option (List Partition) = elim (route r ps) [
      | none ↦ none
      | some ps' ↦ some (p ∷ ps')
    ] in
    if in_range p.lower p.upper r then some (record p { rows = r ∷ p.rows } ∷ ps) else rest

unfoldable pub routed : EventRow → Option (List Partition) → Partitioned → Partitioned
routed r none s = record s { default_rows = r ∷ s.default_rows }
routed r (some ps) s = record s { attached = ps }

unfoldable pub insert_through : EventRow → Partitioned → Partitioned
unfolding route routed
insert_through r s = routed r (route r s.attached) s

unfoldable pub insert_all : List EventRow → Partitioned → Partitioned
unfolding insert_through
insert_all [] s = s
insert_all (r ∷ rs) s = insert_all rs (insert_through r s)

-- isDefaultPartitionConflict
unfoldable pub is_default_partition_conflict : DriverError → Bool
is_default_partition_conflict (server code) = str_eq code "23514"
is_default_partition_conflict _ = false

-- How the connection answers the first CREATE and the steps of the drain's transaction. A commit
-- whose answer is lost may have been made.
pub record DrainWorld : Type 0 where
  pub attach_error : Option DriverError
  pub begin_error : Option DriverError
  pub lock_error : Option DriverError
  pub stage_error : Option DriverError
  pub clear_error : Option DriverError
  pub reattach_error : Option DriverError
  pub reinsert_error : Option DriverError
  pub commit_error : Option DriverError
  pub commit_made : Bool

unfoldable pub clear_range : Time → Time → Partitioned → Partitioned
unfolding filter in_range
clear_range lower upper s = record s {
  default_rows = filter (λ r. not (in_range lower upper r)) s.default_rows;
}

unfoldable pub staged : Time → Time → Partitioned → List EventRow
unfolding filter in_range
staged lower upper s = filter (in_range lower upper) s.default_rows

unfoldable pub first_failure : List (Option DriverError) → Option DriverError
first_failure [] = none
first_failure (none ∷ es) = first_failure es
first_failure (some e ∷ es) = some e

module _ (w : DrainWorld) where
  -- tx.Commit, and the deferred Rollback after a failure.
  unfoldable pub commit :
      Option DriverError → Partitioned → Partitioned → Partitioned × Option DriverError
  commit none before after = (after, none)
  commit (some e) before after = (if w.commit_made then after else before, some e)

  unfoldable pub after_reattach :
      List EventRow
      → Partitioned
      → Partitioned × Option DriverError
      → Partitioned × Option DriverError
  unfolding commit insert_all
  after_reattach moved before (s, some e) = (before, some e)
  after_reattach moved before (s, none) = elim w.reattach_error [
    | some e ↦ (before, some e)
    | none ↦ elim w.reinsert_error [
      | some e ↦ (before, some e)
      | none ↦ commit w.commit_error before (insert_all moved s)
    ]
  ]

  -- The statements of the transaction, up to the first that fails: the rollback undoes them all.
  unfoldable pub drained :
      Option DriverError → String → Time → Time → Partitioned → Partitioned × Option DriverError
  unfolding after_reattach attach_statement clear_range staged
  drained (some e) name lower upper s = (s, some e)
  drained none name lower upper s =
      after_reattach (staged lower upper s) s
        (attach_statement name lower upper (clear_range lower upper s))

  unfoldable pub drain : String → Time → Time → Partitioned → Partitioned × Option DriverError
  unfolding drained first_failure
  drain =
      drained (first_failure (w.begin_error ∷ w.lock_error ∷ w.stage_error ∷ w.clear_error ∷ []))

  unfoldable pub after_attach :
      String → Time → Time → Partitioned × Option DriverError → Partitioned × Option DriverError
  unfolding drain is_default_partition_conflict
  after_attach name lower upper (s, none) = (s, none)
  after_attach name lower upper (s, some e) =
      if is_default_partition_conflict e then drain name lower upper s else (s, some e)

  unfoldable pub attach :
      Option DriverError → String → Time → Time → Partitioned → Partitioned × Option DriverError
  unfolding attach_statement
  attach none name lower upper s = attach_statement name lower upper s
  attach (some e) name lower upper s = (s, some e)

  -- createPartition
  unfoldable pub create_partition :
      DateCodec → Time → Partitioned → Partitioned × Option DriverError
  unfolding partition_name day_bounds attach after_attach
  create_partition k t s =
      let (lower, upper) = day_bounds t in
      after_attach (partition_name k t) lower upper
        (attach w.attach_error (partition_name k t) lower upper s)

unfoldable pub without_partition : String → List Partition → List Partition
without_partition name [] = []
without_partition name (p ∷ ps) =
    let rest = without_partition name ps in if str_eq p.name name then rest else p ∷ rest

-- `not_daily` is the refusal before any statement is sent.
pub data DropError : Type 0 where
  not_daily : DropError
  drop_failed : DriverError → DropError

unfoldable pub drop_answer :
    Option DriverError → String → Partitioned → Partitioned × Option DropError
unfolding without_partition
drop_answer none name s = (record s { attached = without_partition name s.attached }, none)
drop_answer (some e) name s = (s, some (drop_failed e))

unfoldable pub drop_dated :
    Option Time → Option DriverError → String → Partitioned → Partitioned × Option DropError
unfolding drop_answer
drop_dated none answer name s = (s, some not_daily)
drop_dated (some t) answer name s = drop_answer answer name s

-- DropPartition
unfoldable pub drop_partition :
    DateCodec → Option DriverError → String → Partitioned → Partitioned × Option DropError
unfolding partition_day drop_dated
drop_partition k answer name s = drop_dated (partition_day k name) answer name s

-- DefaultPartitionRows
unfoldable pub default_partition_rows : Option DriverError → Partitioned → Result DriverError ℕ
default_partition_rows none s = ok (length s.default_rows)
default_partition_rows (some e) s = err e
