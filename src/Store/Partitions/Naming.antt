-- ===== src/Store/Partitions/Naming.antt =====
-- internal/store/partitions.go: PartitionDay reads back PartitionName, as the janitor asks of them.
use Prim.Native.String.{◌++◌ as append, ◌∷◌ as prepend, len}
use sentinel_flow_project.Base.{
  ℕ, ◌+◌, ◌*◌, ◌<◌, ◌≤◌, List, String, ◌≡◌, ap, ◌∙◌, true, none, some, arith,
}
use sentinel_flow_project.Base.Time.{Time, day, truncate_day, end_of_written}
use text.Mathlib.TextLemmas.{nil-append, cons-append}
use text.Mathlib.TextPositions.{len-append}
use sentinel_flow_project.Store.Partitions.{
  DateCodec, partition_prefix, strip_prefix, parse_suffix, partition_name, partition_day,
}
use sentinel_flow_project.Janitor.{Janitor, Maintenance, has_name, run_once}
use sentinel_flow_project.Janitor.Ahead.{IsNaming, run_once-covers}

-- What Go documents of the layout: eight digits, read back as the midnight of the day.
pub record IsDateCodec (k : DateCodec) : Type 0 where
  pub eight : (t : Time) → t < end_of_written → len (k.format_date t) ≡ 8
  pub parse-format :
      (t : Time) → t < end_of_written → k.parse_date (k.format_date t) ≡ some (truncate_day t)

strip_prefix-append : (p s : String) → strip_prefix p (append p s) ≡ some s
unfolding strip_prefix
strip_prefix-append String.[] s = rw nil-append
strip_prefix-append (prepend c p) s = rw cons-append (ground (arith, strip_prefix-append p s))

-- PartitionDay of the PartitionName of an instant before the year 10000 is the midnight of its day.
pub partition_day-partition_name :
    (k : DateCodec)
    → IsDateCodec k
    → (t : Time) → t < end_of_written
    → partition_day k (partition_name k t) ≡ some (truncate_day t)
unfolding partition_day partition_name parse_suffix
partition_day-partition_name k laws t early =
    let whole : len (append partition_prefix (k.format_date t)) ≡ len partition_prefix + 8 =
      len-append partition_prefix (k.format_date t)
      ∙ ap (λ n. len partition_prefix + n) (laws.eight t early) in
    rw (whole, strip_prefix-append partition_prefix (k.format_date t)) (laws.parse-format t early)

truncate_day-midnight : (n : ℕ) → truncate_day (n * day) ≡ n * day
unfolding truncate_day
truncate_day-midnight n = omega arith

-- The janitor as cmd/janitor builds it, over the names of this package.
unfoldable pub store_janitor : DateCodec → ℕ → ℕ → Janitor
unfolding partition_day partition_name
store_janitor k lookahead retention = record {
  day_of = partition_day k;
  name_of = partition_name k;
  lookahead = lookahead;
  retention = retention;
}

store_janitor-IsNaming :
    (k : DateCodec)
    → IsDateCodec k
    → (lookahead retention : ℕ) → IsNaming (store_janitor k lookahead retention)
unfolding store_janitor
store_janitor-IsNaming k laws lookahead retention = record {
  reads = λ n early.
      partition_day-partition_name k laws (n * day) early ∙ ap some (truncate_day-midnight n);
}

-- Over the names of this package, a cycle that ends without an error leaves the partition of today
-- and of every later day within the lookahead, before the year 10000.
pub store_janitor-covers :
    (k : DateCodec)
    → IsDateCodec k
    → (lookahead retention : ℕ) (w : Maintenance) (now : Time) (existing : List String) (i : ℕ)
    → i * day ≤ lookahead
    → truncate_day now + i * day < end_of_written
    → (run_once (store_janitor k lookahead retention) w now existing).failure ≡ none
    → has_name
        (partition_name k (truncate_day now + i * day))
        (run_once (store_janitor k lookahead retention) w now existing).partitions
      ≡ true
unfolding store_janitor
store_janitor-covers k laws lookahead retention w now existing i le early h =
    run_once-covers (store_janitor k lookahead retention) w now existing i
      (store_janitor-IsNaming k laws lookahead retention) le early h
