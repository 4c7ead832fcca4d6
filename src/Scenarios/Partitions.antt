-- ===== src/Scenarios/Partitions.antt =====
-- Runs of internal/store/partitions.go on a table of two days, with days written in eight digits.
use Prim.Native.Char.{Char, code, len_utf8}
use Prim.Native.String.{◌∷◌ as prepend, len}
use Prim.Native.String.len.{cons}
use sentinel_flow_project.Base.{
  All, ℕ, zero, suc, ◌+◌, ◌-◌, ◌*◌, ◌/◌, ◌%◌, ◌^◌, ◌<◌, String, ◌≡◌, refl, ap, ◌∙◌, Bool, true,
  none, some, List, [], ◌∷◌, arith,
}
use sentinel_flow_project.Base.Results.{ok}
use sentinel_flow_project.Base.Time.{day, truncate_day}
use sentinel_flow_project.Store.Events.{EventRow}
use sentinel_flow_project.Store.Partitions.{
  DateCodec, Partitioned, DrainWorld, default_partition_name, partition_name, partition_day,
  in_range, overlaps, has_partition, create_partition,
}
use sentinel_flow_project.Store.Partitions.Naming.{
  IsDateCodec, partition_day-partition_name, store_janitor, store_janitor-covers,
}
use sentinel_flow_project.Store.Partitions.Routing.{count_rows, covered, IsRouted}
use sentinel_flow_project.Store.Partitions.Drain.{create_partition-IsCreation}
use sentinel_flow_project.Store.Partitions.Shapes.{Shaped}
use sentinel_flow_project.Store.Partitions.Calls.{
  PartitionCall, create, drop, store_row, apply_partition_calls, IsDaily, HasRowsOfDay,
  apply_partition_calls-IsDaily,
}
use sentinel_flow_project.Janitor.{Maintenance, has_name, run_once}
use sentinel_flow_project.Scenarios.Pages.{event_of}

-- Days are counted in base seven.
abbrev digit : ℕ → Char
digit zero = "0"
digit (suc zero) = "1"
digit (suc (suc zero)) = "2"
digit (suc (suc (suc zero))) = "3"
digit (suc (suc (suc (suc zero)))) = "4"
digit (suc (suc (suc (suc (suc zero))))) = "5"
digit (suc (suc (suc (suc (suc (suc n)))))) = "6"

code-digit : (d : ℕ) → d < 7 → code (digit d) ≡ d + 48
code-digit zero h = refl
code-digit (suc zero) h = refl
code-digit (suc (suc zero)) h = refl
code-digit (suc (suc (suc zero))) h = refl
code-digit (suc (suc (suc (suc zero)))) h = refl
code-digit (suc (suc (suc (suc (suc zero))))) h = refl
code-digit (suc (suc (suc (suc (suc (suc zero)))))) h = refl
code-digit (suc (suc (suc (suc (suc (suc (suc n))))))) h = ground arith

len_utf8-digit : (d : ℕ) → len_utf8 (digit d) ≡ 1
len_utf8-digit zero = refl
len_utf8-digit (suc zero) = refl
len_utf8-digit (suc (suc zero)) = refl
len_utf8-digit (suc (suc (suc zero))) = refl
len_utf8-digit (suc (suc (suc (suc zero)))) = refl
len_utf8-digit (suc (suc (suc (suc (suc zero))))) = refl
len_utf8-digit (suc (suc (suc (suc (suc (suc n)))))) = refl

-- So many digits, the last one first.
digits : ℕ → ℕ → String
digits zero n = ""
digits (suc m) n = prepend (digit (n % 7)) (digits m (n / 7))

value : String → ℕ
value String.[] = 0
value (prepend c s) = code c - 48 + 7 * value s

value-digits : (m n : ℕ) → n < 7 ^ m → value (digits m n) ≡ n
unfolding value digits
value-digits zero n h = ground arith
value-digits (suc m) n h =
    let smaller : n / 7 < 7 ^ m = omega arith in
    omega (arith, value-digits m (n / 7) smaller, code-digit (n % 7) (omega arith))

len-digits : (m n : ℕ) → len (digits m n) ≡ m
unfolding digits
len-digits zero n = refl
len-digits (suc m) n = rw cons (omega (arith, len_utf8-digit (n % 7), len-digits m (n / 7)))

abbrev seven_codec : DateCodec
seven_codec = record {
  format_date = λ t. digits 8 (t / day);
  parse_date = λ s. some (value s * day);
}

seven_codec-IsDateCodec : IsDateCodec seven_codec
unfolding truncate_day
seven_codec-IsDateCodec = record {
  eight = λ t h. len-digits 8 (t / day);
  parse-format =
      λ t h. ap some (ap (λ n. n * day) (value-digits 8 (t / day) (omega arith)) ∙ omega arith);
}

partition_day-partition_name_example :
    partition_day seven_codec (partition_name seven_codec (5 * day + 7))
    ≡ some (truncate_day (5 * day + 7))
partition_day-partition_name_example =
    partition_day-partition_name seven_codec seven_codec-IsDateCodec (5 * day + 7) (ground arith)

default_partition_is_no_day : partition_day seven_codec default_partition_name ≡ none
unfolding partition_day
default_partition_is_no_day = refl

-- Two events of day 5 wait in the default partition; day 4 has its own.
abbrev stopped_table : Partitioned
stopped_table = record {
  attached =
      record { name = "telemetry_events_40000000"; lower = 4 * day; upper = 5 * day; rows = [] }
      ∷ [];
  default_rows =
      event_of "a" "acme" (5 * day + 1)
      ∷ event_of "b" "acme" (7 * day)
      ∷ event_of "c" "acme" (5 * day + 2)
      ∷ [];
}

-- Every statement of the drain works.
abbrev working_drain : DrainWorld
working_drain = record {
  attach_error = none;
  begin_error = none;
  lock_error = none;
  stage_error = none;
  clear_error = none;
  reattach_error = none;
  reinsert_error = none;
  commit_error = none;
  commit_made = true;
}

create_partition-IsCreation_example :
    ((q : EventRow → Bool)
      → count_rows q ((create_partition working_drain seven_codec (5 * day + 7) stopped_table).0)
        ≡ count_rows q stopped_table)
    × ((create_partition working_drain seven_codec (5 * day + 7) stopped_table).1 ≡ none
        → has_partition
            (partition_name seven_codec (5 * day + 7))
            ((create_partition working_drain seven_codec (5 * day + 7) stopped_table).0).attached
          ≡ true)
create_partition-IsCreation_example =
    create_partition-IsCreation working_drain seven_codec (5 * day + 7) stopped_table

stopped_table-IsRouted : IsRouted stopped_table
unfolding covered in_range overlaps
stopped_table-IsRouted = record {
  apart = (refl, tt);
  fitting = (tt, tt);
  left_over = (refl, (refl, (refl, tt)));
}

-- The partition of day 5 is created around its two events, one more event arrives, and day 4 is dropped.
abbrev maintenance_calls : List PartitionCall
maintenance_calls =
    create working_drain (5 * day + 7)
    ∷ store_row (event_of "d" "acme" (5 * day + 9))
    ∷ drop none "telemetry_events_40000000"
    ∷ []

stopped_table-IsDaily : Shaped (IsDaily seven_codec) stopped_table.attached
unfolding truncate_day partition_name digits
stopped_table-IsDaily = ((4 * day + 5, refl, refl, refl), tt)

apply_partition_calls-IsDaily_example :
    IsRouted (apply_partition_calls seven_codec maintenance_calls stopped_table)
    × Shaped
        (IsDaily seven_codec)
        (apply_partition_calls seven_codec maintenance_calls stopped_table).attached
    × All
        (HasRowsOfDay seven_codec)
        (apply_partition_calls seven_codec maintenance_calls stopped_table).attached
apply_partition_calls-IsDaily_example =
    apply_partition_calls-IsDaily seven_codec maintenance_calls stopped_table stopped_table-IsRouted
      stopped_table-IsDaily

-- The drain leaves one row in the default partition and puts two into the new one.
drained_rows :
    (create_partition working_drain seven_codec (5 * day + 7) stopped_table).0.default_rows
    ≡ event_of "b" "acme" (7 * day) ∷ []
unfolding create_partition digits
drained_rows = refl

abbrev all_well : Maintenance
all_well = record {
  list_error = none;
  create_error = λ d. none;
  drop_error = λ s. none;
  default_rows = ok 0;
}

store_cycle_succeeds : (run_once (store_janitor seven_codec day day) all_well 900 []).failure ≡ none
unfolding store_janitor run_once digits
store_cycle_succeeds = refl

store_janitor-covers_example :
    has_name
      (partition_name seven_codec (truncate_day 900 + 1 * day))
      (run_once (store_janitor seven_codec day day) all_well 900 []).partitions
    ≡ true
store_janitor-covers_example =
    store_janitor-covers seven_codec seven_codec-IsDateCodec day day all_well 900 [] 1 (omega arith)
      (unfold truncate_day in ground arith) store_cycle_succeeds
