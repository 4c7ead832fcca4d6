-- ===== src/Store/Partitions/Calls.antt =====
-- internal/store/partitions.go: the runs of the store's calls, and the day of every partition and row.
use sentinel_flow_project.Base.{
  ◌+◌, String, ◌≡◌, refl, true, Option, none, some, List, [], ◌∷◌, arith, All, All-imp, All-both,
}
use sentinel_flow_project.Base.Time.{Time, day, truncate_day}
use sentinel_flow_project.Store.Events.{DriverError, EventRow}
use sentinel_flow_project.Store.Partitions.{
  DateCodec, Partition, Partitioned, DrainWorld, partition_name, partition_day, day_bounds,
  in_range, insert_through, create_partition, drop_answer, drop_dated, drop_partition,
}
use sentinel_flow_project.Store.Partitions.Shapes.{
  Shaped, insert_through-Shaped, without_partition-Shaped,
}
use sentinel_flow_project.Store.Partitions.Routing.{
  Fits, IsRouted, insert_through-IsRouted, without_partition-IsRouted,
}
use sentinel_flow_project.Store.Partitions.Drain.{create_partition_lem}

-- The calls of the store, and the inserts of the engine between them.
pub data PartitionCall : Type 0 where
  create : DrainWorld → Time → PartitionCall
  drop : Option DriverError → String → PartitionCall
  store_row : EventRow → PartitionCall

module _ (k : DateCodec) where
  unfoldable pub apply_partition_call : PartitionCall → Partitioned → Partitioned
  unfolding create_partition drop_partition insert_through
  apply_partition_call (create w t) s = (create_partition w k t s).0
  apply_partition_call (drop answer name) s = (drop_partition k answer name s).0
  apply_partition_call (store_row r) s = insert_through r s

  unfoldable pub apply_partition_calls : List PartitionCall → Partitioned → Partitioned
  unfolding apply_partition_call
  apply_partition_calls [] s = s
  apply_partition_calls (c ∷ cs) s = apply_partition_calls cs (apply_partition_call c s)

  drop_answer-IsRouted :
      (o : Option DriverError) (name : String) (s : Partitioned)
      → IsRouted s
      → IsRouted ((drop_answer o name s).0)
  unfolding drop_answer
  drop_answer-IsRouted none name s h = without_partition-IsRouted name s h
  drop_answer-IsRouted (some e) name s h = h

  drop_dated-IsRouted :
      (d : Option Time) (o : Option DriverError) (name : String) (s : Partitioned)
      → IsRouted s
      → IsRouted ((drop_dated d o name s).0)
  unfolding drop_dated
  drop_dated-IsRouted none o name s h = h
  drop_dated-IsRouted (some t) o name s h = drop_answer-IsRouted o name s h

  apply_partition_call-IsRouted :
      (c : PartitionCall) (s : Partitioned) → IsRouted s → IsRouted (apply_partition_call c s)
  unfolding apply_partition_call drop_partition
  apply_partition_call-IsRouted (create w t) s h = (create_partition_lem w k t s).stays_routed h
  apply_partition_call-IsRouted (drop answer name) s h =
      drop_dated-IsRouted (partition_day k name) answer name s h
  apply_partition_call-IsRouted (store_row r) s h = insert_through-IsRouted r s h

  -- The name is that of an instant, and the bounds are the midnights around it.
  abbrev pub IsDaily : String → Time → Time → Type 0
  IsDaily name lower upper =
      (t : Time) × (name ≡ partition_name k t)
      × (lower ≡ truncate_day t)
      × (upper ≡ truncate_day t + day)

  -- All rows are of the day that the name writes.
  abbrev pub HasRowsOfDay : Partition → Type 0
  HasRowsOfDay p =
      (t : Time) × (p.name ≡ partition_name k t)
      × All (λ r. truncate_day r.event.timestamp ≡ truncate_day t) p.rows

  day_bounds-IsDaily : (t : Time) → IsDaily (partition_name k t) (day_bounds t).0 (day_bounds t).1
  unfolding day_bounds
  day_bounds-IsDaily t = (t, refl, refl, refl)

  drop_dated-Shaped :
      (d : Option Time) (o : Option DriverError) (name : String) (s : Partitioned)
      → Shaped IsDaily s.attached
      → Shaped IsDaily ((drop_dated d o name s).0).attached
  unfolding drop_dated drop_answer
  drop_dated-Shaped none o name s h = h
  drop_dated-Shaped (some t) none name s h = without_partition-Shaped IsDaily name s.attached h
  drop_dated-Shaped (some t) (some e) name s h = h

  apply_partition_call-Shaped :
      (c : PartitionCall) (s : Partitioned)
      → Shaped IsDaily s.attached
      → Shaped IsDaily (apply_partition_call c s).attached
  unfolding apply_partition_call drop_partition
  apply_partition_call-Shaped (create w t) s h =
      (create_partition_lem w k t s).shapes IsDaily (day_bounds-IsDaily t) h
  apply_partition_call-Shaped (drop answer name) s h =
      drop_dated-Shaped (partition_day k name) answer name s h
  apply_partition_call-Shaped (store_row r) s h = insert_through-Shaped IsDaily r s h

  in_range-day :
      (lower upper t : Time) (r : EventRow)
      → lower ≡ truncate_day t
      → upper ≡ truncate_day t + day
      → in_range lower upper r ≡ true
      → truncate_day r.event.timestamp ≡ truncate_day t
  unfolding in_range truncate_day
  in_range-day lower upper t r low high h = ground arith

  Fits-HasRowsOfDay : (p : Partition) → IsDaily p.name p.lower p.upper × Fits p → HasRowsOfDay p
  Fits-HasRowsOfDay p ((t, named, low, high), fits) =
      (t, named, All-imp _ _ (λ r h. in_range-day p.lower p.upper t r low high h) p.rows fits)

  -- Through every run of CreatePartition, DropPartition and inserts, failures of the drain included,
  -- from a table that is routed and daily: the ranges of the partitions stay disjoint, the default
  -- partition has only rows that no partition is for, every partition is named by PartitionName for an
  -- instant and reaches from the midnight before it to the next one, and every row in it is of that day.
  pub apply_partition_calls-IsDaily :
      (cs : List PartitionCall) (s : Partitioned)
      → IsRouted s
      → Shaped IsDaily s.attached
      → IsRouted (apply_partition_calls cs s)
        × Shaped IsDaily (apply_partition_calls cs s).attached
        × All HasRowsOfDay (apply_partition_calls cs s).attached
  unfolding apply_partition_calls
  apply_partition_calls-IsDaily [] s h d =
      (h, d, All-imp _ _ Fits-HasRowsOfDay s.attached (All-both _ Fits s.attached d h.fitting))
  apply_partition_calls-IsDaily (c ∷ cs) s h d =
      apply_partition_calls-IsDaily cs (apply_partition_call c s)
        (apply_partition_call-IsRouted c s h) (apply_partition_call-Shaped c s d)
