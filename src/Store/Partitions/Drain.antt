-- ===== src/Store/Partitions/Drain.antt =====
-- internal/store/partitions.go: CreatePartition with its drain, and the runs of the store's calls.
use sentinel_flow_project.Base.{
  String, ◌≡◌, refl, inl, inr, Bool, true, Option, none, some, List, [], ◌∷◌, arith, str_eq_refl,
  Bool-cases, Option-cases, ◌∙◌, sym, subst,
}
use sentinel_flow_project.Base.Time.{Time}
use sentinel_flow_project.Store.Events.{DriverError, EventRow}
use sentinel_flow_project.Store.Partitions.{
  DateCodec, Partition, Partitioned, DrainWorld, partition_name, day_bounds, has_partition,
  overlaps, any_row, in_range, attach_statement, insert_through, insert_all,
  is_default_partition_conflict, clear_range, staged, commit, after_reattach, first_failure,
  drained, drain, after_attach, attach, create_partition, route, routed,
}
use sentinel_flow_project.Store.Partitions.Shapes.{
  Shaped, attach_statement-Shaped, insert_all-Shaped,
}
use sentinel_flow_project.Store.Partitions.Routing.{
  count_rows, IsRouted, insert_all-count, insert_all-IsRouted, clear_range-count,
  clear_range-IsRouted, attach_statement-count, attach_statement-IsRouted,
}

-- A statement that answers no error has the partition.
attach_statement-has_partition :
    (name : String) (lower upper : Time) (s : Partitioned)
    → (attach_statement name lower upper s).1 ≡ none
    → has_partition name ((attach_statement name lower upper s).0).attached ≡ true
unfolding attach_statement has_partition
attach_statement-has_partition name lower upper s h =
    elim (Bool-cases (has_partition name s.attached)) [
      | inl e ↦ rw e e
      | inr e ↦ elim (Bool-cases (overlaps lower upper s.attached)) [
        | inl f ↦ ground arith
        | inr f ↦ elim (Bool-cases (any_row (in_range lower upper) s.default_rows)) [
          | inl g ↦ ground arith
          | inr g ↦ rw (e, f, g) (ground (arith, str_eq_refl name))
        ]
      ]
    ]

route-has_partition :
    (name : String) (r : EventRow) (ps ps' : List Partition)
    → route r ps ≡ some ps'
    → has_partition name ps' ≡ has_partition name ps
unfolding route has_partition
route-has_partition name r [] ps' h = ground arith
route-has_partition name r (p ∷ ps) ps' h = elim (Option-cases (route r ps)) [
  | inl e ↦ ground arith
  | inr (ps₁, e) ↦ ground (arith, route-has_partition name r ps ps₁ e)
]

insert_all-has_partition :
    (name : String) (rs : List EventRow) (s : Partitioned)
    → has_partition name (insert_all rs s).attached ≡ has_partition name s.attached
unfolding insert_all insert_through routed
insert_all-has_partition name [] s = refl
insert_all-has_partition name (r ∷ rs) s =
    insert_all-has_partition name rs (insert_through r s)
    ∙ elim (Option-cases (route r s.attached)) [
      | inl e ↦ rw e refl
      | inr (ps, e) ↦ rw e (route-has_partition name r s.attached ps e)
    ]

-- What a call that creates a partition may do to the table.
pub record IsCreation (name : String) (lower upper : Time) (s : Partitioned)
    (x : Partitioned × Option DriverError) : Type 1 where
  pub same_rows : (q : EventRow → Bool) → count_rows q x.0 ≡ count_rows q s
  pub stays_routed : IsRouted s → IsRouted x.0
  pub created : x.1 ≡ none → has_partition name x.0.attached ≡ true
  pub shapes :
      (P : String → Time → Time → Type 0)
      → P name lower upper
      → Shaped P s.attached
      → Shaped P x.0.attached

module _ (w : DrainWorld) (name : String) (lower upper : Time) where
  attach_statement-IsCreation :
      (s : Partitioned) → IsCreation name lower upper s (attach_statement name lower upper s)
  attach_statement-IsCreation s = record {
    same_rows = λ q. attach_statement-count q name lower upper s;
    stays_routed = attach_statement-IsRouted name lower upper s;
    created = attach_statement-has_partition name lower upper s;
    shapes = λ P new. attach_statement-Shaped P name lower upper s new;
  }

  failed-IsCreation :
      (s : Partitioned) (e : DriverError) → IsCreation name lower upper s (s, some e)
  failed-IsCreation s e = record {
    same_rows = λ q. refl;
    stays_routed = λ h. h;
    created = λ h. ground arith;
    shapes = λ P new k. k;
  }

  commit-IsCreation :
      (o : Option DriverError) (s t : Partitioned)
      → IsCreation name lower upper s (t, none)
      → IsCreation name lower upper s (commit w o s t)
  unfolding commit
  commit-IsCreation none s t h = h
  commit-IsCreation (some e) s t h = elim (Bool-cases w.commit_made) [
    | inl m ↦ rw m (record {
      same_rows = h.same_rows;
      stays_routed = h.stays_routed;
      created = λ k. ground arith;
      shapes = h.shapes;
    })
    | inr m ↦ rw m (failed-IsCreation s e)
  ]

  reinserted-IsCreation :
      (s : Partitioned)
      → IsCreation name lower upper
          (clear_range lower upper s)
          (attach_statement name lower upper (clear_range lower upper s))
      → (t : Partitioned)
      → attach_statement name lower upper (clear_range lower upper s) ≡ (t, none)
      → IsCreation name lower upper s (insert_all (staged lower upper s) t, none)
  reinserted-IsCreation s h t same =
      let made : IsCreation name lower upper (clear_range lower upper s) (t, none) =
        subst (IsCreation name lower upper (clear_range lower upper s)) same h in
      record {
        same_rows = λ q. omega (
          arith,
          insert_all-count q (staged lower upper s) t,
          made.same_rows q,
          clear_range-count q lower upper s,
        );
        stays_routed = λ k.
            insert_all-IsRouted (staged lower upper s) t
              (made.stays_routed (clear_range-IsRouted lower upper s k));
        created = λ k. insert_all-has_partition name (staged lower upper s) t ∙ made.created refl;
        shapes = λ P new k.
            insert_all-Shaped P (staged lower upper s) t
              (made.shapes P new (unfold clear_range in k));
      }

  after_reattach-IsCreation :
      (s : Partitioned) (x : Partitioned × Option DriverError)
      → attach_statement name lower upper (clear_range lower upper s) ≡ x
      → IsCreation name lower upper s (after_reattach w (staged lower upper s) s x)
  unfolding after_reattach
  after_reattach-IsCreation s (t, some e) h = failed-IsCreation s e
  after_reattach-IsCreation s (t, none) h = elim (Option-cases w.reattach_error) [
    | inr (x, e) ↦ rw e (failed-IsCreation s x)
    | inl e ↦ elim (Option-cases w.reinsert_error) [
      | inr (x, f) ↦ rw (e, f) (failed-IsCreation s x)
      | inl f ↦
          rw (e, f)
            (commit-IsCreation w.commit_error s (insert_all (staged lower upper s) t) (
              reinserted-IsCreation s (attach_statement-IsCreation (clear_range lower upper s)) t
                h))
    ]
  ]

  drained-IsCreation :
      (o : Option DriverError) (s : Partitioned)
      → IsCreation name lower upper s (drained w o name lower upper s)
  unfolding drained
  drained-IsCreation (some e) s = failed-IsCreation s e
  drained-IsCreation none s =
      after_reattach-IsCreation s (attach_statement name lower upper (clear_range lower upper s))
        refl

  after_attach-IsCreation :
      (s : Partitioned) (x : Partitioned × Option DriverError)
      → IsCreation name lower upper s x
      → ((e : DriverError) → x.1 ≡ some e → x.0 ≡ s)
      → IsCreation name lower upper s (after_attach w name lower upper x)
  unfolding after_attach drain
  after_attach-IsCreation s (t, none) h unchanged = h
  after_attach-IsCreation s (t, some e) h unchanged =
      elim (Bool-cases (is_default_partition_conflict e)) [
        | inl c ↦ rw c (
            subst
              (λ u. IsCreation name lower upper s (
                drained w
                  (first_failure
                    (w.begin_error ∷ w.lock_error ∷ w.stage_error ∷ w.clear_error ∷ []))
                  name lower upper u))
              (sym (unchanged e refl)) (drained-IsCreation _ s))
        | inr c ↦ rw c h
      ]

  attach_statement-unchanged :
      (s : Partitioned) (e : DriverError)
      → (attach_statement name lower upper s).1 ≡ some e
      → (attach_statement name lower upper s).0 ≡ s
  unfolding attach_statement
  attach_statement-unchanged s e h = ground arith

  attach-IsCreation :
      (o : Option DriverError) (s : Partitioned)
      → IsCreation name lower upper s
          (after_attach w name lower upper (attach w o name lower upper s))
  unfolding attach
  attach-IsCreation none s =
      after_attach-IsCreation s (attach_statement name lower upper s)
        (attach_statement-IsCreation s) (attach_statement-unchanged s)
  attach-IsCreation (some e) s =
      after_attach-IsCreation s (s, some e) (failed-IsCreation s e) (λ x h. refl)

-- What one call does, by the day that its bounds are of.
pub create_partition_lem :
    (w : DrainWorld) (k : DateCodec) (t : Time) (s : Partitioned)
    → IsCreation (partition_name k t) (day_bounds t).0 (day_bounds t).1 s (create_partition w k t s)
unfolding create_partition
create_partition_lem w k t s =
    let (lower, upper) = day_bounds t in
    attach-IsCreation w (partition_name k t) lower upper w.attach_error s

-- CreatePartition never loses and never doubles a row, whichever of its statements fails, and where it
-- answers no error the table has the partition of the day.
pub create_partition-IsCreation :
    (w : DrainWorld) (k : DateCodec) (t : Time) (s : Partitioned)
    → ((q : EventRow → Bool) → count_rows q ((create_partition w k t s).0) ≡ count_rows q s)
      × ((create_partition w k t s).1 ≡ none
          → has_partition (partition_name k t) ((create_partition w k t s).0).attached ≡ true)
create_partition-IsCreation w k t s =
    let made = create_partition_lem w k t s in (made.same_rows, made.created)
