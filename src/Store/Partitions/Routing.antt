-- ===== src/Store/Partitions/Routing.antt =====
-- internal/store/partitions.go: in which partition a row stands, and how many rows there are.
use sentinel_flow_project.Base.{
  All-imp, ℕ, ◌+◌, String, ◌≡◌, refl, sym, subst, ◌∙◌, inl, inr, Bool, true, false, not, ◌||◌, none,
  some, List, [], ◌∷◌, arith, str_eq, All, count_if, Bool-cases, Option-cases,
}
use sentinel_flow_project.Base.Time.{Time}
use sentinel_flow_project.Store.Events.{EventRow}
use sentinel_flow_project.Store.Pages.Order.{filter, All-filter}
use sentinel_flow_project.Store.Partitions.{
  Partition, Partitioned, in_range, has_partition, overlaps, any_row, attach_statement, route,
  routed, insert_through, insert_all, clear_range, staged, without_partition,
}

-- The rows that pass a test, over all partitions.
unfoldable pub count_attached : (EventRow → Bool) → List Partition → ℕ
count_attached q [] = 0
count_attached q (p ∷ ps) = count_if q p.rows + count_attached q ps

unfoldable pub count_rows : (EventRow → Bool) → Partitioned → ℕ
unfolding count_attached
count_rows q s = count_attached q s.attached + count_if q s.default_rows

-- Some partition's range has the row.
unfoldable pub covered : List Partition → EventRow → Bool
unfolding in_range
covered [] r = false
covered (p ∷ ps) r = in_range p.lower p.upper r || covered ps r

abbrev pub Fits : Partition → Type 0
Fits p = All (λ r. in_range p.lower p.upper r ≡ true) p.rows

abbrev pub AreApart : List Partition → Type 0
AreApart [] = Unit
AreApart (p ∷ ps) = (overlaps p.lower p.upper ps ≡ false) × AreApart ps

-- Ranges are disjoint, each partition has rows of its range alone, and the default partition has only
-- rows that no partition is for.
pub record IsRouted (s : Partitioned) : Type 0 where
  pub apart : AreApart s.attached
  pub fitting : All Fits s.attached
  pub left_over : All (λ r. covered s.attached r ≡ false) s.default_rows

module _ (q : EventRow → Bool) where
  route-count :
      (r : EventRow) (ps ps' : List Partition)
      → route r ps ≡ some ps'
      → count_attached q ps' ≡ count_if q (r ∷ []) + count_attached q ps
  unfolding route count_attached
  route-count r [] ps' h = ground arith
  route-count r (p ∷ ps) ps' h = elim (Option-cases (route r ps)) [
    | inl e ↦ ground arith
    | inr (ps₁, e) ↦ ground (arith, route-count r ps ps₁ e)
  ]

  insert_through-count :
      (r : EventRow) (s : Partitioned)
      → count_rows q (insert_through r s) ≡ count_if q (r ∷ []) + count_rows q s
  unfolding insert_through routed count_rows
  insert_through-count r s = elim (Option-cases (route r s.attached)) [
    | inl e ↦ rw e (ground arith)
    | inr (ps, e) ↦ rw e (ground (arith, route-count r s.attached ps e))
  ]

  pub insert_all-count :
      (rs : List EventRow) (s : Partitioned)
      → count_rows q (insert_all rs s) ≡ count_if q rs + count_rows q s
  unfolding insert_all
  insert_all-count [] s = omega arith
  insert_all-count (r ∷ rs) s =
      ground (arith, insert_all-count rs (insert_through r s), insert_through-count r s)

  filter-split :
      (p : EventRow → Bool) (rs : List EventRow)
      → count_if q (filter p rs) + count_if q (filter (λ r. not (p r)) rs) ≡ count_if q rs
  unfolding filter
  filter-split p [] = refl
  filter-split p (r ∷ rs) = ground (arith, filter-split p rs)

  pub clear_range-count :
      (lower upper : Time) (s : Partitioned)
      → count_if q (staged lower upper s) + count_rows q (clear_range lower upper s)
        ≡ count_rows q s
  unfolding staged clear_range count_rows
  clear_range-count lower upper s =
      omega (arith, filter-split (in_range lower upper) s.default_rows)

  pub attach_statement-count :
      (name : String) (lower upper : Time) (s : Partitioned)
      → count_rows q ((attach_statement name lower upper s).0) ≡ count_rows q s
  unfolding attach_statement count_rows count_attached
  attach_statement-count name lower upper s = ground arith

-- Routing a row moves no range.
route-overlaps :
    (lower upper : Time) (r : EventRow) (ps ps' : List Partition)
    → route r ps ≡ some ps'
    → overlaps lower upper ps' ≡ overlaps lower upper ps
unfolding route overlaps
route-overlaps lower upper r [] ps' h = ground arith
route-overlaps lower upper r (p ∷ ps) ps' h = elim (Option-cases (route r ps)) [
  | inl e ↦ ground arith
  | inr (ps₁, e) ↦ ground (arith, route-overlaps lower upper r ps ps₁ e)
]

route-covered :
    (x r : EventRow) (ps ps' : List Partition)
    → route r ps ≡ some ps'
    → covered ps' x ≡ covered ps x
unfolding route covered
route-covered x r [] ps' h = ground arith
route-covered x r (p ∷ ps) ps' h = elim (Option-cases (route r ps)) [
  | inl e ↦ ground arith
  | inr (ps₁, e) ↦ ground (arith, route-covered x r ps ps₁ e)
]

route-none : (r : EventRow) (ps : List Partition) → route r ps ≡ none → covered ps r ≡ false
unfolding route covered
route-none r [] h = refl
route-none r (p ∷ ps) h = elim (Option-cases (route r ps)) [
  | inl e ↦ ground (arith, route-none r ps e)
  | inr (ps₁, e) ↦ ground arith
]

-- The partitions after a row was routed, by where it went.
module _ (r : EventRow) where
  route-Fits :
      (ps ps' : List Partition)
      → route r ps ≡ some ps'
      → AreApart ps
      → All Fits ps
      → AreApart ps' × All Fits ps'
  unfolding route in_range overlaps
  route-Fits [] ps' h a f = ground arith
  route-Fits (p ∷ ps) ps' h a f = elim (Bool-cases (in_range p.lower p.upper r)) [
    | inl e ↦
        let filled : Partition = record p { rows = r ∷ p.rows } in
        let same : filled ∷ ps ≡ ps' = ground arith in
        subst (λ l. AreApart l × All Fits l) same ((a.0, a.1), ((e, f.0), f.1))
    | inr e ↦ elim (Option-cases (route r ps)) [
      | inl g ↦ ground arith
      | inr (ps₁, g) ↦
          let (a₁, f₁) = route-Fits ps ps₁ g a.1 f.1 in
          let same : p ∷ ps₁ ≡ ps' = ground arith in
          subst (λ l. AreApart l × All Fits l) same
            ((route-overlaps p.lower p.upper r ps ps₁ g ∙ a.0, a₁), (f.0, f₁))
    ]
  ]

pub insert_through-IsRouted :
    (r : EventRow) (s : Partitioned) → IsRouted s → IsRouted (insert_through r s)
unfolding insert_through routed
insert_through-IsRouted r s h = elim (Option-cases (route r s.attached)) [
  | inl e ↦
      subst (λ o. IsRouted (routed r o s)) (sym e)
        (record {
          apart = h.apart;
          fitting = h.fitting;
          left_over = (route-none r s.attached e, h.left_over);
        })
  | inr (ps, e) ↦
      let (apart, fitting) = route-Fits r s.attached ps e h.apart h.fitting in
      subst (λ o. IsRouted (routed r o s)) (sym e)
        (record {
          apart = apart;
          fitting = fitting;
          left_over =
              All-imp _ _ (λ x k. route-covered x r s.attached ps e ∙ k) s.default_rows h.left_over;
        })
]

pub insert_all-IsRouted :
    (rs : List EventRow) (s : Partitioned) → IsRouted s → IsRouted (insert_all rs s)
unfolding insert_all
insert_all-IsRouted [] s h = h
insert_all-IsRouted (r ∷ rs) s h =
    insert_all-IsRouted rs (insert_through r s) (insert_through-IsRouted r s h)

pub clear_range-IsRouted :
    (lower upper : Time) (s : Partitioned) → IsRouted s → IsRouted (clear_range lower upper s)
unfolding clear_range
clear_range-IsRouted lower upper s h = record {
  apart = h.apart;
  fitting = h.fitting;
  left_over = All-filter _ (λ r. not (in_range lower upper r)) s.default_rows h.left_over;
}

still_left_over :
    (p : Partition) (ps : List Partition) (rs : List EventRow)
    → any_row (in_range p.lower p.upper) rs ≡ false
    → All (λ r. covered ps r ≡ false) rs
    → All (λ r. covered (p ∷ ps) r ≡ false) rs
unfolding any_row covered
still_left_over p ps [] h k = tt
still_left_over p ps (r ∷ rs) h k = elim (Bool-cases (in_range p.lower p.upper r)) [
  | inl e ↦ ground arith
  | inr e ↦ (ground arith, still_left_over p ps rs (ground arith) k.1)
]

pub attach_statement-IsRouted :
    (name : String) (lower upper : Time) (s : Partitioned)
    → IsRouted s
    → IsRouted ((attach_statement name lower upper s).0)
unfolding attach_statement
attach_statement-IsRouted name lower upper s h = elim (Bool-cases (has_partition name s.attached)) [
  | inl e ↦ rw e h
  | inr e ↦ elim (Bool-cases (overlaps lower upper s.attached)) [
    | inl f ↦ rw (e, f) h
    | inr f ↦ elim (Bool-cases (any_row (in_range lower upper) s.default_rows)) [
      | inl g ↦ rw (e, f, g) h
      | inr g ↦
          let new : Partition = record { name = name; lower = lower; upper = upper; rows = [] } in
          rw (e, f, g)
            (record {
              apart = (f, h.apart);
              fitting = (tt, h.fitting);
              left_over = still_left_over new s.attached s.default_rows g h.left_over;
            })
    ]
  ]
]

-- Dropping a partition moves no other row.
without_partition-overlaps :
    (name : String) (lower upper : Time) (ps : List Partition)
    → overlaps lower upper ps ≡ false
    → overlaps lower upper (without_partition name ps) ≡ false
unfolding without_partition overlaps
without_partition-overlaps name lower upper [] h = refl
without_partition-overlaps name lower upper (p ∷ ps) h =
    ground (arith, without_partition-overlaps name lower upper ps)

without_partition-covered :
    (name : String) (ps : List Partition) (r : EventRow)
    → covered ps r ≡ false
    → covered (without_partition name ps) r ≡ false
unfolding without_partition covered
without_partition-covered name [] r h = refl
without_partition-covered name (p ∷ ps) r h = ground (arith, without_partition-covered name ps r)

without_partition-Fits :
    (name : String) (ps : List Partition)
    → AreApart ps
    → All Fits ps
    → AreApart (without_partition name ps) × All Fits (without_partition name ps)
unfolding without_partition
without_partition-Fits name [] a f = (tt, tt)
without_partition-Fits name (p ∷ ps) a f =
    let (a₁, f₁) = without_partition-Fits name ps a.1 f.1 in
    elim (Bool-cases (str_eq p.name name)) [
      | inl e ↦ rw e (a₁, f₁)
      | inr e ↦ rw e ((without_partition-overlaps name p.lower p.upper ps a.0, a₁), (f.0, f₁))
    ]

pub without_partition-IsRouted :
    (name : String) (s : Partitioned)
    → IsRouted s
    → IsRouted (record s { attached = without_partition name s.attached })
without_partition-IsRouted name s h =
    let (apart, fitting) = without_partition-Fits name s.attached h.apart h.fitting in
    record {
      apart = apart;
      fitting = fitting;
      left_over =
          All-imp _ _ (λ r. without_partition-covered name s.attached r) s.default_rows h.left_over;
    }
