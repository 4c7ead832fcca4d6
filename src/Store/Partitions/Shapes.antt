-- ===== src/Store/Partitions/Shapes.antt =====
-- internal/store/partitions.go: the names and bounds of the partitions, through the statements.
use sentinel_flow_project.Base.{
  String, ◌≡◌, subst, inl, inr, some, List, [], ◌∷◌, arith, str_eq, All, Bool-cases, Option-cases,
}
use sentinel_flow_project.Base.Time.{Time}
use sentinel_flow_project.Store.Events.{EventRow}
use sentinel_flow_project.Store.Partitions.{
  Partition, Partitioned, in_range, has_partition, overlaps, any_row, attach_statement, route,
  routed, insert_through, insert_all, without_partition,
}

-- What is asked of a name and two bounds, asked of every partition.
abbrev pub Shaped : (String → Time → Time → Type 0) → List Partition → Type 0
Shaped P = All (λ p. P p.name p.lower p.upper)

module _ (P : String → Time → Time → Type 0) where
  route-Shaped :
      (r : EventRow) (ps ps' : List Partition) → route r ps ≡ some ps' → Shaped P ps → Shaped P ps'
  unfolding route
  route-Shaped r [] ps' h k = ground arith
  route-Shaped r (p ∷ ps) ps' h k = elim (Bool-cases (in_range p.lower p.upper r)) [
    | inl e ↦
        let filled : Partition = record p { rows = r ∷ p.rows } in
        let same : filled ∷ ps ≡ ps' = ground arith in subst (Shaped P) same (k.0, k.1)
    | inr e ↦ elim (Option-cases (route r ps)) [
      | inl g ↦ ground arith
      | inr (ps₁, g) ↦
          let same : p ∷ ps₁ ≡ ps' = ground arith in
          subst (Shaped P) same (k.0, route-Shaped r ps ps₁ g k.1)
    ]
  ]

  pub insert_through-Shaped :
      (r : EventRow) (s : Partitioned)
      → Shaped P s.attached
      → Shaped P (insert_through r s).attached
  unfolding insert_through routed
  insert_through-Shaped r s k = elim (Option-cases (route r s.attached)) [
    | inl e ↦ rw e k
    | inr (ps, e) ↦ rw e (route-Shaped r s.attached ps e k)
  ]

  pub insert_all-Shaped :
      (rs : List EventRow) (s : Partitioned)
      → Shaped P s.attached
      → Shaped P (insert_all rs s).attached
  unfolding insert_all
  insert_all-Shaped [] s k = k
  insert_all-Shaped (r ∷ rs) s k =
      insert_all-Shaped rs (insert_through r s) (insert_through-Shaped r s k)

  pub attach_statement-Shaped :
      (name : String) (lower upper : Time) (s : Partitioned)
      → P name lower upper
      → Shaped P s.attached
      → Shaped P ((attach_statement name lower upper s).0).attached
  unfolding attach_statement
  attach_statement-Shaped name lower upper s new k =
      elim (Bool-cases (has_partition name s.attached)) [
        | inl e ↦ rw e k
        | inr e ↦ elim (Bool-cases (overlaps lower upper s.attached)) [
          | inl f ↦ rw (e, f) k
          | inr f ↦ elim (Bool-cases (any_row (in_range lower upper) s.default_rows)) [
            | inl g ↦ rw (e, f, g) k
            | inr g ↦ rw (e, f, g) (new, k)
          ]
        ]
      ]

  pub without_partition-Shaped :
      (name : String) (ps : List Partition) → Shaped P ps → Shaped P (without_partition name ps)
  unfolding without_partition
  without_partition-Shaped name [] k = tt
  without_partition-Shaped name (p ∷ ps) k = elim (Bool-cases (str_eq p.name name)) [
    | inl e ↦ rw e (without_partition-Shaped name ps k.1)
    | inr e ↦ rw e (k.0, without_partition-Shaped name ps k.1)
  ]
