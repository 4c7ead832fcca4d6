-- ===== src/Janitor/Ahead.antt =====
-- Which days have a partition after a cycle of internal/janitor/janitor.go.
use sentinel_flow_project.Base.{
  ℕ, zero, suc, ◌+◌, ◌-◌, ◌*◌, ◌/◌, ◌≤◌, ◌<◌, String, ◌≡◌, refl, subst, Bool, true, false, Option,
  none, some, List, ◌++◌, ◌⊎◌, arith, str_eq_refl, ltb, Bool-cases, inl, inr,
}
use sentinel_flow_project.Base.Time.{Time, day, truncate_day, end_of_written}
use sentinel_flow_project.Janitor.{
  Janitor, Maintenance, has_name, create_one, create_from, is_expired, after_create, after_list,
  run_once,
}
use sentinel_flow_project.Janitor.Retention.{has_name-append, after_create-keeps, recent_kept}

-- DayOf reads back every name that NameOf gives to a midnight before the year 10000.
pub record IsNaming (j : Janitor) : Type 0 where
  pub reads : (k : ℕ) → k * day < end_of_written → j.day_of (j.name_of (k * day)) ≡ some (k * day)

-- What one day of the loop adds, if the loop ends without an error.
record Adds (known : Bool) (name : String) (rest x : List String × Option String) : Type 0 where
  going : rest.1 ≡ none
  keeps : (s : String) → has_name s rest.0 ≡ true → has_name s x.0 ≡ true
  holds : known ≡ false → has_name name x.0 ≡ true

create_one-Adds :
    (known : Bool) (o : Option String) (name : String) (rest : List String × Option String)
    → (create_one known o name rest).1 ≡ none
    → Adds known name rest (create_one known o name rest)
unfolding create_one has_name
create_one-Adds true o name rest h = record { going = h; keeps = λ s k. k; holds = λ e. cc }
create_one-Adds false none name (names, e) h = record {
  going = h;
  keeps = λ s k. ground arith;
  holds = λ e. rw (str_eq_refl name) refl;
}
create_one-Adds false (some y) name (names, e) h = cc

module _ (j : Janitor) (w : Maintenance) where
  create_from_step :
      (present : List String) (fuel : ℕ) (d limit : Time)
      → ltb limit d ≡ false
      → create_from j w present (suc fuel) d limit
        ≡ create_one
            (has_name (j.name_of d) present)
            (w.create_error d)
            (j.name_of d)
            (create_from j w present fuel (d + day) limit)
  unfolding create_from
  create_from_step present fuel d limit h = rw h refl

  abbrev Covered : List String → Time → List String × Option String → Type 0
  Covered present t x =
      (has_name (j.name_of t) present ≡ true) ⊎ (has_name (j.name_of t) x.0 ≡ true)

  create_from-covers :
      (present : List String) (fuel i : ℕ) (d t limit : Time)
      → t ≡ d + i * day
      → (create_from j w present fuel d limit).1 ≡ none
      → i < fuel
      → t ≤ limit
      → Covered present t (create_from j w present fuel d limit)
  create_from-covers present zero i d t limit e h lt le = ground arith
  create_from-covers present (suc fuel) zero d t limit e h lt le =
      let step = create_from_step present fuel d limit (ground arith) in
      let adds =
        create_one-Adds _ _ _ _ (subst (λ (x : List String × Option String). x.1 ≡ none) step h) in
      let same : t ≡ d = omega (arith, e) in
      rw (same, step)
        (elim (Bool-cases (has_name (j.name_of d) present)) [
          | inl known ↦ inl known
          | inr fresh ↦ inr (adds.holds fresh)
        ])
  create_from-covers present (suc fuel) (suc i) d t limit e h lt le =
      let step = create_from_step present fuel d limit (ground arith) in
      let adds =
        create_one-Adds _ _ _ _ (subst (λ (x : List String × Option String). x.1 ≡ none) step h) in
      let later =
        create_from-covers present fuel i (d + day) t limit (omega (arith, e)) adds.going
          (omega arith) le in
      rw step
        (elim later [ inl known ↦ inl known | inr made ↦ inr (adds.keeps (j.name_of t) made) ])

  after_create-failure :
      (cutoff : Time) (existing : List String) (x : List String × Option String)
      → (after_create j w cutoff existing x).failure ≡ none
      → x.1 ≡ none
  unfolding after_create
  after_create-failure cutoff existing (created, some y) h = cc
  after_create-failure cutoff existing (created, none) h = refl

  after_list-covers :
      (now : Time) (existing : List String) (i : ℕ) (o : Option String)
      → IsNaming j
      → i * day ≤ j.lookahead
      → truncate_day now + i * day < end_of_written
      → (after_list j w now existing o).failure ≡ none
      → has_name (j.name_of (truncate_day now + i * day)) (after_list j w now existing o).partitions
        ≡ true
  unfolding after_list
  after_list-covers now existing i (some x) naming le early h = cc
  after_list-covers now existing i none naming le early h =
      let today = truncate_day now in
      let t = today + i * day in
      let made = create_from j w existing (j.lookahead / day + 1) today (today + j.lookahead) in
      let whole : t ≡ (now / day + i) * day = unfold truncate_day in omega arith in
      let read : j.day_of (j.name_of t) ≡ some t =
        rw whole (naming.reads (now / day + i) (rw (← whole) early)) in
      let present : has_name (j.name_of t) (existing ++ made.0) ≡ true =
        elim (create_from-covers existing (j.lookahead / day + 1) i today t (today + j.lookahead)
          refl (after_create-failure (today - j.retention) existing made h) (omega arith)
          (omega arith)) [
            | inl known ↦ ground (arith, has_name-append (j.name_of t) existing made.0)
            | inr new ↦ ground (arith, has_name-append (j.name_of t) existing made.0)
          ] in
      after_create-keeps j w (j.name_of t) (today - j.retention) existing made present (
        unfold is_expired in
        recent_kept today j.retention (j.day_of (j.name_of t)) (λ d e. ground (arith, read, e)))

-- A cycle that ends without an error leaves a partition for today and for every later day within the
-- lookahead, before the year 10000, if DayOf reads back the names that NameOf gives.
pub run_once-covers :
    (j : Janitor) (w : Maintenance) (now : Time) (existing : List String) (i : ℕ)
    → IsNaming j
    → i * day ≤ j.lookahead
    → truncate_day now + i * day < end_of_written
    → (run_once j w now existing).failure ≡ none
    → has_name (j.name_of (truncate_day now + i * day)) (run_once j w now existing).partitions
      ≡ true
unfolding run_once
run_once-covers j w now existing i naming le early h =
    after_list-covers j w now existing i w.list_error naming le early h
