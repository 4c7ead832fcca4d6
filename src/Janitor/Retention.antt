-- ===== src/Janitor/Retention.antt =====
-- Which partitions a cycle of internal/janitor/janitor.go leaves.
use sentinel_flow_project.Base.{
  ℕ, ◌+◌, ◌-◌, ◌≤◌, String, ◌≡◌, refl, subst, true, false, ◌||◌, Option, none, some, List, [], ◌∷◌,
  ◌++◌, arith, str_eq, eq_iff, Bool-cases, inl, inr,
}
use sentinel_flow_project.Base.Results.{Result, ok, err}
use sentinel_flow_project.Base.Time.{Time, day, truncate_day}
use sentinel_flow_project.Janitor.{
  Janitor, Maintenance, has_name, without, add_unless, ended, is_expired, expire, after_count,
  after_expire, after_create, after_list, run_once,
}

pub has_name-append :
    (s : String) (xs ys : List String) → has_name s (xs ++ ys) ≡ (has_name s xs || has_name s ys)
unfolding has_name
has_name-append s [] ys = refl
has_name-append s (x ∷ xs) ys = ground (arith, has_name-append s xs ys)

has_name-without :
    (s : String) (dropped xs : List String)
    → has_name s xs ≡ true
    → has_name s dropped ≡ false
    → has_name s (without dropped xs) ≡ true
unfolding has_name without
has_name-without s dropped [] h k = h
has_name-without s dropped (x ∷ xs) h k = elim (Bool-cases (str_eq x s)) [
  | inl e ↦
      let same : s ≡ x = ground (arith, eq_iff x s) in
      let kept : has_name x dropped ≡ false =
        subst (λ (t : String). has_name t dropped ≡ false) same k in
      rw kept (rw e refl)
  | inr e ↦ ground (arith, has_name-without s dropped xs)
]

module _ (j : Janitor) (w : Maintenance) where
  other_name :
      (cutoff : Time) (x s : String)
      → is_expired j w cutoff x ≡ true
      → is_expired j w cutoff s ≡ false
      → str_eq x s ≡ false
  other_name cutoff x s e h = elim (Bool-cases (str_eq x s)) [
    | inl q ↦
        let same : x ≡ s = ground (arith, eq_iff x s) in
        let e' : is_expired j w cutoff s ≡ true =
          subst (λ (t : String). is_expired j w cutoff t ≡ true) same e in
        cc
    | inr q ↦ q
  ]

  dropped_expired :
      (cutoff : Time) (s : String) (xs : List String)
      → is_expired j w cutoff s ≡ false
      → has_name s (expire j w cutoff xs).0 ≡ false
  unfolding expire has_name
  dropped_expired cutoff s [] h = refl
  dropped_expired cutoff s (x ∷ xs) h = elim (Bool-cases (is_expired j w cutoff x)) [
    | inr e ↦ rw e (dropped_expired cutoff s xs h)
    | inl e ↦
        rw e (added (w.drop_error x) (other_name cutoff x s e h) (dropped_expired cutoff s xs h))
  ]
    where
      added :
          (o : Option String)
          → str_eq x s ≡ false
          → has_name s (expire j w cutoff xs).0 ≡ false
          → has_name s (add_unless o x (expire j w cutoff xs)).0 ≡ false
      added none n k = rw n k
      added (some y) n k = refl

  kept_first :
      (s : String) (existing created : List String)
      → has_name s existing ≡ true
      → has_name s (existing ++ created) ≡ true
  kept_first s existing created h = ground (arith, has_name-append s existing created)

  after_count-partitions :
      (ps created dropped : List String) (r : Result String ℕ)
      → (after_count j w ps created dropped r).partitions ≡ ps
  unfolding after_count
  after_count-partitions ps created dropped (ok n) = refl
  after_count-partitions ps created dropped (err x) = refl

  after_expire-keeps :
      (s : String) (existing created : List String) (x : List String × Option String)
      → has_name s (existing ++ created) ≡ true
      → has_name s x.0 ≡ false
      → has_name s (after_expire j w existing created x).partitions ≡ true
  unfolding after_expire
  after_expire-keeps s existing created (dropped, some x) h k =
      has_name-without s dropped (existing ++ created) h k
  after_expire-keeps s existing created (dropped, none) h k =
      rw
        (after_count-partitions (without dropped (existing ++ created)) created dropped
          w.default_rows)
        (has_name-without s dropped (existing ++ created) h k)

  pub after_create-keeps :
      (s : String) (cutoff : Time) (existing : List String) (x : List String × Option String)
      → has_name s (existing ++ x.0) ≡ true
      → is_expired j w cutoff s ≡ false
      → has_name s (after_create j w cutoff existing x).partitions ≡ true
  unfolding after_create
  after_create-keeps s cutoff existing (created, some x) h k = h
  after_create-keeps s cutoff existing (created, none) h k =
      after_expire-keeps s existing created (expire j w cutoff existing) h
        (dropped_expired cutoff s existing k)

  after_list-keeps :
      (s : String) (now : Time) (existing : List String) (o : Option String)
      → has_name s existing ≡ true
      → is_expired j w (truncate_day now - j.retention) s ≡ false
      → has_name s (after_list j w now existing o).partitions ≡ true
  unfolding after_list
  after_list-keeps s now existing (some x) h k = h
  after_list-keeps s now existing none h k =
      after_create-keeps s (truncate_day now - j.retention) existing _ (kept_first s existing _ h) k

pub recent_kept :
    (today retention : ℕ) (o : Option Time)
    → ((d : Time) → o ≡ some d → today ≤ d + day + retention)
    → ended (today - retention) o ≡ false
unfolding ended
recent_kept today retention none recent = refl
recent_kept today retention (some d) recent = let h = recent d refl in ground arith

-- Whatever the database answers, a cycle drops no partition whose name is not that of a day, or whose
-- day ends within the retention before today's midnight.
pub run_once-keeps :
    (j : Janitor) (w : Maintenance) (now : Time) (existing : List String) (name : String)
    → has_name name existing ≡ true
    → ((d : Time) → j.day_of name ≡ some d → truncate_day now ≤ d + day + j.retention)
    → has_name name (run_once j w now existing).partitions ≡ true
unfolding run_once
run_once-keeps j w now existing name h recent =
    after_list-keeps j w name now existing w.list_error h
      (unfold is_expired in recent_kept (truncate_day now) j.retention (j.day_of name) recent)
