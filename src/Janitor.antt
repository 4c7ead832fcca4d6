-- ===== src/Janitor.antt =====
-- internal/janitor/janitor.go: the cycle that creates the partitions ahead and drops the expired ones.
pub mod Retention
pub mod Ahead
use sentinel_flow_project.Base.{
  ℕ, zero, suc, ◌+◌, ◌-◌, ◌*◌, ◌/◌, String, Bool, true, false, ◌||◌, Option, none, some, List, [],
  ◌∷◌, ◌++◌, str_eq, ltb, if◌then◌else◌,
}
use sentinel_flow_project.Base.Results.{Result, ok, err}
use sentinel_flow_project.Base.Int.{pos_part, positive}
use sentinel_flow_project.Base.Time.{Time, Duration, day, truncate_day}

-- What is injected in Options: DayOf, NameOf and the two bounds.
pub record Options : Type 0 where
  pub day_of : String → Option Time
  pub name_of : Time → String
  pub lookahead : Duration
  pub retention : Duration

pub record Janitor : Type 0 where
  pub day_of : String → Option Time
  pub name_of : Time → String
  pub lookahead : ℕ
  pub retention : ℕ

-- New
unfoldable pub new_janitor : Options → Janitor
new_janitor opts = record {
  day_of = opts.day_of;
  name_of = opts.name_of;
  lookahead = if positive opts.lookahead then pos_part opts.lookahead else 7 * day;
  retention = if positive opts.retention then pos_part opts.retention else 30 * day;
}

-- How the Maintainer answers in one cycle.
pub record Maintenance : Type 0 where
  pub list_error : Option String
  pub create_error : Time → Option String
  pub drop_error : String → Option String
  pub default_rows : Result String ℕ

pub data CycleFailure : Type 0 where
  list_failed create_failed drop_failed count_failed : String → CycleFailure

-- What a cycle leaves: the names of the partitions, the Result, and the error.
pub record CycleResult : Type 0 where
  pub partitions : List String
  pub created : List String
  pub dropped : List String
  pub rows : ℕ
  pub failure : Option CycleFailure

unfoldable pub has_name : String → List String → Bool
has_name s [] = false
has_name s (x ∷ xs) = str_eq x s || has_name s xs

-- The partitions that are not among the dropped ones.
unfoldable pub without : List String → List String → List String
unfolding has_name
without dropped [] = []
without dropped (x ∷ xs) =
    let rest = without dropped xs in if has_name x dropped then rest else x ∷ rest

-- One more name, unless the operation failed, which ends the loop.
abbrev pub add_unless :
    Option String → String → List String × Option String → List String × Option String
add_unless none name (names, e) = (name ∷ names, e)
add_unless (some x) name rest = ([], some x)

-- One day of the creating loop: nothing if it has a partition already.
unfoldable pub create_one :
    Bool → Option String → String → List String × Option String → List String × Option String
create_one true o name rest = rest
create_one false o name rest = add_unless o name rest

-- The newest possible row of the day is older than the cutoff.
unfoldable pub ended : Time → Option Time → Bool
ended cutoff none = false
ended cutoff (some d) = ltb (d + day) cutoff

module _ (j : Janitor) (w : Maintenance) where
  -- The creating loop, from a day up to the limit: a day more than the lookahead has is fuel enough.
  unfoldable pub create_from : List String → ℕ → Time → Time → List String × Option String
  unfolding has_name create_one
  create_from present zero d limit = ([], none)
  create_from present (suc fuel) d limit =
      let rest = create_from present fuel (d + day) limit in
      if ltb limit d
      then ([], none)
      else create_one (has_name (j.name_of d) present) (w.create_error d) (j.name_of d) rest

  unfoldable pub is_expired : Time → String → Bool
  unfolding ended
  is_expired cutoff name = ended cutoff (j.day_of name)

  unfoldable pub expire : Time → List String → List String × Option String
  unfolding is_expired
  expire cutoff [] = ([], none)
  expire cutoff (name ∷ names) =
      let rest = expire cutoff names in
      if is_expired cutoff name then add_unless (w.drop_error name) name rest else rest

  unfoldable pub after_count :
      List String → List String → List String → Result String ℕ → CycleResult
  after_count partitions created dropped (ok n) = record {
    partitions = partitions;
    created = created;
    dropped = dropped;
    rows = n;
    failure = none;
  }
  after_count partitions created dropped (err x) = record {
    partitions = partitions;
    created = created;
    dropped = dropped;
    rows = 0;
    failure = some (count_failed x);
  }

  unfoldable pub after_expire :
      List String → List String → List String × Option String → CycleResult
  unfolding without after_count
  after_expire existing created (dropped, some x) = record {
    partitions = without dropped (existing ++ created);
    created = created;
    dropped = dropped;
    rows = 0;
    failure = some (drop_failed x);
  }
  after_expire existing created (dropped, none) =
      after_count (without dropped (existing ++ created)) created dropped w.default_rows

  unfoldable pub after_create : Time → List String → List String × Option String → CycleResult
  unfolding expire after_expire
  after_create cutoff existing (created, some x) = record {
    partitions = existing ++ created;
    created = created;
    dropped = [];
    rows = 0;
    failure = some (create_failed x);
  }
  after_create cutoff existing (created, none) =
      after_expire existing created (expire cutoff existing)

  unfoldable pub after_list : Time → List String → Option String → CycleResult
  unfolding create_from after_create truncate_day
  after_list now existing (some x) = record {
    partitions = existing;
    created = [];
    dropped = [];
    rows = 0;
    failure = some (list_failed x);
  }
  after_list now existing none =
      let today = truncate_day now in
      after_create (today - j.retention) existing
        (create_from existing (j.lookahead / day + 1) today (today + j.lookahead))

  -- RunOnce
  unfoldable pub run_once : Time → List String → CycleResult
  unfolding after_list
  run_once now existing = after_list now existing w.list_error
