-- ===== src/Scenarios/Maintenance.antt =====
-- A run of internal/janitor/janitor.go on the third day, with a partition for each day named in unary.
use Prim.Native.String.{◌∷◌ as prepend}
use sentinel_flow_project.Base.{
  ℕ, zero, suc, ◌+◌, ◌*◌, ◌/◌, String, ◌≡◌, refl, true, none, some, List, [], ◌∷◌, arith,
}
use sentinel_flow_project.Base.Results.{ok}
use sentinel_flow_project.Base.Time.{Time, day, truncate_day}
use sentinel_flow_project.Janitor.{
  Janitor, Maintenance, has_name, without, create_from, create_one, ended, is_expired, expire,
  after_count, after_expire, after_create, after_list, run_once,
}
use sentinel_flow_project.Janitor.Retention.{run_once-keeps}
use sentinel_flow_project.Janitor.Ahead.{IsNaming, run_once-covers}

abbrev unary : ℕ → String
unary zero = ""
unary (suc n) = prepend "d" (unary n)

abbrev size : String → ℕ
size String.[] = 0
size (prepend c s) = suc (size s)

size-unary : (n : ℕ) → size (unary n) ≡ n
size-unary zero = refl
size-unary (suc n) = omega (arith, size-unary n)

-- Two days ahead, one day back.
abbrev janitor : Janitor
janitor = record {
  day_of = λ s. some (size s * day);
  name_of = λ t. unary (t / day);
  lookahead = 2 * day;
  retention = day;
}

abbrev working : Maintenance
working = record {
  list_error = none;
  create_error = λ d. none;
  drop_error = λ s. none;
  default_rows = ok 0;
}

janitor-IsNaming : IsNaming janitor
janitor-IsNaming = record { reads = λ k early. reads k }
  where
    reads : (k : ℕ) → some (size (unary (k * day / day)) * day) ≡ some (k * day)
    reads k = let back : k * day / day ≡ k = omega arith in rw (back, size-unary k) refl

-- The third day at a quarter past midnight; the partitions of the first day and of today exist.
abbrev now : Time
now = 3 * day + 900

abbrev existing : List String
existing = "" ∷ "ddd" ∷ []

cycle_succeeds : (run_once janitor working now existing).failure ≡ none
unfolding run_once after_list after_create after_expire after_count create_from create_one expire
    is_expired ended has_name without truncate_day
cycle_succeeds = refl

today_exists : has_name "ddd" existing ≡ true
unfolding has_name
today_exists = refl

run_once-keeps_example : has_name "ddd" (run_once janitor working now existing).partitions ≡ true
run_once-keeps_example =
    run_once-keeps janitor working now existing "ddd" today_exists
      (λ d e. unfold truncate_day in ground arith)

run_once-covers_example :
    has_name
      (unary ((truncate_day now + 2 * day) / day))
      (run_once janitor working now existing).partitions
    ≡ true
run_once-covers_example =
    run_once-covers janitor working now existing 2 janitor-IsNaming (omega arith)
      (unfold truncate_day in ground arith) cycle_succeeds
