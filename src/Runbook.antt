-- ===== src/Runbook.antt =====
-- internal/runbook/runbook.go: what may be done about an incident, and which runbook applies to it.
pub mod Catalog
use sentinel_flow_project.Base.{
  ℕ, ◌+◌, String, Bool, true, false, ◌&&◌, ◌||◌, not, Option, none, some, List, [], ◌∷◌, str_eq,
  if◌then◌else◌,
}
use sentinel_flow_project.Base.Text.{is_empty, is_blank}
use sentinel_flow_project.Base.Int.{positive}
use sentinel_flow_project.Base.Time.{Duration}

-- `other_action` and `other_mode` are strings that are none of the constants.
pub data ActionKind : Type 0 where
  noop webhook : ActionKind
  other_action : String → ActionKind

pub data Mode : Type 0 where
  auto approval : Mode
  other_mode : String → Mode

pub record Step : Type 0 where
  pub name : String
  pub kind : ActionKind
  pub mode : Mode
  pub target : String
  pub params : List (String × String)

pub record Matcher : Type 0 where
  pub rule_id : String
  pub service_name : String
  pub severity : String

pub record Runbook : Type 0 where
  pub id : String
  pub name : String
  pub matcher : Matcher
  pub steps : List Step
  pub approval_timeout : Duration

-- Matches
unfoldable pub matches : Matcher → String → String → String → Bool
matches m rule_id service_name severity =
    if not (str_eq m.rule_id rule_id)
    then false
    else if not (is_empty m.service_name) && not (str_eq m.service_name service_name)
    then false
    else not (not (is_empty m.severity) && not (str_eq m.severity severity))

-- Find: the first that matches.
unfoldable pub find : List Runbook → String → String → String → Option Runbook
unfolding matches
find [] rule_id service_name severity = none
find (rb ∷ rest) rule_id service_name severity =
    if matches rb.matcher rule_id service_name severity
    then some rb
    else find rest rule_id service_name severity

-- What Validate reports, with the runbook's id and the number of the step.
pub data CatalogError : Type 0 where
  no_runbooks id_required : CatalogError
  id_repeated rule_id_required no_steps approval_timeout_not_positive : String → CatalogError
  name_required target_required unknown_kind unknown_mode : String → ℕ → CatalogError

abbrev pub first_problem : Option CatalogError → Option CatalogError → Option CatalogError
first_problem none e = e
first_problem (some x) e = some x

abbrev pub problem_when : Bool → CatalogError → Option CatalogError
problem_when true e = some e
problem_when false e = none

unfoldable pub kind_problem : String → ℕ → ActionKind → String → Option CatalogError
kind_problem id n noop target = none
kind_problem id n webhook target = problem_when (is_blank target) (target_required id n)
kind_problem id n (other_action x) target = some (unknown_kind id n)

abbrev pub known_mode : Mode → Bool
known_mode (other_mode x) = false
known_mode auto = true
known_mode approval = true

unfoldable pub step_problem : String → ℕ → Step → Option CatalogError
unfolding kind_problem
step_problem id n s = first_problem (problem_when (is_blank s.name) (name_required id n)) (
    first_problem (kind_problem id n s.kind s.target)
      (problem_when (not (known_mode s.mode)) (unknown_mode id n)))

unfoldable pub steps_problem : String → ℕ → List Step → Option CatalogError
unfolding step_problem
steps_problem id n [] = none
steps_problem id n (s ∷ ss) = first_problem (step_problem id n s) (steps_problem id (n + 1) ss)

abbrev pub has_no_steps : List Step → Bool
has_no_steps [] = true
has_no_steps (s ∷ ss) = false

unfoldable pub seen_id : String → List String → Bool
seen_id id [] = false
seen_id id (x ∷ xs) = str_eq x id || seen_id id xs

unfoldable pub runbook_problem : List String → Runbook → Option CatalogError
unfolding seen_id steps_problem
runbook_problem seen rb = first_problem (problem_when (is_blank rb.id) id_required) (
    first_problem (problem_when (seen_id rb.id seen) (id_repeated rb.id)) (
      first_problem (problem_when (is_blank rb.matcher.rule_id) (rule_id_required rb.id)) (
        first_problem (problem_when (has_no_steps rb.steps) (no_steps rb.id)) (
          first_problem
            (problem_when (not (positive rb.approval_timeout))
              (approval_timeout_not_positive rb.id))
            (steps_problem rb.id 1 rb.steps)))))

unfoldable pub runbooks_problem : List String → List Runbook → Option CatalogError
unfolding runbook_problem
runbooks_problem seen [] = none
runbooks_problem seen (rb ∷ rest) =
    first_problem (runbook_problem seen rb) (runbooks_problem (rb.id ∷ seen) rest)

-- Validate: none for a well-formed catalog.
unfoldable pub catalog_problem : List Runbook → Option CatalogError
unfolding runbooks_problem
catalog_problem [] = some no_runbooks
catalog_problem (rb ∷ rest) = runbooks_problem [] (rb ∷ rest)
