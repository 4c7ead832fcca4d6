-- ===== src/Runbook/Catalog.antt =====
-- What a catalog that internal/runbook/runbook.go accepts may hand out.
use sentinel_flow_project.Base.{
  ◌⊎◌, ℕ, ◌+◌, String, ◌≡◌, refl, Bool, true, false, Option, none, some, List, [], ◌∷◌, arith, All,
  eq_iff, Bool-cases, inl, inr,
}
use sentinel_flow_project.Base.Text.{is_blank}
use sentinel_flow_project.Base.Int.{positive}
use sentinel_flow_project.Runbook.{
  ActionKind, noop, webhook, other_action, Step, Matcher, Runbook, matches, find, CatalogError,
  first_problem, problem_when, kind_problem, known_mode, step_problem, steps_problem, has_no_steps,
  seen_id, runbook_problem, runbooks_problem, catalog_problem,
}

-- A step that can be executed: its kind and mode are known, and a webhook has a target.
pub record IsStep (s : Step) : Type 0 where
  pub named : is_blank s.name ≡ false
  pub moded : known_mode s.mode ≡ true
  pub kinded : (s.kind ≡ noop) ⊎ ((s.kind ≡ webhook) × (is_blank s.target ≡ false))

-- A runbook that can be executed.
pub record IsRunbook (rb : Runbook) : Type 0 where
  pub identified : is_blank rb.id ≡ false
  pub selective : is_blank rb.matcher.rule_id ≡ false
  pub nonempty : has_no_steps rb.steps ≡ false
  pub bounded : positive rb.approval_timeout ≡ true
  pub steps_valid : All IsStep rb.steps

first_problem-none :
    (a b : Option CatalogError) → first_problem a b ≡ none → (a ≡ none) × (b ≡ none)
first_problem-none none b h = (refl, h)
first_problem-none (some x) b h = cc

problem_when-none : (b : Bool) (e : CatalogError) → problem_when b e ≡ none → b ≡ false
problem_when-none true e h = cc
problem_when-none false e h = refl

kind_problem-none :
    (id : String) (n : ℕ) (k : ActionKind) (target : String)
    → kind_problem id n k target ≡ none
    → (k ≡ noop) ⊎ ((k ≡ webhook) × (is_blank target ≡ false))
unfolding kind_problem
kind_problem-none id n noop target h = inl refl
kind_problem-none id n webhook target h = inr (refl, problem_when-none _ _ h)
kind_problem-none id n (other_action x) target h = cc

step_problem-IsStep : (id : String) (n : ℕ) (s : Step) → step_problem id n s ≡ none → IsStep s
unfolding step_problem
step_problem-IsStep id n s h =
    let p₁ = first_problem-none _ _ h in
    let p₂ = first_problem-none _ _ p₁.1 in
    record {
      named = problem_when-none _ _ p₁.0;
      moded = let m = problem_when-none _ _ p₂.1 in ground arith;
      kinded = kind_problem-none id n s.kind s.target p₂.0;
    }

steps_problem-All :
    (id : String) (n : ℕ) (ss : List Step) → steps_problem id n ss ≡ none → All IsStep ss
unfolding steps_problem
steps_problem-All id n [] h = tt
steps_problem-All id n (s ∷ ss) h =
    let p = first_problem-none _ _ h in
    (step_problem-IsStep id n s p.0, steps_problem-All id (n + 1) ss p.1)

runbook_problem-IsRunbook :
    (seen : List String) (rb : Runbook)
    → runbook_problem seen rb ≡ none
    → IsRunbook rb × (seen_id rb.id seen ≡ false)
unfolding runbook_problem
runbook_problem-IsRunbook seen rb h =
    let p₁ = first_problem-none _ _ h in
    let p₂ = first_problem-none _ _ p₁.1 in
    let p₃ = first_problem-none _ _ p₂.1 in
    let p₄ = first_problem-none _ _ p₃.1 in
    let p₅ = first_problem-none _ _ p₄.1 in
    (
      record {
        identified = problem_when-none _ _ p₁.0;
        selective = problem_when-none _ _ p₃.0;
        nonempty = problem_when-none _ _ p₄.0;
        bounded = let b = problem_when-none _ _ p₅.0 in ground arith;
        steps_valid = steps_problem-All rb.id 1 rb.steps p₅.1;
      },
      problem_when-none _ _ p₂.0,
    )

-- What Find may answer: a runbook that matches and can be executed, or none if none matches.
abbrev pub Answer : List Runbook → String → String → String → Option Runbook → Type 0
Answer rbs rule_id service severity none =
    All (λ (rb : Runbook). matches rb.matcher rule_id service severity ≡ false) rbs
Answer rbs rule_id service severity (some rb) =
    (matches rb.matcher rule_id service severity ≡ true)
    × (rb.matcher.rule_id ≡ rule_id)
    × IsRunbook rb

pass_over :
    (rb : Runbook) (rbs : List Runbook) (rule_id service severity : String) (o : Option Runbook)
    → matches rb.matcher rule_id service severity ≡ false
    → Answer rbs rule_id service severity o
    → Answer (rb ∷ rbs) rule_id service severity o
pass_over rb rbs rule_id service severity none m h = (m, h)
pass_over rb rbs rule_id service severity (some x) m h = h

matches-rule_id :
    (m : Matcher) (rule_id service severity : String)
    → matches m rule_id service severity ≡ true
    → m.rule_id ≡ rule_id
unfolding matches
matches-rule_id m rule_id service severity h = ground (arith, eq_iff m.rule_id rule_id)

find-Answer :
    (seen : List String) (rbs : List Runbook) (rule_id service severity : String)
    → runbooks_problem seen rbs ≡ none
    → Answer rbs rule_id service severity (find rbs rule_id service severity)
unfolding find runbooks_problem
find-Answer seen [] rule_id service severity h = tt
find-Answer seen (rb ∷ rest) rule_id service severity h =
    let p = first_problem-none _ _ h in
    let later = find-Answer (rb.id ∷ seen) rest rule_id service severity p.1 in
    elim (Bool-cases (matches rb.matcher rule_id service severity)) [
      | inl m ↦ rw m (
        m,
        matches-rule_id rb.matcher rule_id service severity m,
        (runbook_problem-IsRunbook seen rb p.0).0,
      )
      | inr m ↦ rw m (pass_over rb rest rule_id service severity _ m later)
    ]

-- In a catalog that Validate accepts, a runbook that Find answers for an incident matches it, is for
-- the incident's rule, has an id and at least one step, each with a name, of a known kind and mode and
-- with a target if it is a webhook, and waits a positive time for an approval. If Find answers none,
-- no runbook of the catalog matches.
pub catalog_problem-Answer :
    (rbs : List Runbook) (rule_id service severity : String)
    → catalog_problem rbs ≡ none
    → Answer rbs rule_id service severity (find rbs rule_id service severity)
unfolding catalog_problem
catalog_problem-Answer [] rule_id service severity h = cc
catalog_problem-Answer (rb ∷ rest) rule_id service severity h =
    find-Answer [] (rb ∷ rest) rule_id service severity h
