-- ===== src/Correlate/Accounting.antt =====
-- What a cycle of internal/correlate/evaluator.go remembers.
use sentinel_flow_project.Base.{String, ℕ, ◌-◌, ◌≡◌, refl, Option, none, some, List, ◌⊎◌, inl, inr}
use sentinel_flow_project.Base.Results.{Result, ok, err}
use sentinel_flow_project.Incident.{Details}
use sentinel_flow_project.Store.Database.{StoreError}
use sentinel_flow_project.Store.Incidents.{Table, auto_resolve_stale}
use sentinel_flow_project.Correlate.Rule.{Floats, Rule}
use sentinel_flow_project.Correlate.Evaluator.{
  Evaluator, Cycle, CycleError, Progress, detect, after_resolve, after_detect, evaluate_once,
}

module _ {Float : Type 0} (c : Cycle) (e : Evaluator Float) where
  after_resolve-last :
      (r : Table × Result StoreError ℕ)
      → ((after_resolve c e r).failure ≡ none
          × (after_resolve c e r).evaluator ≡ record e { last_cycle_at = c.start })
        ⊎ ((x : CycleError) × ((after_resolve c e r).failure ≡ some x
              × (after_resolve c e r).evaluator ≡ e))
  unfolding after_resolve
  after_resolve-last (t, ok n) = inl (refl, refl)
  after_resolve-last (t, err x) = inr (CycleError.auto_resolve_failed x, (refl, refl))

  after_detect-last :
      (r : Progress × Option CycleError)
      → ((after_detect c e r).failure ≡ none
          × (after_detect c e r).evaluator ≡ record e { last_cycle_at = c.start })
        ⊎ ((x : CycleError) × ((after_detect c e r).failure ≡ some x
              × (after_detect c e r).evaluator ≡ e))
  unfolding after_detect
  after_detect-last (s, some x) = inr (x, (refl, refl))
  after_detect-last (s, none) = after_resolve-last (
      auto_resolve_stale c.resolve_link c.resolve_db_now (c.resolve_now - e.resolve_after)
        s.incidents)

module _ {Float : Type 0} (f : Floats Float) (marshal : Details → Option String)
    (shuffle : List (ℕ × List (Rule Float)) → List (ℕ × List (Rule Float))) where
  -- A cycle of the evaluator either succeeds and remembers its own start as the last cycle, or fails
  -- with an error and leaves the evaluator as it was, so that the next cycle counts the slice again.
  pub evaluate_once-remembers :
      (c : Cycle) (e : Evaluator Float) (t : Table)
      → ((evaluate_once f marshal shuffle c e t).failure ≡ none
          × (evaluate_once f marshal shuffle c e t).evaluator
            ≡ record e { last_cycle_at = c.start })
        ⊎ ((x : CycleError) × ((evaluate_once f marshal shuffle c e t).failure ≡ some x
              × (evaluate_once f marshal shuffle c e t).evaluator ≡ e))
  unfolding evaluate_once
  evaluate_once-remembers c e t = after_detect-last c e (detect f marshal c shuffle e t)

  pub evaluate_once-last :
      (c : Cycle) (e : Evaluator Float) (t : Table)
      → (evaluate_once f marshal shuffle c e t).failure ≡ none
      → (evaluate_once f marshal shuffle c e t).evaluator ≡ record e { last_cycle_at = c.start }
  evaluate_once-last c e t h = elim (evaluate_once-remembers c e t) [ inl s ↦ s.1 | inr s ↦ cc ]
