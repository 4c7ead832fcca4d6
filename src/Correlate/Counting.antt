-- ===== src/Correlate/Counting.antt =====
-- internal/correlate/evaluator.go: which events the cycles of one rule count into an incident.
use sentinel_flow_project.Base.{
  true, String, ℕ, ◌+◌, ◌-◌, ◌≤◌, ◌≡◌, refl, str_eq, subst, All, if◌then◌else◌, ap, ◌∙◌, Option,
  none, some, List, [], ◌∷◌, ◌++◌, arith,
}
use sentinel_flow_project.Base.Results.{Result, ok, err}
use sentinel_flow_project.Base.Time.{Time}
use sentinel_flow_project.Incident.{Details}
use sentinel_flow_project.Store.Database.{StoreError}
use sentinel_flow_project.Store.Incidents.{Table}
use sentinel_flow_project.Store.Events.{EventTable}
use sentinel_flow_project.Correlate.Window.{window_stats, Key}
use sentinel_flow_project.Correlate.Rule.{Floats, Rule}
use sentinel_flow_project.Correlate.Evaluator.{
  and_then, each, visit_snapshot, visit_group, by_window_from, insert_rule, Evaluator, Cycle,
  CycleError, Progress, count_since, detect, after_resolve, after_detect, evaluate_once,
}
use sentinel_flow_project.Correlate.Gains.{all_events, IsActive}
use sentinel_flow_project.Correlate.Shares.{
  sum, Adds, visit_windows-Adds, auto_resolve_stale-events, key_of,
}
use sentinel_flow_project.Correlate.Errors.{
  errors_from, errors_between, errors_from_split, errors_from-append, count_since_lem,
  count_since-later,
}
use sentinel_flow_project.Correlate.Accounting.{evaluate_once-last}
use sentinel_flow_project.Correlate.Tallies.{fires_on, rule_fingerprint, window-sum}

module _ {Float : Type 0} (f : Floats Float) (r : Rule Float) where
  -- An evaluator of this rule alone.
  abbrev pub one_rule : ℕ → Time → Evaluator Float
  one_rule resolve_after last = record {
    rules = r ∷ [];
    resolve_after = resolve_after;
    last_cycle_at = last;
  }

  module _ (marshal : Details → Option String) (c : Cycle) where
    last_round :
        (body : ℕ × List (Rule Float) → Progress → Progress × Option CycleError)
        (p : Progress × Option CycleError)
        → and_then (each body []) p ≡ p
    unfolding and_then each
    last_round body (s, none) = refl
    last_round body (s, some e) = refl

    visit_snapshot-Adds :
        (k : Key) (last : Time) (rows : EventTable) (s : Progress)
        → last ≤ c.start
        → All
            (λ x.
              str_eq (rule_fingerprint f r (key_of x)) (rule_fingerprint f r k) ≡ true
              → key_of x ≡ k)
            rows
        → let from = c.start - r.window in
          let bound = count_since last from in
          Adds
            (rule_fingerprint f r k)
            (if fires_on f r from bound rows k then errors_from k bound rows else 0)
            s
            (visit_snapshot f marshal c r.window (r ∷ []) last (some rows) s)
    unfolding visit_snapshot sum
    visit_snapshot-Adds k last rows s late only active h =
        let from : Time = c.start - r.window in
        let low = count_since_lem last from c.start late (omega arith) in
        let bound = count_since last from in
        let (still, grown) =
          visit_windows-Adds f (rule_fingerprint f r k) marshal c (r ∷ [])
            (window_stats from bound rows) s active h in
        (
          still,
          grown
              ∙ ap (λ n. all_events (rule_fingerprint f r k) s.incidents + n)
                  (window-sum f r from bound rows k low.0 only),
        )

    after_detect-events :
        (fp : String) (e : Evaluator Float) (p : Progress × Option CycleError)
        → (after_detect c e p).failure ≡ none
        → (p.1 ≡ none)
          × (all_events fp (after_detect c e p).incidents ≡ all_events fp p.0.incidents)
    unfolding after_detect
    after_detect-events fp e (s, some x) h = cc
    after_detect-events fp e (s, none) h = (refl, resolved _ (auto_resolve_stale-events fp _ _ _ _))
      where
        resolved :
            {m : ℕ} (x : Table × Result StoreError ℕ)
            → all_events fp x.0 ≡ m
            → all_events fp (after_resolve c e x).incidents ≡ m
        resolved (t, ok n) k = unfold after_resolve in k
        resolved (t, err y) k = unfold after_resolve in k

    detect_one :
        (shuffle : List (ℕ × List (Rule Float)) → List (ℕ × List (Rule Float))) (resolve_after : ℕ)
        (last : Time) (t : Table) (rows : EventTable)
        → shuffle ((r.window, r ∷ []) ∷ []) ≡ (r.window, r ∷ []) ∷ []
        → c.snapshot r.window ≡ some rows
        → detect f marshal c shuffle (one_rule resolve_after last) t
          ≡ visit_snapshot f marshal c r.window
              (r ∷ [])
              last
              (some rows)
              (record { incidents = t; visits = 0; opened = 0; grouped = 0 })
    unfolding detect by_window_from insert_rule visit_group each
    detect_one shuffle resolve_after last t rows alone read =
        let s : Progress = record { incidents = t; visits = 0; opened = 0; grouped = 0 } in
        rw alone (
          last_round (visit_group f marshal c last)
            (visit_snapshot f marshal c r.window (r ∷ []) last (c.snapshot r.window) s)
          ∙ ap (λ o. visit_snapshot f marshal c r.window (r ∷ []) last o s) read)

    -- A cycle that succeeds adds to the active incident of a group, if the rule fires on the group, the
    -- error events of the group from the bound on, and else nothing.
    pub evaluate_once-counts :
        (shuffle : List (ℕ × List (Rule Float)) → List (ℕ × List (Rule Float))) (resolve_after : ℕ)
        (last : Time) (t : Table) (rows : EventTable) (k : Key)
        → shuffle ((r.window, r ∷ []) ∷ []) ≡ (r.window, r ∷ []) ∷ []
        → c.snapshot r.window ≡ some rows
        → last ≤ c.start
        → All
            (λ x.
              str_eq (rule_fingerprint f r (key_of x)) (rule_fingerprint f r k) ≡ true
              → key_of x ≡ k)
            rows
        → IsActive (rule_fingerprint f r k) t
        → (evaluate_once f marshal shuffle c (one_rule resolve_after last) t).failure ≡ none
        → let from = c.start - r.window in
          let bound = count_since last from in
          all_events
            (rule_fingerprint f r k)
            (evaluate_once f marshal shuffle c (one_rule resolve_after last) t).incidents
          ≡ all_events (rule_fingerprint f r k) t
            + (if fires_on f r from bound rows k then errors_from k bound rows else 0)
    unfolding evaluate_once
    evaluate_once-counts shuffle resolve_after last t rows k alone read late only active h =
        let e = one_rule resolve_after last in
        let s : Progress = record { incidents = t; visits = 0; opened = 0; grouped = 0 } in
        let p = visit_snapshot f marshal c r.window (r ∷ []) last (some rows) s in
        let one : detect f marshal c shuffle e t ≡ p =
          detect_one shuffle resolve_after last t rows alone read in
        let (quiet, kept) =
          after_detect-events (rule_fingerprint f r k) e (detect f marshal c shuffle e t) h in
        let quiet' : p.1 ≡ none = subst (λ x. x.1 ≡ none) one quiet in
        kept
        ∙ ap (λ x. all_events (rule_fingerprint f r k) x.0.incidents) one
        ∙ (visit_snapshot-Adds k last rows s late only active quiet').1

module _ {Float : Type 0} (f : Floats Float) (r : Rule Float) (marshal : Details → Option String)
    (shuffle : List (ℕ × List (Rule Float)) → List (ℕ × List (Rule Float))) where
  -- An evaluator of one rule, a group whose fingerprint no other group of the read rows has, and an
  -- incident of it that is active at the start of both cycles. Two cycles succeed, the second on the
  -- evaluator that the first left and within a window of its start, and the rule fires on the group in
  -- both. Then UpsertOpen adds to the incident's events, over the two cycles, each error event from the
  -- first bound on once, but for those that arrive late, dated before the first cycle's start, which
  -- are never added, and those that the first cycle read and that are dated at or after its start,
  -- which are added twice.
  pub evaluate_once-accounting :
      (first second : Cycle) (resolve_after : ℕ) (last : Time) (t u : Table)
      (rows arrivals : EventTable) (k : Key)
      → shuffle ((r.window, r ∷ []) ∷ []) ≡ (r.window, r ∷ []) ∷ []
      → first.snapshot r.window ≡ some rows
      → second.snapshot r.window ≡ some (rows ++ arrivals)
      → last ≤ first.start
      → first.start ≤ second.start
      → second.start - r.window ≤ first.start
      → All
          (λ x.
            str_eq (rule_fingerprint f r (key_of x)) (rule_fingerprint f r k) ≡ true → key_of x ≡ k)
          rows
      → All
          (λ x.
            str_eq (rule_fingerprint f r (key_of x)) (rule_fingerprint f r k) ≡ true → key_of x ≡ k)
          (rows ++ arrivals)
      → IsActive (rule_fingerprint f r k) t
      → IsActive (rule_fingerprint f r k) u
      → let one = evaluate_once f marshal shuffle first (one_rule f r resolve_after last) t in
        let two = evaluate_once f marshal shuffle second one.evaluator u in
        let bound = count_since last (first.start - r.window) in
        one.failure ≡ none
        → two.failure ≡ none
        → fires_on f r (first.start - r.window) bound rows k ≡ true
        → fires_on f r (second.start - r.window) first.start (rows ++ arrivals) k ≡ true
        → all_events (rule_fingerprint f r k) one.incidents
            + all_events (rule_fingerprint f r k) two.incidents
            + errors_between k bound first.start arrivals
          ≡ all_events (rule_fingerprint f r k) t
            + all_events (rule_fingerprint f r k) u
            + errors_from k bound (rows ++ arrivals)
            + errors_from k first.start rows
  evaluate_once-accounting first second resolve_after last t u rows arrivals k alone read read' late
        order overlap only only' active active' h h' fires fires' =
      let one = evaluate_once f marshal shuffle first (one_rule f r resolve_after last) t in
      let left : one.evaluator ≡ one_rule f r resolve_after first.start =
        evaluate_once-last f marshal shuffle first (one_rule f r resolve_after last) t h in
      let bound : Time = count_since last (first.start - r.window) in
      let low = count_since_lem last (first.start - r.window) first.start late (omega arith) in
      let kept : count_since first.start (second.start - r.window) ≡ first.start =
        count_since-later first.start (second.start - r.window) overlap in
      let n =
        evaluate_once-counts f r marshal first shuffle resolve_after last t rows k alone read late
          only active h in
      let again = one_rule f r resolve_after first.start in
      let h₂ : (evaluate_once f marshal shuffle second again u).failure ≡ none =
        subst (λ e. (evaluate_once f marshal shuffle second e u).failure ≡ none) left h' in
      let m =
        evaluate_once-counts f r marshal second shuffle resolve_after first.start u
          (rows ++ arrivals) k alone read' order only' active' h₂ in
      let added : all_events (rule_fingerprint f r k) one.incidents
          ≡ all_events (rule_fingerprint f r k) t + errors_from k bound rows =
        n ∙ rw fires refl in
      let added' : all_events (rule_fingerprint f r k)
            (evaluate_once f marshal shuffle second one.evaluator u).incidents
          ≡ all_events (rule_fingerprint f r k) u + errors_from k first.start (rows ++ arrivals) =
        ap
          (λ e.
            all_events (rule_fingerprint f r k)
              (evaluate_once f marshal shuffle second e u).incidents)
          left
        ∙ m
        ∙ rw (kept, fires') refl in
      omega (
        arith,
        added,
        added',
        errors_from-append k first.start rows arrivals,
        errors_from-append k bound rows arrivals,
        errors_from_split k bound first.start arrivals low.1,
      )
