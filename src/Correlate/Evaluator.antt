-- ===== src/Correlate/Evaluator.antt =====
-- internal/correlate/evaluator.go: one correlation cycle.
use sentinel_flow_project.Base.{
  ℕ, ◌+◌, ◌-◌, String, Bool, true, false, Option, none, some, List, [], ◌∷◌, ◌++◌, ltb, ◌==◌,
  if◌then◌else◌,
}
use sentinel_flow_project.Base.Results.{Result, ok, err}
use sentinel_flow_project.Base.Time.{Time, zero_time}
use sentinel_flow_project.Incident.{Incident, Details, status_open, fingerprint}
use sentinel_flow_project.Store.Database.{Link, StoreError}
use sentinel_flow_project.Store.Incidents.{Table, upsert_open, auto_resolve_stale}
use sentinel_flow_project.Store.Events.{EventTable}
use sentinel_flow_project.Correlate.Window.{ServiceWindow, window_stats}
use sentinel_flow_project.Correlate.Rule.{Floats, Rule, Detection, evaluate}

pub record Evaluator (Float : Type 0) : Type 0 where
  pub rules : List (Rule Float)
  pub resolve_after : ℕ
  -- When the previous successful cycle ran; the zero time before the first.
  pub last_cycle_at : Time

-- What one UpsertOpen of a cycle meets: the evaluator's clock and new id, and PostgreSQL's clock and
-- connection.
pub record Visit : Type 0 where
  pub now : Time
  pub new_id : String
  pub db_now : Time
  pub link : Link

-- What one cycle meets: its start, each window query (none if it fails), its visits in order, and
-- the clocks and connection of the final auto-resolution.
pub record Cycle : Type 0 where
  pub start : Time
  pub snapshot : ℕ → Option EventTable
  pub visit : ℕ → Visit
  pub resolve_now : Time
  pub resolve_db_now : Time
  pub resolve_link : Link

pub data CycleError : Type 0 where
  window_stats_failed : ℕ → CycleError
  upsert_failed : StoreError → CycleError
  auto_resolve_failed : StoreError → CycleError

-- The rows written so far: the incidents table, the visits made, and the counts of the metrics.
pub record Progress : Type 0 where
  pub incidents : Table
  pub visits : ℕ
  pub opened : ℕ
  pub grouped : ℕ

-- The bound of what is counted as new: the previous cycle, but never before the window.
unfoldable pub count_since : Time → Time → Time
count_since last_cycle_at from = if ltb from last_cycle_at then last_cycle_at else from

-- A loop whose body may fail: the rest runs after a success.
unfoldable pub and_then :
    (Progress → Progress × Option CycleError)
    → Progress × Option CycleError
    → Progress × Option CycleError
and_then rest (s, none) = rest s
and_then rest (s, some e) = (s, some e)

unfoldable pub each :
    {A : Type 0}
    → (A → Progress → Progress × Option CycleError)
    → List A
    → Progress
    → Progress × Option CycleError
unfolding and_then
each body [] s = (s, none)
each body (x ∷ xs) s = and_then (each body xs) (body x s)

module _ {Float : Type 0} (f : Floats Float) where
  -- buildIncident. The store reads neither the opening time nor the marks of its argument.
  unfoldable pub build_incident : Visit → Rule Float → ServiceWindow → Detection → Incident
  unfolding fingerprint
  build_incident v r w det = record {
    id = v.new_id;
    fingerprint = fingerprint r.id w.tenant_id w.service_name;
    tenant_id = w.tenant_id;
    service_name = w.service_name;
    rule_id = r.id;
    title = det.title;
    severity = r.incident_severity;
    status = status_open;
    event_count = det.event_count;
    first_seen_at = v.now;
    last_seen_at = v.now;
    opened_at = zero_time;
    acknowledged_at = none;
    resolved_at = none;
    updated_at = zero_time;
    details = det.details;
  }

  -- The rules grouped by window, in the order in which the windows first appear.
  unfoldable pub insert_rule :
      Rule Float → List (ℕ × List (Rule Float)) → List (ℕ × List (Rule Float))
  insert_rule r [] = (r.window, r ∷ []) ∷ []
  insert_rule r ((w, rs) ∷ gs) =
      let rest = insert_rule r gs in
      if w == r.window then (w, rs ++ r ∷ []) ∷ gs else (w, rs) ∷ rest

  unfoldable pub by_window_from :
      List (ℕ × List (Rule Float)) → List (Rule Float) → List (ℕ × List (Rule Float))
  unfolding insert_rule
  by_window_from gs [] = gs
  by_window_from gs (r ∷ rs) = by_window_from (insert_rule r gs) rs

  module _ (marshal : Details → Option String) (c : Cycle) where
    unfoldable pub after_upsert :
        Progress → Table × Result StoreError Bool → Progress × Option CycleError
    after_upsert s (t, ok true) =
        (record s { incidents = t; visits = s.visits + 1; opened = s.opened + 1 }, none)
    after_upsert s (t, ok false) =
        (record s { incidents = t; visits = s.visits + 1; grouped = s.grouped + 1 }, none)
    after_upsert s (t, err e) =
        (record s { incidents = t; visits = s.visits + 1 }, some (upsert_failed e))

    -- One rule on one window: nothing, or an upsert.
    unfoldable pub visit_rule : ServiceWindow → Rule Float → Progress → Progress × Option CycleError
    unfolding evaluate build_incident upsert_open after_upsert
    visit_rule w r s =
        let det = evaluate f r w in
        let v = c.visit s.visits in
        elim det.fires [
          | false ↦ (s, none)
          | true ↦ after_upsert s (
              upsert_open marshal v.link v.db_now (build_incident v r w det) det.new_event_count
                s.incidents)
        ]

    unfoldable pub visit_windows :
        List (Rule Float) → List ServiceWindow → Progress → Progress × Option CycleError
    unfolding visit_rule each
    visit_windows rules = each (λ w. each (visit_rule w) rules)

    -- The rules of one window: the query, then every rule on every service.
    unfoldable pub visit_snapshot :
        ℕ → List (Rule Float) → Time → Option EventTable → Progress → Progress × Option CycleError
    unfolding visit_windows window_stats count_since
    visit_snapshot window rules last none s = (s, some (window_stats_failed window))
    visit_snapshot window rules last (some events) s =
        let from = c.start - window in
        visit_windows rules (window_stats from (count_since last from) events) s

    unfoldable pub visit_group :
        Time → ℕ × List (Rule Float) → Progress → Progress × Option CycleError
    unfolding visit_snapshot
    visit_group last (window, rules) s = visit_snapshot window rules last (c.snapshot window) s

    -- The part of EvaluateOnce before the auto-resolution. Go iterates over the map of windows in an
    -- order of its own, `shuffle`.
    unfoldable pub detect :
        (List (ℕ × List (Rule Float)) → List (ℕ × List (Rule Float)))
        → Evaluator Float
        → Table
        → Progress × Option CycleError
    unfolding by_window_from visit_group each
    detect shuffle e t =
        each (visit_group e.last_cycle_at) (shuffle (by_window_from [] e.rules))
          (record { incidents = t; visits = 0; opened = 0; grouped = 0 })

-- What a cycle leaves: the evaluator, the incidents, and the error.
pub record CycleEnd (Float : Type 0) : Type 0 where
  pub evaluator : Evaluator Float
  pub incidents : Table
  pub failure : Option CycleError

module _ {Float : Type 0} (c : Cycle) (e : Evaluator Float) where
  -- After the auto-resolution: only here is the time of the cycle remembered.
  unfoldable pub after_resolve : Table × Result StoreError ℕ → CycleEnd Float
  after_resolve (t, ok n) = record {
    evaluator = record e { last_cycle_at = c.start };
    incidents = t;
    failure = none;
  }
  after_resolve (t, err x) = record {
    evaluator = e;
    incidents = t;
    failure = some (auto_resolve_failed x);
  }

  unfoldable pub after_detect : Progress × Option CycleError → CycleEnd Float
  unfolding after_resolve auto_resolve_stale
  after_detect (s, some x) = record { evaluator = e; incidents = s.incidents; failure = some x }
  after_detect (s, none) = after_resolve (
      auto_resolve_stale c.resolve_link c.resolve_db_now (c.resolve_now - e.resolve_after)
        s.incidents)

-- EvaluateOnce
unfoldable pub evaluate_once :
    {Float : Type 0}
    → Floats Float
    → (Details → Option String)
    → (List (ℕ × List (Rule Float)) → List (ℕ × List (Rule Float)))
    → Cycle
    → Evaluator Float
    → Table
    → CycleEnd Float
unfolding detect after_detect
evaluate_once f marshal shuffle c e t = after_detect c e (detect f marshal c shuffle e t)
