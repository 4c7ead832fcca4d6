-- ===== src/Store/Incidents/Calls.antt =====
-- The calls of IncidentStore that change the incidents table, and sequences of them.
use sentinel_flow_project.Base.{ℕ, String, Option, List, [], ◌∷◌}
use sentinel_flow_project.Base.Time.{Time}
use sentinel_flow_project.Incident.{Details, Incident}
use sentinel_flow_project.Store.Database.{Link}
use sentinel_flow_project.Store.Incidents.{Table, upsert_open, auto_resolve_stale}
use sentinel_flow_project.Store.Incidents.Transitions.{
  acknowledge, resolve, mark_alerted, mark_remediated,
}

-- One call, with its connection, the clock of its statement and its arguments.
pub data Call : Type 0 where
  upsert : Link → Time → Incident → ℕ → Call
  acknowledge_call resolve_call : Link → Link → Time → String → Call
  auto_resolve : Link → Time → Time → Call
  alerted remediated : Link → Time → String → Call

module _ (marshal : Details → Option String) (unmarshal : String → Option Details) where
  unfoldable pub apply_call : Call → Table → Table
  apply_call (upsert link now inc n) t = (upsert_open marshal link now inc n t).0
  apply_call (acknowledge_call l₁ l₂ now id) t = (acknowledge unmarshal l₁ l₂ now id t).0
  apply_call (resolve_call l₁ l₂ now id) t = (resolve unmarshal l₁ l₂ now id t).0
  apply_call (auto_resolve link now cutoff) t = (auto_resolve_stale link now cutoff t).0
  apply_call (alerted link now id) t = (mark_alerted link now id t).0
  apply_call (remediated link now id) t = (mark_remediated link now id t).0

  -- Calls of any replicas, in the order in which PostgreSQL executes them.
  unfoldable pub apply_calls : List Call → Table → Table
  unfolding apply_call
  apply_calls [] t = t
  apply_calls (c ∷ cs) t = apply_calls cs (apply_call c t)
