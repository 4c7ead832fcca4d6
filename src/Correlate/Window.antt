-- ===== src/Correlate/Window.antt =====
-- internal/store/events.go: the window query that correlation reads.
use sentinel_flow_project.Base.{
  ℕ, String, Bool, true, false, ◌&&◌, ◌||◌, List, [], ◌∷◌, map, str_eq, leb, count_if,
  if◌then◌else◌,
}
use sentinel_flow_project.Base.Time.{Time}
use sentinel_flow_project.Severity.{Severity, error, critical}
use sentinel_flow_project.Store.Events.{EventRow, EventTable}

pub record ServiceWindow : Type 0 where
  pub tenant_id : String
  pub service_name : String
  pub total : ℕ
  pub errors : ℕ
  pub new_errors : ℕ

-- severity IN ('error', 'critical')
abbrev pub is_bad : Severity → Bool
is_bad error = true
is_bad critical = true
is_bad _ = false

abbrev pub Key : Type 0
Key = String × String

-- The row belongs to the group of a tenant and service.
abbrev pub in_group : Key → EventRow → Bool
in_group (tenant, service) r =
    str_eq r.event.tenant_id tenant && str_eq r.event.service_name service

abbrev pub since : Time → EventRow → Bool
since from r = leb from r.event.timestamp

-- The three counts of one group: FILTER (WHERE ...) over the rows of the window.
unfoldable pub total_rows : Key → Time → EventTable → ℕ
total_rows k from t = count_if (λ r. since from r && in_group k r) t

unfoldable pub error_rows : Key → Time → EventTable → ℕ
error_rows k from t = count_if (λ r. since from r && (in_group k r && is_bad r.event.severity)) t

unfoldable pub new_error_rows : Key → Time → Time → EventTable → ℕ
new_error_rows k from count_since t =
    count_if
      (λ r.
        since from r
        && (in_group k r && is_bad r.event.severity && leb count_since r.event.timestamp))
      t

unfoldable pub any_key : Key → List Key → Bool
any_key k [] = false
any_key (a, b) ((c, d) ∷ ks) = (str_eq a c && str_eq b d) || any_key (a, b) ks

-- The groups that have a row in the window, each once.
unfoldable pub groups : Time → EventTable → List Key
unfolding any_key
groups from [] = []
groups from (r ∷ rs) =
    let rest = groups from rs in
    let k : Key = (r.event.tenant_id, r.event.service_name) in
    if since from r then (if any_key k rest then rest else k ∷ rest) else rest

unfoldable pub tally : Time → Time → EventTable → Key → ServiceWindow
unfolding total_rows error_rows new_error_rows
tally from count_since t (tenant, service) = record {
  tenant_id = tenant;
  service_name = service;
  total = total_rows (tenant, service) from t;
  errors = error_rows (tenant, service) from t;
  new_errors = new_error_rows (tenant, service) from count_since t;
}

-- WindowStats: GROUP BY tenant_id, service_name. PostgreSQL leaves the order of the groups open.
unfoldable pub window_stats : Time → Time → EventTable → List ServiceWindow
unfolding groups tally
window_stats from count_since t = map (tally from count_since t) (groups from t)
