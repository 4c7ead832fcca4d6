-- ===== src/Store/Incidents/Transitions.antt =====
-- internal/store/incidents.go: the guarded lifecycle updates, the marks and the reads.
use sentinel_flow_project.Base.{
  ℕ, zero, suc, String, Bool, ◌&&◌, Option, none, some, [], ◌∷◌, leb, if◌then◌else◌, take,
}
use sentinel_flow_project.Base.Text.{is_empty}
use sentinel_flow_project.Base.Results.{Result, ok, err}
use sentinel_flow_project.Base.Time.{Time}
use sentinel_flow_project.Incident.{Status, Details, Incident}
use sentinel_flow_project.Store.Database.{
  Link, StoreError, decode_failed, incident_not_found, invalid_transition, exec,
}
use sentinel_flow_project.Store.Pages.{default_list_limit}
use sentinel_flow_project.Store.Incidents.{
  Row, Table, is_null, is_open, has_id, update_where, find_row, update_returning, may_acknowledge,
  may_resolve, acknowledge_row, resolve_row,
}

-- currentStatus
unfoldable pub status_of : Option Row → Result StoreError Status
status_of none = err incident_not_found
status_of (some r) = ok r.status

unfoldable pub current_status : Link → String → Table → Result StoreError Status
unfolding exec find_row has_id status_of
current_status link id t = (exec link (λ t. (t, status_of (find_row (has_id id) t))) t).1

-- The error of a guarded update that matched no row.
unfoldable pub no_transition : String → Result StoreError Status → StoreError
no_transition id (err e) = e
no_transition id (ok s) = invalid_transition id s

module _ (unmarshal : String → Option Details) where
  -- scanIncident: an empty details column leaves Details nil.
  unfoldable pub decode_details : Row → Result StoreError (Option Details)
  decode_details r =
      if is_empty r.details
      then ok none
      else elim (unmarshal r.details) [ none ↦ err (decode_failed r.id) | some d ↦ ok (some d) ]

  unfoldable pub scan_incident : Row → Result StoreError Incident
  unfolding decode_details
  scan_incident r = elim (decode_details r) [
    | err e ↦ err e
    | ok d ↦ ok (record {
      id = r.id;
      fingerprint = r.fingerprint;
      tenant_id = r.tenant_id;
      service_name = r.service_name;
      rule_id = r.rule_id;
      title = r.title;
      severity = r.severity;
      status = r.status;
      event_count = r.event_count;
      first_seen_at = r.first_seen_at;
      last_seen_at = r.last_seen_at;
      opened_at = r.opened_at;
      acknowledged_at = r.acknowledged_at;
      resolved_at = r.resolved_at;
      updated_at = r.updated_at;
      details = d;
    })
  ]

  -- transition, after its guarded update: a second query where that matched no row.
  unfoldable pub after_update :
      Link → String → Table × Result StoreError (Option Row) → Table × Result StoreError Incident
  unfolding scan_incident current_status no_transition
  after_update link₂ id (t', err e) = (t', err e)
  after_update link₂ id (t', ok (some r)) = (t', scan_incident r)
  after_update link₂ id (t', ok none) = (t', err (no_transition id (current_status link₂ id t')))

  unfoldable pub transition :
      (Row → Bool) → (Row → Row) → Link → Link → String → Table → Table × Result StoreError Incident
  unfolding exec update_returning after_update
  transition p f link link₂ id t = after_update link₂ id (exec link (update_returning p f) t)

  -- Acknowledge
  unfoldable pub acknowledge :
      Link → Link → Time → String → Table → Table × Result StoreError Incident
  unfolding transition may_acknowledge acknowledge_row
  acknowledge link link₂ now id =
      transition (may_acknowledge id) (acknowledge_row now) link link₂ id

  -- Resolve
  unfoldable pub resolve : Link → Link → Time → String → Table → Table × Result StoreError Incident
  unfolding transition may_resolve resolve_row
  resolve link link₂ now id = transition (may_resolve id) (resolve_row now) link link₂ id

-- markAlertedSQL and markRemediatedSQL, under `mark`.
unfoldable pub alert_row : Time → Row → Row
alert_row now r = record r { alerted_at = some now }

unfoldable pub remediate_row : Time → Row → Row
remediate_row now r = record r { remediated_at = some now }

unfoldable pub mark_alerted : Link → Time → String → Table → Table × Result StoreError (Unit {0})
unfolding exec update_where has_id alert_row
mark_alerted link now id =
    exec link
      (λ t. ((update_where (λ r. has_id id r && is_null r.alerted_at) (alert_row now) t).0, ok tt))

unfoldable pub mark_remediated : Link → Time → String → Table → Table × Result StoreError (Unit {0})
unfolding exec update_where has_id remediate_row
mark_remediated link now id = exec link (λ t.
    ((update_where (λ r. has_id id r && is_null r.remediated_at) (remediate_row now) t).0, ok tt))

-- WHERE
unfoldable pub select_where : (Row → Bool) → Table → Table
select_where p [] = []
select_where p (r ∷ rs) = let rest = select_where p rs in if p r then r ∷ rest else rest

-- ORDER BY opened_at. PostgreSQL leaves the order of equal keys open; here it is that of the table.
insert_by_opened : Row → Table → Table
insert_by_opened r [] = r ∷ []
insert_by_opened r (s ∷ rs) =
    let rest = insert_by_opened r rs in if leb r.opened_at s.opened_at then r ∷ s ∷ rs else s ∷ rest

unfoldable pub order_by_opened : Table → Table
unfolding insert_by_opened
order_by_opened [] = []
order_by_opened (r ∷ rs) = insert_by_opened r (order_by_opened rs)

-- listOpenPending: the rows scanned one by one; the first that fails to decode ends the read.
unfoldable pub open_pending : (Row → Bool) → ℕ → Table → Table
unfolding select_where order_by_opened
open_pending p limit t =
    take (elim limit [ zero ↦ default_list_limit | suc n ↦ suc n ])
      (order_by_opened (select_where p t))

unfoldable pub open_unalerted : Row → Bool
open_unalerted r = is_open r.status && is_null r.alerted_at

unfoldable pub open_unremediated : Row → Bool
open_unremediated r = is_open r.status && is_null r.remediated_at
