-- ===== src/Store/Incidents.antt =====
-- internal/store/incidents.go: the incidents table and the methods of IncidentStore that change it.
-- The modules below hold the other methods and the proofs. Each method is a function of the table and
-- of PostgreSQL's now(); the SQL text of a statement is the function on the rows that it stands for.
pub mod Transitions
pub mod Calls
pub mod Effects
pub mod Unique
pub mod Lifecycle
pub mod Answers
pub mod Counts
pub mod Marks
use sentinel_flow_project.Base.{
  ℕ, ◌+◌, max, String, ◌≡◌, refl, Bool, true, false, ◌&&◌, Option, none, some, List, [], ◌∷◌, ◌++◌,
  map, str_eq, ltb, leb, if◌then◌else◌, take, length,
}
use sentinel_flow_project.Base.Text.{is_empty}
use sentinel_flow_project.Base.Results.{Result, ok, err}
use sentinel_flow_project.Base.Time.{Time}
use sentinel_flow_project.Severity.{Severity}
use sentinel_flow_project.Incident.{
  Status, status_open, status_acknowledged, status_resolved, Details, Incident, validate,
}
use sentinel_flow_project.Store.Database.{
  Link, up, lost, refused, StoreError, invalid_incident, encode_failed, decode_failed,
  unique_violation, incident_not_found, invalid_transition, exec,
}

-- One row: incidentColumns, and the two marks of the starters.
pub record Row : Type 0 where
  pub id : String
  pub fingerprint : String
  pub tenant_id : String
  pub service_name : String
  pub rule_id : String
  pub title : String
  pub severity : Severity
  pub status : Status
  pub event_count : ℕ
  pub first_seen_at : Time
  pub last_seen_at : Time
  pub opened_at : Time
  pub acknowledged_at : Option Time
  pub resolved_at : Option Time
  pub updated_at : Time
  pub details : String
  pub alerted_at : Option Time
  pub remediated_at : Option Time

abbrev pub Table : Type 0
Table = List Row

-- `status = 'open'` and `status <> 'resolved'`
abbrev pub is_open : Status → Bool
is_open status_open = true
is_open _ = false

abbrev pub is_unresolved : Status → Bool
is_unresolved status_resolved = false
is_unresolved _ = true

abbrev pub is_null : Option Time → Bool
is_null none = true
is_null (some t) = false

-- The rows of the partial unique index incidents_active_fingerprint_idx.
unfoldable pub has_fingerprint : String → Row → Bool
has_fingerprint fp r = is_unresolved r.status && str_eq r.fingerprint fp

-- WHERE id = $1, of a canonical text: the column has the type UUID, and the ids that the program makes
-- are canonical. What PostgreSQL reads in another text is in IncidentApi.
unfoldable pub has_id : String → Row → Bool
has_id id r = str_eq r.id id

-- ON CONFLICT ... DO UPDATE: the first row that meets the test is changed; `none` if none does.
unfoldable pub on_conflict : (Row → Bool) → (Row → Row) → Table → Option Table
on_conflict p f [] = none
on_conflict p f (r ∷ rs) =
    let rest : Option Table = elim (on_conflict p f rs) [
      | none ↦ none
      | some rs' ↦ some (r ∷ rs')
    ] in
    if p r then some (f r ∷ rs) else rest

unfoldable pub exists_row : (Row → Bool) → Table → Bool
exists_row p [] = false
exists_row p (r ∷ rs) = if p r then true else exists_row p rs

-- UPDATE ... WHERE, with the number of rows affected.
unfoldable pub update_where : (Row → Bool) → (Row → Row) → Table → Table × ℕ
update_where p f [] = ([], 0)
update_where p f (r ∷ rs) =
    let (rs', n) = update_where p f rs in if p r then (f r ∷ rs', n + 1) else (r ∷ rs', n)

unfoldable pub find_row : (Row → Bool) → Table → Option Row
find_row p [] = none
find_row p (r ∷ rs) = if p r then some r else find_row p rs

-- SET last_seen_at = GREATEST(...), event_count = event_count + $12, updated_at = now()
unfoldable pub group_row : Time → Incident → ℕ → Row → Row
group_row now inc increment r = record r {
  last_seen_at = max r.last_seen_at inc.last_seen_at;
  event_count = r.event_count + increment;
  updated_at = now;
}

-- The VALUES of the INSERT: the status is 'open' and the marks are NULL, whatever the argument says.
unfoldable pub new_row : Time → Incident → String → Row
new_row now inc details = record {
  id = inc.id;
  fingerprint = inc.fingerprint;
  tenant_id = inc.tenant_id;
  service_name = inc.service_name;
  rule_id = inc.rule_id;
  title = inc.title;
  severity = inc.severity;
  status = status_open;
  event_count = inc.event_count;
  first_seen_at = inc.first_seen_at;
  last_seen_at = inc.last_seen_at;
  opened_at = now;
  acknowledged_at = none;
  resolved_at = none;
  updated_at = now;
  details = details;
  alerted_at = none;
  remediated_at = none;
}

-- The answer of the UPSERT: `false` for a grouping; else an insert, `true`, unless the id is taken,
-- which violates the primary key.
unfoldable pub insert_unless :
    Option Table → Time → Incident → String → Table → Table × Result StoreError Bool
unfolding has_id exists_row new_row
insert_unless (some t') now inc details t = (t', ok false)
insert_unless none now inc details t =
    if exists_row (has_id inc.id) t
    then (t, err (unique_violation inc.id))
    else (t ++ new_row now inc details ∷ [], ok true)

-- upsertIncidentSQL
unfoldable pub upsert_statement :
    Time → Incident → ℕ → String → Table → Table × Result StoreError Bool
unfolding has_fingerprint on_conflict group_row insert_unless
upsert_statement now inc increment details t =
    insert_unless (on_conflict (has_fingerprint inc.fingerprint) (group_row now inc increment) t)
      now inc details t

-- json.Marshal of the details, with nil written as "{}"
abbrev pub encode_details : (Details → Option String) → Option Details → Option String
encode_details marshal none = some "{}"
encode_details marshal (some d) = marshal d

-- UpsertOpen: the query, after the encoding, after the validation.
unfoldable pub upsert_encoded :
    Option String → Link → Time → Incident → ℕ → Table → Table × Result StoreError Bool
unfolding upsert_statement exec
upsert_encoded none link now inc increment t = (t, err (encode_failed inc.fingerprint))
upsert_encoded (some details) link now inc increment t =
    exec link (upsert_statement now inc increment details) t

unfoldable pub upsert_valid :
    Result (List String) (Unit {0})
    → (Details → Option String)
    → Link
    → Time
    → Incident
    → ℕ
    → Table
    → Table × Result StoreError Bool
unfolding upsert_encoded
upsert_valid (err problems) marshal link now inc increment t = (t, err (invalid_incident problems))
upsert_valid (ok _) marshal link now inc increment t =
    upsert_encoded (encode_details marshal inc.details) link now inc increment t

unfoldable pub upsert_open :
    (Details → Option String) → Link → Time → Incident → ℕ → Table → Table × Result StoreError Bool
unfolding validate upsert_valid
upsert_open marshal link now inc increment t =
    upsert_valid (validate inc) marshal link now inc increment t

-- acknowledgeIncidentSQL and resolveIncidentSQL: the guard of WHERE and the change of SET.
unfoldable pub acknowledge_row : Time → Row → Row
acknowledge_row now r = record r {
  status = status_acknowledged;
  acknowledged_at = some now;
  updated_at = now;
}

unfoldable pub resolve_row : Time → Row → Row
resolve_row now r = record r { status = status_resolved; resolved_at = some now; updated_at = now }

unfoldable pub may_acknowledge : String → Row → Bool
unfolding has_id
may_acknowledge id r = has_id id r && is_open r.status

unfoldable pub may_resolve : String → Row → Bool
unfolding has_id
may_resolve id r = has_id id r && is_unresolved r.status

-- autoResolveStaleSQL: WHERE status <> 'resolved' AND last_seen_at < $1
unfoldable pub is_stale : Time → Row → Bool
is_stale cutoff r = is_unresolved r.status && ltb r.last_seen_at cutoff

-- AutoResolveStale, with RowsAffected.
unfoldable pub auto_resolve_stale : Link → Time → Time → Table → Table × Result StoreError ℕ
unfolding is_stale resolve_row update_where exec
auto_resolve_stale link now older_than t =
    exec link
      (λ t. let (t', n) = update_where (is_stale older_than) (resolve_row now) t in (t', ok n)) t

-- UPDATE ... RETURNING: the changed row, or none.
unfoldable pub returned : (Row → Row) → Option Row → Option Row
returned f none = none
returned f (some r) = some (f r)

unfoldable pub update_returning :
    (Row → Bool) → (Row → Row) → Table → Table × Result StoreError (Option Row)
unfolding update_where find_row returned
update_returning p f t = ((update_where p f t).0, ok (returned f (find_row p t)))
