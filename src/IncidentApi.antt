-- ===== src/IncidentApi.antt =====
-- internal/incidentapi/handler.go: the HTTP surface that reads incidents and events and moves incidents
-- through their lifecycle.
pub mod Queries
pub mod Lifecycle
use Prim.Native.String.{◌++◌ as append}
use sentinel_flow_project.Base.{
  ℕ, String, Bool, true, false, ◌&&◌, not, Option, none, some, List, [], ◌∷◌, str_eq, ltb, ◌==◌,
  if◌then◌else◌, length,
}
use sentinel_flow_project.Base.Results.{Result, ok, err}
use sentinel_flow_project.Base.Time.{Time}
use sentinel_flow_project.Incident.{Incident, Details, Status, status_text}
use sentinel_flow_project.Store.Database.{
  Link, StoreError, database, incident_not_found, invalid_transition,
}
use sentinel_flow_project.Store.Incidents.{Table}
use sentinel_flow_project.Store.Incidents.Transitions.{acknowledge, resolve}
use sentinel_flow_project.Store.Events.{EventRow}
use sentinel_flow_project.Store.Pages.Queries.{get}

-- The bodies of the answers. `transition_body` is the error "invalid_transition" with the message of
-- InvalidTransitionError, which names the id and the status.
pub data Body : Type 0 where
  error_body : String → String → Body
  transition_body : String → Status → Body
  incident_body : Incident → Body
  incidents_body : List Incident → ℕ → String → Body
  events_body : List EventRow → ℕ → String → Body
  decision_body : String → String → ℕ → String → String → Body

pub record Response : Type 0 where
  pub status : ℕ
  pub body : Body

-- writeError
abbrev pub error_response : ℕ → String → String → Response
error_response status code message = record { status = status; body = error_body code message }

abbrev pub invalid_id : Response
invalid_id = error_response 400 "invalid_id" "incident id must be a UUID"

-- writeIncidentError. The store names an incident by the id of the request, as it was written.
unfoldable pub incident_error : String → String → StoreError → Response
incident_error op id incident_not_found = error_response 404 "not_found" "no incident with that id"
incident_error op id (invalid_transition key status) = record {
  status = 409;
  body = transition_body id status;
}
incident_error op id _ =
    error_response 500 "internal_error" (append "could not " (append op " incident"))

-- A signal to the alert workflow of an incident.
pub data Sent : Type 0 where
  acknowledged resolved : String → Sent

-- The answer of a lifecycle call: the signal is sent after the transition, and its failure is only
-- logged.
unfoldable pub after_transition :
    String
    → (String → Sent)
    → String
    → Table × Result StoreError Incident
    → Table × (Response × List Sent)
unfolding incident_error
after_transition op signal id (t, err e) = (t, (incident_error op id e, []))
after_transition op signal id (t, ok inc) =
    (t, (record { status = 200; body = incident_body inc }, signal id ∷ []))

-- A statement whose argument for the column `id`, of type UUID, is the text of the request: it meets
-- the incident whose key PostgreSQL reads there, and is refused where it reads none.
unfoldable pub with_key :
    {A : Type 0}
    → (Table → String → Table × Result StoreError A)
    → Option String
    → Table
    → Table × Result StoreError A
with_key query none t = (t, err (database "22P02"))
with_key query (some key) t = query t key

-- What is not in the repository: uuid.Parse, the key that PostgreSQL reads in a text (canonical, in
-- lower case), and json.Unmarshal of the details. uuid.Parse takes texts in other forms, and the
-- handlers pass them on as they came.
module _ (is_uuid : String → Bool) (key_of : String → Option String)
    (unmarshal : String → Option Details) where
  -- AcknowledgeIncident
  unfoldable pub acknowledge_incident :
      Link → Link → Time → String → Table → Table × (Response × List Sent)
  unfolding acknowledge after_transition with_key
  acknowledge_incident link link₂ now id t =
      let changed = with_key (λ t key. acknowledge unmarshal link link₂ now key t) (key_of id) t in
      if is_uuid id
      then after_transition "acknowledge" acknowledged id changed
      else (t, (invalid_id, []))

  -- ResolveIncident
  unfoldable pub resolve_incident :
      Link → Link → Time → String → Table → Table × (Response × List Sent)
  unfolding resolve after_transition with_key
  resolve_incident link link₂ now id t =
      let changed = with_key (λ t key. resolve unmarshal link link₂ now key t) (key_of id) t in
      if is_uuid id then after_transition "resolve" resolved id changed else (t, (invalid_id, []))

  unfoldable pub incident_answer : String → Result StoreError Incident → Response
  unfolding incident_error
  incident_answer id (err e) = incident_error "get" id e
  incident_answer id (ok inc) = record { status = 200; body = incident_body inc }

  -- GetIncident
  unfoldable pub get_incident : Link → String → Table → Response
  unfolding get incident_answer with_key
  get_incident link id t =
      let found = with_key (λ t key. (t, get unmarshal link key t)) (key_of id) t in
      if is_uuid id then incident_answer id found.1 else invalid_id

-- The step that awaits a decision, and why there is none or a decision is not delivered.
pub record PendingAction : Type 0 where
  pub step_index : ℕ
  pub step_name : String

pub data PendingError : Type 0 where
  no_pending_action : PendingError
  pending_failed : String → PendingError

pub data DeliverError : Type 0 where
  no_remediation_run : DeliverError
  deliver_failed : String → DeliverError

abbrev pub decision_conflict : String → Response
decision_conflict message = error_response 409 "no_pending_action" message

unfoldable pub after_deliver :
    String → String → String → PendingAction → Option DeliverError → Response
after_deliver decision id actor pending none = record {
  status = 202;
  body = decision_body decision id pending.step_index pending.step_name actor;
}
after_deliver decision id actor pending (some no_remediation_run) =
    decision_conflict "the remediation run for this incident is no longer in progress"
after_deliver decision id actor pending (some (deliver_failed e)) =
    error_response 500 "internal_error" "could not deliver the decision"

-- The response, and whether the decision was handed to the workflow.
unfoldable pub after_pending :
    (String → String → Option DeliverError)
    → String
    → String
    → String
    → Result PendingError PendingAction
    → Response × Bool
unfolding after_deliver
after_pending deliver decision id actor (err no_pending_action) =
    (decision_conflict "no remediation step is awaiting a decision for this incident", false)
after_pending deliver decision id actor (err (pending_failed e)) =
    (error_response 500 "internal_error" "could not read the pending remediation action", false)
after_pending deliver decision id actor (ok pending) =
    (after_deliver decision id actor pending (deliver id actor), true)

-- decideRemediation: the remediation store is none where the deployment has none.
unfoldable pub decide_remediation :
    (String → Bool)
    → (String → String → Option DeliverError)
    → String
    → String
    → String
    → Option (String → Result PendingError PendingAction)
    → Response × Bool
unfolding after_pending
decide_remediation is_uuid deliver decision id actor none =
    if is_uuid id
    then (
      error_response 503 "remediation_unavailable"
          "remediation is not configured on this deployment",
      false,
    )
    else (invalid_id, false)
decide_remediation is_uuid deliver decision id actor (some pending) =
    if is_uuid id then after_pending deliver decision id actor (pending id) else (invalid_id, false)
