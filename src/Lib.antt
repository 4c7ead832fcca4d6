-- ===== src/Lib.antt =====
-- Sentinel Flow takes in telemetry events, stores each once, detects incidents in windows of them,
-- and acts on the incidents: it pages people and runs runbooks.
--
-- How the parts meet. The ingestion API (internal/ingest) validates events (internal/event) and
-- writes them to Kafka. The incident engine (internal/engine) reads the topic: Runner polls,
-- Processor decodes, normalises and validates again, and inserts into telemetry_events
-- (internal/store/events.go), with retries of the errors that internal/store/postgres.go calls
-- retryable; offsets are committed after. Each tick the evaluator (internal/correlate) reads
-- windows of that table, applies rules, and opens incidents or groups into them, and resolves the
-- quiet ones (internal/store/incidents.go). Operators acknowledge and resolve them. The
-- remediation workflow (internal/remediate) runs a runbook (internal/runbook) against an incident,
-- with gates that wait for an operator; the alert workflow (internal/alerting) pages the people on
-- call (internal/oncall), level by level. The janitor (internal/janitor) creates the partitions of
-- coming days and drops the expired ones, through internal/store/partitions.go. Both workflows are
-- started by a poll for incidents that are not marked yet (starter.go). Operators and the web page
-- read incidents and events, page by page, and act on incidents over HTTP (internal/incidentapi).
--
-- The files:
--   Base         shared names; Base/Results, Int, Text and Time for results, integers, strings, time
--   Severity     event.Severity
--   Event        internal/event: Event, Normalize, Validate; Event/Freshness: TimeBounds,
--                ValidateWithin; Event/Fields, Conformance and Normalization: proofs
--   Incident     internal/incident: Status and CanTransitionTo, Fingerprint, Validate
--   Store        internal/store. Database: a statement and its connection. Incidents: UpsertOpen,
--                AutoResolveStale; Incidents/Transitions: Acknowledge, Resolve, the marks, the reads;
--                Incidents/Calls: sequences of calls; Unique, Lifecycle, Answers, Counts: proofs.
--                Incidents/Marks: proofs on the marks. Events: Insert, IsRetryable
--   Store/Pages  query.go, cursor.go and the list queries. Tokens: Encode, DecodeCursor; Builder:
--                filterBuilder and what PostgreSQL answers to its query; Queries: List, ListEvents,
--                Get; Order, Placeholders, Selection, Walk, Listing: proofs
--   Store/Partitions  partitions.go. Naming, Routing, Shapes, Drain, Calls: proofs
--   Ingest       internal/ingest/handler.go: NewHandler, PostEvent; Ingest/Batch: PostEventBatch;
--                Accepted, Report, Survival: proofs
--   Engine       internal/engine/processor.go: Delay, insertWithRetry, Process; Engine/Retry, Durable,
--                Recovery: proofs; Engine/Runner: runner.go, with Engine/Runner/Commits for proofs
--   Correlate    internal/correlate. Window: WindowStats; Rule: Evaluate; Evaluator: EvaluateOnce;
--                Gains, Shares, Errors, Tallies, Accounting, Counting: proofs
--   Runbook      internal/runbook: Step, Matches, Find, Validate; Runbook/Catalog: proofs
--   Remediate    internal/remediate/workflow.go: IncidentRemediationWorkflow; Discipline, Order and
--                Deaf: proofs
--   Remediate/Starter  internal/remediate/starter.go
--   Oncall       internal/oncall: OnCallAt, Validate; Oncall/Schedule: proofs
--   Alerting     internal/alerting/workflow.go: IncidentAlertWorkflow; Quiet, Escalation: proofs;
--                Alerting/Starter: starter.go
--   Janitor      internal/janitor/janitor.go: New, RunOnce; Retention, Ahead: proofs
--   IncidentApi  internal/incidentapi/handler.go: the requests on one incident and the decisions;
--                IncidentApi/Queries: the filters and the lists; Lifecycle: proofs
--   Scenarios    concrete runs
--
-- How the code is read. A record of the model has the fields of the struct. A table is the list of
-- its rows, and an SQL statement the function on rows that its text stands for; a statement runs at
-- once. A connection may lose the answer of a statement that ran, or refuse it. now() and the clocks
-- are arguments. A Go function that returns a value and an error gives a Result. Loops are structural
-- recursion: over the records, the polls, the rules, the steps, and the attempts that are left, so no
-- fuel is spent; the janitor's creating loop has a day more of fuel than its lookahead holds, which
-- Janitor/Ahead shows to be enough. An int64 that only counts rows or events is a natural number;
-- durations and differences of times are held to the range of int64, as time.Sub does.
--
-- From outside the repository come base64, RFC 3339, the collation of PostgreSQL, strconv.Atoi,
-- json.Unmarshal and json.Marshal, uuid.Parse, unicode.ToLower, the brokers of Kafka, SHA-1
-- identifiers, the floats of the rules with their formats, the reading of a UUID by PostgreSQL, and
-- Go's order over a map: they are arguments. Temporal is modelled by what it answers to each activity,
-- and by the signals that are delivered while the workflow is blocked.
--
-- Not modelled: logs, metrics, traces, configuration, migrations, the load generator and the demo
-- services, which are input and output or glue; the tickers and the advisory lock of the runners, the
-- webhooks, and the tables of notifications and of remediation actions, which have no file here. The
-- store's own queries take the canonical texts of UUIDs, whose other spellings are modelled in
-- IncidentApi alone; that PostgreSQL refuses a cursor whose id is no UUID is not. A retry of an
-- activity by Temporal is not told apart from its first attempt.
pub mod Base
pub mod Severity
pub mod Event
pub mod Incident
pub mod Store
pub mod Engine
pub mod Ingest
pub mod Correlate
pub mod Oncall
pub mod Alerting
pub mod Runbook
pub mod Remediate
pub mod Janitor
pub mod IncidentApi
pub mod Scenarios
