-- ===== src/IncidentApi/Lifecycle.antt =====
-- internal/incidentapi/handler.go: which status a lifecycle request is answered with, and when the
-- alert workflow is signalled.
use sentinel_flow_project.Base.{
  ℕ, String, ◌≡◌, refl, sym, subst, ap, ◌∙◌, Bool, true, false, Option, none, some, List, [], ◌∷◌,
  inl, inr, ◌==◌, if◌then◌else◌, All, Bool-cases,
}
use sentinel_flow_project.Base.Results.{Result, ok, err}
use sentinel_flow_project.Base.Time.{Time}
use sentinel_flow_project.Incident.{
  Incident, Details, Status, status_acknowledged, status_resolved, can_transition_to, is_valid,
}
use sentinel_flow_project.Store.Database.{up, StoreError}
use sentinel_flow_project.Store.Incidents.{
  Row, Table, has_id, find_row, acknowledge_row, resolve_row,
}
use sentinel_flow_project.Store.Incidents.Transitions.{scan_incident, decode_details}
use sentinel_flow_project.Store.Incidents.Answers.{
  IsKeyed, find_row-All, lifecycle_answer, acknowledge_answer, resolve_answer,
}
use sentinel_flow_project.IncidentApi.{
  Response, Sent, acknowledged, resolved, invalid_id, incident_error, with_key, after_transition,
  acknowledge_incident, resolve_incident,
}

-- 404 for an id that no row has, 409 for a status that may not change so, and 200 otherwise.
unfoldable pub row_status : (Status → Bool) → Option Row → ℕ
row_status may none = 404
row_status may (some r) = if may r.status then 200 else 409

-- 500 for a text in which PostgreSQL reads no key.
unfoldable pub key_status : (Status → Bool) → Table → Option String → ℕ
unfolding row_status
key_status may t none = 500
key_status may t (some key) = row_status may (find_row (has_id key) t)

-- 400 for a text that uuid.Parse refuses.
unfoldable pub expected_status :
    (String → Bool) → (String → Option String) → (Status → Bool) → String → Table → ℕ
unfolding key_status
expected_status is_uuid key_of may id t = if is_uuid id then key_status may t (key_of id) else 400

-- The answer has that status, and the signal goes out with a 200 alone.
pub record IsAnswer (status : ℕ) (sent : Sent) (x : Response × List Sent) : Type 0 where
  pub code : x.0.status ≡ status
  pub signals : x.1 ≡ (if status == 200 then sent ∷ [] else [])

-- The details of the row can be read.
abbrev pub IsReadable : (String → Option Details) → Row → Type 0
IsReadable unmarshal r = (d : Option Details) × (decode_details unmarshal r ≡ ok d)

module _ (unmarshal : String → Option Details) where
  scan_incident-IsReadable :
      (r : Row) → IsReadable unmarshal r → (inc : Incident) × (scan_incident unmarshal r ≡ ok inc)
  unfolding scan_incident
  scan_incident-IsReadable r (d, e) = rw (scan_incident, e) (_, refl)

  acknowledge_row-IsReadable :
      (now : Time) (r : Row) → IsReadable unmarshal r → IsReadable unmarshal (acknowledge_row now r)
  unfolding acknowledge_row decode_details
  acknowledge_row-IsReadable now r (d, e) = (d, e)

  resolve_row-IsReadable :
      (now : Time) (r : Row) → IsReadable unmarshal r → IsReadable unmarshal (resolve_row now r)
  unfolding resolve_row decode_details
  resolve_row-IsReadable now r (d, e) = (d, e)

  lifecycle_answer-IsAnswer :
      (op : String) (signal : String → Sent) (may : Status → Bool) (change : Row → Row)
      (id key : String) (t : Table) (o : Option Row)
      → ((r : Row) → o ≡ some r → (inc : Incident) × (scan_incident unmarshal (change r) ≡ ok inc))
      → IsAnswer
          (row_status may o)
          (signal id)
          ((after_transition op signal id (t, lifecycle_answer unmarshal may change key o)).1)
  unfolding lifecycle_answer after_transition row_status incident_error
  lifecycle_answer-IsAnswer op signal may change id key t none readable = record {
    code = refl;
    signals = refl;
  }
  lifecycle_answer-IsAnswer op signal may change id key t (some r) readable =
      let (inc, e) = readable r refl in
      elim (Bool-cases (may r.status)) [
        | inl m ↦ rw (m, e) (record { code = refl; signals = refl })
        | inr m ↦ rw m (record { code = refl; signals = refl })
      ]

  after_transition-second :
      (op : String) (signal : String → Sent) (id : String) (t : Table)
      (x : Table × Result StoreError Incident)
      → (after_transition op signal id x).1 ≡ (after_transition op signal id (t, x.1)).1
  unfolding after_transition
  after_transition-second op signal id t (u, err e) = refl
  after_transition-second op signal id t (u, ok inc) = refl

  -- A lifecycle method of the store that answers as the transition table says, behind the handler.
  transition-IsAnswer :
      (op : String) (signal : String → Sent) (may : Status → Bool) (change : Row → Row)
      (query : Table → String → Table × Result StoreError Incident) (id : String) (t : Table)
      → All (IsReadable unmarshal) t
      → ((r : Row) → IsReadable unmarshal r → IsReadable unmarshal (change r))
      → ((key : String)
          → (query t key).1 ≡ lifecycle_answer unmarshal may change key (find_row (has_id key) t))
      → (o : Option String)
      → IsAnswer
          (key_status may t o)
          (signal id)
          ((after_transition op signal id (with_key query o t)).1)
  unfolding key_status with_key
  transition-IsAnswer op signal may change query id t readable scans answers none =
      unfold after_transition incident_error in record { code = refl; signals = refl }
  transition-IsAnswer op signal may change query id t readable scans answers (some key) =
      let found = find_row (has_id key) t in
      subst (IsAnswer (row_status may found) (signal id))
        (sym (
          after_transition-second op signal id t (query t key)
          ∙ ap (λ y. (after_transition op signal id (t, y)).1) (answers key)))
        (lifecycle_answer-IsAnswer op signal may change id key t found (λ r e.
          scan_incident-IsReadable (change r)
            (scans r (find_row-All (IsReadable unmarshal) (has_id key) t r readable e))))

refused-IsAnswer :
    (is_uuid : String → Bool) (key_of : String → Option String) (may : Status → Bool) (id : String)
    (sent : Sent) (t : Table) (x : Response × List Sent)
    → IsAnswer (key_status may t (key_of id)) sent x
    → IsAnswer
        (expected_status is_uuid key_of may id t)
        sent
        (if is_uuid id then x else (invalid_id, []))
unfolding expected_status
refused-IsAnswer is_uuid key_of may id sent t x h = elim (Bool-cases (is_uuid id)) [
  | inl e ↦ rw e h
  | inr e ↦ rw e (record { code = refl; signals = refl })
]

handled :
    {A : Type 0} (b : Bool) (x y : Table × A) → (if b then x else y).1 ≡ (if b then x.1 else y.1)
handled true x y = refl
handled false x y = refl

-- Over a working database with unique ids, rows whose status is one of the three and details of every
-- row that can be read, a request to acknowledge or to resolve is answered 400 for a text that
-- uuid.Parse refuses, 500 for one that it takes and in which PostgreSQL reads no key, 404 for a key
-- that no row has, 409 where CanTransitionTo refuses, and otherwise 200; with a 200 alone the alert
-- workflow named by the text of the request is signalled.
pub lifecycle-IsAnswer :
    (is_uuid : String → Bool) (key_of : String → Option String)
    (unmarshal : String → Option Details) (now : Time) (id : String) (t : Table)
    → All (IsReadable unmarshal) t
    → IsKeyed t
    → All (λ r. is_valid r.status ≡ true) t
    → IsAnswer
        (expected_status is_uuid key_of (λ s. can_transition_to s status_acknowledged) id t)
        (acknowledged id)
        ((acknowledge_incident is_uuid key_of unmarshal up up now id t).1)
      × IsAnswer
          (expected_status is_uuid key_of (λ s. can_transition_to s status_resolved) id t)
          (resolved id)
          ((resolve_incident is_uuid key_of unmarshal up up now id t).1)
unfolding acknowledge_incident resolve_incident
lifecycle-IsAnswer is_uuid key_of unmarshal now id t readable keyed valid = (
  rw (handled (is_uuid id)) (
      refused-IsAnswer is_uuid key_of _ id (acknowledged id) t _ (
        transition-IsAnswer unmarshal "acknowledge" acknowledged _ (acknowledge_row now) _ id t
          readable (acknowledge_row-IsReadable unmarshal now)
          (λ key. acknowledge_answer unmarshal now key t keyed) (key_of id))),
  rw (handled (is_uuid id)) (
      refused-IsAnswer is_uuid key_of _ id (resolved id) t _ (
        transition-IsAnswer unmarshal "resolve" resolved _ (resolve_row now) _ id t readable
          (resolve_row-IsReadable unmarshal now)
          (λ key. resolve_answer unmarshal now key t keyed valid) (key_of id))),
)
