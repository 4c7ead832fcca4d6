-- ===== src/Alerting/Starter.antt =====
-- internal/alerting/starter.go: the poll that starts one alert workflow for each new incident.
use sentinel_flow_project.Base.{
  ℕ, ◌*◌, All-imp, ap₂, String, ◌≡◌, refl, ap, ◌∙◌, true, false, ◌&&◌, Option, none, some, List, [],
  ◌∷◌, map, if◌then◌else◌, All, arith, str_eq_refl,
}
use sentinel_flow_project.Base.Int.{ℤ, positive, pos_part}
use sentinel_flow_project.Base.Results.{Result, ok, err}
use sentinel_flow_project.Base.Time.{Time, Duration, second}
use sentinel_flow_project.Severity.{severity_text}
use sentinel_flow_project.Incident.{Incident, Details}
use sentinel_flow_project.Store.Database.{Link, up, lost, refused, StoreError, exec}
use sentinel_flow_project.Store.Incidents.{Table, is_null, has_id, exists_row}
use sentinel_flow_project.Store.Incidents.Transitions.{
  alert_row, mark_alerted, open_unalerted, select_where,
}
use sentinel_flow_project.Store.Incidents.Marks.{
  among, mark_where, mark_with, mark_all, mark_all-other, mark_all-settled, alert_row-IsMark,
}
use sentinel_flow_project.Store.Pages.Queries.{list_open_pending}
use sentinel_flow_project.Alerting.{IncidentRef}
use sentinel_flow_project.Oncall.{EscalationPolicy}

-- IncidentAlertInput
pub record IncidentAlertInput : Type 0 where
  pub incident : IncidentRef
  pub policy : EscalationPolicy

-- NewStarter: the interval and the batch size.
unfoldable pub starter_interval : Duration → ℕ
starter_interval d = if positive d then pos_part d else 10 * second

unfoldable pub starter_batch : ℤ → ℕ
starter_batch n = if positive n then pos_part n else 50

-- What the database and the workflow service answer in one cycle.
pub record StarterWorld : Type 0 where
  pub list : Link
  pub start : IncidentAlertInput → Option String
  pub mark : String → Link

unfoldable pub ref_of : Incident → IncidentRef
unfolding severity_text
ref_of inc = record {
  id = inc.id;
  tenant_id = inc.tenant_id;
  service_name = inc.service_name;
  severity = severity_text inc.severity;
  title = inc.title;
}

module _ (w : StarterWorld) (policy : EscalationPolicy) (now : Time) where
  unfoldable pub input_of : Incident → IncidentAlertInput
  unfolding ref_of
  input_of inc = record { incident = ref_of inc; policy = policy }

  -- One incident: a failed start leaves it pending; a mark that fails is not reported.
  unfoldable pub after_start :
      Option String
      → Incident
      → (Table → Table × List IncidentAlertInput)
      → Table
      → Table × List IncidentAlertInput
  unfolding mark_alerted input_of
  after_start (some e) inc rest t = rest t
  after_start none inc rest t =
      let (t', started) = rest ((mark_alerted (w.mark inc.id) now inc.id t).0) in
      (t', input_of inc ∷ started)

  unfoldable pub start_each : List Incident → Table → Table × List IncidentAlertInput
  unfolding after_start input_of
  start_each [] t = (t, [])
  start_each (inc ∷ incs) t = after_start (w.start (input_of inc)) inc (start_each incs) t

  unfoldable pub start_listed :
      Result StoreError (List Incident)
      → Table
      → Table × Result StoreError (List IncidentAlertInput)
  unfolding start_each
  start_listed (err e) t = (t, err e)
  start_listed (ok incs) t = let (t', started) = start_each incs t in (t', ok started)

  -- StartPending, with the workflows that it started.
  unfoldable pub start_pending :
      (String → Option Details) → ℕ → Table → Table × Result StoreError (List IncidentAlertInput)
  unfolding start_listed list_open_pending open_unalerted
  start_pending unmarshal batch_size t =
      start_listed (list_open_pending unmarshal w.list open_unalerted batch_size t) t

abbrev pub started_ids : List IncidentAlertInput → List String
started_ids = map (λ (i : IncidentAlertInput). i.incident.id)

module _ (w : StarterWorld) (policy : EscalationPolicy) (now : Time) where
  mark_alerted-mark_with :
      (link : Link) (id : String) (t : Table)
      → (mark_alerted link now id t).0
        ≡ mark_with
            (λ r. is_null r.alerted_at)
            open_unalerted
            (alert_row now)
            (alert_row-IsMark now)
            link
            id
            t
  unfolding mark_alerted exec mark_with mark_where
  mark_alerted-mark_with up id t = refl
  mark_alerted-mark_with (lost e) id t = refl
  mark_alerted-mark_with (refused e) id t = refl

  marking : List String → Table → Table
  marking =
      mark_all (λ r. is_null r.alerted_at) open_unalerted (alert_row now) (alert_row-IsMark now)
        w.mark

  after_start-marks :
      (o : Option String) (inc : Incident) (rest : Table → Table × List IncidentAlertInput)
      → ((u : Table) → (rest u).0 ≡ marking (started_ids ((rest u).1)) u)
      → (t : Table)
      → (after_start w policy now o inc rest t).0
        ≡ marking (started_ids ((after_start w policy now o inc rest t).1)) t
  unfolding marking after_start mark_all input_of ref_of
  after_start-marks (some e) inc rest h t = h t
  after_start-marks none inc rest h t =
      let u = (mark_alerted (w.mark inc.id) now inc.id t).0 in
      h u
      ∙ ap (marking (started_ids ((rest u).1))) (mark_alerted-mark_with (w.mark inc.id) inc.id t)

  -- The table after the loop is the table with the started incidents marked.
  start_each-marks :
      (incs : List Incident) (t : Table)
      → (start_each w policy now incs t).0
        ≡ marking (started_ids ((start_each w policy now incs t).1)) t
  unfolding start_each marking mark_all
  start_each-marks [] t = refl
  start_each-marks (inc ∷ incs) t =
      after_start-marks (w.start (input_of w policy now inc)) inc (start_each w policy now incs)
        (start_each-marks incs) t

  start_each-all :
      (incs : List Incident) (t : Table)
      → ((i : IncidentAlertInput) → w.start i ≡ none)
      → (start_each w policy now incs t).1 ≡ map (input_of w policy now) incs
  unfolding start_each after_start
  start_each-all [] t h = refl
  start_each-all (inc ∷ incs) t h =
      let u = (mark_alerted (w.mark inc.id) now inc.id t).0 in
      rw (h (input_of w policy now inc))
        (ap (λ l. input_of w policy now inc ∷ l) (start_each-all incs u h))

  abbrev pub started_of : Result StoreError (List IncidentAlertInput) → List IncidentAlertInput
  started_of (err e) = []
  started_of (ok l) = l

  start_listed-other :
      (l : Result StoreError (List Incident)) (t : Table) (id : String)
      → among id (started_ids (started_of ((start_listed w policy now l t).1))) ≡ false
      → select_where (has_id id) ((start_listed w policy now l t).0) ≡ select_where (has_id id) t
  unfolding start_listed marking
  start_listed-other (err e) t id h = refl
  start_listed-other (ok incs) t id h =
      ap (select_where (has_id id)) (start_each-marks incs t)
      ∙ mark_all-other _ _ _ (alert_row-IsMark now) w.mark _ id h t

  -- A cycle changes no row of an incident whose workflow it did not start: a failed start, or a list
  -- that cannot be read, leaves the incident pending for the next cycle.
  pub start_pending-other :
      (unmarshal : String → Option Details) (batch_size : ℕ) (t : Table) (id : String)
      → among id (started_ids (started_of ((start_pending w policy now unmarshal batch_size t).1)))
        ≡ false
      → select_where (has_id id) ((start_pending w policy now unmarshal batch_size t).0)
        ≡ select_where (has_id id) t
  unfolding start_pending
  start_pending-other unmarshal batch_size t id h =
      start_listed-other (list_open_pending unmarshal w.list open_unalerted batch_size t) t id h

  ids-among :
      (incs : List Incident)
      → All (λ inc. among inc.id (started_ids (map (input_of w policy now) incs)) ≡ true) incs
  unfolding among input_of ref_of
  ids-among [] = tt
  ids-among (inc ∷ incs) = (
    ground (arith, str_eq_refl inc.id),
    All-imp _ _ (λ (x : Incident) h. ground (arith, h)) incs (ids-among incs),
  )

  -- If the workflow service and the database answer, a cycle starts the workflow of every incident
  -- that it lists, in order, and leaves none of them pending.
  pub start_pending-starts :
      (unmarshal : String → Option Details) (batch_size : ℕ) (t : Table) (incs : List Incident)
      → list_open_pending unmarshal w.list open_unalerted batch_size t ≡ ok incs
      → ((i : IncidentAlertInput) → w.start i ≡ none)
      → w.mark ≡ (λ id. up)
      → ((start_pending w policy now unmarshal batch_size t).1
          ≡ ok (map (input_of w policy now) incs))
        × All
            (λ inc.
              exists_row
                (λ r. has_id inc.id r && open_unalerted r)
                ((start_pending w policy now unmarshal batch_size t).0)
              ≡ false)
            incs
  unfolding start_pending start_listed marking
  start_pending-starts unmarshal batch_size t incs listed starts marks =
      let inputs = start_each-all incs t starts in
      let table : (start_each w policy now incs t).0
          ≡ mark_all (λ r. is_null r.alerted_at) open_unalerted (alert_row now)
              (alert_row-IsMark now) (λ id. up) (started_ids (map (input_of w policy now) incs)) t =
        start_each-marks incs t
        ∙ ap₂ (λ l ids. mark_all _ _ _ (alert_row-IsMark now) l (started_ids ids) t) marks inputs in
      rw listed (
        ap ok inputs,
        All-imp _ _
            (λ (inc : Incident) h.
              rw table (mark_all-settled _ _ _ (alert_row-IsMark now) _ inc.id h t))
            incs (ids-among incs),
      )
