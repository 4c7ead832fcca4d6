-- ===== src/Store/Incidents/Answers.antt =====
-- What the methods of internal/store/incidents.go answer, and what they did when they answer it.
use sentinel_flow_project.Base.{
  ◌≤◌, String, ◌≡◌, refl, subst, ◌∙◌, Bool, true, ◌&&◌, inl, inr, fun_ext, Option, none, some, [],
  ◌∷◌, arith, if◌then◌else◌, Bool-cases, All, count_if,
}
use sentinel_flow_project.Base.Results.{Result, err}
use sentinel_flow_project.Base.Time.{Time}
use sentinel_flow_project.Incident.{
  Status, status_acknowledged, status_resolved, is_valid, can_transition_to, Details, Incident,
}
use sentinel_flow_project.Store.Database.{
  up, StoreError, incident_not_found, invalid_transition, exec,
}
use sentinel_flow_project.Store.Incidents.{
  Row, Table, is_open, is_unresolved, has_id, find_row, update_where, acknowledge_row, resolve_row,
  update_returning, may_acknowledge, may_resolve,
}
use sentinel_flow_project.Store.Incidents.Transitions.{
  scan_incident, current_status, after_update, transition, acknowledge, resolve,
}

-- The primary key: no id stands in two rows.
pub record IsKeyed (t : Table) : Type 0 where
  pub one_row : (id : String) → count_if (has_id id) t ≤ 1

-- The two guards are the domain's CanTransitionTo.
is_open-can_transition_to : (s : Status) → is_open s ≡ can_transition_to s status_acknowledged
unfolding can_transition_to
is_open-can_transition_to s = ground arith

is_unresolved-can_transition_to :
    (s : Status) → is_valid s ≡ true → is_unresolved s ≡ can_transition_to s status_resolved
unfolding can_transition_to is_valid
is_unresolved-can_transition_to s v = ground arith

abbrev keep_if : (Row → Bool) → Option Row → Option Row
keep_if q none = none
keep_if q (some r) = if q r then some r else none

module _ (p q : Row → Bool) where
  find_row-none : (t : Table) → count_if p t ≡ 0 → find_row (λ r. p r && q r) t ≡ none
  unfolding find_row
  find_row-none [] h = refl
  find_row-none (r ∷ rs) h = ground (arith, find_row-none rs)

  -- A guard beside a key is a test on the row with that key.
  find_row-and :
      (t : Table) → count_if p t ≤ 1 → find_row (λ r. p r && q r) t ≡ keep_if q (find_row p t)
  unfolding find_row
  find_row-and [] h = refl
  find_row-and (r ∷ rs) h = ground (arith, find_row-and rs, find_row-none rs)

module _ (p : Row → Bool) (f : Row → Row) where
  update_where-none : (t : Table) → find_row p t ≡ none → (update_where p f t).0 ≡ t
  unfolding find_row update_where
  update_where-none [] h = refl
  update_where-none (r ∷ rs) h = ground (arith, update_where-none rs)

-- The row that is found has what all rows have.
pub find_row-All :
    (P : Row → Type 0) (p : Row → Bool) (t : Table) (r : Row)
    → All P t
    → find_row p t ≡ some r
    → P r
unfolding find_row
find_row-All P p [] r every e = cc
find_row-All P p (x ∷ xs) r every e = elim (Bool-cases (p x)) [
  | inl here ↦ let same : x ≡ r = ground arith in subst P same every.0
  | inr later ↦ find_row-All P p xs r every.1 (ground arith)
]

module _ (unmarshal : String → Option Details) where
  -- What a lifecycle method answers for the row that it finds, by the test `may` on its status.
  unfoldable pub lifecycle_answer :
      (Status → Bool) → (Row → Row) → String → Option Row → Result StoreError Incident
  lifecycle_answer may change id none = err incident_not_found
  lifecycle_answer may change id (some r) =
      if may r.status
      then scan_incident unmarshal (change r)
      else err (invalid_transition id r.status)

  transition_answer :
      (p : Row → Bool) (q : Status → Bool) (f : Row → Row) (id : String) (t : Table)
      (o : Option Row)
      → find_row (has_id id) t ≡ o
      → find_row p t ≡ keep_if (λ r. q r.status) o
      → (transition unmarshal p f up up id t).1 ≡ lifecycle_answer q f id o
  unfolding transition update_returning exec lifecycle_answer after_update current_status
  transition_answer p q f id t none e g = rw (g, update_where-none p f t g, e)
  transition_answer p q f id t (some r) e g = elim (Bool-cases (q r.status)) [
    | inl yes_may ↦ rw (g, yes_may)
    | inr no_may ↦
        let g' : find_row p t ≡ none = g ∙ rw no_may in
        rw (g', update_where-none p f t g', e, no_may)
  ]

  -- With unique ids and a working database, Acknowledge answers "not found" exactly for an id that
  -- no row has; for a row whose status CanTransitionTo does not let become acknowledged it answers
  -- an invalid transition from that status; else the acknowledged row.
  pub acknowledge_answer :
      (now : Time) (id : String) (t : Table)
      → IsKeyed t
      → (acknowledge unmarshal up up now id t).1
        ≡ lifecycle_answer
            (λ s. can_transition_to s status_acknowledged)
            (acknowledge_row now)
            id
            (find_row (has_id id) t)
  unfolding acknowledge
  acknowledge_answer now id t keyed = rw (← fun_ext is_open-can_transition_to) (
      transition_answer (may_acknowledge id) is_open (acknowledge_row now) id t _ refl (
        unfold may_acknowledge in
        find_row-and (has_id id) (λ r. is_open r.status) t (keyed.one_row id)))

  lifecycle_answer-resolve :
      (now : Time) (id : String) (o : Option Row)
      → ((r : Row) → o ≡ some r → is_valid r.status ≡ true)
      → lifecycle_answer is_unresolved (resolve_row now) id o
        ≡ lifecycle_answer (λ s. can_transition_to s status_resolved) (resolve_row now) id o
  unfolding lifecycle_answer
  lifecycle_answer-resolve now id none v = refl
  lifecycle_answer-resolve now id (some r) v =
      rw (is_unresolved-can_transition_to r.status (v r refl))

  -- With unique ids, rows whose status is one of the three, and a working database, Resolve answers
  -- "not found" exactly for an id that no row has; for a row whose status CanTransitionTo does not
  -- let become resolved it answers an invalid transition from that status; else the resolved row.
  pub resolve_answer :
      (now : Time) (id : String) (t : Table)
      → IsKeyed t
      → All (λ r. is_valid r.status ≡ true) t
      → (resolve unmarshal up up now id t).1
        ≡ lifecycle_answer
            (λ s. can_transition_to s status_resolved)
            (resolve_row now)
            id
            (find_row (has_id id) t)
  unfolding resolve
  resolve_answer now id t keyed valid =
      transition_answer (may_resolve id) is_unresolved (resolve_row now) id t _ refl (
        unfold may_resolve in
        find_row-and (has_id id) (λ r. is_unresolved r.status) t (keyed.one_row id))
      ∙ lifecycle_answer-resolve now id _
          (λ r e. find_row-All (λ r. is_valid r.status ≡ true) (has_id id) t r valid e)
