-- ===== src/Store/Incidents/Lifecycle.antt =====
-- The lifecycle of a row of internal/store/incidents.go, against CanTransitionTo of
-- internal/incident/incident.go.
use sentinel_flow_project.Base.{
  ℕ, ◌≤◌, String, ◌≡◌, refl, sym, ◌∙◌, subst, Bool, true, ◌⊎◌, inl, inr, Option, none, some, List,
  [], ◌∷◌, ◌++◌, arith, Bool-cases, Option-cases,
}
use sentinel_flow_project.Base.Results.{Result, ok, err}
use sentinel_flow_project.Base.Time.{Time}
use sentinel_flow_project.Incident.{
  Status, status_resolved, is_valid, can_transition_to, Details, Incident, validate,
}
use sentinel_flow_project.Store.Database.{Link, up, lost, refused, StoreError, exec}
use sentinel_flow_project.Store.Incidents.{
  Row, Table, has_fingerprint, on_conflict, update_where, group_row, new_row, insert_unless,
  upsert_statement, encode_details, upsert_valid, upsert_encoded, upsert_open, acknowledge_row,
  resolve_row, is_unresolved, auto_resolve_stale, update_returning, may_acknowledge, may_resolve,
  is_stale, exists_row, has_id,
}
use sentinel_flow_project.Store.Incidents.Transitions.{
  transition, acknowledge, resolve, mark_alerted, mark_remediated, alert_row, remediate_row,
}
use sentinel_flow_project.Store.Incidents.Effects.{after_update-table}
use sentinel_flow_project.Store.Incidents.Calls.{
  Call, upsert, acknowledge_call, resolve_call, auto_resolve, alerted, remediated, apply_call,
  apply_calls,
}

-- How one row may change: its identity and its start stay, its counters grow, its status stays or
-- makes a legal transition, and a resolved row is history.
pub record RowStep (x y : Row) : Type 0 where
  pub same_id : y.id ≡ x.id
  pub same_fingerprint : y.fingerprint ≡ x.fingerprint
  pub same_start : y.first_seen_at ≡ x.first_seen_at
  pub same_opening : y.opened_at ≡ x.opened_at
  pub count_grows : x.event_count ≤ y.event_count
  pub seen_grows : x.last_seen_at ≤ y.last_seen_at
  pub stays_valid : is_valid x.status ≡ true → is_valid y.status ≡ true
  pub moves :
      is_valid x.status ≡ true
      → (y.status ≡ x.status) ⊎ (can_transition_to x.status y.status ≡ true)
  pub resolved_status : x.status ≡ status_resolved → y.status ≡ status_resolved
  pub resolved_count : x.status ≡ status_resolved → y.event_count ≡ x.event_count
  pub resolved_end : x.status ≡ status_resolved → y.resolved_at ≡ x.resolved_at

RowStep-refl : (x : Row) → RowStep x x
RowStep-refl x = ground arith

moves_trans :
    (a b c : Status)
    → (b ≡ a) ⊎ (can_transition_to a b ≡ true)
    → (c ≡ b) ⊎ (can_transition_to b c ≡ true)
    → (c ≡ a) ⊎ (can_transition_to a c ≡ true)
unfolding can_transition_to
moves_trans a b c p q = ground arith

RowStep-trans : (x y z : Row) → RowStep x y → RowStep y z → RowStep x z
RowStep-trans x y z p q = record {
  same_id = q.same_id ∙ p.same_id;
  same_fingerprint = q.same_fingerprint ∙ p.same_fingerprint;
  same_start = q.same_start ∙ p.same_start;
  same_opening = q.same_opening ∙ p.same_opening;
  count_grows = omega arith;
  seen_grows = omega arith;
  stays_valid = λ v. q.stays_valid (p.stays_valid v);
  moves = λ v. moves_trans x.status y.status z.status (p.moves v) (q.moves (p.stays_valid v));
  resolved_status = λ e. q.resolved_status (p.resolved_status e);
  resolved_count = λ e. q.resolved_count (p.resolved_status e) ∙ p.resolved_count e;
  resolved_end = λ e. q.resolved_end (p.resolved_status e) ∙ p.resolved_end e;
}

-- Every row of the first table stands at the same place in the second, changed by a `RowStep`.
abbrev pub Evolves : Table → Table → Type 0
Evolves [] ys = Unit
Evolves (x ∷ xs) [] = ⊥
Evolves (x ∷ xs) (y ∷ ys) = RowStep x y × Evolves xs ys

Evolves-refl : (t : Table) → Evolves t t
Evolves-refl [] = tt
Evolves-refl (x ∷ xs) = (RowStep-refl x, Evolves-refl xs)

Evolves-append : (t u : Table) → Evolves t (t ++ u)
Evolves-append [] u = tt
Evolves-append (x ∷ xs) u = (RowStep-refl x, Evolves-append xs u)

Evolves-trans : (t u v : Table) → Evolves t u → Evolves u v → Evolves t v
Evolves-trans [] u v p q = tt
Evolves-trans (x ∷ xs) [] v p q = absurd p
Evolves-trans (x ∷ xs) (y ∷ ys) [] p q = absurd q
Evolves-trans (x ∷ xs) (y ∷ ys) (z ∷ zs) p q =
    (RowStep-trans x y z p.0 q.0, Evolves-trans xs ys zs p.1 q.1)

module _ (p : Row → Bool) (f : Row → Row) (step : (r : Row) → p r ≡ true → RowStep r (f r)) where
  update_where-Evolves : (t : Table) → Evolves t (update_where p f t).0
  unfolding update_where
  update_where-Evolves [] = tt
  update_where-Evolves (r ∷ rs) = elim (Bool-cases (p r)) [
    | inl e ↦ rw e (step r e, update_where-Evolves rs)
    | inr e ↦ rw e (RowStep-refl r, update_where-Evolves rs)
  ]

  on_conflict-Evolves : (t t' : Table) → on_conflict p f t ≡ some t' → Evolves t t'
  unfolding on_conflict
  on_conflict-Evolves [] t' h = tt
  on_conflict-Evolves (r ∷ rs) t' h = elim (Bool-cases (p r)) [
    | inl e ↦
        let same : f r ∷ rs ≡ t' = ground arith in
        subst (Evolves (r ∷ rs)) same (step r e, Evolves-refl rs)
    | inr e ↦ elim (Option-cases (on_conflict p f rs)) [
      | inl n ↦ absurd (ground arith)
      | inr (rs', s) ↦
          let same : r ∷ rs' ≡ t' = ground arith in
          subst (Evolves (r ∷ rs)) same (RowStep-refl r, on_conflict-Evolves rs rs' s)
    ]
  ]

group_row-step :
    (fp : String) (now : Time) (inc : Incident) (n : ℕ) (r : Row)
    → has_fingerprint fp r ≡ true
    → RowStep r (group_row now inc n r)
unfolding has_fingerprint group_row
group_row-step fp now inc n r h = ground arith

acknowledge_row-step :
    (id : String) (now : Time) (r : Row)
    → may_acknowledge id r ≡ true
    → RowStep r (acknowledge_row now r)
unfolding may_acknowledge acknowledge_row is_valid can_transition_to
acknowledge_row-step id now r h = ground arith

resolve_row-step :
    (now : Time) (r : Row) → is_unresolved r.status ≡ true → RowStep r (resolve_row now r)
unfolding resolve_row is_valid can_transition_to
resolve_row-step now r h = ground arith

alert_row-step : (now : Time) (r : Row) → RowStep r (alert_row now r)
unfolding alert_row
alert_row-step now r = ground arith

remediate_row-step : (now : Time) (r : Row) → RowStep r (remediate_row now r)
unfolding remediate_row
remediate_row-step now r = ground arith

exec-Evolves :
    {E : Type 0} (link : Link) (f : Table → Table × Result StoreError E) (t : Table)
    → Evolves t (f t).0
    → Evolves t (exec link f t).0
unfolding exec
exec-Evolves up f t v = v
exec-Evolves (lost e) f t v = v
exec-Evolves (refused e) f t v = Evolves-refl t

insert_unless-Evolves :
    (o : Option Table) (now : Time) (inc : Incident) (n : ℕ) (details : String) (t : Table)
    → on_conflict (has_fingerprint inc.fingerprint) (group_row now inc n) t ≡ o
    → Evolves t (insert_unless o now inc details t).0
unfolding insert_unless
insert_unless-Evolves (some t') now inc n details t e =
    on_conflict-Evolves _ _ (group_row-step inc.fingerprint now inc n) t t' e
insert_unless-Evolves none now inc n details t e =
    elim (Bool-cases (exists_row (has_id inc.id) t)) [
      | inl taken ↦ rw taken (Evolves-refl t)
      | inr free ↦ rw free (Evolves-append t (new_row now inc details ∷ []))
    ]

module _ (marshal : Details → Option String) (unmarshal : String → Option Details) where
  upsert_open-Evolves :
      (link : Link) (now : Time) (inc : Incident) (n : ℕ) (t : Table)
      → Evolves t (upsert_open marshal link now inc n t).0
  unfolding upsert_open upsert_statement
  upsert_open-Evolves link now inc n t = checked (validate inc)
    where
      written : (details : Option String) → Evolves t (upsert_encoded details link now inc n t).0
      written none = Evolves-refl t
      written (some d) = exec-Evolves link _ t (insert_unless-Evolves _ now inc n d t refl)

      checked :
          (v : Result (List String) (Unit {0}))
          → Evolves t (upsert_valid v marshal link now inc n t).0
      checked (err problems) = Evolves-refl t
      checked (ok _) = written (encode_details marshal inc.details)

  transition-Evolves :
      (p : Row → Bool) (f : Row → Row) (l₁ l₂ : Link) (id : String) (t : Table)
      → ((r : Row) → p r ≡ true → RowStep r (f r))
      → Evolves t (transition unmarshal p f l₁ l₂ id t).0
  unfolding transition update_returning
  transition-Evolves p f l₁ l₂ id t step =
      subst (Evolves t)
        (sym (after_update-table unmarshal l₂ id (exec l₁ (update_returning p f) t)))
        (exec-Evolves l₁ (update_returning p f) t (update_where-Evolves p f step t))

  apply_call-Evolves : (c : Call) (t : Table) → Evolves t (apply_call marshal unmarshal c t)
  unfolding apply_call acknowledge resolve auto_resolve_stale mark_alerted mark_remediated
  apply_call-Evolves (upsert link now inc n) t = upsert_open-Evolves link now inc n t
  apply_call-Evolves (acknowledge_call l₁ l₂ now id) t =
      transition-Evolves (may_acknowledge id) (acknowledge_row now) l₁ l₂ id t
        (acknowledge_row-step id now)
  apply_call-Evolves (resolve_call l₁ l₂ now id) t =
      transition-Evolves (may_resolve id) (resolve_row now) l₁ l₂ id t
        (λ r g. resolve_row-step now r (unfold may_resolve in ground arith))
  apply_call-Evolves (auto_resolve link now cutoff) t = exec-Evolves link _ t (
      update_where-Evolves (is_stale cutoff) (resolve_row now)
        (λ r g. resolve_row-step now r (unfold is_stale in ground arith)) t)
  apply_call-Evolves (alerted link now id) t =
      exec-Evolves link _ t (update_where-Evolves _ (alert_row now) (λ r g. alert_row-step now r) t)
  apply_call-Evolves (remediated link now id) t =
      exec-Evolves link _ t
        (update_where-Evolves _ (remediate_row now) (λ r g. remediate_row-step now r) t)

  -- Whatever calls are made, no row is lost or moved, and each row keeps its id, fingerprint, start
  -- and opening time, its event count and last detection do not fall, its status, if it is one of
  -- the three, stays or makes a move that CanTransitionTo allows, and once it is resolved its
  -- status, event count and resolution time never change again.
  pub apply_calls-Evolves :
      (cs : List Call) (t : Table) → Evolves t (apply_calls marshal unmarshal cs t)
  unfolding apply_calls
  apply_calls-Evolves [] t = Evolves-refl t
  apply_calls-Evolves (c ∷ cs) t =
      Evolves-trans t (apply_call marshal unmarshal c t) _ (apply_call-Evolves c t)
        (apply_calls-Evolves cs (apply_call marshal unmarshal c t))
