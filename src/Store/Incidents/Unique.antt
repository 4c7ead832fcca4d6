-- ===== src/Store/Incidents/Unique.antt =====
-- One active incident to a fingerprint: what the UPSERT of internal/store/incidents.go keeps.
use sentinel_flow_project.Base.{
  ℕ, ◌+◌, ◌≤◌, String, ◌≡◌, refl, Bool, true, inl, inr, Option, none, some, List, [], ◌∷◌, ◌++◌,
  subst, sym, arith, eq_iff, count_if, Bool-cases, Option-cases,
}
use sentinel_flow_project.Base.Results.{Result, ok, err}
use sentinel_flow_project.Base.Time.{Time}
use sentinel_flow_project.Incident.{Details, Incident, validate}
use sentinel_flow_project.Store.Database.{Link, up, lost, refused, StoreError, exec}
use sentinel_flow_project.Store.Incidents.{
  Row, Table, has_fingerprint, on_conflict, update_where, group_row, new_row, upsert_statement,
  insert_unless, encode_details, upsert_valid, upsert_encoded, upsert_open, acknowledge_row,
  resolve_row, auto_resolve_stale, update_returning, may_acknowledge, may_resolve, is_stale,
}
use sentinel_flow_project.Store.Incidents.Effects.{after_update-table}
use sentinel_flow_project.Store.Incidents.Transitions.{
  transition, acknowledge, resolve, mark_alerted, mark_remediated, alert_row, remediate_row,
}
use sentinel_flow_project.Store.Incidents.Calls.{
  Call, upsert, acknowledge_call, resolve_call, auto_resolve, alerted, remediated, apply_call,
  apply_calls,
}

-- How many unresolved rows have the fingerprint.
unfoldable pub active_count : String → Table → ℕ
active_count fp t = count_if (has_fingerprint fp) t

pub record IsUnique (t : Table) : Type 0 where
  pub at_most_one : (fp : String) → active_count fp t ≤ 1

module _ {A : Type 0} (p : A → Bool) where
  pub count_if-append : (xs ys : List A) → count_if p (xs ++ ys) ≡ count_if p xs + count_if p ys
  count_if-append [] ys = omega arith
  count_if-append (x ∷ xs) ys = ground (arith, count_if-append xs ys)

  count_if-snoc :
      (x : A) (xs : List A)
      → (p x ≡ true → count_if p xs ≡ 0)
      → count_if p xs ≤ 1
      → count_if p (xs ++ x ∷ []) ≤ 1
  count_if-snoc x xs fresh few = elim (Bool-cases (p x)) [
    | inl e ↦ ground (arith, count_if-append xs (x ∷ []), fresh e)
    | inr e ↦ ground (arith, count_if-append xs (x ∷ []))
  ]

module _ (p q : Row → Bool) (f : Row → Row) where
  on_conflict-count :
      ((r : Row) → q (f r) ≡ q r)
      → (t t' : Table) → on_conflict p f t ≡ some t'
      → count_if q t' ≡ count_if q t
  unfolding on_conflict
  on_conflict-count same [] t' h = ground arith
  on_conflict-count same (r ∷ rs) t' h = elim (Option-cases (on_conflict p f rs)) [
    | inl e ↦ ground (arith, same r)
    | inr (rs', e) ↦ ground (arith, same r, on_conflict-count same rs rs' e)
  ]

  update_where-count :
      ((r : Row) → p r ≡ true → q (f r) ≡ true → q r ≡ true)
      → (t : Table) → count_if q (update_where p f t).0 ≤ count_if q t
  unfolding update_where
  update_where-count keeps [] = omega arith
  update_where-count keeps (r ∷ rs) = ground (arith, keeps r, update_where-count keeps rs)

pub on_conflict-none :
    (p : Row → Bool) (f : Row → Row) (t : Table) → on_conflict p f t ≡ none → count_if p t ≡ 0
unfolding on_conflict
on_conflict-none p f [] h = refl
on_conflict-none p f (r ∷ rs) h = ground (arith, on_conflict-none p f rs)

pub group_row-fingerprint :
    (fp : String) (now : Time) (inc : Incident) (n : ℕ) (r : Row)
    → has_fingerprint fp (group_row now inc n r) ≡ has_fingerprint fp r
unfolding has_fingerprint group_row
group_row-fingerprint fp now inc n r = refl

pub new_row-fingerprint :
    (fp : String) (now : Time) (inc : Incident) (details : String)
    → has_fingerprint fp (new_row now inc details) ≡ true
    → inc.fingerprint ≡ fp
unfolding has_fingerprint new_row
new_row-fingerprint fp now inc details h = ground (arith, eq_iff inc.fingerprint fp)

insert_unless-IsUnique :
    (o : Option Table) (now : Time) (inc : Incident) (n : ℕ) (details : String) (t : Table)
    → on_conflict (has_fingerprint inc.fingerprint) (group_row now inc n) t ≡ o
    → IsUnique t
    → (fp : String) → active_count fp (insert_unless o now inc details t).0 ≤ 1
unfolding insert_unless active_count
insert_unless-IsUnique (some t') now inc n details t e u fp = omega (
  arith,
  on_conflict-count _ (has_fingerprint fp) _ (group_row-fingerprint fp now inc n) t t' e,
  u.at_most_one fp,
)
insert_unless-IsUnique none now inc n details t e u fp = ground (
  arith,
  count_if-snoc (has_fingerprint fp) (new_row now inc details) t
      (λ own.
        subst (λ (k : String). count_if (has_fingerprint k) t ≡ 0)
          (new_row-fingerprint fp now inc details own) (on_conflict-none _ _ t e))
      (u.at_most_one fp),
  u.at_most_one fp,
)

-- The database's part of each method keeps the index.
exec-IsUnique :
    {E : Type 0} (link : Link) (f : Table → Table × Result StoreError E) (t : Table)
    → IsUnique t
    → IsUnique (f t).0
    → IsUnique (exec link f t).0
unfolding exec
exec-IsUnique up f t u v = v
exec-IsUnique (lost e) f t u v = v
exec-IsUnique (refused e) f t u v = u

-- An UPDATE that lets no resolved row become active and changes no fingerprint keeps the index.
abbrev KeepsIndex : (Row → Bool) → (Row → Row) → Type 0
KeepsIndex p f =
    (fp : String) (r : Row)
    → p r ≡ true
    → has_fingerprint fp (f r) ≡ true
    → has_fingerprint fp r ≡ true

update_where-IsUnique :
    (p : Row → Bool) (f : Row → Row) (t : Table)
    → KeepsIndex p f
    → IsUnique t
    → IsUnique (update_where p f t).0
unfolding active_count
update_where-IsUnique p f t keeps u = record {
  at_most_one = λ fp.
      omega (arith, update_where-count p (has_fingerprint fp) f (keeps fp) t, u.at_most_one fp);
}

upsert_open-IsUnique :
    (marshal : Details → Option String) (link : Link) (now : Time) (inc : Incident) (n : ℕ)
    (t : Table)
    → IsUnique t
    → IsUnique (upsert_open marshal link now inc n t).0
unfolding upsert_open upsert_statement
upsert_open-IsUnique marshal link now inc n t u = checked (validate inc)
  where
    written : (details : Option String) → IsUnique (upsert_encoded details link now inc n t).0
    written none = u
    written (some d) =
        exec-IsUnique link _ t u
          (record { at_most_one = insert_unless-IsUnique _ now inc n d t refl u })

    checked :
        (v : Result (List String) (Unit {0})) → IsUnique (upsert_valid v marshal link now inc n t).0
    checked (err problems) = u
    checked (ok _) = written (encode_details marshal inc.details)

module _ (unmarshal : String → Option Details) where
  transition-IsUnique :
      (p : Row → Bool) (f : Row → Row) (l₁ l₂ : Link) (id : String) (t : Table)
      → KeepsIndex p f
      → IsUnique t
      → IsUnique (transition unmarshal p f l₁ l₂ id t).0
  unfolding transition update_returning
  transition-IsUnique p f l₁ l₂ id t keeps u =
      subst IsUnique (sym (after_update-table unmarshal l₂ id (exec l₁ (update_returning p f) t)))
        (exec-IsUnique l₁ (update_returning p f) t u (update_where-IsUnique p f t keeps u))

module _ (marshal : Details → Option String) (unmarshal : String → Option Details) where
  apply_call-IsUnique :
      (c : Call) (t : Table) → IsUnique t → IsUnique (apply_call marshal unmarshal c t)
  unfolding apply_call acknowledge resolve auto_resolve_stale mark_alerted mark_remediated
      has_fingerprint may_acknowledge acknowledge_row resolve_row alert_row remediate_row
  apply_call-IsUnique (upsert link now inc n) t u = upsert_open-IsUnique marshal link now inc n t u
  apply_call-IsUnique (acknowledge_call l₁ l₂ now id) t u =
      transition-IsUnique unmarshal (may_acknowledge id) (acknowledge_row now) l₁ l₂ id t
        (λ fp r g h. ground arith) u
  apply_call-IsUnique (resolve_call l₁ l₂ now id) t u =
      transition-IsUnique unmarshal (may_resolve id) (resolve_row now) l₁ l₂ id t (λ fp r g h. cc) u
  apply_call-IsUnique (auto_resolve link now cutoff) t u =
      exec-IsUnique link _ t u
        (update_where-IsUnique (is_stale cutoff) (resolve_row now) t (λ fp r g h. cc) u)
  apply_call-IsUnique (alerted link now id) t u =
      exec-IsUnique link _ t u (update_where-IsUnique _ (alert_row now) t (λ fp r g h. h) u)
  apply_call-IsUnique (remediated link now id) t u =
      exec-IsUnique link _ t u (update_where-IsUnique _ (remediate_row now) t (λ fp r g h. h) u)

  -- From a table with at most one unresolved incident to a fingerprint, every sequence of calls of
  -- the store, of any number of replicas and with any connection failures, ends in such a table.
  pub apply_calls-IsUnique :
      (cs : List Call) (t : Table) → IsUnique t → IsUnique (apply_calls marshal unmarshal cs t)
  unfolding apply_calls
  apply_calls-IsUnique [] t u = u
  apply_calls-IsUnique (c ∷ cs) t u =
      apply_calls-IsUnique cs (apply_call marshal unmarshal c t) (apply_call-IsUnique c t u)
