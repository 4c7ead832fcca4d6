-- ===== src/Store/Incidents/Counts.antt =====
-- The event counters and the automatic resolution of internal/store/incidents.go.
use sentinel_flow_project.Base.{
  ◌≢◌, ◌<◌, ◌⊎◌, ltb, ltb→lt, ℕ, ◌+◌, ◌≤◌, String, ◌≡◌, refl, Bool, true, false, inl, inr, Option,
  none, some, [], ◌∷◌, ◌++◌, arith, if◌then◌else◌, Bool-cases, Option-cases, str_eq_refl,
}
use sentinel_flow_project.Base.Results.{Result, ok}
use sentinel_flow_project.Base.Time.{Time}
use sentinel_flow_project.Incident.{
  Details, Incident, validate, Status, status_open, status_acknowledged, status_resolved, unknown,
}
use sentinel_flow_project.Store.Database.{up, StoreError, exec}
use sentinel_flow_project.Store.Incidents.{
  Row, Table, is_unresolved, has_fingerprint, has_id, on_conflict, exists_row, update_where,
  group_row, new_row, insert_unless, upsert_statement, encode_details, upsert_valid, upsert_encoded,
  upsert_open, resolve_row, auto_resolve_stale, is_stale,
}
use sentinel_flow_project.Store.Incidents.Unique.{
  IsUnique, active_count, count_if-append, on_conflict-none, group_row-fingerprint,
}

-- The events folded into the unresolved incidents of a fingerprint.
unfoldable pub active_events : String → Table → ℕ
active_events fp [] = 0
active_events fp (r ∷ rs) =
    let rest = active_events fp rs in if has_fingerprint fp r then r.event_count + rest else rest

-- What one successful UPSERT did to its fingerprint.
pub record Counted (inc : Incident) (n : ℕ) (t t' : Table) (inserted : Bool) : Type 0 where
  pub one_active : active_count inc.fingerprint t' ≡ 1
  pub opened : inserted ≡ true → active_count inc.fingerprint t ≡ 0
  pub opened_with : inserted ≡ true → active_events inc.fingerprint t' ≡ inc.event_count
  pub grouped : inserted ≡ false → active_count inc.fingerprint t ≡ 1
  pub grouped_by :
      inserted ≡ false → active_events inc.fingerprint t' ≡ active_events inc.fingerprint t + n

none_active-events : (fp : String) (t : Table) → active_count fp t ≡ 0 → active_events fp t ≡ 0
unfolding active_count active_events
none_active-events fp [] h = refl
none_active-events fp (r ∷ rs) h = ground (arith, none_active-events fp rs)

Counts : ℕ → String → Table → Table → Type 0
Counts n fp t t' =
    (active_count fp t ≡ 1)
    × (active_count fp t' ≡ 1)
    × (active_events fp t' ≡ active_events fp t + n)

on_conflict-counted :
    (now : Time) (inc : Incident) (n : ℕ) (fp : String) (t t' : Table)
    → active_count fp t ≤ 1
    → on_conflict (has_fingerprint fp) (group_row now inc n) t ≡ some t'
    → Counts n fp t t'
unfolding Counts on_conflict active_count active_events group_row
on_conflict-counted now inc n fp [] t' u h = absurd (ground arith)
on_conflict-counted now inc n fp (r ∷ rs) t' u h = elim (Bool-cases (has_fingerprint fp r)) [
  | inl own ↦
      let same : group_row now inc n r ∷ rs ≡ t' = ground arith in
      rw (← same) (ground (arith, none_active-events fp rs, group_row-fingerprint fp now inc n r))
  | inr other ↦ elim (Option-cases (on_conflict (has_fingerprint fp) (group_row now inc n) rs)) [
    | inl stuck ↦ absurd (ground arith)
    | inr (rs', found) ↦
        let same : r ∷ rs' ≡ t' = ground arith in
        rw (← same) (ground (arith, on_conflict-counted now inc n fp rs rs' (ground arith) found))
  ]
]

active_events-append :
    (fp : String) (t u : Table)
    → active_events fp (t ++ u) ≡ active_events fp t + active_events fp u
unfolding active_events
active_events-append fp [] u = omega arith
active_events-append fp (r ∷ rs) u = ground (arith, active_events-append fp rs u)

new_row-own :
    (now : Time) (inc : Incident) (details : String)
    → has_fingerprint inc.fingerprint (new_row now inc details) ≡ true
unfolding has_fingerprint new_row
new_row-own now inc details = str_eq_refl inc.fingerprint

new_row-count :
    (now : Time) (inc : Incident) (details : String)
    → (new_row now inc details).event_count ≡ inc.event_count
unfolding new_row
new_row-count now inc details = refl

opened-Counted :
    (now : Time) (inc : Incident) (n : ℕ) (details : String) (t : Table)
    → active_count inc.fingerprint t ≡ 0
    → Counted inc n t (t ++ new_row now inc details ∷ []) true
unfolding active_count active_events
opened-Counted now inc n details t idle = ground (
  arith,
  count_if-append (has_fingerprint inc.fingerprint) t (new_row now inc details ∷ []),
  active_events-append inc.fingerprint t (new_row now inc details ∷ []),
  none_active-events inc.fingerprint t,
  new_row-own now inc details,
  new_row-count now inc details,
)

-- A successful UPSERT: the table and the flag that it answers, and what they mean.
abbrev pub Upserted : Incident → ℕ → Table → Table × Result StoreError Bool → Type 0
Upserted inc n t x = (t' : Table) × (b : Bool) × (x ≡ (t', ok b)) × Counted inc n t t' b

insert_unless-Upserted :
    (o : Option Table) (now : Time) (inc : Incident) (n : ℕ) (details : String) (t : Table)
    → IsUnique t
    → exists_row (has_id inc.id) t ≡ false
    → on_conflict (has_fingerprint inc.fingerprint) (group_row now inc n) t ≡ o
    → Upserted inc n t (insert_unless o now inc details t)
unfolding insert_unless Counts
insert_unless-Upserted (some t₁) now inc n details t u free e =
    let c = on_conflict-counted now inc n inc.fingerprint t t₁ (u.at_most_one inc.fingerprint) e in
    (t₁, false, refl, ground arith)
insert_unless-Upserted none now inc n details t u free e = (
  t ++ new_row now inc details ∷ [],
  true,
  rw free,
  opened-Counted now inc n details t (unfold active_count in on_conflict-none _ _ t e),
)

-- With at most one unresolved incident to a fingerprint, UpsertOpen of a valid incident whose
-- details can be encoded and whose id is new succeeds over a working database. It opens the
-- incident exactly if its fingerprint had no unresolved incident, which then starts with the event
-- count of the detection; else the one that is there grows by the increment. Either way exactly one
-- unresolved incident has the fingerprint afterwards.
pub upsert_open-Upserted :
    (marshal : Details → Option String) (now : Time) (inc : Incident) (n : ℕ) (details : String)
    (t : Table)
    → IsUnique t
    → validate inc ≡ ok tt
    → encode_details marshal inc.details ≡ some details
    → exists_row (has_id inc.id) t ≡ false
    → Upserted inc n t (upsert_open marshal up now inc n t)
unfolding upsert_open upsert_valid upsert_encoded exec upsert_statement
upsert_open-Upserted marshal now inc n details t u v d free =
    rw (v, d) (insert_unless-Upserted _ now inc n details t u free refl)

-- What a sweep may leave of a table, row by row, and how many rows it resolved: an unresolved row
-- last seen before the cutoff is resolved now, every other row stays.
pub data Swept (now cutoff : Time) : Table → Table → ℕ → Type 0 where
  swept_all : Swept now cutoff [] [] 0
  stale_row :
      {t t' : Table} {n : ℕ} (r : Row)
      → r.status ≢ status_resolved
      → r.last_seen_at < cutoff
      → Swept now cutoff t t' n
      → Swept now cutoff
          (r ∷ t)
          (record r { status = status_resolved; resolved_at = some now; updated_at = now } ∷ t')
          (n + 1)
  resolved_row :
      {t t' : Table} {n : ℕ} (r : Row)
      → r.status ≡ status_resolved
      → Swept now cutoff t t' n
      → Swept now cutoff (r ∷ t) (r ∷ t') n
  recent_row :
      {t t' : Table} {n : ℕ} (r : Row)
      → cutoff ≤ r.last_seen_at
      → Swept now cutoff t t' n
      → Swept now cutoff (r ∷ t) (r ∷ t') n

is_unresolved-cases :
    (s : Status)
    → ((is_unresolved s ≡ true) × (s ≢ status_resolved))
      ⊎ ((is_unresolved s ≡ false) × (s ≡ status_resolved))
is_unresolved-cases status_open = inl (refl, λ h. cc)
is_unresolved-cases status_acknowledged = inl (refl, λ h. cc)
is_unresolved-cases status_resolved = inr (refl, refl)
is_unresolved-cases (unknown s) = inl (refl, λ h. cc)

update_where-Swept :
    (now cutoff : Time) (t : Table)
    → Swept now cutoff t
        (update_where (is_stale cutoff) (resolve_row now) t).0
        (update_where (is_stale cutoff) (resolve_row now) t).1
unfolding update_where is_stale resolve_row
update_where-Swept now cutoff [] = swept_all
update_where-Swept now cutoff (r ∷ rs) =
    let rest = update_where-Swept now cutoff rs in
    elim (is_unresolved-cases r.status) [
      | inr (e, h) ↦ rw e (resolved_row r h rest)
      | inl (e, h) ↦ elim (Bool-cases (ltb r.last_seen_at cutoff)) [
        | inl old ↦ rw (e, old) (stale_row r h (ltb→lt _ _ old) rest)
        | inr new ↦ rw (e, new) (recent_row r (ground arith) rest)
      ]
    ]

-- AutoResolveStale over a working database resolves now every unresolved incident whose last
-- detection was before the cutoff, leaves every other row as it is, those last seen at the cutoff or
-- later and the resolved ones, keeps the rows in their places, and answers how many it resolved.
pub auto_resolve_stale-Swept :
    (now cutoff : Time) (t : Table)
    → (n : ℕ) × ((auto_resolve_stale up now cutoff t).1 ≡ ok n)
      × Swept now cutoff t (auto_resolve_stale up now cutoff t).0 n
unfolding auto_resolve_stale exec
auto_resolve_stale-Swept now cutoff t = (_, refl, update_where-Swept now cutoff t)
