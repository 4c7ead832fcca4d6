-- ===== src/Correlate/Gains.antt =====
-- internal/correlate/evaluator.go: what the upserts of a cycle add to the events of one fingerprint.
use sentinel_flow_project.Base.{
  ℕ, ◌+◌, String, ◌≡◌, refl, subst, ◌∙◌, Bool, true, false, inl, inr, Option, none, some, List, [],
  ◌∷◌, ◌++◌, arith, str_eq, if◌then◌else◌, Bool-cases, Option-cases, eq_iff,
}
use sentinel_flow_project.Base.Results.{Result, ok, err}
use sentinel_flow_project.Base.Time.{Time}
use sentinel_flow_project.Incident.{Details, Incident, validate}
use sentinel_flow_project.Store.Database.{Link, up, lost, refused, exec}
use sentinel_flow_project.Store.Incidents.{
  Row, Table, has_fingerprint, has_id, on_conflict, exists_row, group_row, new_row, insert_unless,
  upsert_statement, encode_details, upsert_encoded, upsert_valid, upsert_open,
}

-- The events counted into the incidents of a fingerprint, resolved ones included.
unfoldable pub all_events : String → Table → ℕ
all_events fp [] = 0
all_events fp (r ∷ rs) =
    let rest = all_events fp rs in if str_eq r.fingerprint fp then r.event_count + rest else rest

-- Some incident of the fingerprint is not resolved.
abbrev pub IsActive : String → Table → Type 0
IsActive fp t = exists_row (has_fingerprint fp) t ≡ true

-- The incident stays active, and its events grow by so many.
abbrev pub Gains : String → ℕ → Table → Table → Type 0
Gains fp n t u = IsActive fp u × (all_events fp u ≡ all_events fp t + n)

abbrev own : String → String → ℕ → ℕ
own fp other n = if str_eq other fp then n else 0

all_events-append :
    (fp : String) (t u : Table) → all_events fp (t ++ u) ≡ all_events fp t + all_events fp u
unfolding all_events
all_events-append fp [] u = omega arith
all_events-append fp (r ∷ rs) u = ground (arith, all_events-append fp rs u)

exists_row-append :
    (p : Row → Bool) (t u : Table) → exists_row p t ≡ true → exists_row p (t ++ u) ≡ true
unfolding exists_row
exists_row-append p [] u h = cc
exists_row-append p (r ∷ rs) u h = ground (arith, exists_row-append p rs u)

on_conflict-events :
    (now : Time) (inc : Incident) (n : ℕ) (fp : String) (t t' : Table)
    → on_conflict (has_fingerprint inc.fingerprint) (group_row now inc n) t ≡ some t'
    → all_events fp t' ≡ all_events fp t + own fp inc.fingerprint n
unfolding on_conflict all_events group_row has_fingerprint
on_conflict-events now inc n fp [] t' h = cc
on_conflict-events now inc n fp (r ∷ rs) t' h =
    elim (Bool-cases (has_fingerprint inc.fingerprint r)) [
      | inl e ↦
          let same : group_row now inc n r ∷ rs ≡ t' = ground arith in
          rw (← same) (ground (arith, eq_iff r.fingerprint inc.fingerprint))
      | inr e ↦
          elim (Option-cases
            (on_conflict (has_fingerprint inc.fingerprint) (group_row now inc n) rs)) [
              | inl g ↦ absurd (ground arith)
              | inr (rs', g) ↦
                  let same : r ∷ rs' ≡ t' = ground arith in
                  rw (← same) (ground (arith, on_conflict-events now inc n fp rs rs' g))
            ]
    ]

on_conflict-active :
    (now : Time) (inc : Incident) (n : ℕ) (fp : String) (t t' : Table)
    → on_conflict (has_fingerprint inc.fingerprint) (group_row now inc n) t ≡ some t'
    → exists_row (has_fingerprint fp) t' ≡ exists_row (has_fingerprint fp) t
unfolding on_conflict exists_row group_row has_fingerprint
on_conflict-active now inc n fp [] t' h = cc
on_conflict-active now inc n fp (r ∷ rs) t' h =
    elim (Bool-cases (has_fingerprint inc.fingerprint r)) [
      | inl e ↦
          let same : group_row now inc n r ∷ rs ≡ t' = ground arith in rw (← same) (ground arith)
      | inr e ↦
          elim (Option-cases
            (on_conflict (has_fingerprint inc.fingerprint) (group_row now inc n) rs)) [
              | inl g ↦ absurd (ground arith)
              | inr (rs', g) ↦
                  let same : r ∷ rs' ≡ t' = ground arith in
                  rw (← same) (ground (arith, on_conflict-active now inc n fp rs rs' g))
            ]
    ]

on_conflict-stuck :
    (p : Row → Bool) (f : Row → Row) (t : Table) → on_conflict p f t ≡ none → exists_row p t ≡ false
unfolding on_conflict exists_row
on_conflict-stuck p f [] h = refl
on_conflict-stuck p f (r ∷ rs) h = elim (Option-cases (on_conflict p f rs)) [
  | inl g ↦ ground (arith, on_conflict-stuck p f rs g)
  | inr (rs', g) ↦ absurd (ground arith)
]

new_row-events :
    (now : Time) (inc : Incident) (details fp : String)
    → str_eq inc.fingerprint fp ≡ false
    → all_events fp (new_row now inc details ∷ []) ≡ 0
unfolding all_events new_row
new_row-events now inc details fp h = ground arith

module _ (marshal : Details → Option String) (now : Time) (inc : Incident) (n : ℕ)
    (fp : String) where
  other_fingerprint :
      (t : Table)
      → IsActive fp t
      → exists_row (has_fingerprint inc.fingerprint) t ≡ false
      → str_eq inc.fingerprint fp ≡ false
  other_fingerprint t active none_here = elim (Bool-cases (str_eq inc.fingerprint fp)) [
    | inr e ↦ e
    | inl e ↦
        let same : inc.fingerprint ≡ fp = ground (arith, eq_iff inc.fingerprint fp) in
        let none_there : exists_row (has_fingerprint fp) t ≡ false =
          subst (λ x. exists_row (has_fingerprint x) t ≡ false) same none_here in
        absurd (ground arith)
  ]

  insert_unless-Gains :
      (o : Option Table) (details : String) (t : Table) (b : Bool)
      → on_conflict (has_fingerprint inc.fingerprint) (group_row now inc n) t ≡ o
      → IsActive fp t
      → (insert_unless o now inc details t).1 ≡ ok b
      → Gains fp (own fp inc.fingerprint n) t (insert_unless o now inc details t).0
  unfolding insert_unless
  insert_unless-Gains (some t') details t b e active h =
      (on_conflict-active now inc n fp t t' e ∙ active, on_conflict-events now inc n fp t t' e)
  insert_unless-Gains none details t b e active h =
      let apart = other_fingerprint t active (on_conflict-stuck _ _ t e) in
      elim (Bool-cases (exists_row (has_id inc.id) t)) [
        | inl taken ↦ absurd (ground arith)
        | inr free ↦
            rw (free, apart)
              (
                exists_row-append (has_fingerprint fp) t (new_row now inc details ∷ []) active,
                omega (
                  arith,
                  all_events-append fp t (new_row now inc details ∷ []),
                  new_row-events now inc details fp apart,
                ),
              )
      ]

  exec-Gains :
      (link : Link) (details : String) (t : Table) (b : Bool)
      → IsActive fp t
      → (exec link (upsert_statement now inc n details) t).1 ≡ ok b
      → Gains fp (own fp inc.fingerprint n) t (exec link (upsert_statement now inc n details) t).0
  unfolding exec upsert_statement
  exec-Gains up details t b active h = insert_unless-Gains _ details t b refl active h
  exec-Gains (lost e) details t b active h = cc
  exec-Gains (refused e) details t b active h = cc

  encoded-Gains :
      (o : Option String) (link : Link) (t : Table) (b : Bool)
      → IsActive fp t
      → (upsert_encoded o link now inc n t).1 ≡ ok b
      → Gains fp (own fp inc.fingerprint n) t (upsert_encoded o link now inc n t).0
  unfolding upsert_encoded
  encoded-Gains none link t b active h = cc
  encoded-Gains (some details) link t b active h = exec-Gains link details t b active h

  valid-Gains :
      (v : Result (List String) (Unit {0})) (link : Link) (t : Table) (b : Bool)
      → IsActive fp t
      → (upsert_valid v marshal link now inc n t).1 ≡ ok b
      → Gains fp (own fp inc.fingerprint n) t (upsert_valid v marshal link now inc n t).0
  unfolding upsert_valid
  valid-Gains (err problems) link t b active h = cc
  valid-Gains (ok _) link t b active h =
      encoded-Gains (encode_details marshal inc.details) link t b active h

  -- An upsert that answers adds the increment to the incident of its fingerprint that is active.
  pub upsert_open-Gains :
      (link : Link) (t : Table) (b : Bool)
      → IsActive fp t
      → (upsert_open marshal link now inc n t).1 ≡ ok b
      → Gains fp (own fp inc.fingerprint n) t (upsert_open marshal link now inc n t).0
  unfolding upsert_open
  upsert_open-Gains link t b active h = valid-Gains (validate inc) link t b active h
