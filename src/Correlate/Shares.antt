-- ===== src/Correlate/Shares.antt =====
-- internal/correlate/evaluator.go: what each rule and each service of a cycle adds to one incident.
use sentinel_flow_project.Base.{
  ℕ, ◌+◌, ◌≤◌, String, ◌≡◌, refl, sym, ap, subst, ◌∙◌, Bool, true, false, ◌&&◌, ◌||◌, inl, inr,
  Option, none, some, List, [], ◌∷◌, arith, str_eq, leb, eq_iff, str_eq_refl, if◌then◌else◌,
  Bool-cases, All, count_if,
}
use sentinel_flow_project.Base.Results.{Result, ok, err}
use sentinel_flow_project.Base.Time.{Time}
use sentinel_flow_project.Incident.{Details, fingerprint}
use sentinel_flow_project.Store.Database.{Link, up, lost, refused, StoreError, exec}
use sentinel_flow_project.Store.Incidents.{
  Row, Table, update_where, upsert_open, resolve_row, is_stale, auto_resolve_stale,
}
use sentinel_flow_project.Store.Events.{EventRow, EventTable}
use sentinel_flow_project.Correlate.Window.{
  ServiceWindow, Key, in_group, is_bad, since, groups, any_key,
}
use sentinel_flow_project.Correlate.Rule.{Floats, Rule, evaluate}
use sentinel_flow_project.Correlate.Evaluator.{
  Cycle, CycleError, Progress, and_then, each, build_incident, after_upsert, visit_rule,
  visit_windows,
}
use sentinel_flow_project.Correlate.Gains.{all_events, IsActive, Gains, upsert_open-Gains}

module _ {A : Type 0} where
  unfoldable pub sum : (A → ℕ) → List A → ℕ
  sum g [] = 0
  sum g (x ∷ xs) = g x + sum g xs

-- What a step of a cycle that ends without an error adds to the events of a fingerprint.
abbrev pub Adds : String → ℕ → Progress → Progress × Option CycleError → Type 0
Adds fp n s x = IsActive fp s.incidents → x.1 ≡ none → Gains fp n s.incidents x.0.incidents

module _ {A : Type 0} (fp : String) (body : A → Progress → Progress × Option CycleError) (g : A → ℕ)
    (step : (x : A) (s : Progress) → Adds fp (g x) s (body x s)) where
  and_then-Adds :
      (x : A) (xs : List A) (s : Progress) (p : Progress × Option CycleError)
      → Adds fp (g x) s p
      → ((s : Progress) → Adds fp (sum g xs) s (each body xs s))
      → Adds fp (g x + sum g xs) s (and_then (each body xs) p)
  unfolding and_then
  and_then-Adds x xs s (s', some e) first later active h = cc
  and_then-Adds x xs s (s', none) first later active h =
      let one = first active refl in
      let two = later s' one.0 h in (two.0, omega (arith, one.1, two.1))

  -- A loop adds what its rounds add.
  pub each-Adds : (xs : List A) (s : Progress) → Adds fp (sum g xs) s (each body xs s)
  unfolding each sum
  each-Adds [] s active h = (active, omega arith)
  each-Adds (x ∷ xs) s active h = and_then-Adds x xs s (body x s) (step x s) (each-Adds xs) active h

module _ {Float : Type 0} (f : Floats Float) (fp : String) where
  -- A rule that fires on a service adds its new errors to the fingerprint of the two.
  unfoldable pub share : Rule Float → ServiceWindow → ℕ
  share r w =
      if (evaluate f r w).fires && str_eq (fingerprint r.id w.tenant_id w.service_name) fp
      then (evaluate f r w).new_event_count
      else 0

  module _ (marshal : Details → Option String) (c : Cycle) where
    after_upsert-Adds :
        (n : ℕ) (s : Progress) (x : Table × Result StoreError Bool)
        → ((b : Bool) → x.1 ≡ ok b → Gains fp n s.incidents x.0)
        → (after_upsert f marshal c s x).1 ≡ none
        → Gains fp n s.incidents (after_upsert f marshal c s x).0.incidents
    unfolding after_upsert
    after_upsert-Adds n s (t, ok true) k h = k true refl
    after_upsert-Adds n s (t, ok false) k h = k false refl
    after_upsert-Adds n s (t, err e) k h = cc

    visit_rule-Adds :
        (w : ServiceWindow) (r : Rule Float) (s : Progress)
        → Adds fp (share r w) s (visit_rule f marshal c w r s)
    unfolding visit_rule share build_incident
    visit_rule-Adds w r s active h = elim (Bool-cases (evaluate f r w).fires) [
      | inr quiet ↦ rw (quiet, visit_rule) (active, omega arith)
      | inl fires ↦
          let det = evaluate f r w in
          let v = c.visit s.visits in
          rw (fires, visit_rule)
            (after_upsert-Adds _ s
              (upsert_open marshal v.link v.db_now (build_incident f v r w det) det.new_event_count
                s.incidents)
              (λ b k.
                upsert_open-Gains marshal v.db_now (build_incident f v r w det) det.new_event_count
                  fp v.link s.incidents b active k)
              (rw (fires, visit_rule) at h))
    ]

    -- Every rule on every service.
    pub visit_windows-Adds :
        (rules : List (Rule Float)) (ws : List ServiceWindow) (s : Progress)
        → Adds fp
            (sum (λ w. sum (λ r. share r w) rules) ws)
            s
            (visit_windows f marshal c rules ws s)
    unfolding visit_windows
    visit_windows-Adds rules =
        each-Adds fp _ (λ w. sum (λ r. share r w) rules)
          (λ w. each-Adds fp _ (λ r. share r w) (visit_rule-Adds w) rules)

module _ (fp : String) where
  update_where-events :
      (p : Row → Bool) (change : Row → Row)
      → ((r : Row)
          → (change r).fingerprint ≡ r.fingerprint × (change r).event_count ≡ r.event_count)
      → (t : Table) → all_events fp (update_where p change t).0 ≡ all_events fp t
  unfolding update_where all_events
  update_where-events p change same [] = refl
  update_where-events p change same (r ∷ rs) =
      ground (arith, same r, update_where-events p change same rs)

  -- The resolution of stale incidents moves no count.
  pub auto_resolve_stale-events :
      (link : Link) (now cutoff : Time) (t : Table)
      → all_events fp (auto_resolve_stale link now cutoff t).0 ≡ all_events fp t
  unfolding auto_resolve_stale exec
  auto_resolve_stale-events up now cutoff t =
      update_where-events (is_stale cutoff) (resolve_row now)
        (λ r. unfold resolve_row in (refl, refl)) t
  auto_resolve_stale-events (lost e) now cutoff t =
      update_where-events (is_stale cutoff) (resolve_row now)
        (λ r. unfold resolve_row in (refl, refl)) t
  auto_resolve_stale-events (refused e) now cutoff t = refl

abbrev pub key_of : EventRow → Key
key_of r = (r.event.tenant_id, r.event.service_name)

keys_match : Key → Key → Bool
keys_match (a, b) (c, d) = str_eq a c && str_eq b d

same_key_refl : (k : Key) → keys_match k k ≡ true
unfolding keys_match
same_key_refl (a, b) = ground (arith, str_eq_refl a, str_eq_refl b)

keys_match-path : (j k : Key) → keys_match j k ≡ true → j ≡ k
unfolding keys_match
keys_match-path (a, b) (c, d) h = ground (arith, eq_iff a c, eq_iff b d)

any_key-cons : (j k : Key) (ks : List Key) → any_key j (k ∷ ks) ≡ (keys_match j k || any_key j ks)
unfolding any_key keys_match
any_key-cons (a, b) (c, d) ks = refl

-- A sum over the groups of which at most one counts.
module _ (k : Key) (mine : Key → Bool) (v : Key → ℕ) (here : mine k ≡ true) where
  unfoldable pub once : Key → ℕ
  once j = if mine j then v j else 0

  sum-cons :
      (j : Key) (ks : List Key)
      → (mine j ≡ true → j ≡ k)
      → any_key j ks ≡ false
      → sum once ks ≡ (if any_key k ks then v k else 0)
      → sum once (j ∷ ks) ≡ (if any_key k (j ∷ ks) then v k else 0)
  unfolding sum once
  sum-cons j ks only new h = elim (Bool-cases (mine j)) [
    | inl m ↦
        let same : j ≡ k = only m in
        let gone : any_key k ks ≡ false = subst (λ x. any_key x ks ≡ false) same new in
        let value : v j ≡ v k = ap v same in
        let found : keys_match k j ≡ true =
          subst (λ x. keys_match k x ≡ true) (sym same) (same_key_refl k) in
        rw (any_key-cons k j ks) (ground (arith, m, gone, value, found, h))
    | inr m ↦ elim (Bool-cases (keys_match k j)) [
      | inl found ↦
          let m' : mine j ≡ true = subst (λ x. mine x ≡ true) (keys_match-path k j found) here in
          absurd (ground arith)
      | inr apart ↦ rw (any_key-cons k j ks) (ground (arith, m, apart, h))
    ]
  ]

  pub groups-sum :
      (from : Time) (rows : EventTable)
      → All (λ r. mine (key_of r) ≡ true → key_of r ≡ k) rows
      → sum once (groups from rows) ≡ (if any_key k (groups from rows) then v k else 0)
  unfolding groups sum any_key
  groups-sum from [] only = refl
  groups-sum from (r ∷ rs) only =
      let rest = groups-sum from rs only.1 in
      elim (Bool-cases (since from r)) [
        | inr early ↦ rw (groups, early) rest
        | inl within ↦ elim (Bool-cases (any_key (key_of r) (groups from rs))) [
          | inl old ↦ rw (groups, within, old) rest
          | inr new ↦
              rw (groups, within, new) (sum-cons (key_of r) (groups from rs) only.0 new rest)
        ]
      ]

groups-cons :
    (from : Time) (k : Key) (r : EventRow) (rs : EventTable)
    → any_key k (groups from (r ∷ rs)) ≡ false
    → (any_key k (groups from rs) ≡ false) × (since from r ≡ true → keys_match k (key_of r) ≡ false)
unfolding groups
groups-cons from k r rs h = elim (Bool-cases (since from r)) [
  | inr early ↦ (rw (groups, early) at h, λ within. absurd (ground arith))
  | inl within ↦ elim (Bool-cases (any_key (key_of r) (groups from rs))) [
    | inl old ↦
        let rest : any_key k (groups from rs) ≡ false = rw (groups, within, old) at h in
        (
          rest,
          λ w. elim (Bool-cases (keys_match k (key_of r))) [
            | inr apart ↦ apart
            | inl found ↦
                let old' : any_key k (groups from rs) ≡ true =
                  subst (λ x. any_key x (groups from rs) ≡ true)
                    (sym (keys_match-path k (key_of r) found)) old in
                absurd (ground arith)
          ],
        )
    | inr new ↦
        let both : (keys_match k (key_of r) || any_key k (groups from rs)) ≡ false =
          sym (any_key-cons k (key_of r) (groups from rs)) ∙ (rw (groups, within, new) at h) in
        (ground arith, λ w. ground arith)
  ]
]

-- A group without a row in the window has no error in it.
pub groups-none :
    (from bound : Time) (k : Key) (rows : EventTable)
    → from ≤ bound
    → any_key k (groups from rows) ≡ false
    → count_if (λ r. in_group k r && is_bad r.event.severity && leb bound r.event.timestamp) rows
      ≡ 0
unfolding keys_match
groups-none from bound k [] low h = refl
groups-none from bound (a, b) (r ∷ rs) low h =
    let (rest, apart) = groups-cons from (a, b) r rs h in
    let none_later = groups-none from bound (a, b) rs low rest in
    elim (Bool-cases (since from r)) [
      | inr early ↦ ground arith
      | inl within ↦
          let other : (str_eq a r.event.tenant_id && str_eq b r.event.service_name) ≡ false =
            apart within in
          ground (
            arith,
            eq_iff a r.event.tenant_id,
            eq_iff r.event.tenant_id a,
            eq_iff b r.event.service_name,
            eq_iff r.event.service_name b,
          )
    ]
