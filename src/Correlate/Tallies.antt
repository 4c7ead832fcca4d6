-- ===== src/Correlate/Tallies.antt =====
-- internal/correlate: what a rule adds to the incident of one group from the rows of a window.
use sentinel_flow_project.Base.{
  true, Bool-cases, String, ◌+◌, ◌≤◌, ◌≡◌, refl, str_eq, str_eq_refl, All, map, if◌then◌else◌, ap,
  ◌∙◌, Bool, List, [], ◌∷◌, arith, inl, inr,
}
use sentinel_flow_project.Base.Time.{Time}
use sentinel_flow_project.Incident.{fingerprint}
use sentinel_flow_project.Store.Events.{EventTable}
use sentinel_flow_project.Correlate.Window.{
  ServiceWindow, groups, window_stats, any_key, Key, tally,
}
use sentinel_flow_project.Correlate.Rule.{Floats, Rule, evaluate, evaluate_error_rate}
use sentinel_flow_project.Correlate.Shares.{sum, share, once, groups-sum, groups-none, key_of}
use sentinel_flow_project.Correlate.Errors.{errors_from, new_error_rows_lem}

module _ {Float : Type 0} (f : Floats Float) (r : Rule Float) where
  -- The rule fires on what a cycle reads of a group.
  unfoldable pub fires_on : Time → Time → EventTable → Key → Bool
  fires_on from bound rows k = (evaluate f r (tally from bound rows k)).fires

  abbrev pub rule_fingerprint : Key → String
  rule_fingerprint k = fingerprint r.id k.0 k.1

  evaluate-new :
      (w : ServiceWindow)
      → (evaluate f r w).fires ≡ true
      → (evaluate f r w).new_event_count ≡ w.new_errors
  unfolding evaluate evaluate_error_rate
  evaluate-new w h = ground arith

  share_lem :
      (fp : String) (w : ServiceWindow)
      → share f fp r w + 0 ≡ (
          if str_eq (fingerprint r.id w.tenant_id w.service_name) fp
          then (if (evaluate f r w).fires then w.new_errors else 0)
          else 0)
  unfolding share
  share_lem fp w = elim (Bool-cases (evaluate f r w).fires) [
    | inr quiet ↦ rw quiet (ground arith)
    | inl fires ↦ rw (fires, evaluate-new w fires) (ground arith)
  ]

  tally-share :
      (from bound : Time) (rows : EventTable) (k j : Key)
      → from ≤ bound
      → share f (rule_fingerprint k) r (tally from bound rows j) + 0
        ≡ once k
            (λ j. str_eq (rule_fingerprint j) (rule_fingerprint k))
            (λ j. if fires_on from bound rows j then errors_from j bound rows else 0)
            (str_eq_refl (rule_fingerprint k))
            j
  unfolding once fires_on tally
  tally-share from bound rows k (a, b) low =
      share_lem (rule_fingerprint k) (tally from bound rows (a, b))
      ∙ ap
          (λ n.
            if str_eq (fingerprint r.id a b) (rule_fingerprint k)
            then (if (evaluate f r (tally from bound rows (a, b))).fires then n else 0)
            else 0)
          (new_error_rows_lem (a, b) from bound rows low)

  sum-tally :
      (from bound : Time) (rows : EventTable) (k : Key)
      → from ≤ bound
      → (ks : List Key)
      → sum (λ w. share f (rule_fingerprint k) r w + 0) (map (tally from bound rows) ks)
        ≡ sum
            (once k
              (λ j. str_eq (rule_fingerprint j) (rule_fingerprint k))
              (λ j. if fires_on from bound rows j then errors_from j bound rows else 0)
              (str_eq_refl (rule_fingerprint k)))
            ks
  unfolding sum
  sum-tally from bound rows k low [] = refl
  sum-tally from bound rows k low (j ∷ ks) =
      omega (arith, tally-share from bound rows k j low, sum-tally from bound rows k low ks)

  -- What a window adds to the incident of a group whose fingerprint no other group in it has.
  pub window-sum :
      (from bound : Time) (rows : EventTable) (k : Key)
      → from ≤ bound
      → All
          (λ x. str_eq (rule_fingerprint (key_of x)) (rule_fingerprint k) ≡ true → key_of x ≡ k)
          rows
      → sum (λ w. share f (rule_fingerprint k) r w + 0) (window_stats from bound rows)
        ≡ (if fires_on from bound rows k then errors_from k bound rows else 0)
  unfolding window_stats
  window-sum from bound rows k low only =
      let v = λ (j : Key). if fires_on from bound rows j then errors_from j bound rows else 0 in
      sum-tally from bound rows k low (groups from rows)
      ∙ groups-sum k (λ j. str_eq (rule_fingerprint j) (rule_fingerprint k)) v
          (str_eq_refl (rule_fingerprint k)) from rows only
      ∙ elim (Bool-cases (any_key k (groups from rows))) [
        | inl there ↦ rw there refl
        | inr gone ↦
            let nothing : errors_from k bound rows ≡ 0 =
              unfold errors_from in groups-none from bound k rows low gone in
            rw gone (ground (arith, nothing))
      ]
