-- ===== src/Correlate/Errors.antt =====
-- The error events of a group in a window, as internal/correlate and its window query count them.
use sentinel_flow_project.Base.{
  ℕ, ◌+◌, ◌≤◌, ◌≡◌, refl, Bool, ◌&&◌, List, [], ◌∷◌, ◌++◌, arith, ltb, leb, count_if,
}
use sentinel_flow_project.Base.Time.{Time}
use sentinel_flow_project.Store.Incidents.Unique.{count_if-append}
use sentinel_flow_project.Store.Events.{EventTable}
use sentinel_flow_project.Correlate.Window.{Key, in_group, is_bad, new_error_rows}
use sentinel_flow_project.Correlate.Evaluator.{count_since}

module _ {A : Type 0} {p q : A → Bool} where
  count_if-congr : ((x : A) → p x ≡ q x) → (xs : List A) → count_if p xs ≡ count_if q xs
  count_if-congr h [] = refl
  count_if-congr h (x ∷ xs) = ground (arith, h x, count_if-congr h xs)

module _ {A : Type 0} (p q r : A → Bool) where
  count_if-split :
      ((x : A) → count_if p (x ∷ []) ≡ count_if q (x ∷ []) + count_if r (x ∷ []))
      → (xs : List A) → count_if p xs ≡ count_if q xs + count_if r xs
  count_if-split h [] = refl
  count_if-split h (x ∷ xs) = ground (arith, h x, count_if-split h xs)

-- The error events of a group from a given time on, and those of them before another time.
unfoldable pub errors_from : Key → Time → EventTable → ℕ
errors_from k from t =
    count_if (λ r. in_group k r && is_bad r.event.severity && leb from r.event.timestamp) t

unfoldable pub errors_between : Key → Time → Time → EventTable → ℕ
errors_between k from to t =
    count_if
      (λ r.
        in_group k r
        && is_bad r.event.severity
        && (leb from r.event.timestamp && ltb r.event.timestamp to))
      t

new_test :
    (from bound at : Time) (group bad : Bool)
    → from ≤ bound
    → (leb from at && (group && bad && leb bound at)) ≡ (group && bad && leb bound at)
new_test from bound at group bad h = ground arith

pub new_error_rows_lem :
    (k : Key) (from bound : Time) (t : EventTable)
    → from ≤ bound
    → new_error_rows k from bound t ≡ errors_from k bound t
unfolding new_error_rows errors_from
new_error_rows_lem k from bound t h =
    count_if-congr
      (λ r. new_test from bound r.event.timestamp (in_group k r) (is_bad r.event.severity) h) t

module _ {A : Type 0} where
  split_test :
      (from to at : Time) (bad : Bool) (x : A)
      → from ≤ to
      → count_if (λ y. bad && leb from at) (x ∷ [])
        ≡ count_if (λ y. bad && (leb from at && ltb at to)) (x ∷ [])
          + count_if (λ y. bad && leb to at) (x ∷ [])
  split_test from to at bad x h = ground arith

pub errors_from_split :
    (k : Key) (from to : Time) (t : EventTable)
    → from ≤ to
    → errors_from k from t ≡ errors_between k from to t + errors_from k to t
unfolding errors_from errors_between
errors_from_split k from to t h =
    count_if-split _ _ _
      (λ r. split_test from to r.event.timestamp (in_group k r && is_bad r.event.severity) r h) t

pub errors_from-append :
    (k : Key) (from : Time) (t u : EventTable)
    → errors_from k from (t ++ u) ≡ errors_from k from t + errors_from k from u
unfolding errors_from
errors_from-append k from t u = count_if-append _ t u

pub count_since_lem :
    (last from to : Time)
    → last ≤ to
    → from ≤ to
    → (from ≤ count_since last from) × (count_since last from ≤ to)
unfolding count_since
count_since_lem last from to h g = ground arith

-- From a bound that is already past the start of the window, the bound is kept.
pub count_since-later : (last from : Time) → from ≤ last → count_since last from ≡ last
unfolding count_since
count_since-later last from h = ground arith
