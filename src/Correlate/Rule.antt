-- ===== src/Correlate/Rule.antt =====
-- internal/correlate/rule.go: a detection rule and its evaluation on one service window.
use Prim.Native.String.{◌++◌ as append}
use sentinel_flow_project.Base.{
  ℕ, String, Bool, true, false, Option, none, some, [], ◌∷◌, ltb, if◌then◌else◌,
}
use sentinel_flow_project.Severity.{Severity}
use sentinel_flow_project.Incident.{Details}
use sentinel_flow_project.Correlate.Window.{ServiceWindow}

-- Go's float64, and the texts that fmt and time give: %.0f of 100 times a rate, a float64 in the
-- details, %d, and a Duration's String.
pub record Floats (Float : Type 0) : Type 0 where
  pub of_int64 : ℕ → Float
  pub divide : Float → Float → Float
  pub less : Float → Float → Bool
  pub percent : Float → String
  pub float_text : Float → String
  pub decimal : ℕ → String
  pub duration_text : ℕ → String

-- `other_kind` is a string that is not the constant.
pub data RuleKind : Type 0 where
  error_rate : RuleKind
  other_kind : String → RuleKind

pub record Rule (Float : Type 0) : Type 0 where
  pub id : String
  pub name : String
  pub kind : RuleKind
  pub window : ℕ
  pub threshold : Float
  pub min_events : ℕ
  pub incident_severity : Severity

pub record Detection : Type 0 where
  pub fires : Bool
  pub title : String
  pub event_count : ℕ
  pub new_event_count : ℕ
  pub details : Option Details

abbrev pub no_detection : Detection
no_detection = record {
  fires = false;
  title = "";
  event_count = 0;
  new_event_count = 0;
  details = none;
}

module _ {Float : Type 0} (f : Floats Float) where
  unfoldable pub rate_of : ServiceWindow → Float
  rate_of w = f.divide (f.of_int64 w.errors) (f.of_int64 w.total)

  -- fmt.Sprintf("%s: %.0f%% error rate on %s (%d of %d events over %s)", ...)
  unfoldable pub title_of : Rule Float → ServiceWindow → String
  unfolding rate_of
  title_of r w = append r.name (
      append ": " (
        append (f.percent (rate_of w)) (
          append "% error rate on " (
            append w.service_name (
              append " (" (
                append (f.decimal w.errors) (
                  append " of " (
                    append (f.decimal w.total)
                      (append " events over " (append (f.duration_text r.window) ")"))))))))))

  unfoldable pub details_of : Rule Float → ServiceWindow → Details
  unfolding rate_of
  details_of r w =
      ("rule_id", r.id)
      ∷ ("kind", "error_rate")
      ∷ ("error_rate", f.float_text (rate_of w))
      ∷ ("threshold", f.float_text r.threshold)
      ∷ ("error_count", f.decimal w.errors)
      ∷ ("total_events", f.decimal w.total)
      ∷ ("window", f.duration_text r.window)
      ∷ []

  unfoldable pub evaluate_error_rate : Rule Float → ServiceWindow → Detection
  unfolding rate_of title_of details_of
  evaluate_error_rate r w =
      if ltb w.total r.min_events
      then no_detection
      else if f.less (rate_of w) r.threshold
      then no_detection
      else record {
        fires = true;
        title = title_of r w;
        event_count = w.errors;
        new_event_count = w.new_errors;
        details = some (details_of r w);
      }

  -- Evaluate
  unfoldable pub evaluate : Rule Float → ServiceWindow → Detection
  unfolding evaluate_error_rate
  evaluate r w = elim r.kind [ error_rate ↦ evaluate_error_rate r w | other_kind s ↦ no_detection ]
