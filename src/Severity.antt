-- ===== src/Severity.antt =====
-- internal/event/event.go: the closed vocabulary of severities.
use sentinel_flow_project.Base.{String, List, [], ◌∷◌, Bool, true, false}

-- `other` is a string that is none of the five constants.
pub data Severity : Type 0 where
  debug info warn error critical : Severity
  other : String → Severity

unfoldable pub severity_text : Severity → String
severity_text debug = "debug"
severity_text info = "info"
severity_text warn = "warn"
severity_text error = "error"
severity_text critical = "critical"
severity_text (other s) = s

-- Membership in the map supportedSeverities.
unfoldable pub is_supported : Severity → Bool
is_supported (other s) = false
is_supported debug = true
is_supported _ = true

-- SupportedSeverities, from least to most urgent.
unfoldable pub supported_severities : List String
unfolding severity_text
supported_severities =
    severity_text debug
    ∷ severity_text info
    ∷ severity_text warn
    ∷ severity_text error
    ∷ severity_text critical
    ∷ []
