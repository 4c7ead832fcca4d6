-- ===== src/Event/Normalization.antt =====
-- Normalize of internal/event/event.go is idempotent.
use Prim.Native.Char.{Char, code}
use Prim.Native.String.{◌∷◌}
use sentinel_flow_project.Base.{
  String, ◌≡◌, refl, ◌∙◌, ap, ap₂, false, ◌&&◌, none, some, inl, inr, arith, eq_iff, if◌then◌else◌,
  Bool-cases,
}
use sentinel_flow_project.Base.Text.{is_space, is_empty, trim_left, trim_right, trim_space}
use sentinel_flow_project.Severity.{severity_text}
use sentinel_flow_project.Event.{Event, Attributes, or_empty, to_lower, severity_of, normalize}

trim_right-space :
    (c : Char) (s : String) → is_space (code c) ≡ false → trim_right (c ∷ s) ≡ c ∷ trim_right s
unfolding trim_right
trim_right-space c s h = ground arith

trim_right_idem : (s : String) → trim_right (trim_right s) ≡ trim_right s
unfolding trim_right
trim_right_idem String.[] = refl
trim_right_idem (c ∷ s) = elim (Bool-cases (is_space (code c) && is_empty (trim_right s))) [
  | inl gone ↦ rw gone
  | inr kept ↦ rw (kept, trim_right_idem s, kept)
]

trim_left-trim_right :
    (s : String) → trim_left (trim_right (trim_left s)) ≡ trim_right (trim_left s)
unfolding trim_left
trim_left-trim_right String.[] = unfold trim_right in refl
trim_left-trim_right (c ∷ s) = elim (Bool-cases (is_space (code c))) [
  | inl gone ↦ rw gone (trim_left-trim_right s)
  | inr kept ↦ rw (kept, trim_right-space c s kept, kept)
]

trim_space_idem : (s : String) → trim_space (trim_space s) ≡ trim_space s
unfolding trim_space
trim_space_idem s = rw (trim_left-trim_right s) (trim_right_idem (trim_left s))

-- What unicode.ToLower does of relevance here: lower case is stable, and no character becomes or
-- ceases to be space.
pub record IsLowering (lower : Char → Char) : Type 0 where
  pub stable : (c : Char) → lower (lower c) ≡ lower c
  pub keeps_space : (c : Char) → is_space (code (lower c)) ≡ is_space (code c)

module _ (lower : Char → Char) (law : IsLowering lower) where
  to_lower_idem : (s : String) → to_lower lower (to_lower lower s) ≡ to_lower lower s
  unfolding to_lower
  to_lower_idem String.[] = refl
  to_lower_idem (c ∷ s) = ap₂ ◌∷◌ (law.stable c) (to_lower_idem s)

  is_empty-to_lower : (s : String) → is_empty (to_lower lower s) ≡ is_empty s
  unfolding to_lower
  is_empty-to_lower String.[] = refl
  is_empty-to_lower (c ∷ s) = refl

  trim_right-to_lower : (s : String) → trim_right (to_lower lower s) ≡ to_lower lower (trim_right s)
  unfolding trim_right to_lower
  trim_right-to_lower String.[] = refl
  trim_right-to_lower (c ∷ s) = elim (Bool-cases (is_space (code c) && is_empty (trim_right s))) [
    | inl gone ↦
        rw (law.keeps_space c, trim_right-to_lower s, is_empty-to_lower (trim_right s), gone)
    | inr kept ↦
        rw (law.keeps_space c, trim_right-to_lower s, is_empty-to_lower (trim_right s), kept)
  ]

  trim_left-to_lower : (s : String) → trim_left (to_lower lower s) ≡ to_lower lower (trim_left s)
  unfolding trim_left to_lower
  trim_left-to_lower String.[] = refl
  trim_left-to_lower (c ∷ s) = elim (Bool-cases (is_space (code c))) [
    | inl gone ↦ rw (law.keeps_space c, gone) (trim_left-to_lower s)
    | inr kept ↦ rw (law.keeps_space c, kept)
  ]

  -- Trimming and lowering a text that was trimmed and lowered changes nothing.
  lowered_idem :
      (s : String)
      → to_lower lower (trim_space (to_lower lower (trim_space s))) ≡ to_lower lower (trim_space s)
  unfolding trim_space
  lowered_idem s =
      rw
        (
          trim_left-to_lower (trim_right (trim_left s)),
          trim_left-trim_right s,
          trim_right-to_lower (trim_right (trim_left s)),
          trim_right_idem (trim_left s),
        )
        (to_lower_idem (trim_right (trim_left s)))

severity_text-of : (s : String) → severity_text (severity_of s) ≡ s
unfolding severity_of severity_text
severity_text-of s = ground (
  arith,
  eq_iff s "debug",
  eq_iff s "info",
  eq_iff s "warn",
  eq_iff s "error",
  eq_iff s "critical",
)

abbrev or_default : String → String
or_default s = if is_empty s then "unknown" else s

default_idem :
    (s : String) → or_default (trim_space (or_default (trim_space s))) ≡ or_default (trim_space s)
default_idem s = elim (Bool-cases (is_empty (trim_space s))) [
  | inl blank ↦ rw blank (unfold trim_space trim_left trim_right is_space in refl)
  | inr given ↦ rw (given, trim_space_idem s, given)
]

or_empty_idem : (a : Attributes) → or_empty (or_empty a) ≡ or_empty a
or_empty_idem none = refl
or_empty_idem (some a) = refl

-- Normalize applied to a normalised event changes nothing, for any lower-casing of characters that
-- is stable and that neither makes nor removes space.
pub normalize_idem :
    (lower : Char → Char) (e : Event)
    → IsLowering lower
    → normalize lower (normalize lower e) ≡ normalize lower e
unfolding normalize
normalize_idem lower e law =
    let lowered = to_lower lower (trim_space (severity_text e.severity)) in
    let severity_path =
      ap (λ (t : String). severity_of (to_lower lower (trim_space t))) (severity_text-of lowered)
      ∙ ap severity_of (lowered_idem lower law (severity_text e.severity)) in
    λ i. record {
      event_id = lowered_idem lower law e.event_id i;
      schema_version = trim_space_idem e.schema_version i;
      tenant_id = trim_space_idem e.tenant_id i;
      service_name = trim_space_idem e.service_name i;
      environment = default_idem e.environment i;
      event_type = trim_space_idem e.event_type i;
      severity = severity_path i;
      timestamp = e.timestamp;
      trace_id = trim_space_idem e.trace_id i;
      attributes = or_empty_idem e.attributes i;
    }
