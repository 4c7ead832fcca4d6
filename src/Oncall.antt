-- ===== src/Oncall.antt =====
-- internal/oncall/oncall.go: the escalation policy and who is on call.
pub mod Schedule
use sentinel_flow_project.Base.{
  ℕ, ◌+◌, ◌/◌, ◌%◌, String, Bool, true, false, not, Option, none, some, List, [], ◌∷◌, length,
  get_elem?, if◌then◌else◌,
}
use sentinel_flow_project.Base.Int.{pos, negsuc, pos_part, positive}
use sentinel_flow_project.Base.Text.{is_blank}
use sentinel_flow_project.Base.Time.{Time, Duration, sub_time}

pub record Contact : Type 0 where
  pub name : String
  pub address : String

pub record Rotation : Type 0 where
  pub contacts : List Contact
  pub start : Time
  pub shift : Duration

pub record Level : Type 0 where
  pub target : String
  pub ack_timeout : Duration
  pub rotation : Rotation

abbrev pub EscalationPolicy : Type 0
EscalationPolicy = List Level

-- The contact of the shift that the elapsed time lies in; none is an index out of range, a panic.
unfoldable pub on_shift : Contact → List Contact → Duration → ℕ → Option Contact
on_shift first contacts (negsuc n) shift = some first
on_shift first contacts (pos elapsed) shift =
    get_elem? contacts ((elapsed / shift) % length contacts)

-- OnCallAt
unfoldable pub on_call : List Contact → Time → Duration → Time → Option Contact
unfolding sub_time on_shift
on_call [] start shift t = some (record { name = ""; address = "" })
on_call (c ∷ []) start shift t = some c
on_call (c ∷ d ∷ cs) start shift t =
    if not (positive shift)
    then some c
    else on_shift c (c ∷ d ∷ cs) (sub_time t start) (pos_part shift)

unfoldable pub on_call_at : Rotation → Time → Option Contact
unfolding on_call
on_call_at r t = on_call r.contacts r.start r.shift t

-- What Validate reports, with the numbers of the level and the contact.
pub data PolicyError : Type 0 where
  no_levels : PolicyError
  target_required ack_timeout_not_positive no_contacts negative_shift : ℕ → PolicyError
  name_required : ℕ → ℕ → PolicyError

unfoldable pub contacts_error : ℕ → ℕ → List Contact → Option PolicyError
contacts_error n j [] = none
contacts_error n j (c ∷ cs) =
    let rest = contacts_error n (j + 1) cs in
    if is_blank c.name then some (name_required n j) else rest

abbrev pub is_negative : Duration → Bool
is_negative (pos n) = false
is_negative (negsuc n) = true

abbrev pub first_error : Option PolicyError → Option PolicyError → Option PolicyError
first_error none e = e
first_error (some x) e = some x

abbrev pub is_nil_contacts : List Contact → Bool
is_nil_contacts [] = true
is_nil_contacts (c ∷ cs) = false

unfoldable pub level_error : ℕ → Level → Option PolicyError
unfolding contacts_error
level_error n l =
    if is_blank l.target
    then some (target_required n)
    else if not (positive l.ack_timeout)
    then some (ack_timeout_not_positive n)
    else if is_nil_contacts l.rotation.contacts
    then some (no_contacts n)
    else first_error (contacts_error n 1 l.rotation.contacts)
        (if is_negative l.rotation.shift then some (negative_shift n) else none)

unfoldable pub levels_error : ℕ → List Level → Option PolicyError
unfolding level_error
levels_error n [] = none
levels_error n (l ∷ ls) = first_error (level_error n l) (levels_error (n + 1) ls)

-- Validate: none for a valid policy.
unfoldable pub policy_error : EscalationPolicy → Option PolicyError
unfolding levels_error
policy_error [] = some no_levels
policy_error (l ∷ ls) = levels_error 1 (l ∷ ls)
