-- ===== src/Oncall/Schedule.antt =====
-- Who is on call under a policy that internal/oncall/oncall.go accepts.
use native.Mathlib.Nat.{mul-add-div, div-eq_of_lt}
use sentinel_flow_project.Base.{
  ap, ◌∙◌, ltb, ℕ, zero, suc, ◌+◌, ◌*◌, ◌/◌, ◌%◌, ◌≤◌, ◌<◌, ◌≡◌, refl, true, false, Option, none,
  some, List, [], ◌∷◌, length, get_elem?, arith, All, Bool-cases, inl, inr,
}
use sentinel_flow_project.Base.Int.{pos, negsuc, pos_part, positive}
use sentinel_flow_project.Base.Text.{is_blank}
use sentinel_flow_project.Base.Time.{Time, Duration, sub_time, max_duration}
use sentinel_flow_project.Oncall.{
  Contact, Rotation, Level, EscalationPolicy, PolicyError, on_shift, on_call, on_call_at,
  contacts_error, first_error, is_nil_contacts, level_error, levels_error, policy_error,
}

-- Somebody is on call, and has a name.
abbrev pub Named : Option Contact → Type 0
Named o = (c : Contact) × (o ≡ some c) × (is_blank c.name ≡ false)

contacts_error-All :
    (n j : ℕ) (cs : List Contact)
    → contacts_error n j cs ≡ none
    → All (λ (c : Contact). is_blank c.name ≡ false) cs
unfolding contacts_error
contacts_error-All n j [] h = tt
contacts_error-All n j (c ∷ cs) h = elim (Bool-cases (is_blank c.name)) [
  | inl b ↦ ground arith
  | inr b ↦ (b, contacts_error-All n (j + 1) cs (ground arith))
]

get_elem?-Named :
    (cs : List Contact) (i : ℕ)
    → All (λ (c : Contact). is_blank c.name ≡ false) cs
    → i < length cs
    → Named (get_elem? cs i)
get_elem?-Named [] i h lt = ground arith
get_elem?-Named (c ∷ cs) zero h lt = (c, refl, h.0)
get_elem?-Named (c ∷ cs) (suc i) h lt = get_elem?-Named cs i h.1 (omega arith)

on_shift-Named :
    (c : Contact) (cs : List Contact) (elapsed : Duration) (shift : ℕ)
    → All (λ (c : Contact). is_blank c.name ≡ false) (c ∷ cs)
    → Named (on_shift c (c ∷ cs) elapsed shift)
unfolding on_shift
on_shift-Named c cs (negsuc n) shift h = (c, refl, h.0)
on_shift-Named c cs (pos e) shift h =
    get_elem?-Named (c ∷ cs) ((e / shift) % length (c ∷ cs)) h (omega arith)

on_call-Named :
    (cs : List Contact) (start : Time) (shift : Duration) (t : Time)
    → is_nil_contacts cs ≡ false
    → All (λ (c : Contact). is_blank c.name ≡ false) cs
    → Named (on_call cs start shift t)
unfolding on_call
on_call-Named [] start shift t some_one h = cc
on_call-Named (c ∷ []) start shift t some_one h = (c, refl, h.0)
on_call-Named (c ∷ d ∷ cs) start shift t some_one h = elim (Bool-cases (positive shift)) [
  | inl p ↦ rw p (on_shift-Named c (d ∷ cs) (sub_time t start) (pos_part shift) h)
  | inr p ↦ rw p (c, refl, h.0)
]

first_error-none : (a b : Option PolicyError) → first_error a b ≡ none → (a ≡ none) × (b ≡ none)
first_error-none none b h = (refl, h)
first_error-none (some x) b h = cc

level_error-Named :
    (n : ℕ) (l : Level) (t : Time) → level_error n l ≡ none → Named (on_call_at l.rotation t)
unfolding level_error on_call_at
level_error-Named n l t h =
    let cs = l.rotation.contacts in
    let (some_one, contacts) : (is_nil_contacts cs ≡ false) × (contacts_error n 1 cs ≡ none) =
      ground (arith, first_error-none (contacts_error n 1 cs)) in
    on_call-Named cs l.rotation.start l.rotation.shift t some_one
      (contacts_error-All n 1 cs contacts)

levels_error-Named :
    (n : ℕ) (ls : List Level) (t : Time)
    → levels_error n ls ≡ none
    → All (λ (l : Level). Named (on_call_at l.rotation t)) ls
unfolding levels_error
levels_error-Named n [] t h = tt
levels_error-Named n (l ∷ ls) t h =
    let parts = first_error-none _ _ h in
    (level_error-Named n l t parts.0, levels_error-Named (n + 1) ls t parts.1)

-- Under a policy that Validate accepts, at every moment and on every level, OnCallAt answers a contact
-- whose name is not blank, and never indexes out of range.
pub policy_error-Named :
    (p : EscalationPolicy) (t : Time)
    → policy_error p ≡ none
    → All (λ (l : Level). Named (on_call_at l.rotation t)) p
unfolding policy_error
policy_error-Named [] t h = cc
policy_error-Named (l ∷ ls) t h = levels_error-Named 1 (l ∷ ls) t h

elapsed_lem : (start e : ℕ) → e ≤ max_duration → sub_time (start + e) start ≡ pos e
unfolding sub_time
elapsed_lem start e h = ground arith

turns :
    (cs : List Contact) (start : Time) (shift k into : ℕ)
    → 2 ≤ length cs
    → into < shift
    → shift * k + into ≤ max_duration
    → on_call cs start (pos shift) (start + (shift * k + into)) ≡ get_elem? cs (k % length cs)
unfolding on_call
turns [] start shift k into two inside range = ground arith
turns (c ∷ []) start shift k into two inside range = ground arith
turns (c ∷ d ∷ cs) start shift k into two inside range =
    let some_shift : ltb 0 shift ≡ true = ground arith in
    let whole : (shift * k + into) / shift ≡ k =
      mul-add-div {m = shift} (omega arith) k into ∙ omega (arith, div-eq_of_lt inside) in
    rw (some_shift, elapsed_lem start (shift * k + into) range)
      (unfold on_shift in ap (λ i. get_elem? (c ∷ d ∷ cs) (i % length (c ∷ d ∷ cs))) whole)

-- A rotation of two or more contacts with a positive shift, at a time in its k-th full shift since
-- the start and within the largest duration of it: the contacts take turns, so contact number k
-- modulo their count is on call.
pub on_call_at-turns :
    (r : Rotation) (shift k into : ℕ)
    → 2 ≤ length r.contacts
    → r.shift ≡ pos shift
    → into < shift
    → shift * k + into ≤ max_duration
    → on_call_at r (r.start + (shift * k + into)) ≡ get_elem? r.contacts (k % length r.contacts)
unfolding on_call_at
on_call_at-turns r shift k into two s inside range =
    rw s (turns r.contacts r.start shift k into two inside range)
