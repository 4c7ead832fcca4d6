-- ===== src/Alerting/Quiet.antt =====
-- When internal/alerting/workflow.go stays quiet.
use sentinel_flow_project.Base.{
  ℕ, ◌+◌, String, ◌≡◌, refl, sym, subst, Bool, true, false, not, ◌&&◌, ◌||◌, Option, none, some,
  List, [], ◌∷◌, length, arith,
}
use sentinel_flow_project.Base.Results.{Result, ok, err}
use sentinel_flow_project.Incident.{Status, status_acknowledged, status_resolved}
use sentinel_flow_project.Oncall.{Contact, Level, EscalationPolicy, on_call_at}
use sentinel_flow_project.Alerting.{
  Signal, acknowledge, resolve, Flags, deliver, observe, owned, Reason, Notification, IncidentRef,
  LevelWorld, Mark, heard, checked, sent, unsent, Trace, before, hear, send_then, finish, leave_or,
  waited, await_owner, page_contact, page_level, run_level, run_levels, alert,
}

-- A status that says that somebody owns the incident.
abbrev pub takes_over : Status → Bool
takes_over status_acknowledged = true
takes_over status_resolved = true
takes_over _ = false

-- No notification, sent or tried, once the incident is known to be owned.
unfoldable pub quiet : Bool → List Mark → Bool
quiet known [] = true
quiet known (heard s ∷ ms) = quiet true ms
quiet known (checked st ∷ ms) = quiet (known || takes_over st) ms
quiet known (sent n ∷ ms) = not known && quiet known ms
quiet known (unsent n ∷ ms) = not known && quiet known ms

abbrev Continues : (Flags → Trace) → Type 0
Continues next = (f : Flags) → quiet (owned f) (next f).0 ≡ true

hear-quiet :
    (xs : List Signal) (f : Flags) (x : Trace)
    → quiet (owned (deliver xs f)) x.0 ≡ true
    → quiet (owned f) (hear xs x).0 ≡ true
unfolding hear deliver quiet
hear-quiet [] f x h = h
hear-quiet (acknowledge ∷ xs) f x h = hear-quiet xs (record f { acked = true }) x h
hear-quiet (resolve ∷ xs) f x h =
    let later = hear-quiet xs (record f { resolved = true }) x h in
    let same : owned (record f { resolved = true }) ≡ true = ground arith in
    subst (λ (b : Bool). quiet b (hear xs x).0 ≡ true) same later

send_then-quiet :
    (o : Option String) (n : Notification) (x : Trace)
    → quiet false x.0 ≡ true
    → quiet false (send_then o n x).0 ≡ true
unfolding send_then quiet
send_then-quiet none n x h = h
send_then-quiet (some e) n x h = refl

owned-observe : (st : Status) (f : Flags) → (owned f || takes_over st) ≡ owned (observe st f)
unfolding observe
owned-observe st f = ground arith

module _ (notification_id : String → ℕ → Reason → String) (inc : IncidentRef)
    (world : ℕ → LevelWorld) (last_error : Option String) (levels : ℕ) where
  finish-quiet :
      (b : Bool) → quiet b (finish notification_id inc world last_error levels b).0 ≡ true
  unfolding finish
  finish-quiet true = unfold quiet in refl
  finish-quiet false = send_then-quiet last_error _ _ (unfold quiet in refl)

  module _ (next : Flags → Trace) (going : Continues next) where
    leave_or-quiet :
        (f : Flags) (b : Bool)
        → owned f ≡ b
        → quiet b (leave_or notification_id inc world last_error levels f next b).0 ≡ true
    unfolding leave_or
    leave_or-quiet f true e = finish-quiet true
    leave_or-quiet f false e = subst (λ (b : Bool). quiet b (next f).0 ≡ true) e (going f)

    await_owner-quiet :
        (canceled : Option String) (w : LevelWorld) (f : Flags)
        → quiet
            (owned f)
            (await_owner notification_id inc world last_error levels canceled w f next).0
          ≡ true
    unfolding await_owner
    await_owner-quiet (some x) w f = unfold quiet in refl
    await_owner-quiet none w f =
        let xs = waited notification_id inc world last_error levels w f in
        hear-quiet xs f _ (leave_or-quiet (deliver xs f) (owned (deliver xs f)) refl)

    page_contact-quiet :
        (o : Option Contact) (w : LevelWorld) (n : ℕ) (l : Level) (f : Flags)
        → owned f ≡ false
        → quiet false (page_contact notification_id inc world last_error levels o w n l f next).0
          ≡ true
    unfolding page_contact
    page_contact-quiet none w n l f e = unfold quiet in refl
    page_contact-quiet (some c) w n l f e = send_then-quiet w.send_error _ _ (
        rw (← e) (
          hear-quiet w.send_signals f _
            (await_owner-quiet w.wait_canceled w (deliver w.send_signals f))))

    page_level-quiet :
        (b : Bool) (w : LevelWorld) (n : ℕ) (l : Level) (f : Flags)
        → owned f ≡ b
        → quiet b (page_level notification_id inc world last_error levels b w n l f next).0 ≡ true
    unfolding page_level
    page_level-quiet true w n l f e = finish-quiet true
    page_level-quiet false w n l f e = page_contact-quiet (on_call_at l.rotation w.now) w n l f e

    run_level-quiet :
        (answer : Result String Status) (w : LevelWorld) (n : ℕ) (l : Level) (f : Flags)
        → quiet
            (owned f)
            (run_level notification_id inc world last_error levels answer w n l f next).0
          ≡ true
    unfolding run_level
    run_level-quiet (err x) w n l f = unfold quiet in refl
    run_level-quiet (ok st) w n l f =
        let f₁ = deliver w.check_signals f in
        let f' = observe st f₁ in
        let paged = page_level-quiet (owned f') w n l f' refl in
        let rest =
          page_level notification_id inc world last_error levels (owned f') w n l f' next in
        hear-quiet w.check_signals f (before (checked st) rest) (
          unfold quiet in
          subst (λ (b : Bool). quiet b rest.0 ≡ true) (sym (owned-observe st f₁)) paged)

  run_levels-quiet :
      (ls : List Level) (n : ℕ)
      → Continues (run_levels notification_id inc world last_error levels ls n)
  unfolding run_levels
  run_levels-quiet [] n f = finish-quiet (owned f)
  run_levels-quiet (l ∷ ls) n f =
      run_level-quiet _ (run_levels-quiet ls (n + 1)) (world n).status (world n) n l f

-- Whatever the activities answer and whenever signals arrive, the workflow sends and tries no page and
-- no notice of exhaustion once it has heard a signal or has read a status that says that the incident
-- is acknowledged or resolved.
pub alert-quiet :
    (notification_id : String → ℕ → Reason → String) (inc : IncidentRef) (policy : EscalationPolicy)
    (world : ℕ → LevelWorld) (last_error : Option String)
    → quiet false (alert notification_id inc policy world last_error).0 ≡ true
unfolding alert
alert-quiet notification_id inc policy world last_error =
    run_levels-quiet notification_id inc world last_error (length policy) policy 1
      (record { acked = false; resolved = false })
