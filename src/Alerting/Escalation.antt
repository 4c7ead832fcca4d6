-- ===== src/Alerting/Escalation.antt =====
-- Whom internal/alerting/workflow.go pages, in which order, and that it goes on until somebody answers.
use sentinel_flow_project.Base.{
  ℕ, suc, ◌+◌, String, ◌≡◌, refl, ap, Bool, true, false, Option, none, some, List, [], ◌∷◌, length,
  All,
}
use sentinel_flow_project.Base.Results.{Result, ok, err}
use sentinel_flow_project.Base.Time.{Time}
use sentinel_flow_project.Incident.{Status, status_open}
use sentinel_flow_project.Oncall.{Contact, Level, EscalationPolicy, on_call_at, policy_error}
use sentinel_flow_project.Oncall.Schedule.{Named, policy_error-Named}
use sentinel_flow_project.Alerting.{
  Signal, Flags, deliver, observe, owned, Reason, escalation, exhausted, Notification, IncidentRef,
  LevelWorld, Mark, checked, sent, returned, Trace, before, hear, send_then, exhausted_notice, page,
  finish, leave_or, waited, await_owner, page_contact, page_level, run_level, run_levels, alert,
}

-- The notifications sent, in order.
unfoldable pub notices : List Mark → List Notification
notices [] = []
notices (sent n ∷ ms) = n ∷ notices ms
notices (_ ∷ ms) = notices ms

-- Pages for the levels, numbered from n on, and a notice of exhaustion only after the last.
abbrev pub Escalates : List Notification → ℕ → List Level → Type 0
Escalates [] n ls = Unit
Escalates (x ∷ xs) n [] = (x.reason ≡ exhausted) × (xs ≡ [])
Escalates (x ∷ xs) n (l ∷ ls) =
    (x.reason ≡ escalation) × (x.level ≡ n) × (x.target ≡ l.target) × Escalates xs (n + 1) ls

abbrev Orderly : ℕ → List Level → Trace → Type 0
Orderly n ls x = Escalates (notices x.0) n ls

hear-Orderly :
    (n : ℕ) (ls : List Level) (xs : List Signal) (x : Trace)
    → Orderly n ls x
    → Orderly n ls (hear xs x)
unfolding hear notices
hear-Orderly n ls [] x h = h
hear-Orderly n ls (s ∷ xs) x h = hear-Orderly n ls xs x h

abbrev no_owner : Flags
no_owner = record { acked = false; resolved = false }

-- A level on which nobody answers and nothing fails.
pub record IsSilent (w : LevelWorld) : Type 0 where
  pub still_open : w.status ≡ ok status_open
  pub check_silent : w.check_signals ≡ []
  pub delivered : w.send_error ≡ none
  pub send_silent : w.send_signals ≡ []
  pub awaited : w.wait_canceled ≡ none
  pub wait_silent : w.wait_signals ≡ []

module _ (notification_id : String → ℕ → Reason → String) (inc : IncidentRef)
    (world : ℕ → LevelWorld) (last_error : Option String) (levels : ℕ) where
  stop-Orderly :
      (n : ℕ) (ls : List Level)
      → Orderly n ls (finish notification_id inc world last_error levels true)
  unfolding finish notices
  stop-Orderly n ls = tt

  exhausted-Orderly :
      (n : ℕ) (b : Bool) → Orderly n [] (finish notification_id inc world last_error levels b)
  unfolding finish
  exhausted-Orderly n true = unfold notices in tt
  exhausted-Orderly n false = notice last_error
    where
      notice :
          (o : Option String)
          → Orderly n [] (
              send_then o
                (exhausted_notice notification_id inc world last_error levels)
                ([], returned))
      notice none = unfold send_then notices exhausted_notice in (refl, refl)
      notice (some x) = unfold send_then notices in tt

  module _ (n : ℕ) (l : Level) (ls : List Level) (next : Flags → Trace)
      (going : (f : Flags) → Orderly (n + 1) ls (next f)) where
    leave_or-Orderly :
        (f : Flags) (b : Bool)
        → Orderly (n + 1) ls (leave_or notification_id inc world last_error levels f next b)
    unfolding leave_or
    leave_or-Orderly f true = stop-Orderly (n + 1) ls
    leave_or-Orderly f false = going f

    await_owner-Orderly :
        (canceled : Option String) (w : LevelWorld) (f : Flags)
        → Orderly
            (n + 1)
            ls
            (await_owner notification_id inc world last_error levels canceled w f next)
    unfolding await_owner
    await_owner-Orderly (some x) w f = unfold notices in tt
    await_owner-Orderly none w f =
        let xs = waited notification_id inc world last_error levels w f in
        hear-Orderly (n + 1) ls xs _ (leave_or-Orderly (deliver xs f) (owned (deliver xs f)))

    send_then-Orderly :
        (o : Option String) (c : Contact) (x : Trace)
        → Orderly (n + 1) ls x
        → Orderly n
            (l ∷ ls)
            (send_then o (page notification_id inc world last_error levels n l c) x)
    unfolding send_then notices page
    send_then-Orderly none c x h = (refl, refl, refl, h)
    send_then-Orderly (some e) c x h = tt

    page_contact-Orderly :
        (o : Option Contact) (w : LevelWorld) (f : Flags)
        → Orderly n
            (l ∷ ls)
            (page_contact notification_id inc world last_error levels o w n l f next)
    unfolding page_contact
    page_contact-Orderly none w f = unfold notices in tt
    page_contact-Orderly (some c) w f = send_then-Orderly w.send_error c _ (
        hear-Orderly (n + 1) ls w.send_signals _
          (await_owner-Orderly w.wait_canceled w (deliver w.send_signals f)))

    page_level-Orderly :
        (b : Bool) (w : LevelWorld) (f : Flags)
        → Orderly n (l ∷ ls) (page_level notification_id inc world last_error levels b w n l f next)
    unfolding page_level
    page_level-Orderly true w f = stop-Orderly n (l ∷ ls)
    page_level-Orderly false w f = page_contact-Orderly (on_call_at l.rotation w.now) w f

    run_level-Orderly :
        (answer : Result String Status) (w : LevelWorld) (f : Flags)
        → Orderly n
            (l ∷ ls)
            (run_level notification_id inc world last_error levels answer w n l f next)
    unfolding run_level
    run_level-Orderly (err x) w f = unfold notices in tt
    run_level-Orderly (ok st) w f =
        let f' = observe st (deliver w.check_signals f) in
        let rest =
          page_level notification_id inc world last_error levels (owned f') w n l f' next in
        hear-Orderly n (l ∷ ls) w.check_signals (before (checked st) rest)
          (unfold notices in page_level-Orderly (owned f') w f')

  run_levels-Orderly :
      (ls : List Level) (n : ℕ) (f : Flags)
      → Orderly n ls (run_levels notification_id inc world last_error levels ls n f)
  unfolding run_levels
  run_levels-Orderly [] n f = exhausted-Orderly n (owned f)
  run_levels-Orderly (l ∷ ls) n f =
      run_level-Orderly n l ls _ (run_levels-Orderly ls (n + 1)) (world n).status (world n) f

  silent_level :
      (w : LevelWorld) (n : ℕ) (l : Level) (next : Flags → Trace) (c : Contact)
      → IsSilent w
      → on_call_at l.rotation w.now ≡ some c
      → run_level notification_id inc world last_error levels w.status w n l no_owner next
        ≡ before
            (checked status_open)
            (before (sent (page notification_id inc world last_error levels n l c)) (next no_owner))
  unfolding run_level hear deliver observe page_level page_contact send_then await_owner waited
      leave_or
  silent_level w n l next c s call =
      rw (s.still_open, s.check_silent, call, s.delivered, s.send_silent, s.awaited, s.wait_silent)
        refl

  silent_levels :
      (ls : List Level) (n : ℕ)
      → ((k : ℕ) → IsSilent (world k))
      → ((t : Time) → All (λ (l : Level). Named (on_call_at l.rotation t)) ls)
      → last_error ≡ none
      → let x = run_levels notification_id inc world last_error levels ls n no_owner in
        (length (notices x.0) ≡ suc (length ls)) × (x.1 ≡ returned)
  unfolding run_levels notices
  silent_levels [] n silent named e = unfold finish send_then in rw e (refl, refl)
  silent_levels (l ∷ ls) n silent named e =
      let (c, call, name) = (named (world n).now).0 in
      let later = silent_levels ls (n + 1) silent (λ t. (named t).1) e in
      rw
        (silent_level (world n) n l
          (run_levels notification_id inc world last_error levels ls (n + 1)) c (silent n) call)
        (ap suc later.0, later.1)

-- Whatever the activities answer and whenever signals arrive, the notifications sent are pages for
-- the first levels of the policy, each at most once, in order and under its own number and target; a
-- notice of exhaustion comes only after a page for every level, and last.
pub alert-Escalates :
    (notification_id : String → ℕ → Reason → String) (inc : IncidentRef) (policy : EscalationPolicy)
    (world : ℕ → LevelWorld) (last_error : Option String)
    → Escalates (notices (alert notification_id inc policy world last_error).0) 1 policy
unfolding alert
alert-Escalates notification_id inc policy world last_error =
    run_levels-Orderly notification_id inc world last_error (length policy) policy 1 no_owner

-- Under a policy that Validate accepts, if nobody answers and nothing fails, the workflow returns
-- without an error after one notification more than the policy has levels.
pub alert_exhausts :
    (notification_id : String → ℕ → Reason → String) (inc : IncidentRef) (policy : EscalationPolicy)
    (world : ℕ → LevelWorld)
    → policy_error policy ≡ none
    → ((k : ℕ) → IsSilent (world k))
    → let x = alert notification_id inc policy world none in
      (length (notices x.0) ≡ suc (length policy)) × (x.1 ≡ returned)
unfolding alert
alert_exhausts notification_id inc policy world valid silent =
    silent_levels notification_id inc world none (length policy) policy 1 silent
      (λ t. policy_error-Named policy t valid) refl
