-- ===== src/Engine/Recovery.antt =====
-- The retries of internal/engine/processor.go reach the database, and deliver once.
use sentinel_flow_project.Base.{
  ℕ, zero, suc, ◌+◌, ◌-◌, ◌≡◌, ◌≢◌, refl, sym, ap, subst, ◌∙◌, Bool, true, false, ◌⊎◌, inl, inr,
  Option, none, some, arith,
}
use sentinel_flow_project.Base.Results.{Result, ok, err}
use sentinel_flow_project.Base.Time.{Time}
use sentinel_flow_project.Event.{Event}
use sentinel_flow_project.Store.Events.{
  DriverError, EventTable, insert_statement, Attempt, answered, lost, refused, is_retryable, insert,
}
use sentinel_flow_project.Engine.{
  stored, RetryPolicy, InsertError, Surroundings, resume, settle, insert_loop, insert_with_retry,
  Message, Processor, insert_outcome, accepted_event, received_time, process_event, process, delay,
}
use sentinel_flow_project.Engine.Durable.{holds, insert_loop-Sound, process-Processed}

-- From attempt k with `left` attempts after it, the database answers some attempt, every error
-- before is retryable, and no sleep before is interrupted.
pub data Recovers (p : RetryPolicy) (w : Surroundings) : ℕ → ℕ → Type 0 where
  answers : {left k : ℕ} → w.attempt k ≡ answered → Recovers p w left k
  fails :
      {left k : ℕ} (x : DriverError)
      → (w.attempt k ≡ lost x) ⊎ (w.attempt k ≡ refused x)
      → is_retryable x ≡ true
      → w.sleep k (delay p k) ≡ none
      → Recovers p w left (k + 1)
      → Recovers p w (suc left) k

-- An insert that was answered, and the answer `true` only for an event that was not there.
abbrev Answered : Event → EventTable → EventTable × Result InsertError Bool → Type 0
Answered e t x = (b : Bool) × (x.1 ≡ ok b)

module _ (p : RetryPolicy) (w : Surroundings) (e : Event) (at : Time) where
  settle-ok :
      (rest : Option (EventTable → EventTable × Result InsertError Bool)) (k : ℕ) (u : EventTable)
      (b : Bool)
      → (settle p w rest k (u, ok b)).1 ≡ ok b
  unfolding settle
  settle-ok none k u b = refl
  settle-ok (some again) k u b = refl

  answered-ok :
      (rest : Option (EventTable → EventTable × Result InsertError Bool)) (k : ℕ) (t : EventTable)
      → w.attempt k ≡ answered
      → Answered e t (settle p w rest k (insert (w.attempt k) e at t))
  unfolding insert
  answered-ok rest k t h =
      let new = (insert_statement e at t).1 in
      (new, rw h (settle-ok rest k (insert_statement e at t).0 new))

  failed-goes_on :
      (again : EventTable → EventTable × Result InsertError Bool) (k : ℕ) (u : EventTable)
      (x : DriverError)
      → is_retryable x ≡ true
      → w.sleep k (delay p k) ≡ none
      → settle p w (some again) k (u, err x) ≡ again u
  unfolding settle resume
  failed-goes_on again k u x h s = rw (h, s)

  Recovers-Answered :
      (left k : ℕ) (t : EventTable)
      → Recovers p w left k
      → Answered e t (insert_loop p w e at left k t)
  unfolding insert_loop
  Recovers-Answered zero k t (answers h) = answered-ok none k t h
  Recovers-Answered (suc left) k t (answers h) =
      answered-ok (some (insert_loop p w e at left (k + 1))) k t h
  Recovers-Answered (suc left) k t (fails x (inl h) r s later) =
      let (b, q) = Recovers-Answered left (k + 1) (insert_statement e at t).0 later in
      (
        b,
        rw h (
            unfold insert in
            rw
              (failed-goes_on (insert_loop p w e at left (k + 1)) k (insert_statement e at t).0 x r
                s)
              q),
      )
  Recovers-Answered (suc left) k t (fails x (inr h) r s later) =
      let (b, q) = Recovers-Answered left (k + 1) t later in
      (
        b,
        rw h (unfold insert in rw (failed-goes_on (insert_loop p w e at left (k + 1)) k t x r s) q),
      )

  unchanged-settle :
      (again : EventTable → EventTable × Result InsertError Bool) (k : ℕ)
      (x : EventTable × Result DriverError Bool)
      → ((again x.0).0 ≡ x.0)
      → (settle p w (some again) k x).0 ≡ x.0
  unfolding settle
  unchanged-settle again k (u, ok b) h = refl
  unchanged-settle again k (u, err x) h = resumed (is_retryable x) (w.sleep k (delay p k))
    where
      resumed : (b : Bool) (slept : Option DriverError) → (resume b slept again x u).0 ≡ u
      resumed false slept = unfold resume in refl
      resumed true (some y) = unfold resume in refl
      resumed true none = unfold resume in h

  unchanged-settle_last :
      (k : ℕ) (x : EventTable × Result DriverError Bool) → (settle p w none k x).0 ≡ x.0
  unfolding settle
  unchanged-settle_last k (u, ok b) = refl
  unchanged-settle_last k (u, err x) = refl

  held-insert : (a : Attempt) (t : EventTable) → holds e t ≡ true → (insert a e at t).0 ≡ t
  unfolding insert insert_statement
  held-insert answered t h = rw h
  held-insert (lost x) t h = rw h
  held-insert (refused x) t h = refl

  held-insert_loop :
      (left k : ℕ) (t : EventTable) → holds e t ≡ true → (insert_loop p w e at left k t).0 ≡ t
  unfolding insert_loop
  held-insert_loop zero k t h =
      unchanged-settle_last k (insert (w.attempt k) e at t) ∙ held-insert (w.attempt k) t h
  held-insert_loop (suc left) k t h =
      let same = held-insert (w.attempt k) t h in
      let later = held-insert_loop left (k + 1) t h in
      unchanged-settle (insert_loop p w e at left (k + 1)) k (insert (w.attempt k) e at t)
        (subst (λ (u : EventTable). (insert_loop p w e at left (k + 1) u).0 ≡ u) (sym same) later)
      ∙ same

insert_outcome-none : (b : Bool) → (insert_outcome (ok b)).1 ≡ none
insert_outcome-none true = refl
insert_outcome-none false = refl

-- A message whose event is accepted is stored without an error if, within the attempts of the retry
-- policy, the database answers one, every error before is retryable and no sleep is interrupted.
pub process-Recovers :
    (p : Processor) (w : Surroundings) (now : Time) (m : Message) (t : EventTable) (e : Event)
    → accepted_event p now m ≡ some e
    → Recovers p.retry w (p.retry.max_attempts - 1) 1
    → ((process p w now m t).2 ≡ none) × (holds e (process p w now m t).0 ≡ true)
unfolding process process_event insert_with_retry
process-Recovers p w now m t e accepted r =
    let at = received_time now m in
    let left = p.retry.max_attempts - 1 in
    let (b, q) = Recovers-Answered p.retry w e at left 1 t r in
    rw accepted (
      ap (λ (x : Result InsertError Bool). (insert_outcome x).1) q ∙ insert_outcome-none b,
      (insert_loop-Sound p.retry w e at left 1 t).durable b q,
    )

-- Kafka delivers at least once: a message whose event is in the table already changes nothing,
-- whatever the database does, and its outcome is not "stored".
pub process_redelivered :
    (p : Processor) (w : Surroundings) (now : Time) (m : Message) (t : EventTable) (e : Event)
    → accepted_event p now m ≡ some e
    → holds e t ≡ true
    → ((process p w now m t).0 ≡ t) × ((process p w now m t).1 ≢ stored)
unfolding process process_event insert_with_retry
process_redelivered p w now m t e accepted held =
    let at = received_time now m in
    let left = p.retry.max_attempts - 1 in
    let processed = process-Processed p w now m t in
    (
      rw accepted (held-insert_loop p.retry w e at left 1 t held),
      λ h. ground (arith, (processed.fresh e accepted h).0),
    )
