-- ===== src/Engine/Runner/Commits.antt =====
-- What internal/engine/runner.go has committed is settled.
use sentinel_flow_project.Base.{
  ℕ, ◌+◌, zero, suc, ◌-◌, ◌≡◌, ◌≢◌, refl, true, false, ◌⊎◌, inl, inr, Option, none, some, List, [],
  ◌∷◌, arith, All, All-append, Option-cases,
}
use sentinel_flow_project.Event.{Event}
use sentinel_flow_project.Base.Results.{err}
use sentinel_flow_project.Base.Time.{Time}
use sentinel_flow_project.Store.Events.{
  DriverError, canceled, EventTable, refused, is_retryable, insert,
}
use sentinel_flow_project.Engine.{
  failed, InsertError, permanent, RetryPolicy, Surroundings, resume, settle, insert_loop,
  insert_with_retry, Processor, received_time, accepted_event, process_event, process,
}
use sentinel_flow_project.Engine.Durable.{
  holds, Extends, Extends-refl, Extends-trans, Extends-holds, Processed-Extends, process-Processed,
}
use sentinel_flow_project.Engine.Runner.{
  Delivery, CommitError, Poll, closed, polled, RunResult, process_error, Consumer, process_failure,
  after_record, process_batch, finish_round, round, continue, run,
}

-- A record that may be committed: its event was not accepted when it was processed, or its key is in
-- the table.
abbrev pub Settled : Processor → EventTable → Delivery → Type 0
Settled p t d =
    (accepted_event p d.now d.message ≡ none)
    ⊎ ((e : Event) × (accepted_event p d.now d.message ≡ some e) × (holds e t ≡ true))

Settled-Extends :
    (p : Processor) (t u : EventTable) (d : Delivery) → Extends t u → Settled p t d → Settled p u d
Settled-Extends p t u d ext (inl never) = inl never
Settled-Extends p t u d ext (inr (e, a, h)) = inr (e, a, Extends-holds e t u ext h)

All-Settled-Extends :
    (p : Processor) (t u : EventTable) (ds : List Delivery)
    → Extends t u
    → All (Settled p t) ds
    → All (Settled p u) ds
All-Settled-Extends p t u [] ext h = tt
All-Settled-Extends p t u (d ∷ ds) ext h =
    (Settled-Extends p t u d ext h.0, All-Settled-Extends p t u ds ext h.1)

process-Settled :
    (p : Processor) (d : Delivery) (t : EventTable)
    → (process p d.surroundings d.now d.message t).2 ≡ none
    → Settled p (process p d.surroundings d.now d.message t).0 d
process-Settled p d t h =
    let done = process-Processed p d.surroundings d.now d.message t in
    elim (Option-cases (accepted_event p d.now d.message)) [
      | inl never ↦ inl never
      | inr (e, a) ↦ inr (e, a, done.durable e a h)
    ]

-- A batch keeps the table, and settles all its records if it ends without an error.
pub record Batched (p : Processor) (ds : List Delivery) (t : EventTable)
    (x : EventTable × Option InsertError) : Type 0 where
  pub extends : Extends t x.0
  pub settles : x.1 ≡ none → All (Settled p x.0) ds

process_batch-Batched :
    (p : Processor) (ds : List Delivery) (t : EventTable) → Batched p ds t (process_batch p ds t)
unfolding process_batch
process_batch-Batched p [] t = record { extends = Extends-refl t; settles = λ h. tt }
process_batch-Batched p (d ∷ ds) t =
    let x = process p d.surroundings d.now d.message t in
    after x.2 (process-Settled p d t)
      (Processed-Extends (accepted_event p d.now d.message) (received_time d.now d.message) t x
        (process-Processed p d.surroundings d.now d.message t))
      (process_batch-Batched p ds x.0)
  where
    after :
        {u : EventTable} (o : Option InsertError)
        → (o ≡ none → Settled p u d)
        → Extends t u
        → Batched p ds u (process_batch p ds u)
        → Batched p (d ∷ ds) t (after_record (process_batch p ds) u o)
    after {u} none settled ext later =
        unfold after_record in
        record {
          extends = Extends-trans t u _ ext later.extends;
          settles = λ h. (Settled-Extends p u _ d later.extends (settled refl), later.settles h);
        }
    after {u} (some e) settled ext later =
        unfold after_record in record { extends = ext; settles = λ h. cc }

insert_permanent :
    (p : RetryPolicy) (w : Surroundings) (e : Event) (at : Time) (left : ℕ) (t : EventTable)
    (x : DriverError)
    → w.attempt 1 ≡ refused x
    → is_retryable x ≡ false
    → insert_loop p w e at left 1 t ≡ (t, err (permanent x))
unfolding insert_loop settle insert resume
insert_permanent p w e at zero t x down hopeless = rw (down, hopeless)
insert_permanent p w e at (suc left) t x down hopeless = rw (down, hopeless)

process_permanent :
    (p : Processor) (d : Delivery) (t : EventTable) (e : Event) (x : DriverError)
    → accepted_event p d.now d.message ≡ some e
    → d.surroundings.attempt 1 ≡ refused x
    → is_retryable x ≡ false
    → process p d.surroundings d.now d.message t ≡ (t, failed, some (permanent x))
unfolding process process_event insert_with_retry
process_permanent p d t e x accepted down hopeless = rw accepted (
    rw (
      insert_permanent p.retry d.surroundings e (received_time d.now d.message)
        (p.retry.max_attempts - 1) t x down hopeless))

process_failure_lem :
    (x : DriverError) → x ≢ canceled → process_failure (permanent x) ≡ process_error (permanent x)
unfolding process_failure
process_failure_lem x h = ground arith

-- Every committed record is settled, and every poll has released its rebalance block.
pub record IsConsistent (p : Processor) (c : Consumer) : Type 0 where
  pub settled : All (Settled p c.table) c.committed
  pub released : c.allowed ≡ c.polls

finish_round-IsConsistent :
    (p : Processor) (ds : List Delivery) (commit : Option CommitError) (c : Consumer)
    (x : EventTable × Option InsertError)
    → Batched p ds c.table x
    → All (Settled p c.table) c.committed
    → c.allowed + 1 ≡ c.polls
    → IsConsistent p (finish_round ds commit c x).0
unfolding finish_round
finish_round-IsConsistent p ds commit c (t, some e) b s r = record {
  settled = All-Settled-Extends p c.table t c.committed b.extends s;
  released = r;
}
finish_round-IsConsistent p ds (some y) c (t, none) b s r = record {
  settled = All-Settled-Extends p c.table t c.committed b.extends s;
  released = r;
}
finish_round-IsConsistent p ds none c (t, none) b s r = record {
  settled =
      All-append (Settled p t) c.committed ds
        (All-Settled-Extends p c.table t c.committed b.extends s) (b.settles refl);
  released = r;
}

round-IsConsistent :
    (p : Processor) (poll : Poll) (c : Consumer)
    → IsConsistent p c
    → IsConsistent p (round p poll c).0
unfolding round
round-IsConsistent p closed c h = h
round-IsConsistent p (polled [] commit) c h = record {
  settled = h.settled;
  released = omega (arith, h.released);
}
round-IsConsistent p (polled (d ∷ ds) commit) c h =
    finish_round-IsConsistent p (d ∷ ds) commit (record c { polls = c.polls + 1 })
      (process_batch p (d ∷ ds) c.table) (process_batch-Batched p (d ∷ ds) c.table) h.settled
      (omega (arith, h.released))

-- From a consumer whose committed records are settled and whose polls are all released, the loop
-- ends in such a consumer, over every sequence of polls, database failures and commit failures: an
-- offset is committed only past records whose event's key is stored or whose event was not accepted
-- at the time it was processed, and AllowRebalance is called exactly once for each poll.
pub run-IsConsistent :
    (p : Processor) (polls : List Poll) (c : Consumer)
    → IsConsistent p c
    → IsConsistent p (run p polls c).0
unfolding run
run-IsConsistent p [] c h = h
run-IsConsistent p (poll ∷ polls) c h =
    after (round p poll c) (round-IsConsistent p poll c h) (run-IsConsistent p polls)
  where
    after :
        (x : Consumer × Option RunResult)
        → IsConsistent p x.0
        → ((c : Consumer) → IsConsistent p c → IsConsistent p (run p polls c).0)
        → IsConsistent p (continue (run p polls) x).0
    after (c', some r) k later = unfold continue in k
    after (c', none) k later = unfold continue in later c' k

-- A record whose event is accepted and whose first insert is refused by an error that is not
-- retryable and no cancellation is never committed: Run returns an error at it, with the committed
-- records and the table as they were.
pub permanent_failure_stops :
    (p : Processor) (d : Delivery) (ds : List Delivery) (commit : Option CommitError)
    (polls : List Poll) (c : Consumer) (e : Event) (x : DriverError)
    → accepted_event p d.now d.message ≡ some e
    → d.surroundings.attempt 1 ≡ refused x
    → is_retryable x ≡ false
    → x ≢ canceled
    → let (c', result) = run p (polled (d ∷ ds) commit ∷ polls) c in
      (result ≡ process_error (permanent x)) × (c'.committed ≡ c.committed) × (c'.table ≡ c.table)
unfolding run
permanent_failure_stops p d ds commit polls c e x accepted down hopeless alive =
    rw (process_permanent p d c.table e x accepted down hopeless)
      (process_failure_lem x alive, refl, refl)
