-- ===== src/Engine/Runner.antt =====
-- internal/engine/runner.go: the consume loop. Offsets advance only past durable records.
pub mod Commits
use sentinel_flow_project.Base.{
  ℕ, ◌+◌, String, Bool, true, false, Option, none, some, List, [], ◌∷◌, ◌++◌,
}
use sentinel_flow_project.Base.Time.{Time}
use sentinel_flow_project.Store.Events.{DriverError, canceled, EventTable}
use sentinel_flow_project.Engine.{
  InsertError, permanent, interrupted, exhausted, Surroundings, Message, Processor, process,
}

-- One record of the topic, with the clock and the database at the time that it is processed.
pub record Delivery : Type 0 where
  pub message : Message
  pub now : Time
  pub surroundings : Surroundings

pub data CommitError : Type 0 where
  commit_canceled : CommitError
  commit_failed : String → CommitError

-- What one round of the loop meets: the client is closed, or Poll returned records, of which a
-- commit would have the answer given.
pub data Poll : Type 0 where
  closed : Poll
  polled : List Delivery → Option CommitError → Poll

-- How Run returns: nil, or an error.
pub data RunResult : Type 0 where
  stopped : RunResult
  process_error : InsertError → RunResult
  commit_error : CommitError → RunResult

pub record Consumer : Type 0 where
  pub table : EventTable
  pub committed : List Delivery
  -- Polls that returned, and calls of AllowRebalance.
  pub polls : ℕ
  pub allowed : ℕ

-- errors.Is(err, context.Canceled)
abbrev pub cause : InsertError → DriverError
cause (permanent x) = x
cause (interrupted x) = x
cause (exhausted x) = x

unfoldable pub process_failure : InsertError → RunResult
process_failure e = elim (cause e) [ canceled ↦ stopped | _ ↦ process_error e ]

unfoldable pub commit_failure : CommitError → RunResult
commit_failure commit_canceled = stopped
commit_failure (commit_failed s) = commit_error (commit_failed s)

-- processBatch: the records in order, up to the first that must not be committed.
unfoldable pub after_record :
    (EventTable → EventTable × Option InsertError)
    → EventTable
    → Option InsertError
    → EventTable × Option InsertError
after_record rest t none = rest t
after_record rest t (some e) = (t, some e)

unfoldable pub process_batch :
    Processor → List Delivery → EventTable → EventTable × Option InsertError
unfolding process after_record
process_batch p [] t = (t, none)
process_batch p (d ∷ ds) t =
    let x = process p d.surroundings d.now d.message t in after_record (process_batch p ds) x.0 x.2

-- One round after its records were processed: the commit, and AllowRebalance on every way out.
unfoldable pub finish_round :
    List Delivery
    → Option CommitError
    → Consumer
    → EventTable × Option InsertError
    → Consumer × Option RunResult
unfolding process_failure commit_failure
finish_round ds commit c (t, some e) =
    (record c { table = t; allowed = c.allowed + 1 }, some (process_failure e))
finish_round ds (some x) c (t, none) =
    (record c { table = t; allowed = c.allowed + 1 }, some (commit_failure x))
finish_round ds none c (t, none) =
    (record c { table = t; committed = c.committed ++ ds; allowed = c.allowed + 1 }, none)

-- One round of Run. Without records it only releases the rebalance block.
unfoldable pub round : Processor → Poll → Consumer → Consumer × Option RunResult
unfolding process_batch finish_round
round p closed c = (c, some stopped)
round p (polled [] commit) c = (record c { polls = c.polls + 1; allowed = c.allowed + 1 }, none)
round p (polled (d ∷ ds) commit) c =
    finish_round (d ∷ ds) commit (record c { polls = c.polls + 1 })
      (process_batch p (d ∷ ds) c.table)

-- Run, over the rounds until its context is cancelled; it ends at the first result.
unfoldable pub continue :
    (Consumer → Consumer × RunResult) → Consumer × Option RunResult → Consumer × RunResult
continue rest (c, some r) = (c, r)
continue rest (c, none) = rest c

unfoldable pub run : Processor → List Poll → Consumer → Consumer × RunResult
unfolding round continue
run p [] c = (c, stopped)
run p (poll ∷ polls) c = continue (run p polls) (round p poll c)
