-- ===== src/Engine/Durable.antt =====
-- What the processor of internal/engine leaves in the telemetry_events table.
use mathlib.Core.List.{append-nil, append_assoc}
use sentinel_flow_project.Base.{
  subst, sym, ap, ◌∙◌, ◌⊎◌, ℕ, zero, suc, ◌+◌, ◌-◌, ◌≡◌, ◌≢◌, refl, Bool, true, false, ◌||◌, inl,
  inr, Option, none, some, [], ◌∷◌, ◌++◌, arith, str_eq_refl, Bool-cases,
}
use sentinel_flow_project.Base.Results.{Result, ok, err}
use sentinel_flow_project.Base.Time.{Time}
use sentinel_flow_project.Event.{Event}
use sentinel_flow_project.Store.Events.{
  DriverError, EventRow, EventTable, same_key, insert_statement, Attempt, answered, lost, refused,
  is_retryable, insert,
}
use sentinel_flow_project.Store.Events as Events
use sentinel_flow_project.Engine.{
  Outcome, stored, invalid, failed, RetryPolicy, InsertError, permanent, interrupted, Surroundings,
  resume, settle, insert_loop, insert_with_retry, Message, Processor, insert_outcome,
  accepted_event, received_time, process_event, process, delay,
}

abbrev pub holds : Event → EventTable → Bool
holds = Events.stored

same_key_refl : (e : Event) → same_key e e ≡ true
unfolding same_key
same_key_refl e = ground (arith, str_eq_refl e.event_id)

stored-append : (e : Event) (t u : EventTable) → holds e (t ++ u) ≡ (holds e t || holds e u)
unfolding Events.stored
stored-append e [] u = refl
stored-append e (r ∷ rs) u = ground (arith, stored-append e rs u)

-- Every row of the first table stands in the second, as it was.
abbrev pub Extends : EventTable → EventTable → Type 0
Extends t t' = (rows : EventTable) × (t' ≡ t ++ rows)

pub Extends-refl : (t : EventTable) → Extends t t
Extends-refl t = ([], sym (append-nil t))

pub Extends-trans : (t u v : EventTable) → Extends t u → Extends u v → Extends t v
Extends-trans t u v (p, e) (q, f) = (p ++ q, f ∙ ap (λ x. x ++ q) e ∙ append_assoc t p q)

pub Extends-holds :
    (e : Event) (t t' : EventTable) → Extends t t' → holds e t ≡ true → holds e t' ≡ true
Extends-holds e t t' (rows, f) h = rw f (rw (stored-append e t rows, h))

-- The row of an event, received at a time.
abbrev pub row_of : Event → Time → EventRow
row_of e at = record { event = e; received_at = at }

-- Nothing changed, or the event's key was in no row and the event's row was added.
abbrev pub Grows : Event → Time → EventTable → EventTable → Type 0
Grows e at t u = (u ≡ t) ⊎ ((holds e t ≡ false) × (u ≡ t ++ row_of e at ∷ []))

pub Grows-Extends : (e : Event) (at : Time) (t u : EventTable) → Grows e at t u → Extends t u
Grows-Extends e at t u (inl same) = rw same (Extends-refl t)
Grows-Extends e at t u (inr (new, grown)) = (row_of e at ∷ [], grown)

row_of-held : (e : Event) (at : Time) (t : EventTable) → holds e (t ++ row_of e at ∷ []) ≡ true
unfolding Events.stored
row_of-held e at t = ground (arith, stored-append e t (row_of e at ∷ []), same_key_refl e)

Grows-trans :
    (e : Event) (at : Time) (t u v : EventTable) → Grows e at t u → Grows e at u v → Grows e at t v
Grows-trans e at t u v (inl same) q = subst (λ x. Grows e at x v) same q
Grows-trans e at t u v (inr (new, grown)) (inl same) = inr (new, same ∙ grown)
Grows-trans e at t u v (inr (new, grown)) (inr (free, again)) =
    let held : holds e u ≡ true = rw grown (row_of-held e at t) in absurd (ground arith)

insert_statement-Grows :
    (e : Event) (at : Time) (t : EventTable) → Grows e at t (insert_statement e at t).0
unfolding insert_statement
insert_statement-Grows e at t = elim (Bool-cases (holds e t)) [
  | inl old ↦ inl (rw old refl)
  | inr new ↦ inr (new, rw new refl)
]

insert_statement-stored :
    (e : Event) (at : Time) (t : EventTable) → holds e (insert_statement e at t).0 ≡ true
unfolding insert_statement
insert_statement-stored e at t = elim (Bool-cases (holds e t)) [
  | inl old ↦ rw old old
  | inr new ↦
      rw (new, stored-append e t (record { event = e; received_at = at } ∷ []), new)
        (unfold Events.stored in rw (same_key_refl e))
]

-- What one insert, or a loop of them, did for an event.
pub record Sound {X : Type 0} (e : Event) (at : Time) (t : EventTable)
    (x : EventTable × Result X Bool) : Type 0 where
  pub grows : Grows e at t x.0
  pub durable : (b : Bool) → x.1 ≡ ok b → holds e x.0 ≡ true
  pub fresh : x.1 ≡ ok true → holds e t ≡ false

insert-Sound :
    (a : Attempt) (e : Event) (at : Time) (t : EventTable) → Sound e at t (insert a e at t)
unfolding insert
insert-Sound answered e at t = record {
  grows = insert_statement-Grows e at t;
  durable = λ b h. insert_statement-stored e at t;
  fresh = λ h. unfold insert_statement in ground arith;
}
insert-Sound (lost x) e at t = record {
  grows = insert_statement-Grows e at t;
  durable = λ b h. cc;
  fresh = λ h. cc;
}
insert-Sound (refused x) e at t = record { grows = inl refl; durable = λ b h. cc; fresh = λ h. cc }

given_up-Sound :
    {Y : Type 0} (e : Event) (at : Time) (t : EventTable) (u : EventTable) (y : Y)
    → Grows e at t u
    → Sound {X = Y} e at t (u, err y)
given_up-Sound e at t u y grown = record { grows = grown; durable = λ c h. cc; fresh = λ h. cc }

resume-Sound :
    (b : Bool) (slept : Option DriverError)
    (again : EventTable → EventTable × Result InsertError Bool) (x : DriverError) (e : Event)
    (at : Time) (t u : EventTable)
    → Grows e at t u
    → Sound e at u (again u)
    → Sound e at t (resume b slept again x u)
unfolding resume
resume-Sound false slept again x e at t u grown next = given_up-Sound e at t u (permanent x) grown
resume-Sound true (some y) again x e at t u grown next =
    given_up-Sound e at t u (interrupted y) grown
resume-Sound true none again x e at t u grown next = record {
  grows = Grows-trans e at t u (again u).0 grown next.grows;
  durable = next.durable;
  fresh = λ h. ground (arith, Extends-holds e t u (Grows-Extends e at t u grown), next.fresh h);
}

module _ (p : RetryPolicy) (w : Surroundings) (e : Event) (at : Time) where
  settle_last-Sound :
      (k : ℕ) (t : EventTable) (x : EventTable × Result DriverError Bool)
      → Sound e at t x
      → Sound e at t (settle p w none k x)
  unfolding settle
  settle_last-Sound k t (u, ok b) s = record {
    grows = s.grows;
    durable = λ c h. s.durable b refl;
    fresh = λ h. s.fresh (ground arith);
  }
  settle_last-Sound k t (u, err x) s = given_up-Sound e at t u _ s.grows

  settle-Sound :
      (again : EventTable → EventTable × Result InsertError Bool) (k : ℕ) (t : EventTable)
      (x : EventTable × Result DriverError Bool)
      → ((u : EventTable) → Sound e at u (again u))
      → Sound e at t x
      → Sound e at t (settle p w (some again) k x)
  unfolding settle
  settle-Sound again k t (u, ok b) later s = record {
    grows = s.grows;
    durable = λ c h. s.durable b refl;
    fresh = λ h. s.fresh (ground arith);
  }
  settle-Sound again k t (u, err x) later s =
      resume-Sound (is_retryable x) (w.sleep k (delay p k)) again x e at t u s.grows (later u)

  pub insert_loop-Sound :
      (left k : ℕ) (t : EventTable) → Sound e at t (insert_loop p w e at left k t)
  unfolding insert_loop
  insert_loop-Sound zero k t = settle_last-Sound k t _ (insert-Sound (w.attempt k) e at t)
  insert_loop-Sound (suc left) k t =
      settle-Sound (insert_loop p w e at left (k + 1)) k t _ (insert_loop-Sound left (k + 1))
        (insert-Sound (w.attempt k) e at t)

-- What processing one message means for the table, by the error that Process returns.
pub record Processed (accepted : Option Event) (at : Time) (t : EventTable)
    (x : EventTable × Outcome × Option InsertError) : Type 0 where
  pub withheld : x.1 ≡ failed → x.2 ≢ none
  pub failing : x.2 ≢ none → x.1 ≡ failed
  pub discarded : accepted ≡ none → (x.0 ≡ t) × (x.1 ≡ invalid) × (x.2 ≡ none)
  pub grows : (e : Event) → accepted ≡ some e → Grows e at t x.0
  pub durable : (e : Event) → accepted ≡ some e → x.2 ≡ none → holds e x.0 ≡ true
  pub fresh :
      (e : Event)
      → accepted ≡ some e
      → x.1 ≡ stored
      → (holds e t ≡ false) × (x.0 ≡ t ++ row_of e at ∷ [])

moved : {e : Event} (x : Event) → some e ≡ some x → (P : Event → Type 0) → P e → P x
moved {e} x h P q = let same : e ≡ x = ground arith in subst P same q

-- A row that is new in a table that has the event now is the row that was added.
added :
    (e : Event) (at : Time) (t u : EventTable)
    → Grows e at t u
    → holds e t ≡ false
    → holds e u ≡ true
    → (holds e t ≡ false) × (u ≡ t ++ row_of e at ∷ [])
added e at t u (inl same) free held =
    let held' : holds e t ≡ true = subst (λ x. holds e x ≡ true) same held in absurd (ground arith)
added e at t u (inr grown) free held = grown

finish-Processed :
    (e : Event) (at : Time) (t u : EventTable) (answer : Result InsertError Bool)
    → Sound e at t (u, answer)
    → Processed (some e) at t (u, (insert_outcome answer).0, (insert_outcome answer).1)
finish-Processed e at t u (ok true) s = record {
  withheld = λ h. cc;
  failing = λ h. absurd (h refl);
  discarded = λ h. cc;
  grows = λ x h. moved x h (λ (y : Event). Grows y at t u) s.grows;
  durable = λ x h n. moved x h (λ (y : Event). holds y u ≡ true) (s.durable true refl);
  fresh = λ x h n.
      moved x h (λ (y : Event). (holds y t ≡ false) × (u ≡ t ++ row_of y at ∷ []))
        (added e at t u s.grows (s.fresh refl) (s.durable true refl));
}
finish-Processed e at t u (ok false) s = record {
  withheld = λ h. cc;
  failing = λ h. absurd (h refl);
  discarded = λ h. cc;
  grows = λ x h. moved x h (λ (y : Event). Grows y at t u) s.grows;
  durable = λ x h n. moved x h (λ (y : Event). holds y u ≡ true) (s.durable false refl);
  fresh = λ x h n. cc;
}
finish-Processed e at t u (err x) s = record {
  withheld = λ h n. cc;
  failing = λ h. refl;
  discarded = λ h. cc;
  grows = λ y h. moved y h (λ (y : Event). Grows y at t u) s.grows;
  durable = λ y h n. cc;
  fresh = λ y h n. cc;
}

process_event-Processed :
    (o : Option Event) (p : Processor) (w : Surroundings) (now : Time) (m : Message)
    (t : EventTable)
    → Processed o (received_time now m) t (process_event o p w now m t)
unfolding process_event
process_event-Processed none p w now m t = record {
  withheld = λ h. cc;
  failing = λ h. absurd (h refl);
  discarded = λ h. (refl, refl, refl);
  grows = λ e h. cc;
  durable = λ e h n. cc;
  fresh = λ e h n. cc;
}
process_event-Processed (some e) p w now m t =
    let at = received_time now m in
    finish-Processed e at t (insert_with_retry p.retry w e at t).0
      (insert_with_retry p.retry w e at t).1
      (unfold insert_with_retry in insert_loop-Sound p.retry w e at (p.retry.max_attempts - 1) 1 t)

pub Processed-Extends :
    (o : Option Event) (at : Time) (t : EventTable) (x : EventTable × Outcome × Option InsertError)
    → Processed o at t x
    → Extends t x.0
Processed-Extends none at t x h = rw (h.discarded refl).0 (Extends-refl t)
Processed-Extends (some e) at t x h = Grows-Extends e at t x.0 (h.grows e refl)

-- Whatever the database does, Process returns an error exactly with the outcome "failed". A message
-- whose event is not accepted leaves the table alone, is "invalid" and has no error. One whose event
-- is accepted leaves the table alone too, or, where no row has the event's key, adds exactly the row
-- of that event, received at the record's time; without an error a row has its key then, and with the
-- outcome "stored" the row was added.
pub process-Processed :
    (p : Processor) (w : Surroundings) (now : Time) (m : Message) (t : EventTable)
    → Processed (accepted_event p now m) (received_time now m) t (process p w now m t)
unfolding process
process-Processed p w now m t = process_event-Processed (accepted_event p now m) p w now m t
