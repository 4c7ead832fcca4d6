-- ===== src/Ingest/Survival.antt =====
-- internal/ingest and internal/engine: the engine does not go back on what ingestion accepted.
use Prim.Native.Char.{Char}
use sentinel_flow_project.Base.{
  All-both, All-imp, ◌≤◌, String, ◌≡◌, ◌≢◌, refl, sym, subst, ap, ap₂, ◌∙◌, inl, inr, Option, none,
  some, List, [], ◌∷◌, length, All, Bool-cases,
}
use sentinel_flow_project.Base.Results.{ok}
use sentinel_flow_project.Base.Text.{is_empty, trim_space}
use sentinel_flow_project.Base.Time.{Time}
use sentinel_flow_project.Event.{Attributes, Event, or_empty, normalize}
use sentinel_flow_project.Event.Normalization.{IsLowering, normalize_idem}
use sentinel_flow_project.Event.Freshness.{future_only, validate_within}
use sentinel_flow_project.Event.Conformance.{InRange, validate_within_later}
use sentinel_flow_project.Ingest.{Handler, Request, Outside, inherit_trace, prepare, post_event}
use sentinel_flow_project.Ingest.Batch.{post_event_batch}
use sentinel_flow_project.Engine.{Processor, accepted_event}
use sentinel_flow_project.Ingest.Accepted.{IsAcceptable, post_event-IsHonest}
use sentinel_flow_project.Ingest.Report.{kept, kept-All, post_event_batch-IsReport}

-- A trace id taken from a span has no space around it.
abbrev pub HasPlainSpan : Request → Type 0
HasPlainSpan r = (id : String) → r.span ≡ some id → trim_space id ≡ id

normalize-trace :
    (lower : Char → Char) (e : Event) (id : String)
    → normalize lower (record e { trace_id = id })
      ≡ record (normalize lower e) { trace_id = trim_space id }
unfolding normalize
normalize-trace lower e id = refl

inherit_trace-normalized :
    (lower : Char → Char)
    → IsLowering lower
    → (span : Option String) → ((id : String) → span ≡ some id → trim_space id ≡ id)
    → (x : Event) → normalize lower (prepare lower span x) ≡ prepare lower span x
unfolding prepare inherit_trace
inherit_trace-normalized lower law none plain x = normalize_idem lower x law
inherit_trace-normalized lower law (some id) plain x =
    elim (Bool-cases (is_empty (normalize lower x).trace_id)) [
      | inl e ↦ rw e (
          normalize-trace lower (normalize lower x) id
          ∙ ap₂ (λ (n : Event) (t : String). record n { trace_id = t }) (normalize_idem lower x law)
              (plain id refl))
      | inr e ↦ rw e (normalize_idem lower x law)
    ]

-- The tag `omitempty` of Event.Attributes: an empty map is left out, and comes back as nil.
unfoldable pub omit_empty : Attributes → Attributes
omit_empty (some []) = none
omit_empty a = a

-- What encoding/json gives back for an event that it wrote.
unfoldable pub as_sent : Event → Event
unfolding omit_empty
as_sent e = record e { attributes = omit_empty e.attributes }

or_empty-omit_empty : (a : Attributes) → or_empty (omit_empty a) ≡ or_empty a
unfolding omit_empty
or_empty-omit_empty none = refl
or_empty-omit_empty (some []) = refl
or_empty-omit_empty (some (x ∷ xs)) = refl

normalize-as_sent :
    (lower : Char → Char) (e : Event) → normalize lower (as_sent e) ≡ normalize lower e
unfolding normalize as_sent
normalize-as_sent lower e =
    ap (λ (a : Attributes). record (normalize lower e) { attributes = a })
      (or_empty-omit_empty e.attributes)

module _ (o : Outside) (h : Handler) (r : Request) (p : Processor) (marshal : Event → String) where
  -- The engine is set up as ingestion is: the same uuid.Parse and unicode.ToLower, and the bound on
  -- the future that ingestion has.
  pub record IsMatched : Type 0 where
    pub uuids : p.is_uuid ≡ o.is_uuid
    pub lowering : p.lower ≡ o.lower
    pub future : p.bounds ≡ future_only h.bounds

  pub IsAcceptable-accepted :
      IsMatched
      → IsLowering o.lower
      → InRange h.bounds
      → HasPlainSpan r
      → (e : Event) → p.decode (marshal e) ≡ some (as_sent e)
      → IsAcceptable o h r e
      → (later written : Time) → r.now ≤ later
      → accepted_event p later (record { value = marshal e; timestamp = written }) ≡ some e
  unfolding accepted_event
  IsAcceptable-accepted m law range plain e reads k later written order =
      let (x, made) = k.prepared in
      let stable : normalize p.lower (as_sent e) ≡ e =
        normalize-as_sent p.lower e
        ∙ rw (m.lowering, made) (inherit_trace-normalized o.lower law r.span plain x) in
      let still : validate_within p.is_uuid p.bounds later e ≡ ok tt =
        rw (m.uuids, m.future)
          (validate_within_later o.is_uuid h.bounds r.now later e range order k.valid) in
      let normal = normalize p.lower (as_sent e) in
      let passes : validate_within p.is_uuid p.bounds later normal ≡ ok tt =
        subst (λ n. validate_within p.is_uuid p.bounds later n ≡ ok tt) (sym stable) still in
      rw (accepted_event, reads) (rw passes (ap some stable))

  -- json.Unmarshal gives back what json.Marshal wrote, but for an empty map of attributes, which the
  -- tag of the field leaves out.
  abbrev pub Reads : Event → Type 0
  Reads e = p.decode (marshal e) ≡ some (as_sent e)

  -- What the engine does later with the events that a handler acknowledged.
  abbrev Survives : List Event → Type 0
  Survives = All (λ e.
      (later written : Time)
      → r.now ≤ later
      → accepted_event p later (record { value = marshal e; timestamp = written }) ≡ some e)

  survive-All :
      IsMatched
      → IsLowering o.lower
      → InRange h.bounds
      → HasPlainSpan r
      → (es : List Event) → All Reads es
      → All (IsAcceptable o h r) es
      → Survives es
  survive-All m law range plain es reads k =
      All-imp (λ e. Reads e × IsAcceptable o h r e) _
        (λ e both. IsAcceptable-accepted m law range plain e both.0 both.1) es
        (All-both Reads (IsAcceptable o h r) es reads k)

  -- For an engine with the same uuid.Parse, lower-casing and bound on the future, bounds below the
  -- largest duration, a lower-casing that is stable and keeps space, a span's trace id without space
  -- around it, and a JSON codec that gives each published event back but for an empty map of
  -- attributes: PostEvent answers 202 only after the brokers have the event, it publishes nothing that
  -- it does not answer with 202, and an event that it publishes is accepted by the engine, unchanged,
  -- at every later time at which the engine reads it.
  pub post_event-survives :
      IsMatched
      → IsLowering o.lower
      → InRange h.bounds
      → HasPlainSpan r
      → All Reads (post_event o h r).1
      → ((post_event o h r).0.status ≡ 202 → 1 ≤ length (post_event o h r).1)
        × (((post_event o h r).0.status ≢ 202 → (post_event o h r).1 ≡ [])
            × All
                (λ e.
                  (later written : Time)
                  → r.now ≤ later
                  → accepted_event p later (record { value = marshal e; timestamp = written })
                    ≡ some e)
                (post_event o h r).1)
  post_event-survives m law range plain reads =
      let honest = post_event-IsHonest o h r in
      (
        honest.accepted,
        (
          honest.refused,
          survive-All m law range plain (post_event o h r).1 reads honest.acknowledged,
        ),
      )

  -- Under the same conditions, every event of a batch that is counted as accepted is accepted by the
  -- engine, unchanged, whenever the engine reads it.
  pub post_event_batch-survives :
      IsMatched
      → IsLowering o.lower
      → InRange h.bounds
      → HasPlainSpan r
      → (raws : List String) → o.decode_envelope h.max_batch_bytes r.body ≡ ok raws
      → (post_event_batch o h r).0.status ≡ 202
      → All Reads (post_event_batch o h r).1
      → All
          (λ e.
            (later written : Time)
            → r.now ≤ later
            → accepted_event p later (record { value = marshal e; timestamp = written }) ≡ some e)
          (post_event_batch o h r).1
  post_event_batch-survives m law range plain raws decoded accepted reads =
      let report = post_event_batch-IsReport o h r raws decoded accepted in
      subst Survives (sym report.events) (
        survive-All m law range plain (kept o h r raws) (subst (All Reads) report.events reads)
          (kept-All o h r raws))
