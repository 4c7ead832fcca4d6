-- ===== src/Ingest/Accepted.antt =====
-- internal/ingest: what a handler acknowledges, and with which status.
use sentinel_flow_project.Base.{
  ◌≤◌, String, ◌≡◌, ◌≢◌, refl, inl, inr, false, Option, none, some, List, [], ltb, arith, length,
  All, Bool-cases,
}
use sentinel_flow_project.Base.Results.{Result, ok, err}
use sentinel_flow_project.Event.{Event, ValidationErrors}
use sentinel_flow_project.Event.Freshness.{validate_within}
use sentinel_flow_project.Ingest.{
  Handler, Request, Outside, Response, DecodeError, unsupported, decode_response, prepare,
  after_publish, after_validation, after_decode, post_event,
}

module _ (o : Outside) (h : Handler) (r : Request) where
  -- The events that a handler may hand on: prepared ones that ValidateWithin accepts.
  pub record IsAcceptable (e : Event) : Type 0 where
    pub valid : validate_within o.is_uuid h.bounds r.now e ≡ ok tt
    pub prepared : (x : Event) × (e ≡ prepare o.lower r.span x)

  -- A 202 acknowledges acceptable events and at least one; any other answer acknowledges none.
  pub record IsHonest (x : Response × List Event) : Type 0 where
    pub acknowledged : All IsAcceptable x.1
    pub accepted : x.0.status ≡ 202 → 1 ≤ length x.1
    pub refused : x.0.status ≢ 202 → x.1 ≡ []

  nothing-IsHonest : (a : Response) → ltb a.status 400 ≡ false → IsHonest (a, [])
  nothing-IsHonest a h₁ = record {
    acknowledged = tt;
    accepted = λ k. ground arith;
    refused = λ k. refl;
  }

  after_publish-IsHonest :
      (e : Event) → IsAcceptable e → (x : Option String) → IsHonest (after_publish o h r e x)
  unfolding after_publish
  after_publish-IsHonest e k none = record {
    acknowledged = (k, tt);
    accepted = λ s. omega arith;
    refused = λ s. absurd (s refl);
  }
  after_publish-IsHonest e k (some x) = nothing-IsHonest _ refl

  after_validation-IsHonest :
      (x : Event) (v : Result ValidationErrors (Unit {0}))
      → validate_within o.is_uuid h.bounds r.now (prepare o.lower r.span x) ≡ v
      → IsHonest (after_validation o h r (prepare o.lower r.span x) v)
  unfolding after_validation
  after_validation-IsHonest x (err details) e = nothing-IsHonest _ refl
  after_validation-IsHonest x (ok u) e =
      after_publish-IsHonest (prepare o.lower r.span x) (record { valid = e; prepared = (x, refl) })
        (o.publish (prepare o.lower r.span x))

  decode_response-status : (x : DecodeError) → ltb (decode_response x).status 400 ≡ false
  unfolding decode_response
  decode_response-status x = ground arith

  after_decode-IsHonest : (d : Result DecodeError Event) → IsHonest (after_decode o h r d)
  unfolding after_decode
  after_decode-IsHonest (err x) = nothing-IsHonest (decode_response x) (decode_response-status x)
  after_decode-IsHonest (ok x) = elim (Bool-cases (o.ends h.max_body_bytes r.body)) [
    | inl e ↦ rw e (after_validation-IsHonest x _ refl)
    | inr e ↦ rw e (nothing-IsHonest _ refl)
  ]

  -- PostEvent
  pub post_event-IsHonest : IsHonest (post_event o h r)
  unfolding post_event
  post_event-IsHonest = elim (Bool-cases (unsupported o.lower r.content_type)) [
    | inl e ↦ rw e (nothing-IsHonest _ refl)
    | inr e ↦ rw e (after_decode-IsHonest (o.decode_event h.max_body_bytes r.body))
  ]
