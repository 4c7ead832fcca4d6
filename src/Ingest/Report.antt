-- ===== src/Ingest/Report.antt =====
-- internal/ingest/batch.go: what a 202 to a batch says of its events.
use sentinel_flow_project.Base.{
  ℕ, suc, ◌+◌, String, ◌≡◌, refl, sym, subst, ap, ◌∙◌, Bool, true, false, Option, none, some, List,
  [], ◌∷◌, map, ltb, arith, ◌==◌, if◌then◌else◌, length, All,
}
use sentinel_flow_project.Base.Results.{Result, ok, err}
use sentinel_flow_project.Event.{Event, ValidationErrors}
use sentinel_flow_project.Event.Freshness.{validate_within}
use sentinel_flow_project.Ingest.{
  Handler, Request, Outside, BatchItemError, Response, batch_response, unsupported,
  unsupported_media_type, trailing_content, prepare,
}
use sentinel_flow_project.Ingest.Batch.{
  Sorted, empty_batch, batch_too_large, put, validated, prepared_item, decode_batch_event, verdict,
  sort_out, after_publish_batch, publish_accepted, after_sort, after_envelope, post_event_batch,
}
use sentinel_flow_project.Ingest.Accepted.{IsAcceptable}

module _ (o : Outside) (h : Handler) (r : Request) where
  -- The event of one text of a batch, if it may be handed on.
  unfoldable pub when_valid : Event → Result ValidationErrors (Unit {0}) → Option Event
  when_valid e (ok u) = some e
  when_valid e (err details) = none

  unfoldable pub judged : Result String Event → Option Event
  unfolding when_valid validate_within
  judged (err message) = none
  judged (ok e) = when_valid e (validate_within o.is_uuid h.bounds r.now e)

  unfoldable pub acceptable : String → Option Event
  unfolding decode_batch_event judged
  acceptable raw = judged (decode_batch_event o h r raw)

  unfoldable pub keep : Option Event → List Event → List Event
  keep none es = es
  keep (some e) es = e ∷ es

  unfoldable pub note_position : Option Event → ℕ → List ℕ → List ℕ
  note_position none i is = i ∷ is
  note_position (some e) i is = is

  -- The acceptable events in order, and the numbers of the others.
  unfoldable pub kept : List String → List Event
  unfolding acceptable keep
  kept [] = []
  kept (raw ∷ raws) = keep (acceptable raw) (kept raws)

  unfoldable pub bad_positions : ℕ → List String → List ℕ
  unfolding acceptable note_position
  bad_positions i [] = []
  bad_positions i (raw ∷ raws) = note_position (acceptable raw) i (bad_positions (suc i) raws)

  abbrev pub index_of : BatchItemError → ℕ
  index_of x = x.index

  -- What one more text does to the two slices.
  record Puts (x : Option Event) (i : ℕ) (s t : Sorted) : Type 0 where
    takes : t.accepted ≡ keep x s.accepted
    names : map index_of t.rejected ≡ note_position x i (map index_of s.rejected)
    counts : length t.accepted + length t.rejected ≡ suc (length s.accepted + length s.rejected)

  validated-Puts :
      (i : ℕ) (e : Event) (v : Result ValidationErrors (Unit {0})) (s : Sorted)
      → Puts (when_valid e v) i s (put (validated o h r i e v) s)
  unfolding when_valid validated put keep note_position
  validated-Puts i e (ok u) s = record { takes = refl; names = refl; counts = omega arith }
  validated-Puts i e (err details) s = record { takes = refl; names = refl; counts = omega arith }

  verdict-Puts :
      (i : ℕ) (d : Result String Event) (s : Sorted)
      → Puts (judged d) i s (put (verdict o h r i d) s)
  unfolding judged verdict put keep note_position
  verdict-Puts i (err message) s = record { takes = refl; names = refl; counts = omega arith }
  verdict-Puts i (ok e) s = validated-Puts i e (validate_within o.is_uuid h.bounds r.now e) s

  record SortsOut (i : ℕ) (raws : List String) (s : Sorted) : Type 0 where
    takes : s.accepted ≡ kept raws
    names : map index_of s.rejected ≡ bad_positions i raws
    counts : length s.accepted + length s.rejected ≡ length raws

  sort_out-SortsOut : (i : ℕ) (raws : List String) → SortsOut i raws (sort_out o h r i raws)
  unfolding sort_out kept bad_positions acceptable
  sort_out-SortsOut i [] = record { takes = refl; names = refl; counts = refl }
  sort_out-SortsOut i (raw ∷ raws) =
      let rest = sort_out-SortsOut (suc i) raws in
      let one = verdict-Puts i (decode_batch_event o h r raw) (sort_out o h r (suc i) raws) in
      record {
        takes = one.takes ∙ ap (keep (acceptable raw)) rest.takes;
        names = one.names ∙ ap (note_position (acceptable raw) i) rest.names;
        counts = one.counts ∙ ap suc rest.counts;
      }

  -- An answer to a batch: exactly its acceptable events are with the brokers, in their order, the body
  -- counts them, and it names each of the others by its position; the counts add up to the request.
  pub record IsReport (raws : List String) (x : Response × List Event) : Type 0 where
    pub events : x.1 ≡ kept raws
    pub errors : List BatchItemError
    pub body : x.0.body ≡ batch_response "accepted" (length (kept raws)) (length errors) errors
    pub positions : map index_of errors ≡ bad_positions 0 raws
    pub total : length (kept raws) + length errors ≡ length raws

  after_publish_batch-IsReport :
      (raws : List String) (s : Sorted)
      → SortsOut 0 raws s
      → (p : Option String) → (after_publish_batch o h r s p).0.status ≡ 202
      → IsReport raws (after_publish_batch o h r s p)
  unfolding after_publish_batch
  after_publish_batch-IsReport raws s k (some x) h₁ = ground arith
  after_publish_batch-IsReport raws s k none h₁ = record {
    events = k.takes;
    errors = s.rejected;
    body =
        ap (λ (l : List Event). batch_response "accepted" (length l) (length s.rejected) s.rejected)
          k.takes;
    positions = k.names;
    total = subst (λ (l : List Event). length l + length s.rejected ≡ length raws) k.takes k.counts;
  }

  publish_accepted-IsReport :
      (raws : List String) (s : Sorted)
      → SortsOut 0 raws s
      → (es : List Event) → (publish_accepted o h r es s).0.status ≡ 202
      → IsReport raws (publish_accepted o h r es s)
  unfolding publish_accepted
  publish_accepted-IsReport raws s k [] h₁ = ground arith
  publish_accepted-IsReport raws s k (e ∷ es) h₁ =
      after_publish_batch-IsReport raws s k (o.publish_batch s.accepted) h₁

  -- What a 202 has to be.
  abbrev Reports : List String → Response × List Event → Type 0
  Reports raws x = x.0.status ≡ 202 → IsReport raws x

  if-Reports :
      (raws : List String) (b : Bool) (x y : Response × List Event)
      → Reports raws x
      → Reports raws y
      → Reports raws (if b then x else y)
  if-Reports raws true x y hx hy = hx
  if-Reports raws false x y hx hy = hy

  after_envelope-Reports : (raws : List String) → Reports raws (after_envelope o h r (ok raws))
  unfolding after_envelope after_sort
  after_envelope-Reports raws =
      let s = sort_out o h r 0 raws in
      if-Reports raws (o.ends h.max_batch_bytes r.body) _ (trailing_content, [])
        (if-Reports raws (length raws == 0) (empty_batch, []) _ (λ k. ground arith)
          (if-Reports raws (ltb h.max_batch_events (length raws))
            (batch_too_large o.decimal h.max_batch_events, []) _ (λ k. ground arith)
            (publish_accepted-IsReport raws s (sort_out-SortsOut 0 raws) s.accepted)))
        (λ k. ground arith)

  -- A 202 to a batch says that exactly its acceptable events are with the brokers, in their order,
  -- counts them, and names each of the others by its position; the two counts add up to the request.
  pub post_event_batch-IsReport :
      (raws : List String)
      → o.decode_envelope h.max_batch_bytes r.body ≡ ok raws
      → (post_event_batch o h r).0.status ≡ 202
      → IsReport raws (post_event_batch o h r)
  unfolding post_event_batch
  post_event_batch-IsReport raws decoded =
      if-Reports raws (unsupported o.lower r.content_type) (unsupported_media_type, []) _
        (λ k. ground arith)
        (subst (λ d. Reports raws (after_envelope o h r d)) (sym decoded)
          (after_envelope-Reports raws))

  -- Every acceptable event of a batch is prepared and valid.
  when_valid-All :
      (x : Event) (v : Result ValidationErrors (Unit {0}))
      → validate_within o.is_uuid h.bounds r.now (prepare o.lower r.span x) ≡ v
      → (es : List Event) → All (IsAcceptable o h r) es
      → All (IsAcceptable o h r) (keep (when_valid (prepare o.lower r.span x) v) es)
  unfolding when_valid keep
  when_valid-All x (ok u) e es k = (record { valid = e; prepared = (x, refl) }, k)
  when_valid-All x (err details) e es k = k

  judged-All :
      (d : Result String Event) (es : List Event)
      → All (IsAcceptable o h r) es
      → All (IsAcceptable o h r) (keep (judged (prepared_item o h r d)) es)
  unfolding judged prepared_item keep
  judged-All (err message) es k = k
  judged-All (ok x) es k =
      when_valid-All x (validate_within o.is_uuid h.bounds r.now (prepare o.lower r.span x)) refl es
        k

  pub kept-All : (raws : List String) → All (IsAcceptable o h r) (kept raws)
  unfolding kept acceptable decode_batch_event
  kept-All [] = tt
  kept-All (raw ∷ raws) = judged-All (o.decode_item raw) (kept raws) (kept-All raws)
