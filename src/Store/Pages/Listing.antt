-- ===== src/Store/Pages/Listing.antt =====
-- internal/store/events.go: ListEvents, read from the first page to the last.
use sentinel_flow_project.Base.{
  All-imp, ℕ, suc, ◌≤◌, ◌<◌, String, ◌≡◌, refl, sym, ap, ap₂, ◌∙◌, fun_ext, inl, inr, Bool, true,
  false, ◌&&◌, some, List, [], ◌∷◌, arith, length, take, All, Bool-cases,
}
use sentinel_flow_project.Base.Int.{ℤ, pos, negsuc}
use sentinel_flow_project.Base.Results.{Result, ok}
use sentinel_flow_project.Base.Text.{is_empty}
use sentinel_flow_project.Store.Database.{up, StoreError, exec}
use sentinel_flow_project.Store.Events.{EventRow, EventTable}
use sentinel_flow_project.Store.Pages.{Cursor, start, is_start, max_list_limit, normalize_limit}
use sentinel_flow_project.Store.Pages.Order.{
  filter, insert_row, order_by, filter-All, IsBefore, HasDistinctKeys, All-filter, All-order_by,
  filter-and, filter-order_by, order_by-IsDescending,
}
use sentinel_flow_project.Store.Pages.Builder.{cursor_before}
use sentinel_flow_project.Store.Pages.Queries.{
  EventFilter, event_key, scan_rows, scan_answer, answer_rows, cut_page, page_of, list_events,
}
use sentinel_flow_project.Store.Pages.Placeholders.{all_of-snoc, all_of-snoc_true, to_skip}
use sentinel_flow_project.Store.Pages.Selection.{
  event_tests, selects_event, fetched, build_event_list_query-selects,
}
use sentinel_flow_project.Store.Pages.Walk.{beyond, walk, walk-beyond}

-- The collation of the id column is a strict total order.
pub record IsCollation (collates : String → String → Bool) : Type 0 where
  pub irreflexive : (s : String) → collates s s ≡ false
  pub transitive :
      (s t u : String) → collates s t ≡ true → collates t u ≡ true → collates s u ≡ true
  pub total : (s t : String) → collates s t ≡ false → collates t s ≡ false → s ≡ t

pub cursor_before-IsBefore :
    (collates : String → String → Bool) → IsCollation collates → IsBefore (cursor_before collates)
unfolding cursor_before
cursor_before-IsBefore collates o = record {
  irreflexive = λ a. ground (arith, o.irreflexive a.id);
  transitive = λ a b c h k. ground (arith, o.transitive a.id b.id c.id);
  total = λ a b h k.
      let times : a.time ≡ b.time = ground arith in
      let ids : a.id ≡ b.id = o.total a.id b.id (ground arith) (ground arith) in
      ap₂ (λ t i. record { time = t; id = i }) times ids;
}

pub normalize_limit_bounds :
    (n : ℤ) → (1 ≤ normalize_limit n) × (normalize_limit n ≤ max_list_limit)
unfolding normalize_limit
normalize_limit_bounds (pos n) = ground arith
normalize_limit_bounds (negsuc n) = ground arith

length-insert_row :
    {A : Type 0} (before : Cursor → Cursor → Bool) (key : A → Cursor) (x : A) (xs : List A)
    → length (insert_row before key x xs) ≡ suc (length xs)
unfolding insert_row
length-insert_row before key x [] = refl
length-insert_row before key x (y ∷ ys) = ground (arith, length-insert_row before key x ys)

length-order_by :
    {A : Type 0} (before : Cursor → Cursor → Bool) (key : A → Cursor) (xs : List A)
    → length (order_by before key xs) ≡ length xs
unfolding order_by
length-order_by before key [] = refl
length-order_by before key (x ∷ xs) =
    length-insert_row before key x (order_by before key xs) ∙ ap suc (length-order_by before key xs)

length-filter : {A : Type 0} (p : A → Bool) (xs : List A) → length (filter p xs) ≤ length xs
unfolding filter
length-filter p [] = omega arith
length-filter p (x ∷ xs) = ground (arith, length-filter p xs)

id_not_start : (r : EventRow) → is_empty r.event.event_id ≡ false → is_start (event_key r) ≡ false
unfolding is_start
id_not_start r h = rw h (ground arith)

scan_rows-ok : {A : Type 0} (xs : List A) → scan_rows ok xs ≡ ok xs
unfolding scan_rows
scan_rows-ok [] = refl
scan_rows-ok (x ∷ xs) = rw (scan_rows-ok xs)

All-true : {A : Type 0} (xs : List A) → All (λ x. true ≡ true) xs
All-true [] = tt
All-true (x ∷ xs) = (refl, All-true xs)

filter-HasDistinctKeys :
    {A : Type 0} (key : A → Cursor) (p : A → Bool) (xs : List A)
    → HasDistinctKeys key xs
    → HasDistinctKeys key (filter p xs)
unfolding filter
filter-HasDistinctKeys key p [] d = tt
filter-HasDistinctKeys key p (x ∷ xs) d = elim (Bool-cases (p x)) [
  | inl e ↦ rw e (All-filter _ p xs d.0, filter-HasDistinctKeys key p xs d.1)
  | inr e ↦ rw e (filter-HasDistinctKeys key p xs d.1)
]

module _ (collates : String → String → Bool) (o : IsCollation collates) (f : EventFilter) where
  -- The same filter from another position.
  unfoldable pub from_cursor : Cursor → EventFilter
  from_cursor c = record f { from = c }

  -- All the rows of the list, newest first.
  unfoldable pub whole_list : EventTable → List EventRow
  unfolding from_cursor selects_event order_by filter cursor_before
  whole_list t =
      order_by (cursor_before collates) event_key
        (filter (selects_event collates (from_cursor start)) t)

  -- The pages that ListEvents answers over a working database.
  unfoldable pub event_pages : EventTable → Cursor → Result StoreError (List EventRow × Cursor)
  unfolding from_cursor list_events
  event_pages t c = list_events collates ok up (from_cursor c) t

  selects_event-beyond :
      (c : Cursor)
      → selects_event collates (from_cursor c) ≡ λ r.
          selects_event collates (from_cursor start) r
          && beyond (cursor_before collates) event_key c r
  unfolding selects_event from_cursor beyond
  selects_event-beyond c = fun_ext (λ r.
      all_of-snoc (event_tests f r) (beyond (cursor_before collates) event_key c r)
      ∙ ap (λ b. b && beyond (cursor_before collates) event_key c r)
          (sym (all_of-snoc_true (event_tests f r))))

  fetched-beyond :
      (c : Cursor) (t : EventTable)
      → HasDistinctKeys event_key t
      → order_by
          (cursor_before collates)
          event_key
          (filter (selects_event collates (from_cursor c)) t)
        ≡ filter (beyond (cursor_before collates) event_key c) (whole_list t)
  unfolding whole_list
  fetched-beyond c t distinct =
      let chosen = filter (selects_event collates (from_cursor start)) t in
      ap (λ p. order_by (cursor_before collates) event_key (filter p t)) (selects_event-beyond c)
      ∙ ap (order_by (cursor_before collates) event_key) (
          filter-and (selects_event collates (from_cursor start))
            (beyond (cursor_before collates) event_key c) t)
      ∙ sym (
          filter-order_by (cursor_before collates) event_key (cursor_before-IsBefore collates o)
            (beyond (cursor_before collates) event_key c) chosen
            (filter-HasDistinctKeys event_key _ t distinct))

  event_pages-beyond :
      (t : EventTable)
      → HasDistinctKeys event_key t
      → to_skip f.offset ≡ 0
      → (c : Cursor)
      → event_pages t c
        ≡ ok (
            cut_page event_key (normalize_limit f.limit) (
              take
                (suc (normalize_limit f.limit))
                (filter (beyond (cursor_before collates) event_key c) (whole_list t))))
  unfolding event_pages list_events exec answer_rows scan_answer page_of from_cursor fetched
  event_pages-beyond t distinct none_skipped c =
      let g = from_cursor c in
      rw (
        build_event_list_query-selects collates g t,
        scan_rows-ok (fetched collates event_key f.limit f.offset (selects_event collates g) t),
        none_skipped,
        fetched-beyond c t distinct,
      )

  -- A client that starts without a cursor and follows next cursors reads, over an unchanged table with
  -- the primary key and non-empty ids and without an offset, every row that the filter selects,
  -- newest first, in at most one page more than the table has rows.
  pub walk-whole_list :
      (t : EventTable)
      → HasDistinctKeys event_key t
      → All (λ r. is_empty r.event.event_id ≡ false) t
      → to_skip f.offset ≡ 0
      → (pages : ℕ) → length t < pages
      → walk (event_pages t) pages start ≡ some (whole_list t)
  unfolding whole_list beyond is_start
  walk-whole_list t distinct named none_skipped pages enough =
      let before = cursor_before collates in
      let is_before = cursor_before-IsBefore collates o in
      let chosen = filter (selects_event collates (from_cursor start)) t in
      let everything : filter (beyond before event_key start) (whole_list t) ≡ whole_list t =
        filter-All _ (whole_list t) (All-true (whole_list t)) in
      let few : length (whole_list t) ≤ length t = omega (
        arith,
        length-order_by before event_key chosen,
        length-filter (selects_event collates (from_cursor start)) t,
      ) in
      let keyed = All-order_by before event_key is_before _ chosen (
        All-filter _ (selects_event collates (from_cursor start)) t
          (All-imp _ _ id_not_start t named)) in
      walk-beyond before event_key is_before (event_pages t) (normalize_limit f.limit)
        (whole_list t) (event_pages-beyond t distinct none_skipped)
        ((normalize_limit_bounds f.limit).0)
        (order_by-IsDescending before event_key is_before chosen
          (filter-HasDistinctKeys event_key _ t distinct))
        keyed pages start (rw everything (omega arith))
      ∙ ap some everything
