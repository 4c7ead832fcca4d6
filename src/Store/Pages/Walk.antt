-- ===== src/Store/Pages/Walk.antt =====
-- internal/store/events.go and incidents.go: reading a whole list, each page from the cursor of the
-- page before it, until a page has no cursor.
use sentinel_flow_project.Base.{
  ℕ, zero, suc, ◌+◌, ◌-◌, ◌≤◌, ◌<◌, ◌≡◌, refl, sym, ap, subst, ◌∙◌, fun_ext, inl, inr, Bool, true,
  false, ◌||◌, Option, none, some, List, [], ◌∷◌, ◌++◌, arith, ltb, if◌then◌else◌, length,
  get_elem?, take, drop, All, Bool-cases,
}
use sentinel_flow_project.Base.Results.{Result, ok, err}
use sentinel_flow_project.Store.Database.{StoreError}
use sentinel_flow_project.Store.Pages.{Cursor, is_start}
use sentinel_flow_project.Store.Pages.Order.{
  filter, IsBefore, IsDescending, All-get_elem?, filter-filter, filter-IsDescending,
  filter-position, All-filter,
}
use sentinel_flow_project.Store.Pages.Queries.{cursor_of, cut_page}

module _ {A : Type 0} where
  filter-Passes : (p : A → Bool) (xs : List A) → All (λ x. p x ≡ true) (filter p xs)
  unfolding filter
  filter-Passes p [] = tt
  filter-Passes p (x ∷ xs) = elim (Bool-cases (p x)) [
    | inl e ↦ rw e (e, filter-Passes p xs)
    | inr e ↦ rw e (filter-Passes p xs)
  ]

  take-all : (n : ℕ) (xs : List A) → length xs ≤ n → take n xs ≡ xs
  take-all zero [] h = refl
  take-all zero (x ∷ xs) h = ground arith
  take-all (suc n) [] h = refl
  take-all (suc n) (x ∷ xs) h = ap (λ r. x ∷ r) (take-all n xs (omega arith))

  take-take-suc : (n : ℕ) (xs : List A) → take n (take (suc n) xs) ≡ take n xs
  take-take-suc zero xs = refl
  take-take-suc (suc n) [] = refl
  take-take-suc (suc n) (x ∷ xs) = ap (λ r. x ∷ r) (take-take-suc n xs)

  length-take : (n : ℕ) (xs : List A) → n ≤ length xs → length (take n xs) ≡ n
  length-take zero xs h = refl
  length-take (suc n) [] h = ground arith
  length-take (suc n) (x ∷ xs) h = ap suc (length-take n xs (omega arith))

  length-drop : (n : ℕ) (xs : List A) → n ≤ length xs → length (drop n xs) + n ≡ length xs
  length-drop zero xs h = omega arith
  length-drop (suc n) [] h = ground arith
  length-drop (suc n) (x ∷ xs) h =
      let shorter : length (drop n xs) + n ≡ length xs = length-drop n xs (omega arith) in
      omega arith

  take-append-drop : (n : ℕ) (xs : List A) → take n xs ++ drop n xs ≡ xs
  take-append-drop zero xs = refl
  take-append-drop (suc n) [] = refl
  take-append-drop (suc n) (x ∷ xs) = ap (λ r. x ∷ r) (take-append-drop n xs)

  get_elem?-inside : (xs : List A) (i : ℕ) → i < length xs → (x : A) × (get_elem? xs i ≡ some x)
  get_elem?-inside [] i h = ground arith
  get_elem?-inside (x ∷ xs) zero h = (x, refl)
  get_elem?-inside (x ∷ xs) (suc i) h = get_elem?-inside xs i (omega arith)

  get_elem?-take : (n i : ℕ) (xs : List A) → i < n → get_elem? (take n xs) i ≡ get_elem? xs i
  get_elem?-take zero i xs h = ground arith
  get_elem?-take (suc n) i [] h = refl
  get_elem?-take (suc n) zero (x ∷ xs) h = refl
  get_elem?-take (suc n) (suc i) (x ∷ xs) h = get_elem?-take n i xs (omega arith)

-- A client that asks for the next page with the cursor of the last, for at most so many pages.
module _ {A : Type 0} (list : Cursor → Result StoreError (List A × Cursor)) where
  unfoldable pub then_rest : List A → Option (List A) → Option (List A)
  then_rest rows none = none
  then_rest rows (some more) = some (rows ++ more)

  unfoldable pub turn :
      Result StoreError (List A × Cursor) → (Cursor → Option (List A)) → Option (List A)
  unfolding is_start then_rest
  turn (err e) rest = none
  turn (ok (rows, next)) rest = if is_start next then some rows else then_rest rows (rest next)

  unfoldable pub walk : ℕ → Cursor → Option (List A)
  unfolding turn
  walk zero c = none
  walk (suc pages) c = turn (list c) (λ next. walk pages next)

module _ {A : Type 0} (before : Cursor → Cursor → Bool) (key : A → Cursor) where
  -- The rows that stand after a cursor.
  unfoldable pub beyond : Cursor → A → Bool
  unfolding is_start
  beyond c r = is_start c || before (key r) c

module _ {A : Type 0} (before : Cursor → Cursor → Bool) (key : A → Cursor) (o : IsBefore before)
    (list : Cursor → Result StoreError (List A × Cursor)) (limit : ℕ) (all : List A) where
  -- Past the row with number n, the rows are those that are left of the first n and it.
  beyond-position :
      IsDescending before key all
      → All (λ r. is_start (key r) ≡ false) all
      → (c : Cursor) (n : ℕ) (x : A) → get_elem? (filter (beyond before key c) all) n ≡ some x
      → filter (beyond before key (key x)) all ≡ drop (suc n) (filter (beyond before key c) all)
  unfolding beyond
  beyond-position sorted keyed c n x found =
      let named : is_start (key x) ≡ false =
        All-get_elem? (λ r. is_start (key r) ≡ false) (filter (beyond before key c) all) n x
          (All-filter _ (beyond before key c) all keyed) found in
      let here : beyond before key c x ≡ true =
        All-get_elem? (λ r. beyond before key c r ≡ true) (filter (beyond before key c) all) n x
          (filter-Passes (beyond before key c) all) found in
      let narrower : (r : A) → before (key r) (key x) ≡ true → beyond before key c r ≡ true =
        λ r h. ground (arith, o.transitive (key r) (key x) c h) in
      let strictly : beyond before key (key x) ≡ λ r. before (key r) (key x) =
        fun_ext (λ r. rw named) in
      ap (λ p. filter p all) strictly
      ∙ (sym (filter-filter (beyond before key c) (λ r. before (key r) (key x)) narrower all)
          ∙ filter-position before key o (filter (beyond before key c) all) n x
              (filter-IsDescending before key o (beyond before key c) all sorted) found)

  -- Following the cursors from c gives what stands after c, in order, if each page is the first of the
  -- rows after its cursor.
  pub walk-beyond :
      ((c : Cursor)
        → list c ≡ ok (cut_page key limit (take (suc limit) (filter (beyond before key c) all))))
      → 1 ≤ limit
      → IsDescending before key all
      → All (λ r. is_start (key r) ≡ false) all
      → (pages : ℕ) (c : Cursor) → length (filter (beyond before key c) all) < pages
      → walk list pages c ≡ some (filter (beyond before key c) all)
  unfolding walk turn then_rest cut_page cursor_of
  walk-beyond listed some_limit sorted keyed zero c h = ground arith
  walk-beyond listed some_limit sorted keyed (suc pages) c h =
      elim (Bool-cases (ltb limit (length (filter (beyond before key c) all)))) [
        | inl e ↦
            let rows = filter (beyond before key c) all in
            let (x, found) = get_elem?-inside rows (limit - 1) (ground arith) in
            let last : get_elem? (take limit rows) (length (take limit rows) - 1) ≡ some x =
              rw (length-take limit rows (ground arith))
                (get_elem?-take limit (limit - 1) rows (ground arith) ∙ found) in
            let whole : suc (limit - 1) ≡ limit = omega arith in
            let left : filter (beyond before key (key x)) all ≡ drop limit rows =
              subst (λ n. filter (beyond before key (key x)) all ≡ drop n rows) whole
                (beyond-position sorted keyed c (limit - 1) x found) in
            let next_named : is_start (key x) ≡ false =
              All-get_elem? (λ r. is_start (key r) ≡ false) rows (limit - 1) x
                (All-filter _ (beyond before key c) all keyed) found in
            let more : walk list pages (key x) ≡ some (drop limit rows) =
              walk-beyond listed some_limit sorted keyed pages (key x)
                (rw left (ground (arith, length-drop limit rows)))
              ∙ ap some left in
            let longer : ltb limit (length (take (suc limit) rows)) ≡ true =
              rw (length-take (suc limit) rows (ground arith)) (ground arith) in
            rw (listed c, longer, take-take-suc limit rows, last, next_named, more)
              (ap some (take-append-drop limit rows))
        | inr e ↦
            rw (listed c, take-all (suc limit) (filter (beyond before key c) all) (ground arith), e)
      ]
