-- ===== src/Store/Pages/Order.antt =====
-- ORDER BY time DESC, id DESC: sorted lists of rows, and what a filter and a position do to them.
use sentinel_flow_project.Base.{
  All-imp, ℕ, zero, suc, ◌≡◌, ◌≢◌, refl, sym, ap, subst, ◌∙◌, inl, inr, Bool, true, false, ◌&&◌,
  some, List, [], ◌∷◌, arith, if◌then◌else◌, All, get_elem?, drop, Bool-cases,
}
use sentinel_flow_project.Store.Pages.{Cursor}

-- A WHERE clause on rows.
unfoldable pub filter : {A : Type 0} → (A → Bool) → List A → List A
filter p [] = []
filter p (x ∷ xs) = let rest = filter p xs in if p x then x ∷ rest else rest

-- The order of the rows' positions, with the laws that it needs.
pub record IsBefore (before : Cursor → Cursor → Bool) : Type 0 where
  pub irreflexive : (a : Cursor) → before a a ≡ false
  pub transitive : (a b c : Cursor) → before a b ≡ true → before b c ≡ true → before a c ≡ true
  pub total : (a b : Cursor) → before a b ≡ false → before b a ≡ false → a ≡ b

module _ {A : Type 0} (before : Cursor → Cursor → Bool) (key : A → Cursor) where
  unfoldable pub insert_row : A → List A → List A
  insert_row x [] = x ∷ []
  insert_row x (y ∷ ys) =
      let rest = insert_row x ys in if before (key y) (key x) then x ∷ y ∷ ys else y ∷ rest

  unfoldable pub order_by : List A → List A
  unfolding insert_row
  order_by [] = []
  order_by (x ∷ xs) = insert_row x (order_by xs)

  -- Each row stands strictly before all above it.
  abbrev pub IsDescending : List A → Type 0
  IsDescending [] = Unit
  IsDescending (x ∷ xs) = All (λ y. before (key y) (key x) ≡ true) xs × IsDescending xs

module _ {A : Type 0} (key : A → Cursor) where
  abbrev pub HasDistinctKeys : List A → Type 0
  HasDistinctKeys [] = Unit
  HasDistinctKeys (x ∷ xs) = All (λ y. key y ≢ key x) xs × HasDistinctKeys xs

module _ {A : Type 0} where
  pub All-filter : (P : A → Type 0) (p : A → Bool) (xs : List A) → All P xs → All P (filter p xs)
  unfolding filter
  All-filter P p [] h = tt
  All-filter P p (x ∷ xs) h = elim (Bool-cases (p x)) [
    | inl e ↦ rw e (h.0, All-filter P p xs h.1)
    | inr e ↦ rw e (All-filter P p xs h.1)
  ]

  pub All-get_elem? :
      (P : A → Type 0) (xs : List A) (n : ℕ) (x : A) → All P xs → get_elem? xs n ≡ some x → P x
  All-get_elem? P [] n x h g = ground arith
  All-get_elem? P (y ∷ ys) zero x h g = subst P (ground arith) h.0
  All-get_elem? P (y ∷ ys) (suc n) x h g = All-get_elem? P ys n x h.1 g

  pub filter-All : (p : A → Bool) (xs : List A) → All (λ x. p x ≡ true) xs → filter p xs ≡ xs
  unfolding filter
  filter-All p [] h = refl
  filter-All p (x ∷ xs) h = rw h.0 (ap (λ r. x ∷ r) (filter-All p xs h.1))

  -- A narrower test after a wider one is the narrower alone.
  pub filter-filter :
      (p q : A → Bool)
      → ((x : A) → q x ≡ true → p x ≡ true)
      → (xs : List A) → filter q (filter p xs) ≡ filter q xs
  unfolding filter
  filter-filter p q narrower [] = refl
  filter-filter p q narrower (x ∷ xs) = elim (Bool-cases (p x)) [
    | inl e ↦ rw e (rw (filter-filter p q narrower xs))
    | inr e ↦ elim (Bool-cases (q x)) [
      | inl f ↦ ground (arith, narrower x f)
      | inr f ↦ rw (e, f) (filter-filter p q narrower xs)
    ]
  ]

  pub filter-and :
      (p q : A → Bool) (xs : List A) → filter (λ x. p x && q x) xs ≡ filter q (filter p xs)
  unfolding filter
  filter-and p q [] = refl
  filter-and p q (x ∷ xs) = elim (Bool-cases (p x)) [
    | inl e ↦ rw (e, filter-and p q xs)
    | inr e ↦ rw e (filter-and p q xs)
  ]

module _ {A : Type 0} (before : Cursor → Cursor → Bool) (key : A → Cursor)
    (o : IsBefore before) where
  All-insert_row :
      (P : A → Type 0) (x : A) (ys : List A) → P x → All P ys → All P (insert_row before key x ys)
  unfolding insert_row
  All-insert_row P x [] hx h = (hx, h)
  All-insert_row P x (y ∷ ys) hx h = elim (Bool-cases (before (key y) (key x))) [
    | inl e ↦ rw e (hx, h)
    | inr e ↦ rw e (h.0, All-insert_row P x ys hx h.1)
  ]

  pub All-order_by : (P : A → Type 0) (xs : List A) → All P xs → All P (order_by before key xs)
  unfolding order_by
  All-order_by P [] h = h
  All-order_by P (x ∷ xs) h =
      All-insert_row P x (order_by before key xs) h.0 (All-order_by P xs h.1)

  -- Those that stand before a row also stand before the rows above it.
  below :
      (x y : A) (ys : List A)
      → before (key y) (key x) ≡ true
      → All (λ z. before (key z) (key y) ≡ true) ys
      → All (λ z. before (key z) (key x) ≡ true) ys
  below x y ys h = All-imp _ _ (λ z hz. o.transitive (key z) (key y) (key x) hz h) ys

  insert_row-IsDescending :
      (x : A) (ys : List A)
      → All (λ y. key y ≢ key x) ys
      → IsDescending before key ys
      → IsDescending before key (insert_row before key x ys)
  unfolding insert_row
  insert_row-IsDescending x [] d s = (tt, tt)
  insert_row-IsDescending x (y ∷ ys) d s = elim (Bool-cases (before (key y) (key x))) [
    | inl e ↦ rw e ((e, below x y ys e s.0), s)
    | inr e ↦ elim (Bool-cases (before (key x) (key y))) [
      | inl f ↦ rw e (All-insert_row _ x ys f s.0, insert_row-IsDescending x ys d.1 s.1)
      | inr f ↦ absurd (d.0 (o.total (key y) (key x) e f))
    ]
  ]

  pub order_by-IsDescending :
      (xs : List A) → HasDistinctKeys key xs → IsDescending before key (order_by before key xs)
  unfolding order_by
  order_by-IsDescending [] d = tt
  order_by-IsDescending (x ∷ xs) d =
      insert_row-IsDescending x (order_by before key xs) (All-order_by _ xs d.0)
        (order_by-IsDescending xs d.1)

  pub filter-IsDescending :
      (p : A → Bool) (xs : List A)
      → IsDescending before key xs
      → IsDescending before key (filter p xs)
  unfolding filter
  filter-IsDescending p [] s = tt
  filter-IsDescending p (x ∷ xs) s = elim (Bool-cases (p x)) [
    | inl e ↦ rw e (All-filter _ p xs s.0, filter-IsDescending p xs s.1)
    | inr e ↦ rw e (filter-IsDescending p xs s.1)
  ]

  insert_first :
      (x : A) (ys : List A)
      → All (λ y. before (key y) (key x) ≡ true) ys
      → insert_row before key x ys ≡ x ∷ ys
  unfolding insert_row
  insert_first x [] h = refl
  insert_first x (y ∷ ys) h = rw h.0

  filter-insert_row_kept :
      (p : A → Bool) (x : A) (ys : List A)
      → IsDescending before key ys
      → p x ≡ true
      → filter p (insert_row before key x ys) ≡ insert_row before key x (filter p ys)
  unfolding filter insert_row
  filter-insert_row_kept p x [] s h = rw h
  filter-insert_row_kept p x (y ∷ ys) s h = elim (Bool-cases (before (key y) (key x))) [
    | inl e ↦
        let under : All (λ z. before (key z) (key x) ≡ true) (filter p (y ∷ ys)) =
          All-filter _ p (y ∷ ys) (e, below x y ys e s.0) in
        sym (rw (e, h) (insert_first x (filter p (y ∷ ys)) under))
    | inr e ↦ elim (Bool-cases (p y)) [
      | inl k ↦ rw (e, k, e) (ap (λ r. y ∷ r) (filter-insert_row_kept p x ys s.1 h))
      | inr k ↦ rw (e, k) (filter-insert_row_kept p x ys s.1 h)
    ]
  ]

  filter-insert_row_left :
      (p : A → Bool) (x : A) (ys : List A)
      → p x ≡ false
      → filter p (insert_row before key x ys) ≡ filter p ys
  unfolding filter insert_row
  filter-insert_row_left p x [] h = rw h
  filter-insert_row_left p x (y ∷ ys) h = elim (Bool-cases (before (key y) (key x))) [
    | inl e ↦ rw (e, h)
    | inr e ↦ rw (e, filter-insert_row_left p x ys h)
  ]

  -- A filter before the sort is the filter after it.
  pub filter-order_by :
      (p : A → Bool) (xs : List A)
      → HasDistinctKeys key xs
      → filter p (order_by before key xs) ≡ order_by before key (filter p xs)
  unfolding filter order_by
  filter-order_by p [] d = refl
  filter-order_by p (x ∷ xs) d = elim (Bool-cases (p x)) [
    | inl e ↦ rw e (
        filter-insert_row_kept p x (order_by before key xs) (order_by-IsDescending xs d.1) e
        ∙ ap (insert_row before key x) (filter-order_by p xs d.1))
    | inr e ↦
        rw e (filter-insert_row_left p x (order_by before key xs) e ∙ filter-order_by p xs d.1)
  ]

  before_asym : (a b : Cursor) → before a b ≡ true → before b a ≡ false
  before_asym a b h = elim (Bool-cases (before b a)) [
    | inl e ↦ ground (arith, o.transitive a b a h e, o.irreflexive a)
    | inr e ↦ e
  ]

  -- The rows that stand before the n-th are those that follow it.
  pub filter-position :
      (xs : List A) (n : ℕ) (x : A)
      → IsDescending before key xs
      → get_elem? xs n ≡ some x
      → filter (λ y. before (key y) (key x)) xs ≡ drop (suc n) xs
  unfolding filter
  filter-position [] n x s h = ground arith
  filter-position (y ∷ ys) zero x s h =
      let same : y ≡ x = ground arith in
      subst (λ z. filter (λ r. before (key r) (key z)) (y ∷ ys) ≡ ys) same
        (rw (o.irreflexive (key y)) (filter-All _ ys s.0))
  filter-position (y ∷ ys) (suc n) x s h =
      rw (before_asym (key x) (key y) (All-get_elem? _ ys n x s.0 h)) (filter-position ys n x s.1 h)
