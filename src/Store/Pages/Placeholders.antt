-- ===== src/Store/Pages/Placeholders.antt =====
-- internal/store/query.go: every placeholder of a built query stands for its own argument, so that
-- the list queries select what their filters say.
use sentinel_flow_project.Base.{
  ℕ, suc, String, ◌≡◌, refl, sym, ap, subst, ap₂, ◌∙◌, inl, inr, Bool, true, false, ◌&&◌, ◌||◌,
  some, List, [], ◌∷◌, ◌++◌, arith, ◌==◌, length, get_elem?, take, drop, length-append, fun_ext,
  Bool-cases,
}
use mathlib.Core.List.{append_assoc, append-nil}
use sentinel_flow_project.Base.Int.{ℤ, pos, negsuc}
use sentinel_flow_project.Base.Text.{is_empty}
use sentinel_flow_project.Base.Time.{Time, is_zero}
use sentinel_flow_project.Store.Pages.{Cursor, is_start, normalize_limit}
use sentinel_flow_project.Store.Pages.Order.{filter, order_by}
use sentinel_flow_project.Store.Pages.Builder.{
  Value, pair_below, cursor_or_start, text, instant, amount, Clause, equals, Builder, empty_builder,
  add, add_text, add_instant, after, with_offset, paginate, argument, cursor_before, same_value,
  pair_of, both_before, holds_at, pair_at, holds, holds_all, row_key, amount_at, skipped, window,
  run_query,
}

unfoldable pub all_of : List Bool → Bool
all_of [] = true
all_of (b ∷ bs) = b && all_of bs

pub all_of-snoc : (bs : List Bool) (b : Bool) → all_of (bs ++ b ∷ []) ≡ (all_of bs && b)
unfolding all_of
all_of-snoc [] true = refl
all_of-snoc [] false = refl
all_of-snoc (true ∷ bs) b = all_of-snoc bs b
all_of-snoc (false ∷ bs) b = refl

pub all_of-snoc_true : (bs : List Bool) → all_of (bs ++ true ∷ []) ≡ all_of bs
all_of-snoc_true bs = all_of-snoc bs true ∙ ground arith

get_elem?-last :
    (args : List Value) (v : Value) (more : List Value)
    → get_elem? ((args ++ v ∷ []) ++ more) (length args) ≡ some v
get_elem?-last [] v more = refl
get_elem?-last (a ∷ args) v more = get_elem?-last args v more

argument-last :
    (args : List Value) (v : Value) (more : List Value)
    → argument ((args ++ v ∷ []) ++ more) (length (args ++ v ∷ [])) ≡ some v
unfolding argument
argument-last args v more =
    rw (length-append args (v ∷ [])) (ground (arith, get_elem?-last args v more))

argument-end :
    (args : List Value) (v : Value) → argument (args ++ v ∷ []) (length (args ++ v ∷ [])) ≡ some v
argument-end args v =
    subst (λ l. argument l (length (args ++ v ∷ [])) ≡ some v) (append-nil (args ++ v ∷ []))
      (argument-last args v [])

-- An offset that is not positive skips nothing.
unfoldable pub to_skip : ℤ → ℕ
to_skip (negsuc n) = 0
to_skip (pos n) = n

module _ {A C : Type 0} (collates : String → String → Bool) (cell : C → A → Value) where
  -- The conditions so far, with whatever arguments follow, are these tests of a row.
  pub record Means (b : Builder C) (tests : A → List Bool) : Type 0 where
    pub meaning :
        (more : List Value) (r : A)
        → holds_all collates cell (b.args ++ more) b.clauses r ≡ all_of (tests r)

  pub empty-Means : Means empty_builder (λ r. [])
  unfolding holds_all all_of
  empty-Means = record { meaning = λ more r. refl }

  holds_all-snoc :
      (args : List Value) (cs : List (Clause C)) (c : Clause C) (r : A)
      → holds_all collates cell args (cs ++ c ∷ []) r
        ≡ (holds_all collates cell args cs r && holds collates cell args r c)
  unfolding holds_all
  holds_all-snoc args [] c r = ground arith
  holds_all-snoc args (d ∷ cs) c r = ground (arith, holds_all-snoc args cs c r)

  add-Means :
      (condition : ℕ → Clause C) (v : Value) (q : A → Bool) {b : Builder C} {tests : A → List Bool}
      → Means b tests
      → ((args : List Value) (n : ℕ) (r : A)
          → argument args n ≡ some v
          → holds collates cell args r (condition n) ≡ q r)
      → Means (add condition v b) (λ r. tests r ++ q r ∷ [])
  unfolding add
  add-Means condition v q {b} {tests} m h = record {
    meaning = λ more r.
        let n = length (b.args ++ v ∷ []) in
        let args = (b.args ++ v ∷ []) ++ more in
        holds_all-snoc args b.clauses (condition n) r
        ∙ ap₂ ◌&&◌
            (ap (λ a. holds_all collates cell a b.clauses r) (append_assoc b.args (v ∷ []) more)
              ∙ m.meaning (v ∷ more) r)
            (h args n r (argument-last b.args v more))
        ∙ sym (all_of-snoc (tests r) (q r));
  }

  pub add_text-Means :
      (c : C) (s : String) {b : Builder C} {tests : A → List Bool}
      → Means b tests
      → Means (add_text c s b) (λ r. tests r ++ (is_empty s || same_value (cell c r) (text s)) ∷ [])
  unfolding add_text holds holds_at
  add_text-Means c s {b} {tests} m = record {
    meaning = λ more r. elim (Bool-cases (is_empty s)) [
      | inl e ↦ rw e (m.meaning more r ∙ sym (all_of-snoc_true (tests r)))
      | inr e ↦ rw e (
          (add-Means (equals c) (text s) (λ r. same_value (cell c r) (text s)) m
              (λ args n r found. rw found)).meaning
            more r)
    ];
  }

  pub add_instant-Means :
      (condition : ℕ → Clause C) (t : Time) (q : A → Bool) {b : Builder C} {tests : A → List Bool}
      → Means b tests
      → ((args : List Value) (n : ℕ) (r : A)
          → argument args n ≡ some (instant t)
          → holds collates cell args r (condition n) ≡ q r)
      → Means (add_instant condition t b) (λ r. tests r ++ (is_zero t || q r) ∷ [])
  unfolding add_instant
  add_instant-Means condition t q {b} {tests} m h = record {
    meaning = λ more r. elim (Bool-cases (is_zero t)) [
      | inl e ↦ rw e (m.meaning more r ∙ sym (all_of-snoc_true (tests r)))
      | inr e ↦ rw e ((add-Means condition (instant t) q m h).meaning more r)
    ];
  }

  -- The position of a row in two columns.
  abbrev pub key_in : C → C → A → Cursor
  key_in c d r = cursor_or_start collates cell (pair_of (cell c r) (cell d r))

  pub after-Means :
      (c d : C) (from : Cursor) {b : Builder C} {tests : A → List Bool}
      → Means b tests
      → ((r : A) → pair_of (cell c r) (cell d r) ≡ some (key_in c d r))
      → Means
          (after c d from b)
          (λ r. tests r ++ (is_start from || cursor_before collates (key_in c d r) from) ∷ [])
  unfolding after holds both_before pair_at
  after-Means c d from {b} {tests} m keyed = record {
    meaning = λ more r. elim (Bool-cases (is_start from)) [
      | inl e ↦ rw e (m.meaning more r ∙ sym (all_of-snoc_true (tests r)))
      | inr e ↦
          let with_time = b.args ++ instant from.time ∷ [] in
          let with_id = with_time ++ text from.id ∷ [] in
          let n = length with_id in
          let k = length with_time in
          let args = with_id ++ more in
          let regroup : args ≡ with_time ++ text from.id ∷ more =
            append_assoc with_time (text from.id ∷ []) more in
          let time_found : argument args k ≡ some (instant from.time) =
            ap (λ a. argument a k) regroup
            ∙ argument-last b.args (instant from.time) (text from.id ∷ more) in
          rw e (
            holds_all-snoc args b.clauses (pair_below c d k n) r
            ∙ ap₂ ◌&&◌
                (ap (λ a. holds_all collates cell a b.clauses r)
                    (regroup ∙ append_assoc b.args (instant from.time ∷ []) (text from.id ∷ more))
                  ∙ m.meaning (instant from.time ∷ text from.id ∷ more) r)
                (rw (keyed r, time_found, argument-last with_time (text from.id) more))
            ∙ sym (all_of-snoc (tests r) (cursor_before collates (key_in c d r) from)))
    ];
  }

  without_offset :
      (c d : C) (limit : ℤ) {b : Builder C} {tests : A → List Bool}
      → Means b tests
      → (t : List A)
      → run_query collates cell (paginate c d limit (negsuc 0) b).0 t
        ≡ some (
            take
              (suc (normalize_limit limit))
              (order_by (cursor_before collates) (key_in c d) (filter (λ r. all_of (tests r)) t)))
  unfolding paginate with_offset run_query row_key skipped window amount_at
  without_offset c d limit {b} {tests} m t =
      let v = amount (suc (normalize_limit limit)) in
      let args = b.args ++ v ∷ [] in
      let kept : filter (holds_all collates cell args b.clauses) t
          ≡ filter (λ r. all_of (tests r)) t =
        ap (λ p. filter p t) (fun_ext (λ r. m.meaning (v ∷ []) r)) in
      rw (argument-end b.args v, kept)

  pub paginate-Means :
      (c d : C) (limit offset : ℤ) {b : Builder C} {tests : A → List Bool}
      → Means b tests
      → (t : List A)
      → run_query collates cell (paginate c d limit offset b).0 t
        ≡ some (
            take (suc (normalize_limit limit)) (
              drop (to_skip offset) (
                order_by (cursor_before collates) (key_in c d) (filter (λ r. all_of (tests r)) t))))
  unfolding paginate with_offset run_query row_key skipped window amount_at to_skip
  paginate-Means c d limit (negsuc n) m t = without_offset c d limit m t
  paginate-Means c d limit (pos n) {b} {tests} m t = elim (Bool-cases (n == 0)) [
    | inl e ↦
        let none_skipped : n ≡ 0 = ground arith in
        rw e (rw none_skipped (without_offset c d limit m t))
    | inr e ↦
        let v = amount (suc (normalize_limit limit)) in
        let args = b.args ++ v ∷ [] in
        let all = args ++ amount n ∷ [] in
        let limit_found : argument all (length args) ≡ some v =
          argument-last b.args v (amount n ∷ []) in
        let kept : filter (holds_all collates cell all b.clauses) t
            ≡ filter (λ r. all_of (tests r)) t =
          ap (λ p. filter p t)
            (fun_ext (λ r.
              ap (λ a. holds_all collates cell a b.clauses r)
                (append_assoc b.args (v ∷ []) (amount n ∷ []))
              ∙ m.meaning (v ∷ amount n ∷ []) r)) in
        rw e (rw (limit_found, argument-end args (amount n), kept))
  ]
