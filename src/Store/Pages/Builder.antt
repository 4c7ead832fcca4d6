-- ===== src/Store/Pages/Builder.antt =====
-- internal/store/query.go: filterBuilder, with the placeholders that it numbers, and what PostgreSQL
-- answers to a query that it built. The SQL text is kept as the clauses that it is written from.
use sentinel_flow_project.Base.{
  ℕ, suc, ◌-◌, String, Bool, true, false, ◌&&◌, ◌||◌, Option, none, some, List, [], ◌∷◌, ◌++◌,
  str_eq, ltb, leb, ◌==◌, if◌then◌else◌, length, get_elem?, take, drop,
}
use sentinel_flow_project.Base.Int.{ℤ, pos, negsuc}
use sentinel_flow_project.Base.Text.{is_empty}
use sentinel_flow_project.Base.Time.{Time, zero_time, is_zero}
use sentinel_flow_project.Store.Pages.{Cursor, is_start, normalize_limit}
use sentinel_flow_project.Store.Pages.Order.{filter, order_by}

-- A bound argument.
pub data Value : Type 0 where
  text : String → Value
  instant : Time → Value
  amount : ℕ → Value

-- A condition names its columns and the numbers of its placeholders, which count from 1:
-- `c = $n`, `c >= $n`, `c <= $n` and `(c, d) < ($m, $n)`.
pub data Clause (C : Type 0) : Type 0 where
  equals at_least at_most : C → ℕ → Clause C
  pair_below : C → C → ℕ → ℕ → Clause C

-- filterBuilder
pub record Builder (C : Type 0) : Type 0 where
  pub clauses : List (Clause C)
  pub args : List Value

-- The finished SELECT: WHERE, ORDER BY (both columns descending), LIMIT and OFFSET.
pub record Query (C : Type 0) : Type 0 where
  pub conditions : List (Clause C)
  pub time_column : C
  pub id_column : C
  pub limit_at : ℕ
  pub offset_at : Option ℕ
  pub bound : List Value

module _ {C : Type 0} where
  abbrev pub empty_builder : Builder C
  empty_builder = record { clauses = []; args = [] }

  -- add
  unfoldable pub add : (ℕ → Clause C) → Value → Builder C → Builder C
  add condition v b =
      let args = b.args ++ v ∷ [] in
      record { clauses = b.clauses ++ condition (length args) ∷ []; args = args }

  -- The guards of the list queries around add.
  unfoldable pub add_text : C → String → Builder C → Builder C
  unfolding add
  add_text c s b = if is_empty s then b else add (equals c) (text s) b

  unfoldable pub add_instant : (ℕ → Clause C) → Time → Builder C → Builder C
  unfolding add is_zero
  add_instant condition t b = if is_zero t then b else add condition (instant t) b

  -- after
  unfoldable pub after : C → C → Cursor → Builder C → Builder C
  unfolding is_start
  after time_column id_column c b =
      let with_time = b.args ++ instant c.time ∷ [] in
      let with_id = with_time ++ text c.id ∷ [] in
      if is_start c then b else record {
        clauses =
            b.clauses ++ pair_below time_column id_column (length with_time) (length with_id) ∷ [];
        args = with_id;
      }

  -- paginate, and the query around it.
  unfoldable pub with_offset : C → C → ℤ → ℕ → Builder C → Query C
  with_offset time_column id_column offset limit_at b =
      let plain : Query C = record {
        conditions = b.clauses;
        time_column = time_column;
        id_column = id_column;
        limit_at = limit_at;
        offset_at = none;
        bound = b.args;
      } in
      elim offset [
        | negsuc n ↦ plain
        | pos n ↦
            let bound = b.args ++ amount n ∷ [] in
            if n == 0
            then plain
            else record plain { offset_at = some (length bound); bound = bound }
      ]

  unfoldable pub paginate : C → C → ℤ → ℤ → Builder C → Query C × ℕ
  unfolding normalize_limit with_offset
  paginate time_column id_column limit offset b =
      let limit' = normalize_limit limit in
      let args = b.args ++ amount (suc limit') ∷ [] in
      let b' : Builder C = record b { args = args } in
      (with_offset time_column id_column offset (length args) b', limit')

-- Placeholder n of a bound list: `$1` is the first argument.
unfoldable pub argument : List Value → ℕ → Option Value
argument args n = if n == 0 then none else get_elem? args (n - 1)

-- (t, i) < (u, j) on rows, by the collation of the id column.
unfoldable pub cursor_before : (String → String → Bool) → Cursor → Cursor → Bool
cursor_before collates a b = ltb a.time b.time || (a.time == b.time && collates a.id b.id)

abbrev pub same_value : Value → Value → Bool
same_value (text s) (text u) = str_eq s u
same_value (instant t) (instant u) = t == u
same_value (amount m) (amount n) = m == n
same_value _ _ = false

abbrev pub value_le : Value → Value → Bool
value_le (instant t) (instant u) = leb t u
value_le _ _ = false

abbrev pub pair_of : Value → Value → Option Cursor
pair_of (instant t) (text s) = some (record { time = t; id = s })
pair_of _ _ = none

unfoldable pub both_before : (String → String → Bool) → Option Cursor → Option Cursor → Bool
unfolding cursor_before
both_before collates (some a) (some b) = cursor_before collates a b
both_before collates _ _ = false

-- A condition whose placeholder has no argument of its type holds of no row.
module _ {A C : Type 0} (collates : String → String → Bool) (cell : C → A → Value) where
  unfoldable pub holds_at : (Value → Value → Bool) → Value → Option Value → Bool
  holds_at test v none = false
  holds_at test v (some w) = test v w

  unfoldable pub pair_at : Option Value → Option Value → Option Cursor
  pair_at (some v) (some w) = pair_of v w
  pair_at _ _ = none

  unfoldable pub holds : List Value → A → Clause C → Bool
  unfolding argument holds_at pair_at both_before
  holds args r (equals c n) = holds_at same_value (cell c r) (argument args n)
  holds args r (at_least c n) = holds_at (λ v w. value_le w v) (cell c r) (argument args n)
  holds args r (at_most c n) = holds_at value_le (cell c r) (argument args n)
  holds args r (pair_below c d m n) =
      both_before collates (pair_of (cell c r) (cell d r))
        (pair_at (argument args m) (argument args n))

  -- WHERE a AND b ...
  unfoldable pub holds_all : List Value → List (Clause C) → A → Bool
  unfolding holds
  holds_all args [] r = true
  holds_all args (c ∷ cs) r = holds args r c && holds_all args cs r

  abbrev pub cursor_or_start : Option Cursor → Cursor
  cursor_or_start none = record { time = zero_time; id = "" }
  cursor_or_start (some c) = c

  -- The position of a row in the order of the query.
  unfoldable pub row_key : Query C → A → Cursor
  row_key q r = cursor_or_start (pair_of (cell q.time_column r) (cell q.id_column r))

  -- LIMIT and OFFSET: the number bound to a placeholder; PostgreSQL refuses another argument.
  unfoldable pub amount_at : Option Value → Option ℕ
  amount_at (some (amount n)) = some n
  amount_at _ = none

  unfoldable pub skipped : List Value → Option ℕ → Option ℕ
  unfolding argument amount_at
  skipped args none = some 0
  skipped args (some n) = amount_at (argument args n)

  unfoldable pub window : Option ℕ → Option ℕ → List A → Option (List A)
  window (some limit) (some offset) rows = some (take limit (drop offset rows))
  window _ _ rows = none

  -- The id of a cursor is taken to be the canonical text of a UUID, as every id that a page gives out is:
  -- PostgreSQL refuses another, and compares UUIDs as their canonical texts compare by bytes, which is
  -- what `collates` stands for. Instants are whole microseconds, as timestamptz holds them.
  unfoldable pub run_query : Query C → List A → Option (List A)
  unfolding holds_all row_key skipped window cursor_before
  run_query q t =
      window (amount_at (argument q.bound q.limit_at)) (skipped q.bound q.offset_at)
        (order_by (cursor_before collates) (row_key q) (filter (holds_all q.bound q.conditions) t))
