-- ===== src/Store/Incidents/Marks.antt =====
-- internal/store/incidents.go: what a mark changes, for the starters that poll for unmarked incidents.
use sentinel_flow_project.Base.{
  String, ◌≡◌, refl, sym, subst, ap, ◌∙◌, ◌||◌, inl, inr, Bool, true, false, ◌&&◌, List, [], ◌∷◌,
  arith, eq_iff, if◌then◌else◌, str_eq, Bool-cases,
}
use sentinel_flow_project.Base.Time.{Time}
use sentinel_flow_project.Store.Database.{Link, up, lost, refused}
use sentinel_flow_project.Store.Incidents.{Row, Table, is_null, has_id, exists_row, update_where}
use sentinel_flow_project.Store.Incidents.Transitions.{
  alert_row, remediate_row, select_where, open_unalerted, open_unremediated,
}

unfoldable pub among : String → List String → Bool
among s [] = false
among s (x ∷ xs) = str_eq s x || among s xs

-- A mark as the starters use it: what is still pending, and the row after the mark.
pub record IsMark (null pending : Row → Bool) (mark : Row → Row) : Type 0 where
  pub same_id : (r : Row) → (mark r).id ≡ r.id
  pub marked : (r : Row) → pending (mark r) ≡ false
  pub only_null : (r : Row) → null r ≡ false → pending r ≡ false

module _ (null pending : Row → Bool) (mark : Row → Row) (m : IsMark null pending mark) where
  -- UPDATE ... WHERE id = $1 AND the column IS NULL
  unfoldable pub mark_where : String → Table → Table
  unfolding update_where has_id
  mark_where id t = (update_where (λ r. has_id id r && null r) mark t).0

  marked_row : String → Row → Row
  unfolding has_id
  marked_row id r = if has_id id r && null r then mark r else r

  mark_where-cons :
      (id : String) (r : Row) (rs : Table)
      → mark_where id (r ∷ rs) ≡ marked_row id r ∷ mark_where id rs
  unfolding mark_where update_where marked_row
  mark_where-cons id r rs = elim (Bool-cases (has_id id r && null r)) [
    | inl e ↦ rw (mark_where, e)
    | inr e ↦ rw (mark_where, e)
  ]

  not_both :
      (id other s : String) → str_eq other id ≡ false → str_eq s id ≡ true → str_eq s other ≡ false
  not_both id other s h k = ground (arith, eq_iff s id, eq_iff s other, eq_iff other id)

  marked_row-same : (id : String) (r : Row) → str_eq r.id id ≡ false → marked_row id r ≡ r
  unfolding marked_row has_id
  marked_row-same id r h = rw h

  marked_row-has_id :
      (id other : String) (r : Row) → has_id other (marked_row id r) ≡ has_id other r
  unfolding marked_row has_id
  marked_row-has_id id other r = elim (Bool-cases (str_eq r.id id && null r)) [
    | inl e ↦ rw e (ap (λ (i : String). str_eq i other) (m.same_id r))
    | inr e ↦ rw e
  ]

  marked_row-settled :
      (id : String) (r : Row) → str_eq r.id id ≡ true → pending (marked_row id r) ≡ false
  unfolding marked_row has_id
  marked_row-settled id r h = elim (Bool-cases (null r)) [
    | inl n ↦ rw (h, n) (m.marked r)
    | inr n ↦ rw (h, n) (m.only_null r n)
  ]

  marked_row-pending :
      (id : String) (r : Row) → pending r ≡ false → pending (marked_row id r) ≡ false
  unfolding marked_row has_id
  marked_row-pending id r h = elim (Bool-cases (str_eq r.id id && null r)) [
    | inl e ↦ rw e (m.marked r)
    | inr e ↦ rw e h
  ]

  pub other_rows :
      (id other : String)
      → str_eq other id ≡ false
      → (t : Table) → select_where (has_id other) (mark_where id t) ≡ select_where (has_id other) t
  unfolding mark_where select_where update_where
  other_rows id other h [] = refl
  other_rows id other h (r ∷ rs) = elim (Bool-cases (has_id other r)) [
    | inl e ↦
        let away : str_eq r.id id ≡ false =
          unfold has_id in
          not_both other id r.id (ground (arith, eq_iff other id, eq_iff id other)) e in
        rw (mark_where-cons id r rs, marked_row-same id r away, e)
          (ap (λ l. r ∷ l) (other_rows id other h rs))
    | inr e ↦
        rw (mark_where-cons id r rs, marked_row-has_id id other r, e) (other_rows id other h rs)
  ]

  -- After the mark nothing with the id is pending, and what was not pending is not.
  pub settled :
      (id : String) (t : Table)
      → exists_row (λ r. has_id id r && pending r) (mark_where id t) ≡ false
  unfolding exists_row mark_where update_where
  settled id [] = refl
  settled id (r ∷ rs) = elim (Bool-cases (has_id id r)) [
    | inl e ↦
        let done : pending (marked_row id r) ≡ false =
          marked_row-settled id r (unfold has_id in e) in
        rw (mark_where-cons id r rs, marked_row-has_id id id r, e, done) (settled id rs)
    | inr e ↦ rw (mark_where-cons id r rs, marked_row-has_id id id r, e) (settled id rs)
  ]

  pub stays_settled :
      (id other : String) (t : Table)
      → exists_row (λ r. has_id other r && pending r) t ≡ false
      → exists_row (λ r. has_id other r && pending r) (mark_where id t) ≡ false
  unfolding exists_row mark_where update_where
  stays_settled id other [] h = refl
  stays_settled id other (r ∷ rs) h = elim (Bool-cases (has_id other r)) [
    | inl e ↦
        let done : pending (marked_row id r) ≡ false = marked_row-pending id r (ground arith) in
        rw (mark_where-cons id r rs, marked_row-has_id id other r, e, done)
          (stays_settled id other rs (ground arith))
    | inr e ↦
        rw (mark_where-cons id r rs, marked_row-has_id id other r, e)
          (stays_settled id other rs (ground arith))
  ]

  -- The marks of several incidents, each over its own connection.
  unfoldable pub mark_with : Link → String → Table → Table
  unfolding mark_where
  mark_with up id t = mark_where id t
  mark_with (lost e) id t = mark_where id t
  mark_with (refused e) id t = t

  unfoldable pub mark_all : (String → Link) → List String → Table → Table
  unfolding mark_with
  mark_all links [] t = t
  mark_all links (id ∷ ids) t = mark_all links ids (mark_with (links id) id t)

  mark_with-other :
      (link : Link) (id other : String)
      → str_eq other id ≡ false
      → (t : Table)
      → select_where (has_id other) (mark_with link id t) ≡ select_where (has_id other) t
  unfolding mark_with
  mark_with-other up id other h t = other_rows id other h t
  mark_with-other (lost e) id other h t = other_rows id other h t
  mark_with-other (refused e) id other h t = refl

  -- The rows of an incident that is not among the marked ones are as they were.
  pub mark_all-other :
      (links : String → Link) (ids : List String) (other : String)
      → among other ids ≡ false
      → (t : Table)
      → select_where (has_id other) (mark_all links ids t) ≡ select_where (has_id other) t
  unfolding mark_all among
  mark_all-other links [] other h t = refl
  mark_all-other links (id ∷ ids) other h t =
      mark_all-other links ids other (ground arith) (mark_with (links id) id t)
      ∙ mark_with-other (links id) id other (ground arith) t

  mark_all-settled_before :
      (ids : List String) (id : String) (t : Table)
      → exists_row (λ r. has_id id r && pending r) t ≡ false
      → exists_row (λ r. has_id id r && pending r) (mark_all (λ i. up) ids t) ≡ false
  unfolding mark_all mark_with
  mark_all-settled_before [] id t h = h
  mark_all-settled_before (i ∷ ids) id t h =
      mark_all-settled_before ids id (mark_where i t) (stays_settled i id t h)

  -- Over a working database, no row of a marked incident is pending.
  pub mark_all-settled :
      (ids : List String) (id : String)
      → among id ids ≡ true
      → (t : Table) → exists_row (λ r. has_id id r && pending r) (mark_all (λ i. up) ids t) ≡ false
  unfolding mark_all mark_with among
  mark_all-settled [] id h t = ground arith
  mark_all-settled (i ∷ ids) id h t = elim (Bool-cases (str_eq id i)) [
    | inl e ↦
        let same : id ≡ i = (eq_iff id i).0 e in
        mark_all-settled_before ids id (mark_where i t) (
          subst (λ (s : String). exists_row (λ r. has_id s r && pending r) (mark_where i t) ≡ false)
            (sym same) (settled i t))
    | inr e ↦ mark_all-settled ids id (ground arith) (mark_where i t)
  ]

-- The marks of both starters.
pub alert_row-IsMark :
    (now : Time) → IsMark (λ r. is_null r.alerted_at) open_unalerted (alert_row now)
unfolding alert_row open_unalerted
alert_row-IsMark now = record {
  same_id = λ r. refl;
  marked = λ r. ground arith;
  only_null = λ r h. ground arith;
}

pub remediate_row-IsMark :
    (now : Time) → IsMark (λ r. is_null r.remediated_at) open_unremediated (remediate_row now)
unfolding remediate_row open_unremediated
remediate_row-IsMark now = record {
  same_id = λ r. refl;
  marked = λ r. ground arith;
  only_null = λ r h. ground arith;
}
