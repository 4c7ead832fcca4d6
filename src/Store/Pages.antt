-- ===== src/Store/Pages.antt =====
-- internal/store/cursor.go and query.go: the position in a list, its token, and the query of a page.
pub mod Tokens
pub mod Builder
pub mod Order
pub mod Queries
pub mod Placeholders
pub mod Selection
pub mod Walk
pub mod Listing
use sentinel_flow_project.Base.{ℕ, String, Bool, ◌&&◌, ltb, ◌==◌, if◌then◌else◌}
use sentinel_flow_project.Base.Int.{ℤ, pos, negsuc}
use sentinel_flow_project.Base.Text.{is_empty}
use sentinel_flow_project.Base.Time.{Time, zero_time, is_zero}

-- Cursor
pub record Cursor : Type 0 where
  pub time : Time
  pub id : String

abbrev pub start : Cursor
start = record { time = zero_time; id = "" }

-- Cursor.IsZero
unfoldable pub is_start : Cursor → Bool
unfolding is_zero
is_start c = is_zero c.time && is_empty c.id

abbrev pub default_list_limit : ℕ
default_list_limit = 50

abbrev pub max_list_limit : ℕ
max_list_limit = 200

-- normalizeLimit
unfoldable pub normalize_limit : ℤ → ℕ
normalize_limit (negsuc n) = default_list_limit
normalize_limit (pos n) =
    if n == 0 then default_list_limit else if ltb max_list_limit n then max_list_limit else n
