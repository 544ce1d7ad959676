-- ===== src/Store/Page.antt =====
-- `ReadPage` of packages/sixpack-store/src/store/types.rs, and the pages of read.rs.
use sixpack.Prelude.{ℕ, List, length, take, drop}

pub record ReadPage (A : Type 0) : Type 0 where
  pub rows : List A
  pub total : ℕ

-- `rows.into_iter().skip(offset).take(limit)` beside the number of all rows, as in `lookup_page`
-- and, from `scan_table_inner` and `count_table_inner`, in `scan_page`
unfoldable pub read_page : {A : Type 0} → List A → ℕ → ℕ → ReadPage A
read_page rows limit offset = record { rows = take limit (drop offset rows); total = length rows }
