-- ===== src/Database/Pages.antt =====
-- Following the cursors of `Database::scan` from page to page.
use sixpack.Prelude.{
  ℕ, zero, suc, ◌+◌, ◌≤◌, ◌<◌, List, [], ◌∷◌, ◌++◌, false, Option, none, some, ◌≡◌, ◌≢◌, refl, ◌⊎◌,
  take-append-drop, drop_all, arith, length, take, drop, drop-drop, inl, inr, append-nil, ◌∙◌, ap,
  sym, length-drop,
}
use sixpack.Prelude.Outcome.{ok}
use sixpack.Prelude.Text.{Text, is_empty}
use sixpack.Prelude.Decimal.{print_nat, u64_max}
use sixpack.Prelude.Decimal.RoundTrip.{parse-print_nat, print_nat-ne-nil}
use sixpack.Core.Value.{FloatText}
use sixpack.Core.Record.{Record}
use sixpack.Core.Schema.Table.{TableSchema}
use sixpack.Core.Schema.Database.{DatabaseSchema, table}
use sixpack.Store.Page.{read_page}
use sixpack.Database.Checks.{checked_cursor, checked_limit, next_cursor}
use sixpack.Database.Action.{Action, ◌>>=◌, pure_step}
use sixpack.Database.Execute.{StoreCalls, execute_plan, execute_on, execute_scan, scan}

take-all : {A : Type 0} (n : ℕ) (xs : List A) → length xs ≤ n → take n xs ≡ xs
take-all zero [] h = refl
take-all zero (x ∷ xs) h = absurd (omega arith)
take-all (suc n) [] h = refl
take-all (suc n) (x ∷ xs) h = ap (λ ys. x ∷ ys) (take-all n xs (omega arith))

page_and_rest :
    {A : Type 0} (limit offset : ℕ) (rows : List A)
    → take limit (drop offset rows) ++ drop (offset + limit) rows ≡ drop offset rows
page_and_rest limit offset rows =
    ap (λ xs. take limit (drop offset rows) ++ xs) (sym (drop-drop limit offset rows))
    ∙ take-append-drop limit (drop offset rows)

last_page :
    {A : Type 0} (limit offset : ℕ) (rows : List A)
    → length rows ≤ offset + limit
    → take limit (drop offset rows) ++ [] ≡ drop offset rows
last_page limit offset rows h =
    append-nil (take limit (drop offset rows))
    ∙ take-all limit (drop offset rows) (omega (arith, length-drop offset rows))

is_empty-ne-nil : (s : Text) → s ≢ [] → is_empty s ≡ false
is_empty-ne-nil [] h = absurd (h refl)
is_empty-ne-nil (c ∷ s) h = refl

-- The cursor that a page hands out is read back as the offset behind the page, as long as the
-- offset is a `usize`.
checked_cursor-print_nat : (n : ℕ) → n ≤ u64_max → checked_cursor (some (print_nat n)) ≡ ok n
unfolding checked_cursor
checked_cursor-print_nat n h =
    rw
      (
        is_empty-ne-nil (print_nat n) (print_nat-ne-nil n),
        parse-print_nat u64_max n (omega arith) h,
      )
      refl

checked_limit-positive : (limit : ℕ) → checked_limit (some limit) ≡ ok limit → 0 < limit
unfolding checked_limit
checked_limit-positive limit h = ground arith

next_cursor-cases :
    (offset limit total : ℕ)
    → total ≤ u64_max
    → ((next_cursor offset limit total ≡ some (print_nat (offset + limit)))
        × (offset + limit < total))
      ⊎ ((next_cursor offset limit total ≡ none) × (total ≤ offset + limit))
unfolding next_cursor
next_cursor-cases offset limit total small = ground arith

module _ {F S : Type 0} ⦃float : FloatText F⦄ (store : StoreCalls F S) (db : DatabaseSchema) where
  -- read a page, and go on where it says, for so many pages at most
  unfoldable pub scan_from : ℕ → Text → ℕ → Option Text → Action S (List (Record F))
  scan_from zero name limit cursor = pure_step (ok [])
  scan_from (suc fuel) name limit cursor = do
    page ← scan store db name (some limit) cursor
    rest ← elim page.next_cursor [
      | none ↦ pure_step (ok [])
      | some next ↦ scan_from fuel name limit (some next)
    ]
    pure_step (ok (page.rows ++ rest))

  module _ (t : TableSchema) (name : Text) (limit : ℕ) (s : S) (rows : List (Record F)) where
    -- the store answers with pages of the rows
    abbrev pub ServesPages : Type 0
    ServesPages =
        (offset : ℕ) → store.scan_page db t.name limit offset s ≡ ok (read_page rows limit offset)

    scan_page-at :
        (cursor : Option Text) (offset : ℕ)
        → ServesPages
        → table name db ≡ some t
        → checked_limit (some limit) ≡ ok limit
        → checked_cursor cursor ≡ ok offset
        → scan store db name (some limit) cursor s ≡ (
          s,
          ok (record {
            rows = take limit (drop offset rows);
            next_cursor = next_cursor offset limit (length rows);
          }),
        )
    unfolding scan execute_plan execute_on execute_scan read_page
    scan_page-at cursor offset serves known good_limit at =
        rw (known, good_limit, at, serves offset) refl

    scan_from-at :
        (fuel : ℕ) (cursor : Option Text) (offset : ℕ)
        → ServesPages
        → table name db ≡ some t
        → checked_limit (some limit) ≡ ok limit
        → length rows ≤ u64_max
        → checked_cursor cursor ≡ ok offset
        → length rows < fuel + offset
        → scan_from fuel name limit cursor s ≡ (s, ok (drop offset rows))
    unfolding scan_from
    scan_from-at zero cursor offset serves known good small at enough =
        rw (drop_all offset rows (omega arith)) refl
    scan_from-at (suc fuel) cursor offset serves known good small at enough =
        let positive : 0 < limit = checked_limit-positive limit good in
        rw (scan_page-at cursor offset serves known good at)
          (elim (next_cursor-cases offset limit (length rows) small) [
            | inl (next, less) ↦
                rw
                  (
                    next,
                    scan_from-at fuel (some (print_nat (offset + limit))) (offset + limit) serves
                        known good small (checked_cursor-print_nat (offset + limit) (omega arith))
                        (omega arith),
                  )
                  (ap (λ (xs : List (Record F)). (s, ok xs)) (page_and_rest limit offset rows))
            | inr (last, most) ↦
                rw last
                  (ap (λ (xs : List (Record F)). (s, ok xs)) (last_page limit offset rows most))
          ])

    -- Let the store serve the pages of some rows, no more than a `usize` counts, of a known table,
    -- and let the limit be one that plans accept. Reading from no cursor, and from each page's
    -- cursor on until there is none, gives every row once and in order, within one more page than
    -- there are rows.
    pub scan_from-all :
        ServesPages
        → table name db ≡ some t
        → checked_limit (some limit) ≡ ok limit
        → length rows ≤ u64_max
        → scan_from (suc (length rows)) name limit none s ≡ (s, ok rows)
    scan_from-all serves known good small =
        scan_from-at (suc (length rows)) none 0 serves known good small
          (unfold checked_cursor in refl) (omega arith)
