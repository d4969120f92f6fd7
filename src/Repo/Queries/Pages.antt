-- ===== src/Repo/Queries/Pages.antt =====
-- The pages of the listings of core/repo: SQL's and those that are cut in memory.
use dankcalendar.Base.{
  ℤ, pos, pos_part, ltb_ℤ, ℕ, ◌+◌, ◌<◌, zero, suc, List, [], ◌++◌, take, drop, if◌then◌else◌, ◌≡◌,
  sym, ap, ◌∙◌, arith, take-add, take-all, drop-all, drop-add,
}
use dankcalendar.Repo.Queries.{sql_page, limited, page}

module _ {A : Type 0} where
  take-none : (n : ℕ) → take {A = A} n [] ≡ []
  take-none n = take-all n [] (ground arith)

  limited_lem :
      (limit : ℤ) (rows : List A)
      → limited limit rows ≡ (if ltb_ℤ (pos 0) limit then take (pos_part limit) rows else rows)
  unfolding limited
  limited_lem limit rows = ground (arith, take-all (pos_part limit) rows)

  -- A page that is cut in memory is the one that SQL's LIMIT and OFFSET give, whatever the numbers are.
  pub page-sql_page :
      (limit offset : ℤ) (rows : List A) → page limit offset rows ≡ sql_page limit offset rows
  unfolding page sql_page
  page-sql_page limit offset rows = ground (
    arith,
    take-none (pos_part limit),
    drop-all (pos_part offset) rows,
    limited_lem limit rows,
    limited_lem limit (drop (pos_part offset) rows),
  )

  sql_page-pos :
      (n k : ℕ) (rows : List A) → 0 < n → sql_page (pos n) (pos k) rows ≡ take n (drop k rows)
  unfolding sql_page
  sql_page-pos n zero rows h = ground arith
  sql_page-pos n (suc k) rows h = ground arith

  -- A page with a limit above zero, and the page after it, make up the page that has both limits in
  -- one: nothing is left out or repeated between two pages of a listing.
  pages_join :
      (k n m : ℕ) (rows : List A)
      → 0 < n
      → 0 < m
      → sql_page (pos n) (pos k) rows ++ sql_page (pos m) (pos (k + n)) rows
        ≡ sql_page (pos (n + m)) (pos k) rows
  pages_join k n m rows a b =
      ap (λ xs. xs ++ sql_page (pos m) (pos (k + n)) rows) (sql_page-pos n k rows a)
      ∙ ap (λ xs. take n (drop k rows) ++ xs)
          (sql_page-pos m (k + n) rows b ∙ ap (λ xs. take m xs) (drop-add k n rows))
      ∙ sym (take-add n m (drop k rows))
      ∙ sym (sql_page-pos (n + m) k rows (omega arith))
