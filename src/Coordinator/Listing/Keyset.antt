-- ===== src/Coordinator/Listing/Keyset.antt =====
-- Listings that filter rows, order them and go on behind the last row shown.
use syncali.Prelude.{
  map, ℕ, suc, ◌≤◌, ◌<◌, Bool, true, false, ◌&&◌, ◌≡◌, ◌∙◌, refl, ap, Option, none, some, List, [],
  ◌∷◌, arith, length, take, All, select_where,
}
use syncali.Coordinator.Listing.{order_by, Apart, Listed, list_page, read_pages}
use syncali.Coordinator.Listing.Order.{
  select_where-true, order_by-Ascending, select-order_by, length-order_by, select-and,
  length-select_where, Apart-select_where,
}
use syncali.Coordinator.Listing.Pages.{read_pages-from}

All-valid : {A : Type 0} (xs : List A) → All (λ x. Unit {0}) xs
All-valid [] = tt
All-valid (x ∷ xs) = (tt, All-valid xs)

module _ {A B C : Type 0} (show : A → B) (cursor_of : A → C) (limit : ℕ) (before : A → A → Bool)
    (transitive : (x y z : A) → before x y ≡ true → before y z ≡ true → before x z ≡ true)
    (asymmetric : (x y : A) → before x y ≡ true → before y x ≡ false) (past : Option C → A → Bool)
    (past-before : (z : A) → past (some (cursor_of z)) ≡ before z)
    (past_none : past none ≡ (λ x. true)) (listed : A → Bool) (table : List A)
    (apart : Apart before table) (ask : Option C → Option (Listed B C))
    (answers : (after : Option C)
      → ask after
        ≡ some (
            list_page show cursor_of limit (
              take
                (suc limit)
                (order_by before (select_where (λ x. listed x && past after x) table)))))
    (some_row : 1 ≤ limit) where
  abbrev rows : List A
  rows = order_by before (select_where listed table)

  answers_lem :
      (after : Option C)
      → ask after
        ≡ some (list_page show cursor_of limit (take (suc limit) (select_where (past after) rows)))
  answers_lem after =
      answers after
      ∙ ap (λ xs. some (list_page show cursor_of limit (take (suc limit) (order_by before xs))))
          (select-and listed (past after) table)
      ∙ ap (λ xs. some (list_page show cursor_of limit (take (suc limit) xs)))
          (select-order_by before transitive asymmetric (past after) (select_where listed table)
            (Apart-select_where before transitive asymmetric listed table apart))

  rows-length : length rows ≤ length table
  rows-length = omega (
    arith,
    length-order_by before transitive asymmetric (select_where listed table),
    length-select_where {0} listed table,
  )

  pub read_pages-keyset :
      (fuel : ℕ) → length table < fuel → read_pages ask fuel none ≡ some (map show rows)
  read_pages-keyset fuel k =
      read_pages-from show cursor_of limit before transitive asymmetric past past-before rows
        (order_by-Ascending before transitive asymmetric (select_where listed table)
          (Apart-select_where before transitive asymmetric listed table apart))
        ask (λ after. Unit {0}) (All-valid rows) (λ after v. answers_lem after) some_row fuel none
        [] rows (ap (λ p. select_where p rows) past_none ∙ select_where-true rows) refl
        (omega (arith, rows-length)) tt
