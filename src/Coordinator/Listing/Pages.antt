-- ===== src/Coordinator/Listing/Pages.antt =====
-- A listing read page by page is the listing.
use mathlib.Core.List.{append_assoc, map-append}
use syncali.Prelude.{
  map, ℕ, zero, suc, ◌-◌, ◌≤◌, ◌<◌, Bool, true, false, ◌≡◌, ◌∙◌, refl, sym, ap, subst, Option, none,
  some, List, [], ◌∷◌, ◌++◌, arith, ltb, take, drop, length, All, select_where, Bool-cases, inl,
  inr,
}
use syncali.Coordinator.Listing.{Ascending, last_row, list_page, cut_page, read_pages, Listed}
use syncali.Coordinator.Listing.Order.{select-behind, All-middle}

module _ {A : Type 0} where
  pub take-drop : (n : ℕ) (xs : List A) → take n xs ++ drop n xs ≡ xs
  take-drop zero xs = refl
  take-drop (suc n) [] = refl
  take-drop (suc n) (x ∷ xs) = ap (λ ys. x ∷ ys) (take-drop n xs)

  pub length-drop : (n : ℕ) (xs : List A) → length (drop n xs) ≡ length xs - n
  length-drop zero xs = omega arith
  length-drop (suc n) [] = omega arith
  length-drop (suc n) (x ∷ xs) = omega (arith, length-drop n xs)

  -- A page that is not empty ends in its last row.
  last_row-split :
      (x : A) (xs : List A)
      → (front : List A) × (z : A) × ((last_row (x ∷ xs) ≡ some z) × (x ∷ xs ≡ front ++ z ∷ []))
  unfolding last_row
  last_row-split x [] = ([], x, (refl, refl))
  last_row-split x (y ∷ xs) =
      let rest = last_row-split y xs in (x ∷ rest.0, rest.1, (rest.2.0, ap (λ ys. x ∷ ys) rest.2.1))

  length-take : (n : ℕ) (xs : List A) → n ≤ length xs → length (take n xs) ≡ n
  length-take zero xs h = refl
  length-take (suc n) [] h = absurd (omega arith)
  length-take (suc n) (x ∷ xs) h = omega (arith, length-take n xs)

  take-take-suc : (n : ℕ) (xs : List A) → take n (take (suc n) xs) ≡ take n xs
  take-take-suc zero xs = refl
  take-take-suc (suc n) [] = refl
  take-take-suc (suc n) (x ∷ xs) = ap (λ ys. x ∷ ys) (take-take-suc n xs)

  take_all : (n : ℕ) (xs : List A) → length xs ≤ n → take n xs ≡ xs
  take_all zero [] h = refl
  take_all zero (x ∷ xs) h = absurd (omega arith)
  take_all (suc n) [] h = refl
  take_all (suc n) (x ∷ xs) h = ap (λ ys. x ∷ ys) (take_all n xs (omega arith))

  -- A full page: its rows, and its last row.
  record FullPage (limit : ℕ) (rest : List A) : Type 0 where
    front : List A
    last : A
    rows : take limit rest ≡ front ++ last ∷ []
    last_lem : last_row (take limit rest) ≡ some last

  full_page : (limit : ℕ) (rest : List A) → 1 ≤ limit → limit < length rest → FullPage limit rest
  full_page zero rest h k = absurd (omega arith)
  full_page (suc n) [] h k = absurd (omega arith)
  full_page (suc n) (x ∷ rest) h k =
      let split = last_row-split x (take n rest) in
      record { front = split.0; last = split.1; rows = split.2.1; last_lem = split.2.0 }

  module _ {B C : Type 0} (show : A → B) (cursor_of : A → C) (limit : ℕ) where
    last_page :
        (rest : List A)
        → length rest ≤ limit
        → list_page show cursor_of limit (take (suc limit) rest)
          ≡ record { entries = map show rest; has_more = false; next = none }
    unfolding list_page cut_page
    last_page rest h =
        rw (take_all (suc limit) rest (omega arith))
          (let short : ltb limit (length rest) ≡ false = ground arith in rw short refl)

    further_page :
        (rest : List A) (z : A)
        → limit < length rest
        → last_row (take limit rest) ≡ some z
        → list_page show cursor_of limit (take (suc limit) rest) ≡ record {
          entries = map show (take limit rest);
          has_more = true;
          next = some (cursor_of z);
        }
    unfolding list_page cut_page
    further_page rest z h e =
        let full : ltb limit (length (take (suc limit) rest)) ≡ true =
          rw (length-take (suc limit) rest (omega arith)) (ground arith) in
        rw (full, take-take-suc limit rest, e) refl

    module _ (before : A → A → Bool)
        (transitive : (x y z : A) → before x y ≡ true → before y z ≡ true → before x z ≡ true)
        (asymmetric : (x y : A) → before x y ≡ true → before y x ≡ false)
        (past : Option C → A → Bool) (past-before : (z : A) → past (some (cursor_of z)) ≡ before z)
        (L : List A) (s : Ascending before L) (ask : Option C → Option (Listed B C))
        (IsValid : Option C → Type 0) (valid : All (λ z. IsValid (some (cursor_of z))) L)
        (answers : (after : Option C)
          → IsValid after
          → ask after
            ≡ some
                (list_page show cursor_of limit (take (suc limit) (select_where (past after) L))))
        (some_row : 1 ≤ limit) where
      pub read_pages-from :
          (fuel : ℕ) (after : Option C) (front rest : List A)
          → select_where (past after) L ≡ rest
          → L ≡ front ++ rest
          → length rest < fuel
          → IsValid after
          → read_pages ask fuel after ≡ some (map show rest)
      unfolding read_pages
      read_pages-from zero after front rest e f h v = absurd (omega arith)
      read_pages-from (suc fuel) after front rest e f h v =
          elim (Bool-cases (ltb limit (length rest))) [
            | inr short ↦
                let answer =
                  answers after v
                  ∙ ap (λ r. some (list_page show cursor_of limit (take (suc limit) r))) e
                  ∙ ap some (last_page rest (ground arith)) in
                rw (answer, read_pages) refl
            | inl long ↦
                let more : limit < length rest = ground arith in
                let page = full_page limit rest some_row more in
                let cut : rest ≡ page.front ++ page.last ∷ drop limit rest =
                  sym (take-drop limit rest)
                  ∙ ap (λ xs. xs ++ drop limit rest) page.rows
                  ∙ append_assoc page.front (page.last ∷ []) (drop limit rest) in
                let behind : L ≡ (front ++ page.front) ++ page.last ∷ drop limit rest =
                  f
                  ∙ ap (λ xs. front ++ xs) cut
                  ∙ sym (append_assoc front page.front (page.last ∷ drop limit rest)) in
                let onward =
                  read_pages-from fuel (some (cursor_of page.last)) (front ++ take limit rest)
                    (drop limit rest)
                    (rw (past-before page.last) (
                      rw behind (
                        select-behind before transitive asymmetric (front ++ page.front) page.last
                          (drop limit rest) (subst (Ascending before) behind s))))
                    (f
                      ∙ ap (λ xs. front ++ xs) (sym (take-drop limit rest))
                      ∙ sym (append_assoc front (take limit rest) (drop limit rest)))
                    (omega (arith, length-drop limit rest))
                    (All-middle (λ z. IsValid (some (cursor_of z))) (front ++ page.front) page.last
                      (drop limit rest)
                      (subst (All (λ z. IsValid (some (cursor_of z)))) behind valid)) in
                let answer =
                  answers after v
                  ∙ ap (λ r. some (list_page show cursor_of limit (take (suc limit) r))) e
                  ∙ ap some (further_page rest page.last more page.last_lem) in
                rw (answer, read_pages)
                  (rw onward (
                    ap some (
                      sym (map-append show (take limit rest) (drop limit rest))
                      ∙ ap (map show) (take-drop limit rest))))
          ]
