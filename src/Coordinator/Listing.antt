-- ===== src/Coordinator/Listing.antt =====
-- SELECT … ORDER BY … LIMIT, and the pages that a listing is cut into. `before` is the strict order
-- of the ORDER BY clause on rows.
pub mod Order
pub mod Pages
pub mod Keyset
use mathlib.Core.Option
use syncali.Prelude.{
  zero, suc, map, ◌++◌, ltb, length, take, Option, some, none, ℕ, Bool, true, false, ◌||◌, ◌≡◌,
  List, [], ◌∷◌, All, if◌then◌else◌,
}

module _ {A : Type 0} (before : A → A → Bool) where
  unfoldable pub insert_row : A → List A → List A
  insert_row x [] = x ∷ []
  insert_row x (y ∷ ys) =
      let later = y ∷ insert_row x ys in if before y x then later else x ∷ y ∷ ys

  unfoldable pub order_by : List A → List A
  unfolding insert_row
  order_by [] = []
  order_by (x ∷ xs) = insert_row x (order_by xs)

  -- The order tells the row from each of the others.
  abbrev pub TellsFrom : A → List A → Type 0
  TellsFrom x ys = All (λ y. (before x y || before y x) ≡ true) ys

  abbrev pub Apart : List A → Type 0
  Apart [] = Unit
  Apart (x ∷ xs) = TellsFrom x xs × Apart xs

  abbrev pub Ascending : List A → Type 0
  Ascending [] = Unit
  Ascending (x ∷ xs) = All (λ y. before x y ≡ true) xs × Ascending xs

-- `rows.at(-1)`
unfoldable pub last_row : {A : Type 0} → List A → Option A
last_row [] = none
last_row (x ∷ []) = some x
last_row (x ∷ y ∷ xs) = last_row (y ∷ xs)

-- A page of what is listed: with one row more than asked for, the row is dropped and there is more.
pub record Page (A : Type 0) : Type 0 where
  pub rows : List A
  pub has_more : Bool

unfoldable pub cut_page : {A : Type 0} → ℕ → List A → Page A
cut_page limit listed =
    let has_more = ltb limit (length listed) in
    record { rows = if has_more then take limit listed else listed; has_more = has_more }

-- What a listing answers: the entries as the client sees them, and where the next page goes on.
pub record Listed (B C : Type 0) : Type 0 where
  pub entries : List B
  pub has_more : Bool
  pub next : Option C

unfoldable pub list_page : {A B C : Type 0} → (A → B) → (A → C) → ℕ → List A → Listed B C
unfolding cut_page last_row
list_page show cursor_of limit listed =
    let page = cut_page limit listed in
    record {
      entries = map show page.rows;
      has_more = page.has_more;
      next = if page.has_more then Option.map cursor_of (last_row page.rows) else none;
    }

-- A client that asks for page after page, from `after` on; `none` if an answer is refused, or if
-- `fuel` pages do not suffice.
unfoldable pub read_pages :
    {B C : Type 0} → (Option C → Option (Listed B C)) → ℕ → Option C → Option (List B)
read_pages ask zero after = none
read_pages ask (suc fuel) after = elim (ask after) [
  | none ↦ none
  | some page ↦ elim (page.has_more) [
    | false ↦ some page.entries
    | true ↦ Option.map (λ rest. page.entries ++ rest) (read_pages ask fuel page.next)
  ]
]
