-- ===== src/Db/Table.antt =====
-- The SQL forms that the statements use, over a table as the list of its rows.
pub mod Distinct
pub mod Laws
pub mod First
pub mod Found
use gatstogo.Base.{
  ℕ, ◌+◌, Bool, true, false, ◌||◌, Option, none, some, List, [], ◌∷◌, leb, if◌then◌else◌,
}

module _ {ℓ} {A : Type ℓ} where
  -- UPDATE … SET f WHERE p.
  unfoldable pub update_where : (A → Bool) → (A → A) → List A → List A
  update_where p f [] = []
  update_where p f (x ∷ xs) = (if p x then f x else x) ∷ update_where p f xs

  -- The rows affected by it; COUNT(*) … WHERE p.
  unfoldable pub count_where : (A → Bool) → List A → ℕ
  count_where p [] = 0
  count_where p (x ∷ xs) = (if p x then 1 else 0) + count_where p xs

  -- SELECT … WHERE p.
  unfoldable pub select_where : (A → Bool) → List A → List A
  select_where p [] = []
  select_where p (x ∷ xs) = let rest = select_where p xs in if p x then x ∷ rest else rest

  -- The first row of SELECT … WHERE p, which is all that Row.Scan reads.
  unfoldable pub find_where : (A → Bool) → List A → Option A
  find_where p [] = none
  find_where p (x ∷ xs) = if p x then some x else find_where p xs

  unfoldable pub exists_where : (A → Bool) → List A → Bool
  exists_where p [] = false
  exists_where p (x ∷ xs) = p x || exists_where p xs

  -- SUM(f).
  unfoldable pub sum_of : (A → ℕ) → List A → ℕ
  sum_of f [] = 0
  sum_of f (x ∷ xs) = f x + sum_of f xs

  later_of : (A → ℕ) → A → Option A → Option A
  later_of key x none = some x
  later_of key x (some y) = if leb (key y) (key x) then some x else some y

  -- ORDER BY key DESC LIMIT 1. Of rows with one key SQL leaves the choice open; this takes the first.
  unfoldable pub latest : (A → ℕ) → List A → Option A
  unfolding later_of
  latest key [] = none
  latest key (x ∷ xs) = later_of key x (latest key xs)

  -- Where a row goes among rows that are ordered by key DESC.
  unfoldable pub insert_desc : (A → ℕ) → A → List A → List A
  insert_desc key x [] = x ∷ []
  insert_desc key x (y ∷ ys) =
      let rest = insert_desc key x ys in if leb (key y) (key x) then x ∷ y ∷ ys else y ∷ rest

  -- ORDER BY key DESC.
  unfoldable pub order_desc : (A → ℕ) → List A → List A
  unfolding insert_desc
  order_desc key [] = []
  order_desc key (x ∷ xs) = insert_desc key x (order_desc key xs)

  -- ORDER BY, for `before x y` when x stands no later than y.
  unfoldable insert_by : (A → A → Bool) → A → List A → List A
  insert_by before x [] = x ∷ []
  insert_by before x (y ∷ ys) =
      let rest = insert_by before x ys in if before x y then x ∷ y ∷ ys else y ∷ rest

  unfoldable pub order_by : (A → A → Bool) → List A → List A
  unfolding insert_by
  order_by before [] = []
  order_by before (x ∷ xs) = insert_by before x (order_by before xs)

  earlier_of : (A → A → Bool) → A → Option A → Option A
  earlier_of before x none = some x
  earlier_of before x (some y) = if before x y then some x else some y

  -- ORDER BY … LIMIT 1.
  unfoldable pub first_by : (A → A → Bool) → List A → Option A
  unfolding earlier_of
  first_by before [] = none
  first_by before (x ∷ xs) = earlier_of before x (first_by before xs)
