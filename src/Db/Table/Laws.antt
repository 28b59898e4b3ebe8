-- ===== src/Db/Table/Laws.antt =====
-- How an UPDATE shows in later queries, and what ORDER BY gives.
use mathlib.Core.Option
use gatstogo.Base.{
  ℕ, ◌≤◌, ◌<◌, ◌≡◌, refl, Bool, true, false, Bool-cases, inl, inr, Option, none, some, List, [],
  ◌∷◌, All, arith, leb, if◌then◌else◌,
}
use gatstogo.Db.Table.{
  update_where, count_where, select_where, find_where, later_of, latest, insert_desc, order_desc,
}

module _ {ℓ} {A : Type ℓ} where
  module _ (p : A → Bool) (f : A → A) (test : A → Bool) where
    abbrev updated : A → A
    updated x = if p x then f x else x

    -- A query whose test does not see the change finds the row that it found, as it now is.
    pub find_where-update_where :
        ((x : A) → test (f x) ≡ test x)
        → (xs : List A)
        → find_where test (update_where p f xs) ≡ Option.map updated (find_where test xs)
    unfolding find_where update_where
    find_where-update_where same [] = refl
    find_where-update_where same (x ∷ xs) = elim (Bool-cases (p x)) [
      | inl hit ↦ ground (arith, same x, find_where-update_where same xs)
      | inr miss ↦ ground (arith, find_where-update_where same xs)
    ]

  -- An UPDATE that takes its rows out of its own test has nothing left to do.
  pub count_where-update_where :
      (p : A → Bool) (f : A → A)
      → ((x : A) → p (f x) ≡ false)
      → (xs : List A) → count_where p (update_where p f xs) ≡ 0
  unfolding count_where update_where
  count_where-update_where p f gone [] = refl
  count_where-update_where p f gone (x ∷ xs) = elim (Bool-cases (p x)) [
    | inl hit ↦ rw (hit, gone x) (omega (arith, count_where-update_where p f gone xs))
    | inr miss ↦ rw (miss, miss) (omega (arith, count_where-update_where p f gone xs))
  ]

  pub update_where_none :
      (p : A → Bool) (f : A → A) (xs : List A) → count_where p xs ≡ 0 → update_where p f xs ≡ xs
  unfolding count_where update_where
  update_where_none p f [] h = refl
  update_where_none p f (x ∷ xs) h = ground (arith, update_where_none p f xs)

  count_where_found :
      (p : A → Bool) (xs : List A) (x : A) → find_where p xs ≡ some x → 0 < count_where p xs
  unfolding count_where find_where
  count_where_found p [] x e = cc
  count_where_found p (y ∷ xs) x e = ground (arith, count_where_found p xs x)

  pub find_where_sound :
      (p : A → Bool) (xs : List A) (x : A) → find_where p xs ≡ some x → p x ≡ true
  unfolding find_where
  find_where_sound p [] x e = cc
  find_where_sound p (y ∷ xs) x e = ground (arith, find_where_sound p xs x)

  module _ (key : A → ℕ) where
    -- Keys fall along the list.
    abbrev pub IsDescending : List A → Type 0
    IsDescending [] = Unit {0}
    IsDescending (x ∷ xs) = All (λ y. key y ≤ key x) xs × IsDescending xs

    insert_desc-All :
        (P : A → Type 0) (x : A) (ys : List A) → P x → All P ys → All P (insert_desc key x ys)
    unfolding insert_desc
    insert_desc-All P x [] h hs = (h, tt)
    insert_desc-All P x (y ∷ ys) h hs = elim (Bool-cases (leb (key y) (key x))) [
      | inl first ↦ rw first (h, hs)
      | inr after ↦ rw after (hs.0, insert_desc-All P x ys h hs.1)
    ]

    below-All :
        (x y : A) (ys : List A)
        → key y ≤ key x
        → All (λ z. key z ≤ key y) ys
        → All (λ z. key z ≤ key x) ys
    below-All x y [] h hs = tt
    below-All x y (z ∷ ys) h hs = (omega (arith, hs.0), below-All x y ys h hs.1)

    insert_desc-IsDescending :
        (x : A) (ys : List A) → IsDescending ys → IsDescending (insert_desc key x ys)
    unfolding insert_desc
    insert_desc-IsDescending x [] h = (tt, tt)
    insert_desc-IsDescending x (y ∷ ys) h = elim (Bool-cases (leb (key y) (key x))) [
      | inl first ↦ rw first ((ground arith, below-All x y ys (ground arith) h.0), h)
      | inr after ↦ rw after (
        insert_desc-All (λ z. key z ≤ key y) x ys (ground arith) h.0,
        insert_desc-IsDescending x ys h.1,
      )
    ]

    pub order_desc-IsDescending : (xs : List A) → IsDescending (order_desc key xs)
    unfolding order_desc
    order_desc-IsDescending [] = tt
    order_desc-IsDescending (x ∷ xs) =
        insert_desc-IsDescending x (order_desc key xs) (order_desc-IsDescending xs)

    pub order_desc-All : (P : A → Type 0) (xs : List A) → All P xs → All P (order_desc key xs)
    unfolding order_desc
    order_desc-All P [] h = tt
    order_desc-All P (x ∷ xs) h =
        insert_desc-All P x (order_desc key xs) h.0 (order_desc-All P xs h.1)

module _ {ℓ} {A : Type ℓ} (key : A → ℕ) where
  AtMost : ℕ → Option A → Type 0
  AtMost n none = Unit {0}
  AtMost n (some x) = key x ≤ n

  later_of-AtMost :
      (n : ℕ) (x : A) (o : Option A) → key x ≤ n → AtMost n o → AtMost n (later_of key x o)
  unfolding AtMost later_of
  later_of-AtMost n x none h k = h
  later_of-AtMost n x (some y) h k = elim (Bool-cases (leb (key y) (key x))) [
    | inl first ↦ rw first h
    | inr second ↦ rw second k
  ]

  latest-AtMost : (n : ℕ) (xs : List A) → All (λ x. key x ≤ n) xs → AtMost n (latest key xs)
  unfolding AtMost latest
  latest-AtMost n [] h = tt
  latest-AtMost n (x ∷ xs) h = later_of-AtMost n x _ h.0 (latest-AtMost n xs h.1)

  later_of-first : (x : A) (o : Option A) → AtMost (key x) o → later_of key x o ≡ some x
  unfolding AtMost later_of
  later_of-first x none h = refl
  later_of-first x (some y) h = ground arith

  -- A row that no other row outdoes, and that stands first, is the latest.
  pub latest-first :
      (x : A) (xs : List A) → All (λ y. key y ≤ key x) xs → latest key (x ∷ xs) ≡ some x
  unfolding latest
  latest-first x xs h = later_of-first x (latest key xs) (latest-AtMost (key x) xs h)

  pub select_where-All {κ} :
      (P : A → Type κ) (p : A → Bool) (xs : List A) → All P xs → All P (select_where p xs)
  unfolding select_where
  select_where-All P p [] h = tt
  select_where-All P p (x ∷ xs) h = elim (Bool-cases (p x)) [
    | inl hit ↦ rw hit (h.0, select_where-All P p xs h.1)
    | inr miss ↦ rw miss (select_where-All P p xs h.1)
  ]
