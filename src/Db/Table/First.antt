-- ===== src/Db/Table/First.antt =====
-- ORDER BY … LIMIT 1 takes a least row.
use gatstogo.Base.{
  ◌≡◌, refl, sym, subst, Bool, true, false, Bool-cases, inl, inr, Option, none, some, List, [], ◌∷◌,
  All,
}
use gatstogo.Db.Table.{first_by, earlier_of}

-- A reflexive, transitive and total order on rows, as ORDER BY needs it.
pub record IsOrder {ℓ} {A : Type ℓ} (before : A → A → Bool) : Type ℓ where
  pub self : (x : A) → before x x ≡ true
  pub trans : (x y z : A) → before x y ≡ true → before y z ≡ true → before x z ≡ true
  pub total : (x y : A) → before x y ≡ false → before y x ≡ true

module _ {ℓ} {A : Type ℓ} (before : A → A → Bool) where
  All-after :
      IsOrder before
      → (x y : A) → before x y ≡ true
      → (zs : List A) → All (λ z. before y z ≡ true) zs
      → All (λ z. before x z ≡ true) zs
  All-after o x y h [] hs = tt
  All-after o x y h (z ∷ zs) hs = (o.trans x y z h hs.0, All-after o x y h zs hs.1)

  module _ (P : A → Type 0) (o : IsOrder before) where
    -- What ORDER BY … LIMIT 1 gives of the rows: nothing of none, else one that stands no later than any.
    abbrev pub First : List A → Option A → Type ℓ
    First xs none = xs ≡ []
    First xs (some x) = P x × All (λ y. before x y ≡ true) xs × Unit {ℓ}

    First-of_one : (x : A) (xs : List A) → xs ≡ [] → P x → First (x ∷ xs) (some x)
    First-of_one x xs e h = subst (λ ys. First (x ∷ ys) (some x)) (sym e) (h, (o.self x, tt), tt)

    First-step :
        (x : A) (xs : List A) (r : Option A)
        → P x
        → First xs r
        → First (x ∷ xs) (earlier_of before x r)
    unfolding earlier_of
    First-step x xs none h f = First-of_one x xs f h
    First-step x xs (some y) h f = elim (Bool-cases (before x y)) [
      | inl first ↦ rw first (h, (o.self x, All-after o x y first xs f.1), tt)
      | inr later ↦ rw later (f.0, (o.total x y later, f.1), tt)
    ]

    pub first_by-First : (xs : List A) → All P xs → First xs (first_by before xs)
    unfolding first_by
    first_by-First [] h = refl
    first_by-First (x ∷ xs) h = First-step x xs (first_by before xs) h.0 (first_by-First xs h.1)
