-- ===== src/Db/Table/Found.antt =====
-- Of which rows a query's result consists, and the table after an UPDATE.
use mathlib.Core.List.{Mem, mem-cons_self, mem-cons_of_mem, Forall₂}
use gatstogo.Base.{
  ℕ, zero, suc, ◌≡◌, ◌≢◌, refl, false, arith, subst, sym, Bool, true, Bool-cases, inl, inr, some,
  List, [], ◌∷◌, All, take,
}
use gatstogo.Db.Table.{update_where, count_where, select_where, find_where}

module _ {ℓ} {A : Type ℓ} (p : A → Bool) where
  pub find_where-Mem : (xs : List A) (x : A) → find_where p xs ≡ some x → Mem x xs
  unfolding find_where
  find_where-Mem [] x e = cc
  find_where-Mem (y ∷ xs) x e = elim (Bool-cases (p y)) [
    | inl hit ↦
        let e' = rw hit at e in
        let same : y ≡ x = cc in subst (λ z. Mem x (z ∷ xs)) (sym same) mem-cons_self
    | inr miss ↦ let e' = rw miss at e in mem-cons_of_mem y (find_where-Mem xs x e')
  ]

  -- The rows that the query selects stand in the table and pass its test.
  abbrev Selected : List A → A → Type ℓ
  Selected xs x = Mem x xs × (p x ≡ true)

  Selected-weaken :
      (y : A) (xs rows : List A) → All (Selected xs) rows → All (Selected (y ∷ xs)) rows
  Selected-weaken y xs [] h = tt
  Selected-weaken y xs (x ∷ rows) h =
      ((mem-cons_of_mem y h.0.0, h.0.1), Selected-weaken y xs rows h.1)

  pub select_where-Selected : (xs : List A) → All (Selected xs) (select_where p xs)
  unfolding select_where
  select_where-Selected [] = tt
  select_where-Selected (x ∷ xs) =
      let rest = Selected-weaken x xs _ (select_where-Selected xs) in
      elim (Bool-cases (p x)) [
        | inl hit ↦ rw hit ((mem-cons_self, hit), rest)
        | inr miss ↦ rw miss rest
      ]

  -- An UPDATE that affects rows affects one.
  pub count_where-Mem : (xs : List A) → count_where p xs ≢ 0 → (x : A) × Mem x xs × (p x ≡ true)
  unfolding count_where
  count_where-Mem [] some_row = absurd (some_row refl)
  count_where-Mem (x ∷ xs) some_row = elim (Bool-cases (p x)) [
    | inl hit ↦ (x, mem-cons_self, hit)
    | inr miss ↦
        let (y, there, hit) = count_where-Mem xs (ground arith) in (y, mem-cons_of_mem x there, hit)
  ]

module _ {ℓ} {A : Type ℓ} (p : A → Bool) (f : A → A) where
  -- Row by row, an UPDATE relates what it relates to the rows that it takes and to the others.
  pub update_where-Forall₂ {κ} :
      (Rel : A → A → Type κ)
      → ((x : A) → p x ≡ true → Rel x (f x))
      → ((x : A) → p x ≡ false → Rel x x)
      → (xs : List A) → Forall₂ Rel xs (update_where p f xs)
  unfolding update_where
  update_where-Forall₂ Rel taken other [] = Forall₂.nil
  update_where-Forall₂ Rel taken other (x ∷ xs) = elim (Bool-cases (p x)) [
    | inl hit ↦ rw hit (Forall₂.cons (taken x hit) (update_where-Forall₂ Rel taken other xs))
    | inr miss ↦ rw miss (Forall₂.cons (other x miss) (update_where-Forall₂ Rel taken other xs))
  ]

pub take-All {ℓ κ} :
    {A : Type ℓ} (P : A → Type κ) (n : ℕ) (xs : List A) → All P xs → All P (take n xs)
take-All P zero xs h = tt
take-All P (suc n) [] h = tt
take-All P (suc n) (x ∷ xs) h = (h.0, take-All P n xs h.1)
