-- ===== src/Db/Table/Distinct.antt =====
-- Unique indexes: no two rows of a table clash.
use gatstogo.Base.{
  ◌≡◌, refl, Bool, true, false, Bool-cases, inl, inr, List, [], ◌∷◌, All, arith, if◌then◌else◌,
}
use gatstogo.Db.Table.{update_where, exists_where}

module _ {ℓ} {A : Type ℓ} (clash : A → A → Bool) where
  -- `clash` is the condition under which a unique index refuses two rows.
  abbrev pub Distinct : List A → Type 0
  Distinct [] = Unit {0}
  Distinct (x ∷ xs) = (exists_where (clash x) xs ≡ false) × Distinct xs

  module _ {κ} {R : A → A → Type κ} (p : A → Bool) (f : A → A)
      (old : (x x' y y' : A) → R x x' → R y y' → clash x' y' ≡ true → clash x y ≡ true) where
    abbrev updated : A → A
    updated x = if p x then f x else x

    no_new_clash :
        (x : A) (ys : List A)
        → R x (updated x)
        → All (λ y. R y (updated y)) ys
        → exists_where (clash x) ys ≡ false
        → exists_where (clash (updated x)) (update_where p f ys) ≡ false
    unfolding exists_where update_where
    no_new_clash x [] r rs h = refl
    no_new_clash x (y ∷ ys) r rs h = elim (Bool-cases (clash (updated x) (updated y))) [
      | inl new ↦ ground (arith, old x (updated x) y (updated y) r rs.0 new)
      | inr none ↦ rw none (no_new_clash x ys r rs.1 (ground arith))
    ]

    -- An UPDATE that makes no new clash keeps the index.
    pub Distinct-update_where :
        (ys : List A) → All (λ y. R y (updated y)) ys → Distinct ys → Distinct (update_where p f ys)
    unfolding update_where
    Distinct-update_where [] rs h = tt
    Distinct-update_where (y ∷ ys) rs h =
        (no_new_clash y ys rs.0 rs.1 h.0, Distinct-update_where ys rs.1 h.1)
