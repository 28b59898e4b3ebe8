-- ===== src/Db/Statement/Returns.antt =====
-- internal/tenantdb/tenantdb.go: what it takes for statements to return no error.
use gatstogo.Base.{ℕ, ◌≡◌, refl, ap, ◌∙◌, Bool, true, false, Bool-cases, inl, inr, List, [], ◌∷◌}
use gatstogo.Error.{Result, ok, err}
use gatstogo.Db.Schema.{Db}
use gatstogo.Db.Statement.{Store, M, settle, attempt, statement, exec, continue, ◌>>=◌}

module _ {ℓ κ} {A : Type ℓ} {B : Type κ} (m : M A) (g : A → M B) (b : B) where
  abbrev Passed : Store → Result A → Store → Type (ℓ ⊔ κ)
  Passed s r t = (a : A) × (r ≡ ok a) × ((g a t).0 ≡ ok b) × (continue r g t ≡ g a t)

  continue-Passed :
      (s : Store) (r : Result A) (t : Store) → (continue r g t).0 ≡ ok b → Passed s r t
  continue-Passed s (ok a) t h = (a, refl, h, refl)
  continue-Passed s (err e) t h = cc

  -- A chain that returns has a first part that returned, and ends as its second part does.
  pub >>=-eq-ok :
      (s : Store)
      → ((m >>= g) s).0 ≡ ok b
      → (a : A) × ((m s).0 ≡ ok a) × ((g a (m s).1).0 ≡ ok b) × ((m >>= g) s ≡ g a (m s).1)
  unfolding ◌>>=◌
  >>=-eq-ok s h = continue-Passed s (m s).0 (m s).1 h

module _ {ℓ} {A : Type ℓ} (f : ℕ → Db → Result (A × Db)) (a : A) where
  abbrev Executed : Store → Result A × Store → Type ℓ
  Executed s (r, t) = (f s.now s.db ≡ ok (a, t.db)) × (t.now ≡ s.now)

  settle-Executed :
      (s t : Store) (r : Result (A × Db))
      → (settle r t).0 ≡ ok a
      → f s.now s.db ≡ r
      → t.now ≡ s.now
      → Executed s (settle r t)
  unfolding settle
  settle-Executed s t (ok (b, db)) h e n =
      let same : b ≡ a = cc in (e ∙ ap (λ x. ok (x, db)) same, n)
  settle-Executed s t (err x) h e n = cc

  attempt-Executed :
      (faults : List Bool) (s : Store)
      → (attempt faults f s).0 ≡ ok a
      → Executed s (attempt faults f s)
  unfolding attempt
  attempt-Executed [] s h = settle-Executed s s (f s.now s.db) h refl refl
  attempt-Executed (true ∷ rest) s h = cc
  attempt-Executed (false ∷ rest) s h =
      settle-Executed s (record s { faults = rest }) (f s.now s.db) h refl refl

  -- A statement that returns did to the tables what it does.
  pub statement-Executed : (s : Store) → (statement f s).0 ≡ ok a → Executed s (statement f s)
  unfolding statement
  statement-Executed s h = elim (Bool-cases s.aborted) [
    | inl bad ↦ let h' = rw bad at h in cc
    | inr good ↦ let h' = simp good at h in simp good (attempt-Executed s.faults s h')
  ]

pub exec-Executed {ℓ} :
    {A : Type ℓ} (f : ℕ → Db → A × Db) (a : A) (s : Store)
    → (exec f s).0 ≡ ok a
    → (f s.now s.db ≡ (a, (exec f s).1.db)) × ((exec f s).1.now ≡ s.now)
unfolding exec
exec-Executed f a s h = let (e, n) = statement-Executed (λ now db. ok (f now db)) a s h in (cc, n)
