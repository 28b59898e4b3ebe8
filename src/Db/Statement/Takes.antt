-- ===== src/Db/Statement/Takes.antt =====
-- What an action makes of the tables from a stronger assumption: for code that reads a row, decides,
-- and writes without testing again.
use gatstogo.Base.{
  ℕ, ◌≡◌, refl, sym, subst, inl, inr, Bool-cases, Bool, true, false, Option, none, some, List, [],
  ◌∷◌, if◌then◌else◌,
}
use gatstogo.Error.{Error, Result, ok, err}
use gatstogo.Db.Schema.{Db}
use gatstogo.Db.Statement.{
  Store, M, attempt, statement, query_row, or_no_rows, exec, continue, ◌>>=◌,
}
use gatstogo.Db.Statement.Keeps.{Keeps}

-- From tables with `P`, `m` leaves tables with `Q`, whether it returns or fails.
pub record Takes {ℓ κ ι} {A : Type ℓ} (P : Db → Type κ) (Q : Db → Type ι) (m : M A)
    : Type (ℓ ⊔ κ ⊔ ι) where
  pub at : (s : Store) → P s.db → Q (m s).1.db

module _ {ℓ κ ι} {A : Type ℓ} {P : Db → Type κ} {Q : Db → Type ι}
    (weaken : (db : Db) → P db → Q db) where
  pub Takes-Keeps : (m : M A) → Keeps Q m → Takes P Q m
  Takes-Keeps m k = record { at = λ s h. k.at s (weaken s.db h) }

  module _ (f : ℕ → Db → A × Db) (write : (now : ℕ) (db : Db) → P db → Q (f now db).1) where
    attempt-Takes :
        (faults : List Bool) (s : Store)
        → P s.db
        → Q (attempt faults (λ now db. ok (f now db)) s).1.db
    unfolding attempt
    attempt-Takes [] s h = write s.now s.db h
    attempt-Takes (true ∷ rest) s h = weaken s.db h
    attempt-Takes (false ∷ rest) s h = write s.now s.db h

    unless_aborted-Takes :
        (b : Bool) (s : Store)
        → P s.db
        → Q
            (if b
              then (err Error.in_failed_transaction, s)
              else attempt s.faults (λ now db. ok (f now db)) s).1.db
    unless_aborted-Takes true s h = weaken s.db h
    unless_aborted-Takes false s h = attempt-Takes s.faults s h

    pub Takes-exec : Takes P Q (exec f)
    unfolding exec statement
    Takes-exec = record { at = λ s h. unless_aborted-Takes s.aborted s h }

module _ {ℓ κ ν} {A : Type ℓ} {B : Type κ} {Q : Db → Type ν} where
  Takes-continue :
      (r : Result A) (f : A → M B) (s : Store)
      → ((a : A) → Keeps Q (f a))
      → Q s.db
      → Q (continue r f s).1.db
  Takes-continue (ok a) f s kf h = (kf a).at s h
  Takes-continue (err e) f s kf h = h

  pub Takes-bind {ι} :
      {P : Db → Type ι} (m : M A) (f : A → M B)
      → Takes P Q m
      → ((a : A) → Keeps Q (f a))
      → Takes P Q (m >>= f)
  unfolding ◌>>=◌
  Takes-bind m f km kf = record {
    at = λ s h. let (r, s') = m s in Takes-continue r f s' kf (km.at s h);
  }

module _ {ℓ} {A : Type ℓ} (f : Db → Option A) where
  -- What a query of one row leaves: the tables as they were, and on success the row they have.
  abbrev pub ReadBy : Store → Result A × Store → Type ℓ
  ReadBy s (ok a, t) = (t.db ≡ s.db) × (f s.db ≡ some a)
  ReadBy s (err e, t) = (t.db ≡ s.db) × Unit {ℓ}

  read_option : (o : Option A) (t : Store) → f t.db ≡ o → ReadBy t (or_no_rows o t)
  unfolding or_no_rows
  read_option none t e = (refl, tt)
  read_option (some a) t e = (refl, e)

  read_attempt :
      (faults : List Bool) (s : Store)
      → let (r, t) = attempt faults (λ now db. ok (f db, db)) s in
        ReadBy s (continue r or_no_rows t)
  unfolding attempt
  read_attempt [] s = read_option (f s.db) s refl
  read_attempt (true ∷ rest) s = (refl, tt)
  read_attempt (false ∷ rest) s = read_option (f s.db) (record s { faults = rest }) refl

  pub query_row-ReadBy : (s : Store) → ReadBy s (query_row f s)
  unfolding query_row statement
  query_row-ReadBy s = elim (Bool-cases s.aborted) [
    | inl bad ↦ simp bad (refl, tt)
    | inr good ↦ simp good (read_attempt s.faults s)
  ]

module _ {ℓ κ ι} {A : Type ℓ} {B : Type κ} {P : Db → Type ι} (f : Db → Option A) (g : A → M B)
    (rest : (a : A) → Takes (λ db. P db × (f db ≡ some a)) P (g a)) where
  read_continue :
      (s : Store) (r : Result A) (t : Store) → ReadBy f s (r, t) → P s.db → P (continue r g t).1.db
  read_continue s (ok a) t (same, e) h = (rest a).at t (subst P (sym same) h, rw same e)
  read_continue s (err x) t (same, _) h = subst P (sym same) h

  -- The code after a query of one row may use that the row is the one that the tables have.
  pub Keeps-query_row-bind : Keeps P (query_row f >>= g)
  unfolding ◌>>=◌
  Keeps-query_row-bind = record {
    at = λ s h. let (r, t) = query_row f s in read_continue s r t (query_row-ReadBy f s) h;
  }
