-- ===== src/Db/Statement/Keeps.antt =====
-- Invariants of the tables, one rule for each way to build an action. The rules say nothing of what
-- an action returns, so an invariant that they give holds whatever statement fails.
use gatstogo.Base.{
  ℕ, ◌≡◌, refl, subst, Bool, true, false, Option, none, some, List, [], ◌∷◌, arith, if◌then◌else◌,
}
use gatstogo.Error.{Error, Result, ok, err}
use gatstogo.Db.Schema.{Db}
use gatstogo.Db.Statement.{
  Store, M, pure, raise, lift, settle, attempt, statement, query, query_row, or_no_rows, exec,
  exec_returning, insert_returning, continue, ◌>>=◌, attempt_then,
}

-- `m` keeps `P` of the tables, whether it returns or fails.
pub record Keeps {ℓ κ} {A : Type ℓ} (P : Db → Type κ) (m : M A) : Type (ℓ ⊔ κ) where
  pub at : (s : Store) → P s.db → P (m s).1.db

module _ {ℓ κ} {A : Type ℓ} {P : Db → Type κ} where
  -- An action that only looks at the store.
  Keeps-idle : (m : M A) → ((s : Store) → (m s).1 ≡ s) → Keeps P m
  Keeps-idle m same = record { at = λ s h. rw (same s) h }

  pub Keeps-lift : (outcome : Result A) → Keeps P (lift outcome)
  unfolding lift
  Keeps-lift outcome = Keeps-idle (lift outcome) (λ s. refl)

  pub Keeps-raise : (why : Error) → Keeps P (raise {A = A} why)
  unfolding raise
  Keeps-raise why = Keeps-idle (raise why) (λ s. refl)

  pub Keeps-pure : (x : A) → Keeps P (pure x)
  unfolding pure
  Keeps-pure x = Keeps-idle (pure x) (λ s. refl)

  settle-keeps :
      (r : Result (A × Db)) (s : Store)
      → P s.db
      → ((a : A) (db : Db) → r ≡ ok (a, db) → P db)
      → P (settle r s).1.db
  unfolding settle
  settle-keeps (ok (a, db)) s h keep = keep a db refl
  settle-keeps (err e) s h keep = h

  module _ (f : ℕ → Db → Result (A × Db))
      (keep : (now : ℕ) (db : Db) (a : A) (db' : Db) → P db → f now db ≡ ok (a, db') → P db') where
    attempt-keeps : (faults : List Bool) (s : Store) → P s.db → P (attempt faults f s).1.db
    unfolding attempt
    attempt-keeps [] s h = settle-keeps (f s.now s.db) s h (λ a db e. keep s.now s.db a db h e)
    attempt-keeps (true ∷ rest) s h = h
    attempt-keeps (false ∷ rest) s h =
        settle-keeps (f s.now s.db) (record s { faults = rest }) h
          (λ a db e. keep s.now s.db a db h e)

    unless_aborted-keeps :
        (b : Bool) (s : Store)
        → P s.db
        → P (if b then (err Error.in_failed_transaction, s) else attempt s.faults f s).1.db
    unless_aborted-keeps true s h = h
    unless_aborted-keeps false s h = attempt-keeps s.faults s h

    pub Keeps-statement : Keeps P (statement f)
    unfolding statement
    Keeps-statement = record { at = λ s h. unless_aborted-keeps s.aborted s h }

  pub Keeps-query : (f : Db → A) → Keeps P (query f)
  unfolding query
  Keeps-query f = Keeps-statement _ (λ now db a db' h e. subst P (ground arith) h)

  pub Keeps-exec :
      (f : ℕ → Db → A × Db) → ((now : ℕ) (db : Db) → P db → P (f now db).1) → Keeps P (exec f)
  unfolding exec
  Keeps-exec f keep = Keeps-statement _ (λ now db a db' h e. subst P (ground arith) (keep now db h))

  Keeps-or_no_rows : (o : Option A) → Keeps P (or_no_rows o)
  unfolding or_no_rows
  Keeps-or_no_rows none = record { at = λ s h. h }
  Keeps-or_no_rows (some a) = record { at = λ s h. h }

  pub Keeps-if :
      (test : Bool) (yes_branch no_branch : M A)
      → Keeps P yes_branch
      → Keeps P no_branch
      → Keeps P (if test then yes_branch else no_branch)
  Keeps-if true _ _ kept _ = kept
  Keeps-if false _ _ _ kept = kept

module _ {ℓ κ ι} {A : Type ℓ} {B : Type κ} {P : Db → Type ι} where
  Keeps-continue :
      (outcome : Result A) (next : A → M B) (s : Store)
      → ((x : A) → Keeps P (next x))
      → P s.db
      → P (continue outcome next s).1.db
  Keeps-continue (err why) next s kept h = h
  Keeps-continue (ok x) next s kept h = (kept x).at s h

  pub Keeps-bind :
      (first : M A) (next : A → M B)
      → Keeps P first
      → ((x : A) → Keeps P (next x))
      → Keeps P (first >>= next)
  unfolding ◌>>=◌
  Keeps-bind first next kept_first kept_next = record {
    at = λ s h.
        let (outcome, after) = first s in
        Keeps-continue outcome next after kept_next (kept_first.at s h);
  }

  pub Keeps-attempt_then :
      (m : M A) (f : Result A → M B)
      → Keeps P m
      → ((r : Result A) → Keeps P (f r))
      → Keeps P (attempt_then m f)
  unfolding attempt_then
  Keeps-attempt_then m f km kf = record {
    at = λ s h. let (r, s') = m s in (kf r).at s' (km.at s h);
  }

module _ {ℓ κ} {A : Type ℓ} {P : Db → Type κ} where
  pub Keeps-query_row : (f : Db → Option A) → Keeps P (query_row f)
  unfolding query_row
  Keeps-query_row f = Keeps-bind (query f) or_no_rows (Keeps-query f) Keeps-or_no_rows

  pub Keeps-exec_returning :
      (f : ℕ → Db → Option A × Db)
      → ((now : ℕ) (db : Db) → P db → P (f now db).1)
      → Keeps P (exec_returning f)
  unfolding exec_returning
  Keeps-exec_returning f keep = Keeps-bind (exec f) or_no_rows (Keeps-exec f keep) Keeps-or_no_rows

  pub Keeps-insert_returning :
      (f : ℕ → Db → Result (Option A × Db))
      → ((now : ℕ) (db : Db) (a : Option A) (db' : Db) → P db → f now db ≡ ok (a, db') → P db')
      → Keeps P (insert_returning f)
  unfolding insert_returning
  Keeps-insert_returning f keep =
      Keeps-bind (statement f) or_no_rows (Keeps-statement f keep) Keeps-or_no_rows

-- The rules for all but the statements that change the tables.
pub ruleset keeps_rules = (
  Keeps-pure, Keeps-raise, Keeps-lift, Keeps-query, Keeps-query_row, Keeps-if, Keeps-bind,
  Keeps-attempt_then,
)
