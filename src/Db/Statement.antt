-- ===== src/Db/Statement.antt =====
-- internal/tenantdb/tenantdb.go: Querier. A statement runs against the tables, and may fail for
-- reasons outside of the program; in a transaction PostgreSQL refuses every statement that follows
-- a failed one (SQLSTATE 25P02) until the transaction ends.
pub mod Keeps
pub mod Takes
pub mod Returns
use gatstogo.Base.{ℕ, Bool, true, false, Option, none, some, List, [], ◌∷◌, if◌then◌else◌}
use gatstogo.Error.{Error, driver, in_failed_transaction, no_rows, Result, ok, err}
use gatstogo.Db.Schema.{Db}

-- What a Querier stands for: the tables; whether it is a transaction, and one with a failed
-- statement; which of the statements to come fail by themselves; the setting
-- app.current_plant_id; the time that now() returns.
pub record Store : Type 0 where
  pub db : Db
  pub in_tx : Bool
  pub aborted : Bool
  pub faults : List Bool
  pub scope : Option ℕ
  pub now : ℕ

-- A querier with no failure ahead: a transaction or not, with or without a tenant set.
abbrev pub connected : Bool → Option ℕ → ℕ → Db → Store
connected in_tx scope now db = record {
  db = db;
  in_tx = in_tx;
  aborted = false;
  faults = [];
  scope = scope;
  now = now;
}

abbrev pub M {ℓ} : Type ℓ → Type ℓ
M A = Store → Result A × Store

module _ {ℓ} {A : Type ℓ} where
  unfoldable pub pure : A → M A
  pure a s = (ok a, s)

  unfoldable pub raise : Error → M A
  raise e s = (err e, s)

  unfoldable pub lift : Result A → M A
  lift r s = (r, s)

  pub settle : Result (A × Db) → Store → Result A × Store
  settle (ok (a, db)) s = (ok a, record s { db = db })
  settle (err e) s = (err e, record s { aborted = s.in_tx })

  pub attempt : List Bool → (ℕ → Db → Result (A × Db)) → Store → Result A × Store
  unfolding settle
  attempt [] f s = settle (f s.now s.db) s
  attempt (true ∷ rest) f s = (err driver, record s { faults = rest; aborted = s.in_tx })
  attempt (false ∷ rest) f s = settle (f s.now s.db) (record s { faults = rest })

  -- One statement; `f` is what it does to the tables at the time that it is given.
  unfoldable pub statement : (ℕ → Db → Result (A × Db)) → M A
  unfolding attempt
  statement f s = if s.aborted then (err in_failed_transaction, s) else attempt s.faults f s

  or_no_rows : Option A → M A
  or_no_rows none s = (err no_rows, s)
  or_no_rows (some a) s = (ok a, s)

module _ {ℓ κ} {A : Type ℓ} {B : Type κ} where
  abbrev pub continue : Result A → (A → M B) → M B
  continue (err e) _ s = (err e, s)
  continue (ok x) next s = next x s

  infixl 10 ◌>>=◌ ◌>>◌
  unfoldable pub ◌>>=◌ : M A → (A → M B) → M B
  unfolding pure raise lift
  ◌>>=◌ first next s = let (outcome, after) = first s in continue outcome next after

  abbrev pub ◌>>◌ : M A → M B → M B
  ◌>>◌ first second = first >>= λ _. second

  -- A handler for the error: Go's `if err != nil`, where the code goes on.
  abbrev recover : Result A → (Result A → M B) → M B
  recover r f s = f r s

  unfoldable pub attempt_then : M A → (Result A → M B) → M B
  attempt_then m f s = let (r, s') = m s in recover r f s'

module _ {ℓ} {A : Type ℓ} where
  -- A query that changes nothing.
  unfoldable pub query : (Db → A) → M A
  unfolding statement
  query f = statement λ _ db. ok (f db, db)

  -- Exec of a statement that no constraint refuses, with its command tag.
  unfoldable pub exec : (ℕ → Db → A × Db) → M A
  unfolding statement
  exec f = statement λ now db. ok (f now db)

module _ {ℓ} {A : Type ℓ} where
  -- QueryRow and Scan: no row is pgx.ErrNoRows, which is no failure of the statement.
  unfoldable pub query_row : (Db → Option A) → M A
  unfolding query or_no_rows ◌>>=◌
  query_row f = query f >>= or_no_rows

  -- QueryRow over UPDATE … RETURNING: a row that may be missing, and the new tables.
  unfoldable pub exec_returning : (ℕ → Db → Option A × Db) → M A
  unfolding exec or_no_rows ◌>>=◌
  exec_returning f = exec f >>= or_no_rows

  -- QueryRow over INSERT … ON CONFLICT DO NOTHING … RETURNING, which a constraint may refuse.
  unfoldable pub insert_returning : (ℕ → Db → Result (Option A × Db)) → M A
  unfolding statement or_no_rows ◌>>=◌
  insert_returning f = statement f >>= or_no_rows
