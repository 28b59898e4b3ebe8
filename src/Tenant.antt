-- ===== src/Tenant.antt =====
-- internal/tenantdb/tenantdb.go: WithTenant, and internal/audit/audit.go: Log. The caller's Store is
-- the pool; the function runs on one that is in a transaction and scoped to the plant.
pub mod Atomicity
pub mod Invariants
pub mod Returns
use gatstogo.Base.{
  ℕ, Bool, true, false, Option, none, some, List, [], ◌∷◌, ◌++◌, Text, if◌then◌else◌,
}
use gatstogo.Error.{Error, driver, in_failed_transaction, Result, ok, err}
use gatstogo.Db.Schema.{Db, AuditRow}
use gatstogo.Db.Statement.{Store, M, exec, statement, ◌>>=◌, ◌>>◌}

-- pool.Acquire, conn.Begin and tx.Commit fail by themselves like a statement does.
fails : List Bool → Bool
fails [] = false
fails (f ∷ rest) = f

later : List Bool → List Bool
later [] = []
later (f ∷ rest) = rest

-- SELECT set_config('app.current_plant_id', $1, true).
scope_set : ℕ → Result (Unit {0}) → Store → Result (Unit {0}) × Store
scope_set plant (ok u) t = (ok u, record t { scope = some plant })
scope_set plant (err e) t = (err e, t)

pub set_config : ℕ → M (Unit {0})
unfolding scope_set statement
set_config plant t = let (r, t') = statement (λ _ db. ok (tt, db)) t in scope_set plant r t'

module _ {ℓ} {A : Type ℓ} where
  -- The deferred rollback: the tables are again what they were, and SET LOCAL ends.
  rollback : Db → Error → Store → Result A × Store
  rollback before e t =
      (err e, record t { db = before; in_tx = false; aborted = false; scope = none })

  -- tx.Commit. A transaction with a failed statement is rolled back, and pgx reports that.
  commit : Db → A → Store → Result A × Store
  unfolding rollback fails later
  commit before a t =
      if t.aborted
      then rollback before in_failed_transaction t
      else if fails t.faults
      then rollback before driver (record t { faults = later t.faults })
      else (ok a, record t { faults = later t.faults; in_tx = false; scope = none })

  finish : Db → Result A → Store → Result A × Store
  unfolding commit
  finish before (ok a) t = commit before a t
  finish before (err e) t = rollback before e t

  scoped : ℕ → M A → M A
  unfolding set_config ◌>>=◌
  scoped plant f = do set_config plant; f

  in_transaction : ℕ → M A → M A
  unfolding scoped finish
  in_transaction plant f s =
      let (r, t) = scoped plant f (record s { in_tx = true; aborted = false }) in finish s.db r t

  begin : ℕ → M A → M A
  unfolding in_transaction fails later
  begin plant f s =
      if fails s.faults
      then (err driver, record s { faults = later s.faults })
      else in_transaction plant f (record s { faults = later s.faults })

  unfoldable pub with_tenant : ℕ → M A → M A
  unfolding begin fails later
  with_tenant plant f s =
      if fails s.faults
      then (err driver, record s { faults = later s.faults })
      else begin plant f (record s { faults = later s.faults })

-- audit.Log: an INSERT that nothing refuses.
unfoldable pub log : Option ℕ → Option ℕ → Text → Text → M (Unit {0})
unfolding exec
log plant actor action subject =
    exec λ now db. (tt, record db { activity_log = db.activity_log ++ entry ∷ [] })
  where
    entry : AuditRow
    entry = record { plant_id = plant; actor_id = actor; action = action; subject = subject }
