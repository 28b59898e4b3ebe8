-- ===== src/Tenant/Atomicity.antt =====
-- internal/tenantdb/tenantdb.go: a transaction that fails leaves no trace.
use gatstogo.Base.{ℕ, ◌≡◌, refl, true, false, none, some, Bool-cases, inl, inr}
use gatstogo.Error.{Result, ok, err}
use gatstogo.Db.Schema.{Db}
use gatstogo.Db.Statement.{Store, M, connected}
use gatstogo.Tenant.{fails, later, commit, finish, in_transaction, begin, with_tenant, scoped}

-- What WithTenant promises of the store that it leaves, for each result.
abbrev pub Sealed {ℓ} : {A : Type ℓ} → Store → Result A × Store → Type 0
Sealed s (ok a, t) = (t.in_tx ≡ false) × (t.scope ≡ none)
Sealed s (err e, t) = (t.in_tx ≡ false) × (t.scope ≡ none) × (t.aborted ≡ false) × (t.db ≡ s.db)

module _ {ℓ} {A : Type ℓ} where
  commit-Sealed : (s : Store) (a : A) (t : Store) → Sealed s (commit s.db a t)
  unfolding commit
  commit-Sealed s a t = elim (Bool-cases t.aborted) [
    | inl bad ↦ rw bad (refl, refl, refl, refl)
    | inr good ↦ rw good (elim (Bool-cases (fails t.faults)) [
      | inl lost ↦ rw lost (refl, refl, refl, refl)
      | inr kept ↦ rw kept (refl, refl)
    ])
  ]

  finish-Sealed : (s : Store) (r : Result A) (t : Store) → Sealed s (finish s.db r t)
  unfolding finish
  finish-Sealed s (ok a) t = commit-Sealed s a t
  finish-Sealed s (err e) t = (refl, refl, refl, refl)

  in_transaction-Sealed : (plant : ℕ) (f : M A) (s : Store) → Sealed s (in_transaction plant f s)
  unfolding in_transaction
  in_transaction-Sealed plant f s =
      let (r, t) = scoped plant f (record s { in_tx = true; aborted = false }) in
      finish-Sealed s r t

  begin-Sealed :
      (plant : ℕ) (f : M A) (s : Store)
      → s.in_tx ≡ false
      → s.aborted ≡ false
      → s.scope ≡ none
      → Sealed s (begin plant f s)
  unfolding begin
  begin-Sealed plant f s h k j = elim (Bool-cases (fails s.faults)) [
    | inl lost ↦ rw lost (h, j, k, refl)
    | inr got ↦ rw got (in_transaction-Sealed plant f (record s { faults = later s.faults }))
  ]

  -- From a pool, whatever the function does and whichever step fails: the connection leaves the
  -- transaction and the tenant's scope, and on an error the tables are what they were.
  pub with_tenant-Sealed :
      (plant : ℕ) (f : M A) (s : Store)
      → s.in_tx ≡ false
      → s.aborted ≡ false
      → s.scope ≡ none
      → Sealed s (with_tenant plant f s)
  unfolding with_tenant
  with_tenant-Sealed plant f s h k j = elim (Bool-cases (fails s.faults)) [
    | inl lost ↦ rw lost (h, j, k, refl)
    | inr got ↦ rw got (begin-Sealed plant f (record s { faults = later s.faults }) h k j)
  ]

  -- With no failure, a function that returns in the transaction has its tables committed: the
  -- caller has its result and its tables, out of the transaction and out of scope.
  with_tenant-commit :
      (plant : ℕ) (f : M A) (now : ℕ) (db db' : Db) (a : A)
      → f (connected true (some plant) now db) ≡ (ok a, connected true (some plant) now db')
      → with_tenant plant f (connected false none now db) ≡ (ok a, connected false none now db')
  unfolding with_tenant
  with_tenant-commit plant f now db db' a h = rw (h, finish)
