-- ===== src/Tenant/Invariants.antt =====
-- internal/tenantdb/tenantdb.go and internal/audit/audit.go: what a transaction keeps of the tables.
use gatstogo.Base.{ℕ, true, false, Bool-cases, inl, inr, Option, List, Text, arith, subst}
use gatstogo.Error.{Result, ok, err}
use gatstogo.Db.Schema.{Db, AuditRow}
use gatstogo.Db.Statement.{Store, M, statement}
use gatstogo.Db.Statement.Keeps.{Keeps, Keeps-statement, Keeps-bind, Keeps-exec}
use gatstogo.Tenant.{
  fails, later, scope_set, set_config, rollback, commit, finish, scoped, in_transaction, begin,
  with_tenant, log,
}

module _ {κ} (P : Db → Type κ) where
  scope_set-keeps :
      (plant : ℕ) (r : Result (Unit {0})) (t : Store) → P t.db → P (scope_set plant r t).1.db
  unfolding scope_set
  scope_set-keeps plant (ok u) t h = h
  scope_set-keeps plant (err e) t h = h

  pub Keeps-set_config : (plant : ℕ) → Keeps P (set_config plant)
  unfolding set_config
  Keeps-set_config plant =
      let inner : Keeps P (statement {A = Unit {0}} (λ _ db. ok (tt, db))) =
        Keeps-statement _ (λ now db a db' h e. subst P (ground arith) h) in
      record {
        at = λ s h.
            let (r, t) = statement (λ _ db. ok (tt, db)) s in
            scope_set-keeps plant r t (inner.at s h);
      }

  commit-keeps {ℓ} :
      {A : Type ℓ} (before : Db) (a : A) (t : Store)
      → P before
      → P t.db
      → P (commit before a t).1.db
  unfolding commit rollback
  commit-keeps before a t hb ht = elim (Bool-cases t.aborted) [
    | inl bad ↦ rw bad hb
    | inr good ↦ elim (Bool-cases (fails t.faults)) [
      | inl lost ↦ simp (good, lost) hb
      | inr done ↦ simp (good, done) ht
    ]
  ]

  finish-keeps {ℓ} :
      {A : Type ℓ} (before : Db) (r : Result A) (t : Store)
      → P before
      → P t.db
      → P (finish before r t).1.db
  unfolding finish rollback
  finish-keeps before (ok a) t hb ht = commit-keeps before a t hb ht
  finish-keeps before (err e) t hb ht = hb

  in_transaction-keeps {ℓ} :
      {A : Type ℓ} (plant : ℕ) (m : M A) (s : Store)
      → Keeps P m
      → P s.db
      → P (in_transaction plant m s).1.db
  unfolding in_transaction scoped
  in_transaction-keeps plant m s k h =
      let all : Keeps P (scoped plant m) = Keeps-bind _ _ (Keeps-set_config plant) (λ _. k) in
      let s' : Store = record s { in_tx = true; aborted = false } in
      let (r, t) = scoped plant m s' in finish-keeps s.db r t h (all.at s' h)

  begin-keeps {ℓ} :
      {A : Type ℓ} (plant : ℕ) (m : M A) (s : Store) → Keeps P m → P s.db → P (begin plant m s).1.db
  unfolding begin
  begin-keeps plant m s k h = elim (Bool-cases (fails s.faults)) [
    | inl lost ↦ simp lost h
    | inr begun ↦
        simp begun (in_transaction-keeps plant m (record s { faults = later s.faults }) k h)
  ]

  -- An invariant that the function keeps is kept by WithTenant, however the transaction ends.
  pub Keeps-with_tenant {ℓ} :
      {A : Type ℓ} (plant : ℕ) (m : M A) → Keeps P m → Keeps P (with_tenant plant m)
  unfolding with_tenant
  Keeps-with_tenant plant m k = record {
    at = λ s h. elim (Bool-cases (fails s.faults)) [
      | inl lost ↦ simp lost h
      | inr acquired ↦
          simp acquired (begin-keeps plant m (record s { faults = later s.faults }) k h)
    ];
  }

module _ {κ} (P : Db → Type κ) where
  -- An invariant that does not read the activity log is kept by audit.Log.
  pub Keeps-log :
      ((db : Db) (rows : List AuditRow) → P db → P (record db { activity_log = rows }))
      → (plant actor : Option ℕ) (action subject : Text) → Keeps P (log plant actor action subject)
  unfolding log
  Keeps-log blind plant actor action subject = Keeps-exec _ (λ now db h. blind db _ h)
