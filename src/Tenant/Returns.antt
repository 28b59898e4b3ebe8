-- ===== src/Tenant/Returns.antt =====
-- internal/tenantdb/tenantdb.go: what it takes for WithTenant to return no error.
use gatstogo.Base.{ℕ, ◌≡◌, refl, ◌∙◌, true, false, Bool-cases, inl, inr}
use gatstogo.Error.{Result, ok, err}
use gatstogo.Db.Schema.{Db}
use gatstogo.Db.Statement.{Store, M, continue, ◌>>=◌}
use gatstogo.Tenant.Invariants.{Keeps-set_config}
use gatstogo.Tenant.{
  fails, later, set_config, rollback, commit, finish, scoped, in_transaction, begin, with_tenant,
}

module _ {ℓ} {A : Type ℓ} where
  commit-eq-ok :
      (before : Db) (a b : A) (t : Store)
      → (commit before a t).0 ≡ ok b
      → (◌≡◌ {A = Result A} (ok a) (ok b)) × ((commit before a t).1.db ≡ t.db)
  unfolding commit rollback
  commit-eq-ok before a b t h = elim (Bool-cases t.aborted) [
    | inl bad ↦ let h' = rw bad at h in cc
    | inr good ↦ elim (Bool-cases (fails t.faults)) [
      | inl lost ↦ let h' = rw (good, lost) at h in cc
      | inr kept ↦ let h' = rw (good, kept) at h in rw (good, kept) (h', refl)
    ]
  ]

  finish-eq-ok :
      (before : Db) (r : Result A) (b : A) (t : Store)
      → (finish before r t).0 ≡ ok b
      → (r ≡ ok b) × ((finish before r t).1.db ≡ t.db)
  unfolding finish rollback
  finish-eq-ok before (ok a) b t h = commit-eq-ok before a b t h
  finish-eq-ok before (err e) b t h = cc

module _ {ℓ} {A : Type ℓ} (plant : ℕ) (m : M A) (a : A) where
  -- The function ran on tables like these, and returned this from there.
  abbrev Ran : Store → Result A × Store → Type ℓ
  Ran s (r, s') = (t : Store) × (t.db ≡ s.db) × ((m t).0 ≡ ok a) × (s'.db ≡ (m t).1.db)

  scoped_runs :
      (r : Result (Unit {0})) (s t : Store)
      → t.db ≡ s.db
      → (continue r (λ _. m) t).0 ≡ ok a
      → Ran s (continue r (λ _. m) t)
  scoped_runs (ok u) s t same h = (t, same, h, refl)
  scoped_runs (err e) s t same h = cc

  in_transaction-Ran :
      (s : Store) → (in_transaction plant m s).0 ≡ ok a → Ran s (in_transaction plant m s)
  unfolding in_transaction scoped ◌>>=◌
  in_transaction-Ran s h =
      let s' = record s { in_tx = true; aborted = false } in
      let set = set_config plant s' in
      let body = continue set.0 (λ _. m) set.1 in
      let (returned, kept) = finish-eq-ok s.db body.0 a body.1 h in
      let same = (Keeps-set_config (λ db. db ≡ s.db) plant).at s' refl in
      let (t, here, answer, tables) = scoped_runs set.0 s set.1 same returned in
      (t, here, answer, kept ∙ tables)

  begin-Ran : (s : Store) → (begin plant m s).0 ≡ ok a → Ran s (begin plant m s)
  unfolding begin
  begin-Ran s h = elim (Bool-cases (fails s.faults)) [
    | inl lost ↦ let h' = rw lost at h in cc
    | inr begun ↦
        let h' = rw begun at h in
        rw begun (in_transaction-Ran (record s { faults = later s.faults }) h')
  ]

  -- Where WithTenant returns no error, the function ran, on the tables as they were, and the tables
  -- are as it left them.
  pub with_tenant-Ran :
      (s : Store) → (with_tenant plant m s).0 ≡ ok a → Ran s (with_tenant plant m s)
  unfolding with_tenant
  with_tenant-Ran s h = elim (Bool-cases (fails s.faults)) [
    | inl lost ↦ let h' = rw lost at h in cc
    | inr acquired ↦
        let h' = rw acquired at h in
        rw acquired (begin-Ran (record s { faults = later s.faults }) h')
  ]
