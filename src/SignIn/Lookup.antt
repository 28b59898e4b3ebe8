-- ===== src/SignIn/Lookup.antt =====
-- cmd/server/auth.go: the look-up of a user inside WithTenant.
use gatstogo.Base.{ℕ, ◌≡◌, sym, ap, ◌∙◌, Option, some, arith}
use gatstogo.Error.{Result, ok, err}
use gatstogo.Db.Schema.{Db}
use gatstogo.Db.Statement.{Store, query_row, attempt_then}
use gatstogo.Db.Statement.Takes.{ReadBy, query_row-ReadBy}
use gatstogo.Tenant.{with_tenant}
use gatstogo.Tenant.Returns.{with_tenant-Ran}
use gatstogo.SignIn.{optional}

module _ {ℓ} {A : Type ℓ} (f : Db → Option A) (a : A) where
  optional-eq-some : (r : Result A) (t : Store) → (optional r t).0 ≡ ok (some a) → r ≡ ok a
  unfolding optional
  optional-eq-some (ok b) t h = cc
  optional-eq-some (err e) t h = ground arith

  read_row :
      (t : Store) (r : Result A) (t' : Store) → r ≡ ok a → ReadBy f t (r, t') → f t.db ≡ some a
  read_row t (ok b) t' e read = let same : b ≡ a = cc in read.1 ∙ ap some same
  read_row t (err x) t' e read = cc

  -- A row that the look-up gives stands in the tables as they were.
  pub with_tenant-optional :
      (plant : ℕ) (s : Store)
      → (with_tenant plant (attempt_then (query_row f) optional) s).0 ≡ ok (some a)
      → f s.db ≡ some a
  unfolding optional attempt_then
  with_tenant-optional plant s h =
      let (t, same, answer, tables) = with_tenant-Ran plant _ (some a) s h in
      ap f (sym same)
      ∙ read_row t (query_row f t).0 (query_row f t).1
          (optional-eq-some (query_row f t).0 (query_row f t).1 answer) (query_row-ReadBy f t)
