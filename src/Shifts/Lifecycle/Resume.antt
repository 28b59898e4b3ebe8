-- ===== src/Shifts/Lifecycle/Resume.antt =====
-- internal/shifts/shifts.go: a second StartOrResume finds the shift of the first.
use gatstogo.Base.{
  ℕ, ◌≡◌, refl, ap, sym, ◌∙◌, ℤ, Bool, true, false, ◌||◌, Bool-cases, Option-cases, inl, inr,
  Option, none, some, ◌∷◌, Text, arith, ==_refl,
}
use gatstogo.Error.{unique_violation, ok, err}
use gatstogo.Db.Schema.{Db}
use gatstogo.Db.Table.{exists_where, find_where}
use gatstogo.Db.Statement.{Store, connected}
use gatstogo.Shifts.Lifecycle.{
  Shift, same_shift_id, same_open_shift, open_shift, new_shift, opening_float, opened,
  start_or_resume,
}

module _ (plant user : ℕ) (in_tx : Bool) (scope : Option ℕ) (now : ℕ) where
  start_found :
      (opening : ℤ) (device : Text) (pump : Option ℕ) (id : ℕ) (db : Db) (x : Shift)
      → open_shift plant user db ≡ some x
      → start_or_resume plant user opening device pump id (connected in_tx scope now db)
        ≡ (ok (x, true), connected in_tx scope now db)
  unfolding start_or_resume
  start_found opening device pump id db x h = rw h refl

  -- The tables after a new shift, and its opening float.
  abbrev pub with_new : ℤ → Text → Option ℕ → ℕ → Db → Db
  with_new opening device pump id db = record db {
    shifts = new_shift plant user opening device pump id now ∷ db.shifts;
    cash_movements = opening_float plant id user opening ∷ db.cash_movements;
  }

  pub start_new :
      (opening : ℤ) (device : Text) (pump : Option ℕ) (id : ℕ) (db : Db)
      → open_shift plant user db ≡ none
      → (exists_where (same_shift_id (new_shift plant user opening device pump id now)) db.shifts
          || exists_where
              (same_open_shift (new_shift plant user opening device pump id now))
              db.shifts)
        ≡ false
      → start_or_resume plant user opening device pump id (connected in_tx scope now db) ≡ (
        ok (opened user opening pump (id, now), false),
        connected in_tx scope now (with_new opening device pump id db),
      )
  unfolding start_or_resume
  start_new opening device pump id db h free = rw (h, free) refl

  start_refused :
      (opening : ℤ) (device : Text) (pump : Option ℕ) (id : ℕ) (db : Db)
      → open_shift plant user db ≡ none
      → (exists_where (same_shift_id (new_shift plant user opening device pump id now)) db.shifts
          || exists_where
              (same_open_shift (new_shift plant user opening device pump id now))
              db.shifts)
        ≡ true
      → (start_or_resume plant user opening device pump id (connected in_tx scope now db)).0
        ≡ err unique_violation
  unfolding start_or_resume
  start_refused opening device pump id db h taken = rw (h, taken) refl

  found_new :
      (opening : ℤ) (device : Text) (pump : Option ℕ) (id : ℕ) (db : Db)
      → open_shift plant user (with_new opening device pump id db)
        ≡ some (opened user opening pump (id, now))
  unfolding open_shift find_where
  found_new opening device pump id db = rw (==_refl plant, ==_refl user) refl

  -- Once StartOrResume has returned a shift, a second call for the same user, whatever its other
  -- arguments, returns that same shift as resumed and changes nothing.
  pub start_or_resume_again :
      (opening opening' : ℤ) (device device' : Text) (pump pump' : Option ℕ) (id id' : ℕ) (db : Db)
      (shift : Shift) (resumed : Bool) (t : Store)
      → start_or_resume plant user opening device pump id (connected in_tx scope now db)
        ≡ (ok (shift, resumed), t)
      → start_or_resume plant user opening' device' pump' id' t ≡ (ok (shift, true), t)
  start_or_resume_again opening opening' device device' pump pump' id id' db shift resumed t e =
      elim (Option-cases (open_shift plant user db)) [
        | inr (x, found) ↦
            let same = sym (start_found opening device pump id db x found) ∙ e in
            ground (arith, start_found opening' device' pump' id' db x found)
        | inl absent ↦
            elim (Bool-cases (
              exists_where (same_shift_id (new_shift plant user opening device pump id now))
                db.shifts
              || exists_where (same_open_shift (new_shift plant user opening device pump id now))
                  db.shifts)) [
                    | inl taken ↦
                        let refused =
                          sym (start_refused opening device pump id db absent taken)
                          ∙ ap (λ r. r.0) e in
                        cc
                    | inr free ↦
                        let same = sym (start_new opening device pump id db absent free) ∙ e in
                        ground (
                          arith,
                          start_found opening' device' pump' id'
                              (with_new opening device pump id db) _
                              (found_new opening device pump id db),
                        )
                  ]
      ]
