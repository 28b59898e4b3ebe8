-- ===== src/Shifts/Lifecycle/Closing.antt =====
-- internal/shifts/shifts.go: what follows a Close.
use gatstogo.Base.{
  ℕ, ◌≡◌, refl, ap, sym, ◌∙◌, ℤ, Bool, true, false, Bool-cases, inl, inr, Option, none, List, [],
  ◌∷◌, Text, arith, null_if_empty, ◌==◌, ==_refl,
}
use gatstogo.Error.{shift_not_open, ok, err}
use gatstogo.Db.Schema.{Db, ShiftRow}
use gatstogo.Db.Table.{count_where, find_where, exists_where, update_where}
use gatstogo.Db.Table.Distinct.{Distinct}
use gatstogo.Db.Table.Laws.{count_where-update_where}
use gatstogo.Db.Statement.{Store, connected}
use gatstogo.Shifts.Lifecycle.Resume.{start_new}
use gatstogo.Shifts.Lifecycle.{
  is_open_of, is_closable, same_open_shift, find_open, closed_row, closing_count, close, new_shift,
  opened, open_shift, start_or_resume,
}

module _ (plant shift user : ℕ) (closing : ℤ) (notes : Option Text) (now : ℕ) where
  abbrev closed : List ShiftRow → List ShiftRow
  closed xs = update_where (is_closable plant shift user) (closed_row closing notes now) xs

  -- Where one shift of the user is open, no other is.
  no_other :
      (x : ShiftRow) (xs : List ShiftRow)
      → is_open_of plant user x ≡ true
      → exists_where (same_open_shift x) xs ≡ false
      → (find_where (is_open_of plant user) (closed xs) ≡ none)
        × (count_where (is_closable plant shift user) xs ≡ 0)
  unfolding find_where exists_where update_where count_where
  no_other x [] e h = (refl, refl)
  no_other x (y ∷ ys) e h =
      let rest = no_other x ys e (ground arith) in
      let miss = not_open x y e (ground arith) in
      let skip = not_closable y miss in rw (skip, miss) (rest.0, omega (arith, rest.1))
    where
      not_open :
          (x y : ShiftRow)
          → is_open_of plant user x ≡ true
          → same_open_shift x y ≡ false
          → is_open_of plant user y ≡ false
      not_open x y e h = ground arith

      not_closable :
          (y : ShiftRow) → is_open_of plant user y ≡ false → is_closable plant shift user y ≡ false
      not_closable y h = ground arith

  none_open :
      (xs : List ShiftRow)
      → Distinct same_open_shift xs
      → (count_where (is_closable plant shift user) xs == 0) ≡ false
      → find_where (is_open_of plant user) (closed xs) ≡ none
  unfolding find_where update_where count_where
  none_open [] d h = cc
  none_open (x ∷ xs) d h = elim (Bool-cases (is_closable plant shift user x)) [
    | inl hit ↦ rw hit (ground (arith, no_other x xs (ground arith) d.0))
    | inr miss ↦ elim (Bool-cases (is_open_of plant user x)) [
      | inl other ↦ ground (arith, no_other x xs other d.0)
      | inr closed_one ↦ rw (miss, closed_one) (none_open xs d.1 (ground arith))
    ]
  ]

module _ (plant shift user : ℕ) (in_tx : Bool) (scope : Option ℕ) (now : ℕ) where
  -- The tables after a Close that found its shift.
  abbrev with_closed : ℤ → Text → Db → Db
  with_closed closing notes db = record db {
    shifts = closed plant shift user closing (null_if_empty notes) now db.shifts;
    cash_movements = closing_count plant shift user closing ∷ db.cash_movements;
  }

  close_found :
      (closing : ℤ) (notes : Text) (db : Db)
      → (count_where (is_closable plant shift user) db.shifts == 0) ≡ false
      → close plant shift user closing notes (connected in_tx scope now db)
        ≡ (ok tt, connected in_tx scope now (with_closed closing notes db))
  unfolding close
  close_found closing notes db h = rw h refl

  close_missing :
      (closing : ℤ) (notes : Text) (db : Db)
      → (count_where (is_closable plant shift user) db.shifts == 0) ≡ true
      → (close plant shift user closing notes (connected in_tx scope now db)).0 ≡ err shift_not_open
  unfolding close
  close_missing closing notes db h = rw h refl

  find_open-none :
      (db : Db)
      → find_where (is_open_of plant user) db.shifts ≡ none
      → find_open plant user (connected in_tx scope now db)
        ≡ (ok none, connected in_tx scope now db)
  unfolding find_open
  find_open-none db h = rw h refl

  closable_no_more :
      (closing : ℤ) (notes : Text) (db : Db)
      → (count_where (is_closable plant shift user) (with_closed closing notes db).shifts == 0)
        ≡ true
  closable_no_more closing notes db =
      rw
        (count_where-update_where (is_closable plant shift user)
          (closed_row closing (null_if_empty notes) now) (λ x. ground arith) db.shifts)
        refl

  no_open_shift :
      (row : ShiftRow) (xs : List ShiftRow)
      → is_open_of plant user row ≡ true
      → find_where (is_open_of plant user) xs ≡ none
      → exists_where (same_open_shift row) xs ≡ false
  unfolding find_where exists_where
  no_open_shift row [] e h = refl
  no_open_shift row (y ∷ ys) e h = elim (Bool-cases (is_open_of plant user y)) [
    | inl open_one ↦ let found = rw open_one at h in cc
    | inr miss ↦
        let rest = no_open_shift row ys e (rw miss at h) in
        let apart : same_open_shift row y ≡ false = ground arith in rw (apart, rest) refl
  ]

  id_unused :
      (id : ℕ) (closing : ℤ) (notes : Option Text) (xs : List ShiftRow)
      → exists_where (λ (s : ShiftRow). id == s.id) xs ≡ false
      → exists_where (λ (s : ShiftRow). id == s.id) (closed plant shift user closing notes now xs)
        ≡ false
  unfolding exists_where update_where
  id_unused id closing notes [] h = refl
  id_unused id closing notes (y ∷ ys) h =
      let rest = id_unused id closing notes ys (ground arith) in
      elim (Bool-cases (is_closable plant shift user y)) [
        | inl hit ↦ rw (hit, rest) (ground arith)
        | inr miss ↦ rw (miss, rest) (ground arith)
      ]

  -- A user without an open shift, and an identifier that no shift has.
  start_fresh :
      (opening : ℤ) (device : Text) (pump : Option ℕ) (id : ℕ) (db : Db)
      → find_where (is_open_of plant user) db.shifts ≡ none
      → exists_where (λ (s : ShiftRow). id == s.id) db.shifts ≡ false
      → (start_or_resume plant user opening device pump id (connected in_tx scope now db)).0
        ≡ ok (opened user opening pump (id, now), false)
  unfolding open_shift
  start_fresh opening device pump id db none_open unused =
      let row = new_shift plant user opening device pump id now in
      let alone = no_open_shift row db.shifts (rw (==_refl plant, ==_refl user) refl) none_open in
      ap (λ r. r.0)
        (start_new plant user in_tx scope now opening device pump id db (rw none_open refl)
          (rw (unused, alone) refl))

  -- Where users have at most one open shift, after a Close that succeeds: the user has no open shift
  -- at the plant, closing the same shift again fails, and StartOrResume with an identifier that no
  -- shift has opens a new shift, not a resumed one, with that identifier, the given float and pump,
  -- and no tokens.
  pub after_close :
      (closing closing' opening : ℤ) (notes notes' device : Text) (pump : Option ℕ) (id : ℕ)
      (db : Db) (t : Store)
      → Distinct same_open_shift db.shifts
      → exists_where (λ (s : ShiftRow). id == s.id) db.shifts ≡ false
      → close plant shift user closing notes (connected in_tx scope now db) ≡ (ok tt, t)
      → (find_open plant user t ≡ (ok none, t))
        × ((close plant shift user closing' notes' t).0 ≡ err shift_not_open)
        × ((start_or_resume plant user opening device pump id t).0
            ≡ ok (
              record {
                id = id;
                user_id = user;
                pump_id = pump;
                opened_at = now;
                opening_cash_kobo = opening;
                tokens_issued = 0;
                tokens_returned = 0;
              },
              false,
            ))
  after_close closing closing' opening notes notes' device pump id db t d unused e =
      elim (Bool-cases (count_where (is_closable plant shift user) db.shifts == 0)) [
        | inl missing ↦
            let refused = sym (close_missing closing notes db missing) ∙ ap (λ r. r.0) e in cc
        | inr found ↦
            let db' = with_closed closing notes db in
            let gone =
              none_open plant shift user closing (null_if_empty notes) now db.shifts d found in
            let same : t ≡ connected in_tx scope now db' =
              ap (λ r. r.1) (sym e ∙ close_found closing notes db found) in
            rw same (
              find_open-none db' gone,
              close_missing closing' notes' db' (closable_no_more closing notes db),
              start_fresh opening device pump id db' gone
                  (id_unused id closing (null_if_empty notes) db.shifts unused),
            )
      ]
