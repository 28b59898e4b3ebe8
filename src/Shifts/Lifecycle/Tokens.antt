-- ===== src/Shifts/Lifecycle/Tokens.antt =====
-- internal/shifts/shifts.go: the token numbers.
use gatstogo.Base.{
  ℕ, ◌+◌, ◌≡◌, refl, ap, sym, ◌∙◌, Bool, Option-cases, inl, inr, Option, none, some, arith,
}
use gatstogo.Error.{shift_not_open, ok, err}
use gatstogo.Db.Schema.{Db, ShiftRow}
use gatstogo.Db.Table.{find_where, update_where}
use gatstogo.Db.Table.Laws.{find_where-update_where, find_where_sound}
use gatstogo.Db.Statement.{Store, connected}
use gatstogo.Shifts.Lifecycle.{is_open_shift, issued_row, increment_tokens_issued}

module _ (plant shift : ℕ) (in_tx : Bool) (scope : Option ℕ) (now : ℕ) where
  abbrev issued : Db → Db
  issued db = record db { shifts = update_where (is_open_shift plant shift) issued_row db.shifts }

  issue_found :
      (db : Db) (s : ShiftRow)
      → find_where (is_open_shift plant shift) db.shifts ≡ some s
      → increment_tokens_issued plant shift (connected in_tx scope now db)
        ≡ (ok (s.tokens_issued + 1), connected in_tx scope now (issued db))
  unfolding increment_tokens_issued
  issue_found db s h = rw h refl

  issue_missing :
      (db : Db)
      → find_where (is_open_shift plant shift) db.shifts ≡ none
      → (increment_tokens_issued plant shift (connected in_tx scope now db)).0 ≡ err shift_not_open
  unfolding increment_tokens_issued
  issue_missing db h = rw h refl

  found_issued :
      (db : Db) (s : ShiftRow)
      → find_where (is_open_shift plant shift) db.shifts ≡ some s
      → find_where (is_open_shift plant shift) (issued db).shifts ≡ some (issued_row s)
  found_issued db s h =
      find_where-update_where (is_open_shift plant shift) issued_row (is_open_shift plant shift)
        (λ x. refl) db.shifts
      ∙ rw (h, find_where_sound (is_open_shift plant shift) db.shifts s h) refl

  -- After a token with the number n, the next one that the shift issues has the number n + 1.
  next_token :
      (db : Db) (n : ℕ) (t : Store)
      → increment_tokens_issued plant shift (connected in_tx scope now db) ≡ (ok n, t)
      → (increment_tokens_issued plant shift t).0 ≡ ok (n + 1)
  next_token db n t e = elim (Option-cases (find_where (is_open_shift plant shift) db.shifts)) [
    | inl absent ↦ let refused = sym (issue_missing db absent) ∙ ap (λ r. r.0) e in cc
    | inr (s, found) ↦
        let same = sym (issue_found db s found) ∙ e in
        let again = issue_found (issued db) (issued_row s) (found_issued db s found) in
        ground (arith, again)
  ]
