-- ===== src/Shifts/Lifecycle/OneOpen.antt =====
-- internal/shifts/shifts.go: a user has at most one open shift at a plant, and a closed one stays as it
-- is, whatever is asked for.
use gatstogo.Base.{
  ℕ, ◌≡◌, ◌≤◌, is_none, refl, ℤ, Bool, true, Option, none, some, List, [], ◌∷◌, Text, arith,
  null_if_empty, coalesce,
}
use gatstogo.Error.{Error, Result, ok, err}
use gatstogo.Db.Schema.{ShiftRow, CashRow}
use gatstogo.Db.Statement.{M, pure, ◌>>=◌, attempt_then}
use gatstogo.Db.Statement.Keeps.{
  Keeps, Keeps-pure, Keeps-raise, Keeps-statement, Keeps-exec, Keeps-exec_returning,
  Keeps-query_row, Keeps-bind, Keeps-attempt_then, Keeps-if,
}
use gatstogo.Shifts.Lifecycle.History.{SameShift, From, From-update_where, From-insert}
use gatstogo.Shifts.Lifecycle.{
  Shift, none_of_no_rows, find_open, new_shift, insert_cash, open_new, resume_or_open,
  start_or_resume, update_shifts, closed_row, record_closing, close, update_returning,
  shift_missing, issued_row, returned_row, is_closable, is_open_shift, increment_tokens_issued,
  increment_tokens_returned,
}

closed-SameShift :
    (plant shift user : ℕ) (closing : ℤ) (notes : Option Text) (now : ℕ) (x : ShiftRow)
    → is_closable plant shift user x ≡ true
    → SameShift x (closed_row closing notes now x)
closed-SameShift plant shift user closing notes now x hit = record {
  id = refl;
  plant_id = refl;
  user_id = refl;
  device_id = refl;
  opened_at = refl;
  opening = refl;
  pump_id = refl;
  issued = omega arith;
  returned = omega arith;
  settled = λ h. absurd (ground arith);
}

-- An open shift whose counters go up.
counted-SameShift :
    (x : ShiftRow) (issued : ℕ) (returned : Option ℕ)
    → is_none x.closed_at ≡ true
    → x.tokens_issued ≤ issued
    → coalesce x.tokens_returned 0 ≤ coalesce returned 0
    → SameShift x (record x { tokens_issued = issued; tokens_returned = returned })
counted-SameShift x issued returned open_one up up' = record {
  id = refl;
  plant_id = refl;
  user_id = refl;
  device_id = refl;
  opened_at = refl;
  opening = refl;
  pump_id = refl;
  issued = up;
  returned = up';
  settled = λ h. absurd (ground arith);
}

-- What the package does to shifts.
pub data ShiftCommand : Type 0 where
  start : ℕ → ℕ → ℤ → Text → Option ℕ → ℕ → ShiftCommand
  finish : ℕ → ℕ → ℕ → ℤ → Text → ShiftCommand
  issue take_back : ℕ → ℕ → ShiftCommand

execute : ShiftCommand → M (Unit {0})
execute (start plant user opening device pump id) =
    attempt_then (start_or_resume plant user opening device pump id) (λ _. pure tt)
execute (finish plant shift user closing notes) =
    attempt_then (close plant shift user closing notes) (λ _. pure tt)
execute (issue plant shift) = attempt_then (increment_tokens_issued plant shift) (λ _. pure tt)
execute (take_back plant shift) =
    attempt_then (increment_tokens_returned plant shift) (λ _. pure tt)

pub serve_shifts : List ShiftCommand → M (Unit {0})
serve_shifts [] = pure tt
serve_shifts (c ∷ rest) = execute c >>= λ _. serve_shifts rest

module _ (xs : List ShiftRow) where
  Keeps-insert_cash : (row : CashRow) → Keeps (From xs) (insert_cash row)
  unfolding insert_cash
  Keeps-insert_cash row =
      Keeps-exec _
        (λ now db h. record { history = h.history; ids = h.ids; open_shifts = h.open_shifts })

  Keeps-none_of_no_rows : (r : Result Shift) → Keeps (From xs) (none_of_no_rows r)
  unfolding none_of_no_rows
  Keeps-none_of_no_rows (ok a) = Keeps-pure _
  Keeps-none_of_no_rows (err Error.no_rows) = Keeps-pure _
  Keeps-none_of_no_rows (err e) = Keeps-raise e

  Keeps-open_new :
      (plant user : ℕ) (opening : ℤ) (device : Text) (pump : Option ℕ) (id : ℕ)
      → Keeps (From xs) (open_new plant user opening device pump id)
  unfolding open_new
  Keeps-open_new plant user opening device pump id =
      Keeps-bind _ _
        (Keeps-statement _ (λ now db a db' h e.
          From-insert (new_shift plant user opening device pump id now) db db' a h e))
        (λ row. Keeps-bind _ _ (Keeps-insert_cash _) (λ _. Keeps-pure _))

  Keeps-resume_or_open :
      (m : M (Shift × Bool)) (o : Option Shift)
      → Keeps (From xs) m
      → Keeps (From xs) (resume_or_open m o)
  unfolding resume_or_open
  Keeps-resume_or_open m none k = k
  Keeps-resume_or_open m (some s) k = Keeps-pure _

  Keeps-start_or_resume :
      (plant user : ℕ) (opening : ℤ) (device : Text) (pump : Option ℕ) (id : ℕ)
      → Keeps (From xs) (start_or_resume plant user opening device pump id)
  unfolding start_or_resume find_open
  Keeps-start_or_resume plant user opening device pump id =
      Keeps-bind _ _ (Keeps-attempt_then _ _ (Keeps-query_row _) Keeps-none_of_no_rows)
        (λ o. Keeps-resume_or_open _ o (Keeps-open_new plant user opening device pump id))

  Keeps-close :
      (plant shift user : ℕ) (closing : ℤ) (notes : Text)
      → Keeps (From xs) (close plant shift user closing notes)
  unfolding close update_shifts record_closing
  Keeps-close plant shift user closing notes =
      Keeps-bind _ _
        (Keeps-exec _ (λ now db h.
          From-update_where (is_closable plant shift user)
            (closed_row closing (null_if_empty notes) now)
            (closed-SameShift plant shift user closing (null_if_empty notes) now) db h))
        (λ rows. Keeps-if _ _ _ (Keeps-raise _) (Keeps-insert_cash _))

  Keeps-shift_missing : (r : Result ℕ) → Keeps (From xs) (shift_missing r)
  unfolding shift_missing
  Keeps-shift_missing (ok n) = Keeps-pure n
  Keeps-shift_missing (err Error.no_rows) = Keeps-raise _
  Keeps-shift_missing (err e) = Keeps-raise e

  Keeps-update_returning :
      (p : ShiftRow → Bool) (f : ShiftRow → ShiftRow) (g : ShiftRow → ℕ)
      → ((x : ShiftRow) → p x ≡ true → SameShift x (f x))
      → Keeps (From xs) (attempt_then (update_returning p f g) shift_missing)
  unfolding update_returning
  Keeps-update_returning p f g goes_on =
      Keeps-attempt_then _ _
        (Keeps-exec_returning _ (λ now db h. From-update_where p f goes_on db h))
        Keeps-shift_missing

  Keeps-execute : (c : ShiftCommand) → Keeps (From xs) (execute c)
  unfolding execute increment_tokens_issued increment_tokens_returned
  Keeps-execute (start plant user opening device pump id) =
      Keeps-attempt_then _ _ (Keeps-start_or_resume plant user opening device pump id)
        (λ _. Keeps-pure tt)
  Keeps-execute (finish plant shift user closing notes) =
      Keeps-attempt_then _ _ (Keeps-close plant shift user closing notes) (λ _. Keeps-pure tt)
  Keeps-execute (issue plant shift) =
      Keeps-attempt_then _ _
        (Keeps-update_returning (is_open_shift plant shift) issued_row (λ s. s.tokens_issued)
          (λ x hit. counted-SameShift x _ _ (ground arith) (omega arith) (omega arith)))
        (λ _. Keeps-pure tt)
  Keeps-execute (take_back plant shift) =
      Keeps-attempt_then _ _
        (Keeps-update_returning (is_open_shift plant shift) returned_row
          (λ s. coalesce s.tokens_returned 0)
          (λ x hit. counted-SameShift x _ _ (ground arith) (omega arith) (omega arith)))
        (λ _. Keeps-pure tt)

-- After any sequence of opened, resumed and closed shifts and of tokens, whichever statements fail:
-- no user has two open shifts at a plant, and shift identifiers are distinct, if that held before; no
-- shift has gone, each keeps its plant, user, device, pump, start and opening cash, its counters have
-- not gone down, and one that was closed before is as it was.
pub Keeps-serve_shifts :
    (xs : List ShiftRow) (commands : List ShiftCommand) → Keeps (From xs) (serve_shifts commands)
unfolding serve_shifts
Keeps-serve_shifts xs [] = Keeps-pure tt
Keeps-serve_shifts xs (c ∷ rest) =
    Keeps-bind _ _ (Keeps-execute xs c) (λ _. Keeps-serve_shifts xs rest)
