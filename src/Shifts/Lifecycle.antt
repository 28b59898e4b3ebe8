-- ===== src/Shifts/Lifecycle.antt =====
-- internal/shifts/shifts.go: Shift, findOpen, OpenShiftStarts, StartOrResume, Close, the token
-- counters, MostRecentOpenShiftID, with idx_shifts_one_open_per_user. The identifier
-- that the database generates is an argument.
pub mod Resume
pub mod History
pub mod OneOpen
pub mod Closing
pub mod Tokens
use mathlib.Core.Option
use gatstogo.Base.{
  ℕ, zero, suc, ◌+◌, ℤ, Bool, true, false, not, ◌&&◌, ◌||◌, Option, none, some, List, [], ◌∷◌, ◌++◌,
  map, Text, codes, coalesce, is_none, is_some_of, null_if_empty, ◌==◌, if◌then◌else◌,
}
use gatstogo.Error.{Error, unique_violation, shift_not_open, no_open_shift, Result, ok, err}
use gatstogo.Db.Schema.{Db, ShiftRow, CashRow, CashKind, UserRow, Role, is_staff}
use gatstogo.Db.Table.{update_where, count_where, select_where, find_where, exists_where, latest}
use gatstogo.Db.Statement.{
  M, pure, raise, statement, query, query_row, exec, exec_returning, ◌>>=◌, ◌>>◌, attempt_then,
}

pub record Shift : Type 0 where
  pub id : ℕ
  pub user_id : ℕ
  pub pump_id : Option ℕ
  pub opened_at : ℕ
  pub opening_cash_kobo : ℤ
  pub tokens_issued : ℕ
  pub tokens_returned : ℕ

-- WHERE plant_id = $1 AND user_id = $2 AND closed_at IS NULL.
abbrev pub is_open_of : ℕ → ℕ → ShiftRow → Bool
is_open_of plant user s = s.plant_id == plant && s.user_id == user && is_none s.closed_at

abbrev shift_of : ℕ → ShiftRow → Shift
shift_of user s = record {
  id = s.id;
  user_id = user;
  pump_id = s.pump_id;
  opened_at = s.opened_at;
  opening_cash_kobo = s.opening_cash_kobo;
  tokens_issued = s.tokens_issued;
  tokens_returned = coalesce s.tokens_returned 0;
}

-- pgx.ErrNoRows is no shift, not an error.
unfoldable pub none_of_no_rows {ℓ} : {A : Type ℓ} → Result A → M (Option A)
unfolding pure raise
none_of_no_rows (ok a) = pure (some a)
none_of_no_rows (err Error.no_rows) = pure none
none_of_no_rows (err e) = raise e

unfoldable pub open_shift : ℕ → ℕ → Db → Option Shift
unfolding find_where
open_shift plant user db = Option.map (shift_of user) (find_where (is_open_of plant user) db.shifts)

unfoldable pub find_open : ℕ → ℕ → M (Option Shift)
unfolding open_shift none_of_no_rows query_row attempt_then
find_open plant user = attempt_then (query_row (open_shift plant user)) none_of_no_rows

-- The user and the start of each open shift; the map that the code builds has one entry per user.
unfoldable open_shift_starts : ℕ → M (List (ℕ × ℕ))
unfolding query select_where
open_shift_starts plant = query λ db.
    map (λ (s : ShiftRow). (s.user_id, s.opened_at))
      (select_where (λ s. s.plant_id == plant && is_none s.closed_at) db.shifts)

-- The two rows are open shifts of one user at one plant.
abbrev pub same_open_shift : ShiftRow → ShiftRow → Bool
same_open_shift x y =
    is_none x.closed_at && is_none y.closed_at && x.plant_id == y.plant_id && x.user_id == y.user_id

abbrev pub same_shift_id : ShiftRow → ShiftRow → Bool
same_shift_id x y = x.id == y.id

-- INSERT INTO shifts … RETURNING id, opened_at.
unfoldable pub insert_shift : ShiftRow → Db → Result ((ℕ × ℕ) × Db)
unfolding exists_where
insert_shift row db =
    if exists_where (same_shift_id row) db.shifts || exists_where (same_open_shift row) db.shifts
    then err unique_violation
    else ok ((row.id, row.opened_at), record db { shifts = row ∷ db.shifts })

abbrev pub new_shift : ℕ → ℕ → ℤ → Text → Option ℕ → ℕ → ℕ → ShiftRow
new_shift plant user opening device pump id now = record {
  id = id;
  plant_id = plant;
  user_id = user;
  device_id = null_if_empty device;
  opened_at = now;
  closed_at = none;
  opening_cash_kobo = opening;
  closing_cash_kobo = none;
  tokens_issued = 0;
  tokens_returned = none;
  notes = none;
  pump_id = pump;
}

-- INSERT INTO cash_movements.
unfoldable pub insert_cash : CashRow → M (Unit {0})
unfolding exec
insert_cash row = exec (λ _ db. (tt, record db { cash_movements = row ∷ db.cash_movements }))

abbrev pub opening_float : ℕ → ℕ → ℕ → ℤ → CashRow
opening_float plant shift user opening = record {
  plant_id = plant;
  shift_id = shift;
  kind = CashKind.opening_float;
  amount_kobo = opening;
  counted_kobo = none;
  ticket_id = none;
  recorded_by = user;
  note = some (codes "Shift opening float");
}

abbrev pub opened : ℕ → ℤ → Option ℕ → ℕ × ℕ → Shift
opened user opening pump (id, opened_at) = record {
  id = id;
  user_id = user;
  pump_id = pump;
  opened_at = opened_at;
  opening_cash_kobo = opening;
  tokens_issued = 0;
  tokens_returned = 0;
}

unfoldable pub open_new : ℕ → ℕ → ℤ → Text → Option ℕ → ℕ → M (Shift × Bool)
unfolding insert_shift insert_cash statement pure ◌>>=◌
open_new plant user opening device pump id = do
  row ← statement (λ now. insert_shift (new_shift plant user opening device pump id now))
  insert_cash (opening_float plant row.0 user opening)
  pure (opened user opening pump row, false)

unfoldable pub resume_or_open : M (Shift × Bool) → Option Shift → M (Shift × Bool)
unfolding pure
resume_or_open start none = start
resume_or_open start (some s) = pure (s, true)

-- The shift, and whether it is one that was open already.
unfoldable pub start_or_resume : ℕ → ℕ → ℤ → Text → Option ℕ → ℕ → M (Shift × Bool)
unfolding find_open open_new resume_or_open ◌>>=◌
start_or_resume plant user opening device pump id = do
  existing ← find_open plant user
  resume_or_open (open_new plant user opening device pump id) existing

-- An UPDATE of shifts, with its command tag.
unfoldable pub update_shifts : (ShiftRow → Bool) → (ℕ → ShiftRow → ShiftRow) → M ℕ
unfolding exec update_where count_where
update_shifts where_ set = exec λ now db.
    (count_where where_ db.shifts, record db { shifts = update_where where_ (set now) db.shifts })

abbrev pub closed_row : ℤ → Option Text → ℕ → ShiftRow → ShiftRow
closed_row closing notes now s = record s {
  closed_at = some now;
  closing_cash_kobo = some closing;
  notes = notes;
}

abbrev pub closing_count : ℕ → ℕ → ℕ → ℤ → CashRow
closing_count plant shift user closing = record {
  plant_id = plant;
  shift_id = shift;
  kind = CashKind.closing;
  amount_kobo = closing;
  counted_kobo = some closing;
  ticket_id = none;
  recorded_by = user;
  note = some (codes "Shift closing count");
}

-- WHERE id = $1 AND plant_id = $2 AND user_id = $3 AND closed_at IS NULL.
abbrev pub is_closable : ℕ → ℕ → ℕ → ShiftRow → Bool
is_closable plant shift user s =
    s.id == shift && s.plant_id == plant && s.user_id == user && is_none s.closed_at

unfoldable pub record_closing : CashRow → ℕ → M (Unit {0})
unfolding raise insert_cash
record_closing row rows = if rows == 0 then raise shift_not_open else insert_cash row

unfoldable pub close : ℕ → ℕ → ℕ → ℤ → Text → M (Unit {0})
unfolding update_shifts record_closing ◌>>=◌
close plant shift user closing notes = do
  rows ← update_shifts (is_closable plant shift user) (closed_row closing (null_if_empty notes))
  record_closing (closing_count plant shift user closing) rows

-- WHERE id = $1 AND plant_id = $2 AND closed_at IS NULL.
abbrev pub is_open_shift : ℕ → ℕ → ShiftRow → Bool
is_open_shift plant shift s = s.id == shift && s.plant_id == plant && is_none s.closed_at

-- UPDATE shifts SET … RETURNING f.
unfoldable pub update_returning : (ShiftRow → Bool) → (ShiftRow → ShiftRow) → (ShiftRow → ℕ) → M ℕ
unfolding exec_returning find_where update_where
update_returning where_ set f = exec_returning λ _ db. (
  Option.map (λ s. f (set s)) (find_where where_ db.shifts),
  record db { shifts = update_where where_ set db.shifts },
)

unfoldable pub shift_missing : Result ℕ → M ℕ
unfolding pure raise
shift_missing (ok n) = pure n
shift_missing (err Error.no_rows) = raise shift_not_open
shift_missing (err e) = raise e

abbrev pub issued_row : ShiftRow → ShiftRow
issued_row s = record s { tokens_issued = s.tokens_issued + 1 }

unfoldable pub increment_tokens_issued : ℕ → ℕ → M ℕ
unfolding update_returning shift_missing attempt_then
increment_tokens_issued plant shift =
    attempt_then (update_returning (is_open_shift plant shift) issued_row (λ s. s.tokens_issued))
      shift_missing

abbrev pub returned_row : ShiftRow → ShiftRow
returned_row s = record s { tokens_returned = some (coalesce s.tokens_returned 0 + 1) }

unfoldable pub increment_tokens_returned : ℕ → ℕ → M ℕ
unfolding update_returning shift_missing attempt_then
increment_tokens_returned plant shift =
    attempt_then
      (update_returning (is_open_shift plant shift) returned_row
        (λ s. coalesce s.tokens_returned 0))
      shift_missing

unfoldable open_shift_missing : Result ℕ → M ℕ
unfolding pure raise
open_shift_missing (ok n) = pure n
open_shift_missing (err Error.no_rows) = raise no_open_shift
open_shift_missing (err e) = raise e

-- ORDER BY opened_at DESC LIMIT 1.
unfoldable most_recent_open_shift_id : ℕ → M ℕ
unfolding query_row open_shift_missing latest select_where attempt_then
most_recent_open_shift_id plant =
    attempt_then
      (query_row λ db.
        Option.map (λ (s : ShiftRow). s.id)
          (latest (λ s. s.opened_at)
            (select_where (λ s. s.plant_id == plant && is_none s.closed_at) db.shifts)))
      open_shift_missing
