-- ===== src/Examples/Terminal.antt =====
-- Shifts with the theorems of internal/shifts/shifts.go.
use gatstogo.Base.{
  ℕ, ◌+◌, ◌≡◌, refl, pos, true, false, none, some, [], ◌∷◌, codes, ◌==◌, if◌then◌else◌,
}
use gatstogo.Error.{shift_not_open, ok, err}
use gatstogo.Db.Schema.{ShiftRow}
use gatstogo.Db.Table.{find_where, exists_where}
use gatstogo.Db.Table.Distinct.{Distinct}
use gatstogo.Db.Statement.{Store, connected}
use gatstogo.Db.Statement.Keeps.{Keeps}
use gatstogo.Tickets.Purchase.{same_id}
use gatstogo.Tickets.Lifecycle.{is_ticket, close_filled}
use gatstogo.Shifts.Lifecycle.{Shift, same_open_shift, start_or_resume, find_open, close}
use gatstogo.Shifts.Lifecycle.Resume.{start_or_resume_again}
use gatstogo.Shifts.Lifecycle.History.{From, Grows-refl}
use gatstogo.Shifts.Lifecycle.OneOpen.{ShiftCommand, serve_shifts, Keeps-serve_shifts}
use gatstogo.Shifts.Lifecycle.Closing.{after_close}
use gatstogo.Shifts.Cash.{fills_completed, grams_dispensed}
use gatstogo.Shifts.Cash.Totals.{close_filled_totals}
use gatstogo.Examples.{at_pump, tickets, a_db}

abbrev fresh : Shift
fresh = record {
  id = 40;
  user_id = 5;
  pump_id = some 8;
  opened_at = 200;
  opening_cash_kobo = pos 20000;
  tokens_issued = 0;
  tokens_returned = 0;
}

abbrev opened_store : Store
opened_store =
    (start_or_resume 1 5 (pos 20000) (codes "till") (some 8) 40
      (connected true (some 1) 200 a_db)).1

opened_now :
    start_or_resume 1 5 (pos 20000) (codes "till") (some 8) 40 (connected true (some 1) 200 a_db)
    ≡ (ok (fresh, false), opened_store)
unfolding start_or_resume
opened_now = refl

start_or_resume_again_example :
    start_or_resume 1 5 (pos 0) [] none 41 opened_store ≡ (ok (fresh, true), opened_store)
start_or_resume_again_example =
    start_or_resume_again 1 5 true (some 1) 200 (pos 20000) (pos 0) (codes "till") [] (some 8) none
      40 41 a_db fresh false opened_store opened_now

Keeps-serve_shifts_example : Keeps (From a_db.shifts) (
    serve_shifts (
      ShiftCommand.start 1 3 (pos 0) [] none 40
      ∷ ShiftCommand.issue 1 20
      ∷ ShiftCommand.finish 1 20 3 (pos 100) []
      ∷ []))
Keeps-serve_shifts_example = Keeps-serve_shifts a_db.shifts (
    ShiftCommand.start 1 3 (pos 0) [] none 40
    ∷ ShiftCommand.issue 1 20
    ∷ ShiftCommand.finish 1 20 3 (pos 100) []
    ∷ [])

one_open : Distinct same_open_shift a_db.shifts
unfolding exists_where
one_open = (refl, (refl, tt))

fresh_id : exists_where (λ (s : ShiftRow). 40 == s.id) a_db.shifts ≡ false
unfolding exists_where
fresh_id = refl

shifts_From : From a_db.shifts a_db
unfolding exists_where
shifts_From = record {
  history = Grows-refl a_db.shifts;
  ids = (refl, (refl, tt));
  open_shifts = (refl, (refl, tt));
}

abbrev closed_store : Store
closed_store = (close 1 20 3 (pos 700000) (codes "all well") (connected true (some 1) 200 a_db)).1

closed_now :
    close 1 20 3 (pos 700000) (codes "all well") (connected true (some 1) 200 a_db)
    ≡ (ok tt, closed_store)
unfolding close
closed_now = refl

after_close_example :
    (find_open 1 3 closed_store ≡ (ok none, closed_store))
    × ((close 1 20 3 (pos 0) [] closed_store).0 ≡ err shift_not_open)
    × ((start_or_resume 1 3 (pos 5000) [] none 40 closed_store).0
        ≡ ok (
          record {
            id = 40;
            user_id = 3;
            pump_id = none;
            opened_at = 200;
            opening_cash_kobo = pos 5000;
            tokens_issued = 0;
            tokens_returned = 0;
          },
          false,
        ))
after_close_example =
    after_close 1 20 3 true (some 1) 200 (pos 700000) (pos 0) (pos 5000) (codes "all well") [] []
      none 40 a_db closed_store one_open fresh_id closed_now

ids_distinct : Distinct same_id tickets
unfolding exists_where
ids_distinct = (refl, (refl, (refl, (refl, tt))))

at_pump_found : find_where (is_ticket 1 12) tickets ≡ some at_pump
unfolding find_where
at_pump_found = refl

close_filled_totals_example :
    let (r, t) = close_filled 1 12 20 3 (codes "full") (connected true (some 1) 200 a_db) in
    (r ≡ ok tt)
    × ((s : ℕ)
        → (fills_completed 1 s t.db ≡ (if s == 20 then 1 else 0) + fills_completed 1 s a_db)
          × (grams_dispensed 1 s t.db ≡ (if s == 20 then 1000 else 0) + grams_dispensed 1 s a_db))
close_filled_totals_example =
    close_filled_totals 1 12 20 3 (codes "full") true (some 1) 200 a_db at_pump ids_distinct
      at_pump_found refl
