-- ===== src/Examples.antt =====
-- Small tables for the tests and the examples of internal/ and cmd/server/tickets.go.
pub mod Sales
pub mod Purchases
pub mod Payments
pub mod Terminal
pub mod Pages
pub mod Codes
pub mod Desk
pub mod Pins
pub mod Codec
pub mod Sessions
pub mod SignIn
pub mod Reviews
use gatstogo.Base.{ℕ, ℤ, pos, Bool, true, false, Option, none, some, List, [], ◌∷◌, Text, codes}
use gatstogo.Db.Schema.{
  Db, TicketRow, Status, Channel, ShiftRow, PumpRow, PumpStatus, PriceRow, empty_db,
}

abbrev a_ticket : ℕ → Text → Text → Status → Option ℕ → TicketRow
a_ticket id reference code status pump = record {
  id = id;
  plant_id = 1;
  reference = reference;
  code = code;
  customer_name = some (codes "Ada Obi");
  customer_phone = some (codes "+234 803 123 4567");
  size_grams = 1000;
  rate_per_kg = 150000;
  price_id = 5;
  amount = 150000;
  channel = Channel.transfer;
  status = status;
  net_grams = none;
  filled_at = none;
  filled_shift_id = none;
  confirmed_at = none;
  paid_at = none;
  sold_by = none;
  shift_id = none;
  void_reason = none;
  voided_by = none;
  voided_at = none;
  pump_id = pump;
  dispensing_started_at = none;
  dispensing_started_by = none;
  closed_by = none;
  close_note = none;
  created_at = 100;
  updated_at = 100;
}

abbrev pub waiting : TicketRow
waiting = a_ticket 10 (codes "sun-0a") (codes "1111") Status.pending none

abbrev pub bought : TicketRow
bought = a_ticket 11 (codes "sun-0b") (codes "2222") Status.paid (some 7)

abbrev pub at_pump : TicketRow
at_pump = a_ticket 12 (codes "sun-0c") (codes "3333") Status.dispensing (some 7)

abbrev pub done : TicketRow
done = a_ticket 13 (codes "sun-0d") (codes "1111") Status.filled (some 7)

abbrev pub tickets : List TicketRow
tickets = waiting ∷ bought ∷ at_pump ∷ done ∷ []

abbrev pub a_pump : ℕ → Text → PumpStatus → PumpRow
a_pump id name status = record {
  id = id;
  plant_id = 1;
  name = name;
  status = status;
  sort_order = id;
  created_at = 1;
}

abbrev pub pumps : List PumpRow
pumps =
    a_pump 6 (codes "Old pump") PumpStatus.maintenance
    ∷ a_pump 7 (codes "Pump 1") PumpStatus.working
    ∷ a_pump 8 (codes "Pump 2") PumpStatus.working
    ∷ []

abbrev a_shift : ℕ → ℕ → ShiftRow
a_shift id user = record {
  id = id;
  plant_id = 1;
  user_id = user;
  device_id = none;
  opened_at = 50;
  closed_at = none;
  opening_cash_kobo = pos 500000;
  closing_cash_kobo = none;
  tokens_issued = 4;
  tokens_returned = none;
  notes = none;
  pump_id = some 7;
}

abbrev pub a_db : Db
a_db = record empty_db {
  tickets = tickets;
  pumps = pumps;
  shifts = a_shift 20 3 ∷ a_shift 21 4 ∷ [];
}
