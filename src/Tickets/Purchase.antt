-- ===== src/Tickets/Purchase.antt =====
-- internal/tickets/tickets.go: Ticket, PurchaseParams, Purchase and the two entry points
-- CreatePending and CreatePaidCash, with the constraints of the tickets table that the INSERT meets.
-- The random bytes of the reference, the random number of each attempt at a code, the time.Now() of
-- a paid sale and the identifier that the database generates are arguments.
pub mod Attempts
pub mod Outcomes
pub mod Collision
use gatstogo.Base.{
  ℕ, suc, zero, Bool, true, false, not, ◌&&◌, ◌||◌, leb, Option, none, some, List, [], ◌∷◌, Text,
  text_eq, ◌==◌, if◌then◌else◌,
}
use gatstogo.Error.{Error, unique_violation, check_violation, no_unique_code, Result, ok, err}
use gatstogo.Db.Schema.{Db, TicketRow, Status, Channel, is_open}
use gatstogo.Db.Table.{exists_where}
use gatstogo.Db.Statement.{Store, M, pure, raise, lift, statement, ◌>>=◌, attempt_then}
use gatstogo.Tickets.Reference.{new_reference, new_code, null_if_empty}

pub record Ticket : Type 0 where
  pub id : ℕ
  pub reference : Text
  pub code : Text

-- Amounts, rates and sizes are not negative, as the callers check them; one that its column does not
-- hold is refused by the INSERT.
pub record PurchaseParams : Type 0 where
  pub plant_id : ℕ
  pub plant_slug : Text
  pub price_id : ℕ
  pub rate_per_kg_kobo : ℕ
  pub amount_kobo : ℕ
  pub size_grams : ℕ
  pub channel : Channel
  pub customer_name : Text
  pub customer_phone : Text
  pub paid : Bool
  pub sold_by : Option ℕ
  pub shift_id : Option ℕ

-- The primary key.
abbrev pub same_id : TicketRow → TicketRow → Bool
same_id x y = x.id == y.id

-- UNIQUE (plant_id, reference).
abbrev pub same_reference : TicketRow → TicketRow → Bool
same_reference x y = x.plant_id == y.plant_id && text_eq x.reference y.reference

-- idx_tickets_open_code: both rows are in the partial index, under one key.
abbrev pub same_open_code : TicketRow → TicketRow → Bool
same_open_code x y =
    is_open x.status && is_open y.status && x.plant_id == y.plant_id && text_eq x.code y.code

abbrev pub max_integer : ℕ
max_integer = 2147483647

abbrev pub max_bigint : ℕ
max_bigint = 9223372036854775807

-- size_grams is an INTEGER, rate_per_kg and amount are BIGINT, and the driver or the server refuses a
-- number that is none of these.
unfoldable pub fits : TicketRow → Bool
fits row =
    leb row.size_grams max_integer && leb row.rate_per_kg max_bigint && leb row.amount max_bigint

-- INSERT INTO tickets … RETURNING id, with its column types, its check constraint and its three
-- unique indexes.
unfoldable pub insert_ticket : TicketRow → Db → Result (ℕ × Db)
unfolding fits
insert_ticket row db =
    if not (fits row)
    then err Error.driver
    else if row.size_grams == 0
    then err check_violation
    else if exists_where (same_id row) db.tickets || exists_where (same_reference row) db.tickets
    then err unique_violation
    else if exists_where (same_open_code row) db.tickets
    then err unique_violation
    else ok (row.id, record db { tickets = row ∷ db.tickets })

-- The row of the INSERT; `wall` is the time.Now() of a paid ticket.
abbrev pub new_row : PurchaseParams → Text → Text → ℕ → ℕ → ℕ → TicketRow
new_row p reference code wall id now = record {
  id = id;
  plant_id = p.plant_id;
  reference = reference;
  code = code;
  customer_name = null_if_empty p.customer_name;
  customer_phone = null_if_empty p.customer_phone;
  size_grams = p.size_grams;
  rate_per_kg = p.rate_per_kg_kobo;
  price_id = p.price_id;
  amount = p.amount_kobo;
  channel = p.channel;
  status = if p.paid then Status.paid else Status.pending;
  net_grams = none;
  filled_at = none;
  filled_shift_id = none;
  confirmed_at = none;
  paid_at = if p.paid then some wall else none;
  sold_by = p.sold_by;
  shift_id = p.shift_id;
  void_reason = none;
  voided_by = none;
  voided_at = none;
  pump_id = none;
  dispensing_started_at = none;
  dispensing_started_by = none;
  closed_by = none;
  close_note = none;
  created_at = now;
  updated_at = now;
}

-- The switch on scanErr: isUniqueViolation goes on to the next attempt.
unfoldable pub after_insert : M Ticket → Text → Text → Result ℕ → M Ticket
unfolding pure raise
after_insert again reference code (ok id) =
    pure (record { id = id; reference = reference; code = code })
after_insert again reference code (err Error.unique_violation) = again
after_insert again reference code (err e) = raise e

unfoldable pub insert_with : PurchaseParams → Text → ℕ → ℕ → M Ticket → Text → M Ticket
unfolding after_insert statement insert_ticket attempt_then
insert_with p reference wall id again code =
    attempt_then (statement (λ now. insert_ticket (new_row p reference code wall id now)))
      (after_insert again reference code)

-- The loop: `random n` is what rand.Int returns in the n-th attempt from here.
unfoldable pub allocate : ℕ → PurchaseParams → Text → ℕ → ℕ → (ℕ → Result ℕ) → M Ticket
unfolding insert_with new_code raise lift ◌>>=◌
allocate zero p reference wall id random = raise no_unique_code
allocate (suc left) p reference wall id random =
    let again = allocate left p reference wall id (λ n. random (suc n)) in
    lift (new_code (random 0)) >>= insert_with p reference wall id again

abbrev pub max_code_attempts : ℕ
max_code_attempts = 6

unfoldable pub purchase : PurchaseParams → Result (List ℕ) → (ℕ → Result ℕ) → ℕ → ℕ → M Ticket
unfolding ◌>>=◌
purchase p bytes random wall id = do
  reference ← lift (new_reference p.plant_slug bytes)
  allocate max_code_attempts p reference wall id random

unfoldable pub create_pending : PurchaseParams → Result (List ℕ) → (ℕ → Result ℕ) → ℕ → ℕ → M Ticket
create_pending p = purchase (record p { paid = false; sold_by = none; shift_id = none })

unfoldable pub create_paid_cash :
    PurchaseParams → ℕ → ℕ → Result (List ℕ) → (ℕ → Result ℕ) → ℕ → ℕ → M Ticket
create_paid_cash p sold_by shift_id = purchase (record p {
  channel = Channel.cash;
  paid = true;
  sold_by = some sold_by;
  shift_id = some shift_id;
})
