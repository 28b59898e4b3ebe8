-- ===== src/Tickets/Receipts.antt =====
-- internal/tickets/tickets.go: ReceiptSummary, ListByPhone, Receipt, PumpQueueTicket,
-- ListDispensingForPump, GetReceipt, Confirm and LookupPlantByReference.
pub mod Privacy
pub mod Confirmation
use mathlib.Core.Option
use gatstogo.Base.{
  ℕ, Bool, true, false, ◌&&◌, Option, none, some, List, [], ◌∷◌, map, Text, text_eq, coalesce,
  is_none, is_some_of, ◌==◌, take, ltb, leb, if◌then◌else◌,
}
use gatstogo.Error.{Error, no_rows, receipt_not_found, not_confirmable, Result, ok, err}
use gatstogo.Db.Schema.{Db, TicketRow, Status, Channel, is_dispensing}
use gatstogo.Db.Table.{update_where, select_where, find_where, order_desc, order_by}
use gatstogo.Db.Statement.{M, pure, raise, query, query_row, exec, ◌>>=◌, ◌>>◌, attempt_then}
use gatstogo.Tickets.Phone.{phone_match}
use gatstogo.Tickets.Reference.{initials_from_name}
use gatstogo.Tickets.Lifecycle.{update_tickets}

pub record ReceiptSummary : Type 0 where
  pub reference : Text
  pub status : Status
  pub size_grams : ℕ
  pub amount_kobo : ℕ
  pub created_at : ℕ
  pub confirmed_at : Option ℕ

unfoldable summary_of : TicketRow → ReceiptSummary
summary_of t = record {
  reference = t.reference;
  status = t.status;
  size_grams = t.size_grams;
  amount_kobo = t.amount;
  created_at = t.created_at;
  confirmed_at = t.confirmed_at;
}

-- SELECT … WHERE plant_id = $1 AND phoneMatchSQL = $2 ORDER BY created_at DESC LIMIT 50.
unfoldable pub rows_by_phone : ℕ → Text → Db → List TicketRow
unfolding select_where order_desc
rows_by_phone plant phone db = take 50 (
    order_desc (λ t. t.created_at)
      (select_where (λ t. t.plant_id == plant && phone_match t.customer_phone phone) db.tickets))

unfoldable list_by_phone : ℕ → Text → M (List ReceiptSummary)
unfolding query
list_by_phone plant phone = query (λ db. map summary_of (rows_by_phone plant phone db))

pub record Receipt : Type 0 where
  pub reference : Text
  pub code : Text
  pub status : Status
  pub size_grams : ℕ
  pub net_grams : Option ℕ
  pub rate_per_kg_kobo : ℕ
  pub amount_kobo : ℕ
  pub channel : Channel
  pub created_at : ℕ
  pub filled_at : Option ℕ
  pub confirmed_at : Option ℕ

-- WHERE plant_id = $1 AND reference = $2 AND phoneMatchSQL = $3.
abbrev pub is_receipt : ℕ → Text → Text → TicketRow → Bool
is_receipt plant reference phone t =
    t.plant_id == plant && text_eq t.reference reference && phone_match t.customer_phone phone

unfoldable pub receipt_of : Text → TicketRow → Receipt
receipt_of reference t = record {
  reference = reference;
  code = t.code;
  status = t.status;
  size_grams = t.size_grams;
  net_grams = t.net_grams;
  rate_per_kg_kobo = t.rate_per_kg;
  amount_kobo = t.amount;
  channel = t.channel;
  created_at = t.created_at;
  filled_at = t.filled_at;
  confirmed_at = t.confirmed_at;
}

-- if errors.Is(err, pgx.ErrNoRows) { return replacement }.
unfoldable pub no_rows_as {ℓ} : {A : Type ℓ} → Error → Result A → M A
unfolding pure raise
no_rows_as e (ok a) = pure a
no_rows_as e (err Error.no_rows) = raise e
no_rows_as e (err e') = raise e'

unfoldable pub get_receipt : ℕ → Text → Text → M Receipt
unfolding query_row no_rows_as receipt_of find_where attempt_then
get_receipt plant reference phone =
    attempt_then
      (query_row (λ db.
        Option.map (receipt_of reference)
          (find_where (is_receipt plant reference phone) db.tickets)))
      (no_rows_as receipt_not_found)

-- SELECT status, confirmed_at ….
unfoldable pub confirm_state : ℕ → Text → Text → Db → Option (Status × Option ℕ)
unfolding find_where
confirm_state plant reference phone db =
    Option.map (λ t. (t.status, t.confirmed_at))
      (find_where (is_receipt plant reference phone) db.tickets)

abbrev pub confirmed_row : ℕ → TicketRow → TicketRow
confirmed_row now t = record t { confirmed_at = some now }

abbrev pub has_reference : ℕ → Text → TicketRow → Bool
has_reference plant reference t = t.plant_id == plant && text_eq t.reference reference

-- UPDATE tickets SET confirmed_at = now() WHERE plant_id = $1 AND reference = $2.
unfoldable pub set_confirmed : ℕ → Text → M (Unit {0})
unfolding update_tickets pure ◌>>=◌
set_confirmed plant reference = do
  update_tickets (has_reference plant reference) confirmed_row
  pure tt

unfoldable pub confirm_from : ℕ → Text → Status × Option ℕ → M (Unit {0})
unfolding set_confirmed pure raise
confirm_from plant reference (Status.filled, none) = set_confirmed plant reference
confirm_from plant reference (Status.filled, some at) = pure tt
confirm_from plant reference _ = raise not_confirmable

unfoldable pub confirm : ℕ → Text → Text → M (Unit {0})
unfolding query_row no_rows_as confirm_state confirm_from attempt_then ◌>>=◌
confirm plant reference phone = do
  state ←
      attempt_then (query_row (confirm_state plant reference phone)) (no_rows_as not_confirmable)
  confirm_from plant reference state

-- WHERE reference = $1, on every plant; the plant's and the ticket's identifiers.
unfoldable pub lookup_plant_by_reference : Text → M (ℕ × ℕ)
unfolding query_row find_where
lookup_plant_by_reference reference = query_row λ db.
    Option.map (λ t. (t.plant_id, t.id))
      (find_where (λ t. text_eq t.reference reference) db.tickets)

pub record PumpQueueTicket : Type 0 where
  pub id : ℕ
  pub code : Text
  pub initials : Text
  pub size_grams : ℕ
  pub amount_kobo : ℕ
  pub channel : Channel
  pub started_at : ℕ

-- A row stands no later under ORDER BY dispensing_started_at NULLS LAST, created_at, by the two
-- columns of each.
no_later : Option ℕ → ℕ → Option ℕ → ℕ → Bool
no_later none c none d = leb c d
no_later none c (some b) d = false
no_later (some a) c none d = true
no_later (some a) c (some b) d = if ltb a b then true else if ltb b a then false else leb c d

started_before : TicketRow → TicketRow → Bool
unfolding no_later
started_before x y =
    no_later x.dispensing_started_at x.created_at y.dispensing_started_at y.created_at

-- `to_upper` is unicode.ToUpper.
unfoldable queue_ticket_of : (ℕ → ℕ) → TicketRow → PumpQueueTicket
unfolding initials_from_name
queue_ticket_of to_upper t = record {
  id = t.id;
  code = t.code;
  initials = initials_from_name to_upper t.customer_name;
  size_grams = t.size_grams;
  amount_kobo = t.amount;
  channel = t.channel;
  started_at = coalesce t.dispensing_started_at t.updated_at;
}

unfoldable pub list_dispensing_for_pump : (ℕ → ℕ) → ℕ → ℕ → M (List PumpQueueTicket)
unfolding query started_before order_by select_where queue_ticket_of
list_dispensing_for_pump to_upper plant pump = query λ db. map (queue_ticket_of to_upper) (
    order_by started_before (
      select_where (λ t. t.plant_id == plant && is_some_of t.pump_id pump && is_dispensing t.status)
        db.tickets))
