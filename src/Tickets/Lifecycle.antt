-- ===== src/Tickets/Lifecycle.antt =====
-- internal/tickets/tickets.go: RedeemedTicket, Redeem, StartDispensing, CloseFilled,
-- BulkCloseFilled, Fill, MarkPaid and Void.
pub mod Guards
pub mod Payment
use mathlib.Core.Option
use gatstogo.Base.{
  ℕ, Bool, true, false, ◌&&◌, ◌||◌, Option, none, some, [], Text, text_eq, coalesce, is_some_of,
  ◌==◌, if◌then◌else◌,
}
use gatstogo.Error.{
  Error, code_not_found, code_already_redeemed, code_not_payable, not_paid, not_dispensing,
  not_voidable, Result, ok, err,
}
use gatstogo.Db.Schema.{Db, TicketRow, Status, Channel, PumpRow, is_pending, is_paid, is_dispensing}
use gatstogo.Db.Table.{update_where, count_where, select_where, find_where, latest}
use gatstogo.Db.Statement.{Store, M, pure, raise, lift, query, query_row, exec, ◌>>=◌, ◌>>◌}
use gatstogo.Tickets.Reference.{initials_from_name, null_if_empty}

pub record RedeemedTicket : Type 0 where
  pub id : ℕ
  pub initials : Text
  pub size_grams : ℕ
  pub amount_kobo : ℕ
  pub channel : Channel
  pub pump_id : Option ℕ
  pub pump_name : Text

-- WHERE t.plant_id = $1 AND t.code = $2 ORDER BY t.created_at DESC LIMIT 1.
unfoldable pub by_code : ℕ → Text → Db → Option TicketRow
unfolding latest select_where
by_code plant code db =
    latest (λ t. t.created_at)
      (select_where (λ t. t.plant_id == plant && text_eq t.code code) db.tickets)

-- LEFT JOIN pumps p ON p.id = t.pump_id AND p.plant_id = t.plant_id, COALESCE(p.name, '').
unfoldable pub pump_name_of : Db → TicketRow → Text
unfolding find_where
pump_name_of db t =
    elim (find_where (λ (p : PumpRow). is_some_of t.pump_id p.id && p.plant_id == t.plant_id)
      db.pumps) [ none ↦ [] | some p ↦ p.name ]

module _ (to_upper : ℕ → ℕ) where
  -- The switch on the status of the row that the query found.
  unfoldable redeemable : Status → RedeemedTicket → Result RedeemedTicket
  redeemable Status.paid t = ok t
  redeemable Status.dispensing t = err code_already_redeemed
  redeemable Status.filled t = err code_already_redeemed
  redeemable _ t = err code_not_payable

  unfoldable pub redeemed : TicketRow × Text → RedeemedTicket
  unfolding initials_from_name
  redeemed (t, pump_name) = record {
    id = t.id;
    initials = initials_from_name to_upper t.customer_name;
    size_grams = t.size_grams;
    amount_kobo = t.amount;
    channel = t.channel;
    pump_id = t.pump_id;
    pump_name = pump_name;
  }

  -- No row is ErrCodeNotFound here, not pgx.ErrNoRows.
  answer : Option (TicketRow × Text) → Result RedeemedTicket
  unfolding redeemable redeemed
  answer none = err code_not_found
  answer (some (t, pump_name)) = redeemable t.status (redeemed (t, pump_name))

  unfoldable pub redeem : ℕ → Text → M RedeemedTicket
  unfolding answer lift query ◌>>=◌
  redeem plant code = do
    found ← query (λ db. Option.map (λ t. (t, pump_name_of db t)) (by_code plant code db))
    lift (answer found)

-- An UPDATE of tickets, with its command tag and the trigger that sets updated_at.
unfoldable pub update_tickets : (TicketRow → Bool) → (ℕ → TicketRow → TicketRow) → M ℕ
unfolding exec
update_tickets where_ set = exec λ now db. (
  count_where where_ db.tickets,
  record db {
    tickets = update_where where_ (λ t. record (set now t) { updated_at = now }) db.tickets;
  },
)

-- if tag.RowsAffected() == 0 { return err }.
unfoldable pub require_rows : Error → ℕ → M (Unit {0})
require_rows e rows = if rows == 0 then raise e else pure tt

-- WHERE id = $1 AND plant_id = $2.
abbrev pub is_ticket : ℕ → ℕ → TicketRow → Bool
is_ticket plant id t = t.id == id && t.plant_id == plant

abbrev pub dispensing_row : ℕ → ℕ → TicketRow → TicketRow
dispensing_row actor now t = record t {
  status = Status.dispensing;
  dispensing_started_at = some now;
  dispensing_started_by = some actor;
}

unfoldable pub start_dispensing : ℕ → ℕ → ℕ → M (Unit {0})
unfolding update_tickets require_rows pure raise ◌>>=◌
start_dispensing plant id actor = do
  rows ← update_tickets (λ t. is_ticket plant id t && is_paid t.status) (dispensing_row actor)
  require_rows not_paid rows

abbrev pub filled_row : ℕ → ℕ → Option Text → ℕ → TicketRow → TicketRow
filled_row shift actor note now t = record t {
  status = Status.filled;
  filled_at = some now;
  filled_shift_id = some shift;
  closed_by = some actor;
  close_note = note;
  net_grams = some (coalesce t.net_grams t.size_grams);
}

unfoldable pub close_filled : ℕ → ℕ → ℕ → ℕ → Text → M (Unit {0})
unfolding update_tickets require_rows pure raise ◌>>=◌
close_filled plant id shift actor note = do
  rows ←
      update_tickets (λ t. is_ticket plant id t && is_dispensing t.status)
        (filled_row shift actor (null_if_empty note))
  require_rows not_dispensing rows

unfoldable pub bulk_close_filled : ℕ → ℕ → ℕ → ℕ → Text → M ℕ
unfolding update_tickets
bulk_close_filled plant pump shift actor note =
    update_tickets (λ t. t.plant_id == plant && is_some_of t.pump_id pump && is_dispensing t.status)
      (filled_row shift actor (null_if_empty note))

abbrev pub directly_filled_row : ℕ → ℕ → TicketRow → TicketRow
directly_filled_row shift now t = record t {
  status = Status.filled;
  filled_at = some now;
  filled_shift_id = some shift;
  net_grams = some (coalesce t.net_grams t.size_grams);
}

unfoldable pub fill : ℕ → ℕ → ℕ → M (Unit {0})
unfolding update_tickets require_rows pure raise ◌>>=◌
fill plant id shift = do
  rows ←
      update_tickets (λ t. is_ticket plant id t && (is_paid t.status || is_dispensing t.status))
        (directly_filled_row shift)
  require_rows not_paid rows

-- SELECT status FROM tickets WHERE id = $1 AND plant_id = $2.
unfoldable pub status_of : ℕ → ℕ → Db → Option Status
unfolding find_where
status_of plant id db = Option.map (λ t. t.status) (find_where (is_ticket plant id) db.tickets)

abbrev pub paid_row : ℕ → TicketRow → TicketRow
paid_row now t = record t { status = Status.paid; paid_at = some now }

-- UPDATE tickets SET status = 'paid', paid_at = now() WHERE id = $1 AND plant_id = $2: the status is
-- not tested again.
unfoldable pub set_paid : ℕ → ℕ → M ℕ
unfolding update_tickets
set_paid plant id = update_tickets (is_ticket plant id) paid_row

unfoldable pub pay_from : ℕ → ℕ → Status → M Bool
unfolding set_paid pure ◌>>=◌
pay_from plant id Status.paid = pure true
pay_from plant id Status.dispensing = pure true
pay_from plant id Status.filled = pure true
pay_from plant id Status.pending = do set_paid plant id; pure true
pay_from plant id _ = pure false

unfoldable pub mark_paid : ℕ → ℕ → M Bool
unfolding pay_from query_row ◌>>=◌
mark_paid plant id = do status ← query_row (status_of plant id); pay_from plant id status

abbrev pub voided_row : ℕ → Text → ℕ → TicketRow → TicketRow
voided_row actor reason now t = record t {
  status = Status.voided;
  void_reason = some reason;
  voided_by = some actor;
  voided_at = some now;
}

unfoldable pub void : ℕ → ℕ → ℕ → Text → M (Unit {0})
unfolding update_tickets require_rows pure raise ◌>>=◌
void plant id actor reason = do
  rows ←
      update_tickets (λ t. is_ticket plant id t && (is_pending t.status || is_paid t.status))
        (voided_row actor reason)
  require_rows not_voidable rows
