-- ===== src/Terminal/Dispensing.antt =====
-- cmd/server/terminal.go: terminalFillHandler and terminalPumpQueueHandler. The message to the
-- customer comes as its parts; that it is sent is left out.
use mathlib.Core.Option
use gatstogo.Base.{
  ℕ, ◌&&◌, Option, none, some, List, [], Text, codes, coalesce, ◌==◌, if◌then◌else◌,
}
use gatstogo.Error.{Result, ok, err}
use gatstogo.Db.Schema.{Db, TicketRow, PumpRow}
use gatstogo.Db.Table.{find_where}
use gatstogo.Db.Statement.{M, pure, query_row, ◌>>=◌, ◌>>◌, attempt_then}
use gatstogo.Tenant.{with_tenant, log}
use gatstogo.Tickets.Lifecycle.{is_ticket, start_dispensing}
use gatstogo.Tickets.Receipts.{PumpQueueTicket, list_dispensing_for_pump}
use gatstogo.Reviews.{ensure_request}
use gatstogo.Terminal.{Actor, Reply, is_operator, close_reply}

-- dispensingNotification, with the token of the review's address.
pub record Notice : Type 0 where
  pub phone : Text
  pub code : Text
  pub size_grams : ℕ
  pub pump_name : Text
  pub review_token : Text

-- LEFT JOIN pumps p ON p.id = t.pump_id AND p.plant_id = t.plant_id.
pump_joined : TicketRow → Option ℕ → Db → Text
unfolding find_where
pump_joined t none db = []
pump_joined t (some pump) db =
    elim (find_where (λ (p : PumpRow). p.id == pump && p.plant_id == t.plant_id) db.pumps) [
      | none ↦ []
      | some p ↦ p.name
    ]

abbrev empty_notice : Notice
empty_notice = record { phone = []; code = []; size_grams = 0; pump_name = []; review_token = [] }

abbrev notice_of : Db → TicketRow → Notice
unfolding pump_joined
notice_of db t = record {
  phone = coalesce t.customer_phone [];
  code = t.code;
  size_grams = t.size_grams;
  pump_name = pump_joined t t.pump_id db;
  review_token = [];
}

unfoldable read_notice : ℕ → ℕ → Db → Option Notice
unfolding find_where notice_of
read_notice plant ticket db =
    Option.map (notice_of db) (find_where (is_ticket plant ticket) db.tickets)

-- The error of the query is dropped, and leaves the variables empty.
unfoldable pub notice_or_empty : Result Notice → M Notice
unfolding pure
notice_or_empty (ok n) = pure n
notice_or_empty (err e) = pure empty_notice

module _ (uuid_text : ℕ → Text) (random : ℕ → Result (List ℕ)) (review_id : ℕ) where
  unfoldable pub notified : ℕ → ℕ → ℕ → Notice → M Notice
  unfolding ensure_request log pure ◌>>=◌
  notified plant user ticket notice = do
    request ← ensure_request plant ticket random review_id
    log (some plant) (some user) (codes "ticket.dispensing_started") (uuid_text ticket)
    pure (record notice { review_token = request.0.token })

  -- The function that WithTenant runs; the handler has already refused operators.
  unfoldable pub dispense_in_tenant : ℕ → ℕ → ℕ → M Notice
  unfolding start_dispensing query_row read_notice notice_or_empty notified attempt_then ◌>>=◌
  dispense_in_tenant plant user ticket = do
    start_dispensing plant ticket user
    notice ← attempt_then (query_row (read_notice plant ticket)) notice_or_empty
    notified plant user ticket notice

  unfoldable pub dispense : ℕ → ℕ → Option (Option ℕ) → M (Reply Notice)
  unfolding with_tenant dispense_in_tenant pure attempt_then
  dispense plant user none = pure (Reply.refused 400)
  dispense plant user (some none) = pure (Reply.refused 400)
  dispense plant user (some (some ticket)) =
      attempt_then (with_tenant plant (dispense_in_tenant plant user ticket))
        (λ r. pure (close_reply 400 r))

  unfoldable pub dispense_in_shift : ℕ → Actor → Option (Option ℕ) → Option ℕ → M (Reply Notice)
  unfolding dispense pure
  dispense_in_shift plant actor form none = pure (Reply.refused 401)
  dispense_in_shift plant actor form (some shift) =
      if is_operator actor.role then pure (Reply.refused 403) else dispense plant actor.user_id form

  -- The form's ticket_id as uuid.Parse reads it, where the form could be read.
  unfoldable pub terminal_fill : Option (ℕ × Actor) → Option (Option ℕ) → M (Reply Notice)
  unfolding dispense_in_shift pure
  terminal_fill none form = pure (Reply.refused 401)
  terminal_fill (some (plant, actor)) form = dispense_in_shift plant actor form actor.shift_id

unfoldable pump_queue : (ℕ → ℕ) → ℕ → Option ℕ → M (Reply (List PumpQueueTicket))
unfolding list_dispensing_for_pump with_tenant pure attempt_then
pump_queue to_upper plant none = pure (Reply.refused 401)
pump_queue to_upper plant (some pump) =
    attempt_then (with_tenant plant (list_dispensing_for_pump to_upper plant pump))
      (λ r. pure (close_reply 500 r))

unfoldable terminal_pump_queue : (ℕ → ℕ) → Option (ℕ × Actor) → M (Reply (List PumpQueueTicket))
unfolding pump_queue pure
terminal_pump_queue to_upper none = pure (Reply.refused 401)
terminal_pump_queue to_upper (some (plant, actor)) = pump_queue to_upper plant actor.pump_id
