-- ===== src/Terminal/CashSale.antt =====
-- cmd/server/terminal.go: terminalCashSaleHandler. The form comes as the amount in kobo, if it reads
-- as a positive number, and the phone number.
use gatstogo.Base.{
  ℕ, ℤ, pos, false, Option, none, some, [], Text, codes, trim_space, ◌==◌, if◌then◌else◌,
}
use gatstogo.Error.{Error, plant_closed, price_not_set, amount_too_small, Result, ok, err}
use gatstogo.Db.Schema.{Channel, CashRow, CashKind}
use gatstogo.Db.Statement.{M, pure, raise, ◌>>=◌, ◌>>◌, attempt_then}
use gatstogo.Tenant.{with_tenant, log}
use gatstogo.Tickets.Money.{grams_from_amount}
use gatstogo.Tickets.Purchase.{Ticket, PurchaseParams, create_paid_cash}
use gatstogo.Pumps.Board.{Pump}
use gatstogo.Pumps.Assignment.{assign_least_busy}
use gatstogo.Shifts.Lifecycle.{insert_cash}
use gatstogo.Shifts.Cash.{summary}
use gatstogo.Hours.{TodayStatus, status_now}
use gatstogo.Checkout.{load_current_price}
use gatstogo.Checkout.Buy.{Chance, Plant}
use gatstogo.Terminal.{Actor, Reply, is_operator}

-- Of the reply: the ticket, the name of its pump, empty without one, and the cash of the shift.
pub record Sale : Type 0 where
  pub ticket : Ticket
  pub pump_name : Text
  pub cash_held_kobo : ℤ

abbrev cash_params : Plant → ℕ × ℕ → ℕ → Text → PurchaseParams
cash_params plant price amount phone = record {
  plant_id = plant.id;
  plant_slug = plant.slug;
  price_id = price.0;
  rate_per_kg_kobo = price.1;
  amount_kobo = amount;
  size_grams = grams_from_amount amount price.1;
  channel = Channel.cash;
  customer_name = [];
  customer_phone = phone;
  paid = false;
  sold_by = none;
  shift_id = none;
}

abbrev pub cash_row : ℕ → ℕ → ℕ → ℕ → ℕ → CashRow
cash_row plant shift user amount ticket = record {
  plant_id = plant;
  shift_id = shift;
  kind = CashKind.sale;
  amount_kobo = pos amount;
  counted_kobo = none;
  ticket_id = some ticket;
  recorded_by = user;
  note = some (codes "Cash sale at terminal");
}

-- With no working pump the ticket stays without one.
unfoldable pub pump_or_none : Result Pump → M Text
unfolding pure raise
pump_or_none (ok p) = pure p.name
pump_or_none (err Error.no_working_pump) = pure []
pump_or_none (err e) = raise e

module _ (pump_id : ℕ) where
  unfoldable pub record_sale : ℕ → ℕ → ℕ → ℕ → Ticket → M Sale
  unfolding assign_least_busy pump_or_none insert_cash log summary pure attempt_then ◌>>=◌
  record_sale plant shift user amount ticket = do
    pump ← attempt_then (assign_least_busy plant ticket.id pump_id) pump_or_none
    insert_cash (cash_row plant shift user amount ticket.id)
    log (some plant) (some user) (codes "ticket.cash_sale") ticket.reference
    totals ← summary plant shift
    pure (record { ticket = ticket; pump_name = pump; cash_held_kobo = totals.2 })

  unfoldable pub sell_for_cash : Plant → ℕ → ℕ → ℕ → Text → Chance → ℕ × ℕ → M Sale
  unfolding create_paid_cash record_sale grams_from_amount raise ◌>>=◌
  sell_for_cash plant shift user amount phone c price =
      if price.1 == 0
      then raise price_not_set
      else if grams_from_amount amount price.1 == 0
      then raise amount_too_small
      else create_paid_cash (cash_params plant price amount phone) user shift c.bytes c.random
          c.wall c.id
        >>= record_sale plant.id shift user amount

  unfoldable pub when_open : M Sale → TodayStatus → M Sale
  unfolding raise
  when_open m status = if status.is_open then m else raise plant_closed

  -- The function that WithTenant runs.
  unfoldable pub sale_in_tenant : Plant → ℕ → ℕ → ℕ → Text → Chance → M Sale
  unfolding status_now load_current_price when_open sell_for_cash ◌>>=◌
  sale_in_tenant plant shift user amount phone c = do
    status ← status_now plant.id c.day c.clock
    when_open (load_current_price plant.id >>= sell_for_cash plant shift user amount phone c) status

  abbrev pub sale_reply : Result Sale → Reply Sale
  sale_reply (ok sale) = Reply.json sale
  sale_reply (err Error.plant_closed) = Reply.refused 403
  sale_reply (err e) = Reply.refused 500

  unfoldable pub sale_of_form : Plant → ℕ → ℕ → Chance → Option (Option ℕ × Text) → M (Reply Sale)
  unfolding with_tenant sale_in_tenant trim_space pure attempt_then
  sale_of_form plant shift user c none = pure (Reply.refused 400)
  sale_of_form plant shift user c (some (none, phone)) = pure (Reply.refused 400)
  sale_of_form plant shift user c (some (some amount, phone)) =
      attempt_then
        (with_tenant plant.id (sale_in_tenant plant shift user amount (trim_space phone) c))
        (λ r. pure (sale_reply r))

  unfoldable pub sale_in_shift :
      Plant → Actor → Chance → Option (Option ℕ × Text) → Option ℕ → M (Reply Sale)
  unfolding sale_of_form pure
  sale_in_shift plant actor c form none = pure (Reply.refused 401)
  sale_in_shift plant actor c form (some shift) =
      if is_operator actor.role
      then pure (Reply.refused 403)
      else sale_of_form plant shift actor.user_id c form

  unfoldable pub terminal_cash_sale :
      Option (Plant × Actor) → Chance → Option (Option ℕ × Text) → M (Reply Sale)
  unfolding sale_in_shift pure
  terminal_cash_sale none c form = pure (Reply.refused 401)
  terminal_cash_sale (some (plant, actor)) c form = sale_in_shift plant actor c form actor.shift_id
