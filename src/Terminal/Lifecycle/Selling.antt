-- ===== src/Terminal/Lifecycle/Selling.antt =====
-- cmd/server/terminal.go: what terminalFillHandler and terminalCashSaleHandler do to tickets.
use gatstogo.Base.{ℕ, ◌≡◌, refl, Option, none, some, List, Text, arith, ◌==◌}
use gatstogo.Error.{Error, plant_closed, price_not_set, amount_too_small, Result, ok, err}
use gatstogo.Db.Schema.{Db, TicketRow}
use gatstogo.Db.Statement.Keeps.{
  Keeps, Keeps-pure, Keeps-raise, Keeps-query, Keeps-query_row, Keeps-exec, Keeps-bind,
  Keeps-attempt_then, Keeps-if,
}
use gatstogo.Tenant.{log}
use gatstogo.Tenant.Invariants.{Keeps-with_tenant, Keeps-log}
use gatstogo.Tickets.Money.{grams_from_amount}
use gatstogo.Tickets.Purchase.{Ticket, create_paid_cash}
use gatstogo.Tickets.History.{From}
use gatstogo.Tickets.History.Steps.{Keeps-start_dispensing}
use gatstogo.Tickets.History.Sales.{Keeps-purchase}
use gatstogo.Pumps.Board.{Pump}
use gatstogo.Pumps.Assignment.History.{same_tickets, Keeps-assign_least_busy}
use gatstogo.Shifts.Lifecycle.{insert_cash}
use gatstogo.Shifts.Cash.{summary}
use gatstogo.Hours.{status_now}
use gatstogo.Checkout.{load_current_price}
use gatstogo.Checkout.Buy.{Chance, Plant}
use gatstogo.Reviews.{new_review, insert_review, ensure_request}
use gatstogo.Reviews.Requests as Requests
use gatstogo.Terminal.{Actor, close_reply}
use gatstogo.Terminal.Dispensing.{
  Notice, notice_or_empty, notified, dispense_in_tenant, dispense, dispense_in_shift, terminal_fill,
}
use gatstogo.Terminal.CashSale.{
  cash_row, pump_or_none, record_sale, sell_for_cash, when_open, sale_in_tenant, sale_reply,
  sale_of_form, sale_in_shift, terminal_cash_sale,
}

insert_review-tickets :
    (plant ticket : ℕ) (token : Text) (id : ℕ) (db : Db) (o : Option ℕ) (db' : Db)
    → insert_review (new_review plant ticket token id) db ≡ ok (o, db')
    → db'.tickets ≡ db.tickets
unfolding insert_review
insert_review-tickets plant ticket token id db o db' e = ground arith

module _ (xs : List TicketRow) where
  Keeps-log_entry :
      (plant user : Option ℕ) (action subject : Text)
      → Keeps (From xs) (log plant user action subject)
  Keeps-log_entry = Keeps-log (From xs) (λ db rows h. same_tickets xs db _ refl h)

  pub Keeps-summary : (plant shift : ℕ) → Keeps (From xs) (summary plant shift)
  unfolding summary
  Keeps-summary plant shift =
      Keeps-bind _ _ (Keeps-query _)
        (λ fills. Keeps-bind _ _ (Keeps-query _) (λ cash. Keeps-pure (fills.0, fills.1, cash)))

  Keeps-ensure_request :
      (plant ticket : ℕ) (random : ℕ → Result (List ℕ)) (id : ℕ)
      → Keeps (From xs) (ensure_request plant ticket random id)
  Keeps-ensure_request =
      Requests.Keeps-ensure_request (From xs) (λ plant ticket token id db o db' h e.
        same_tickets xs db db' (insert_review-tickets plant ticket token id db o db' e) h)

  module _ (uuid_text : ℕ → Text) (random : ℕ → Result (List ℕ)) (review_id : ℕ) where
    Keeps-notified :
        (plant user ticket : ℕ) (notice : Notice)
        → Keeps (From xs) (notified uuid_text random review_id plant user ticket notice)
    unfolding notified
    Keeps-notified plant user ticket notice =
        Keeps-bind _ _ (Keeps-ensure_request plant ticket random review_id) (λ request.
          Keeps-bind _ _ (Keeps-log_entry _ _ _ _)
            (λ _. Keeps-pure (record notice { review_token = request.0.token })))

    Keeps-notice_or_empty : (r : Result Notice) → Keeps (From xs) (notice_or_empty r)
    unfolding notice_or_empty
    Keeps-notice_or_empty (ok n) = Keeps-pure n
    Keeps-notice_or_empty (err e) = Keeps-pure _

    Keeps-dispense_in_tenant :
        (plant user ticket : ℕ)
        → Keeps (From xs) (dispense_in_tenant uuid_text random review_id plant user ticket)
    unfolding dispense_in_tenant
    Keeps-dispense_in_tenant plant user ticket =
        Keeps-bind _ _ (Keeps-start_dispensing xs plant ticket user) (λ _.
          Keeps-bind _ _ (Keeps-attempt_then _ _ (Keeps-query_row _) Keeps-notice_or_empty)
            (Keeps-notified plant user ticket))

    Keeps-dispense :
        (plant user : ℕ) (form : Option (Option ℕ))
        → Keeps (From xs) (dispense uuid_text random review_id plant user form)
    unfolding dispense
    Keeps-dispense plant user none = Keeps-pure _
    Keeps-dispense plant user (some none) = Keeps-pure _
    Keeps-dispense plant user (some (some ticket)) =
        Keeps-attempt_then _ _
          (Keeps-with_tenant (From xs) plant _ (Keeps-dispense_in_tenant plant user ticket))
          (λ r. Keeps-pure (close_reply 400 r))

    Keeps-dispense_in_shift :
        (plant : ℕ) (actor : Actor) (form : Option (Option ℕ)) (shift : Option ℕ)
        → Keeps (From xs) (dispense_in_shift uuid_text random review_id plant actor form shift)
    unfolding dispense_in_shift
    Keeps-dispense_in_shift plant actor form none = Keeps-pure _
    Keeps-dispense_in_shift plant actor form (some shift) =
        Keeps-if _ _ _ (Keeps-pure _) (Keeps-dispense plant actor.user_id form)

    pub Keeps-terminal_fill :
        (session : Option (ℕ × Actor)) (form : Option (Option ℕ))
        → Keeps (From xs) (terminal_fill uuid_text random review_id session form)
    unfolding terminal_fill
    Keeps-terminal_fill none form = Keeps-pure _
    Keeps-terminal_fill (some (plant, actor)) form =
        Keeps-dispense_in_shift plant actor form actor.shift_id

  module _ (pump_id : ℕ) where
    Keeps-pump_or_none : (r : Result Pump) → Keeps (From xs) (pump_or_none r)
    unfolding pump_or_none
    Keeps-pump_or_none (ok p) = Keeps-pure p.name
    Keeps-pump_or_none (err Error.no_working_pump) = Keeps-pure _
    Keeps-pump_or_none (err e) = Keeps-raise e

    Keeps-insert_cash :
        (plant shift user amount ticket : ℕ)
        → Keeps (From xs) (insert_cash (cash_row plant shift user amount ticket))
    unfolding insert_cash
    Keeps-insert_cash plant shift user amount ticket =
        Keeps-exec _ (λ now db h. same_tickets xs db _ refl h)

    Keeps-record_sale :
        (plant shift user amount : ℕ) (ticket : Ticket)
        → Keeps (From xs) (record_sale pump_id plant shift user amount ticket)
    unfolding record_sale
    Keeps-record_sale plant shift user amount ticket =
        Keeps-bind _ _
          (Keeps-attempt_then _ _ (Keeps-assign_least_busy xs plant ticket.id pump_id)
            Keeps-pump_or_none)
          (λ pump. Keeps-bind _ _ (Keeps-insert_cash plant shift user amount ticket.id) (λ _.
            Keeps-bind _ _ (Keeps-log_entry _ _ _ _) (λ _.
              Keeps-bind _ _ (Keeps-summary plant shift) (λ totals.
                Keeps-pure
                  (record { ticket = ticket; pump_name = pump; cash_held_kobo = totals.2 })))))

    Keeps-sell_for_cash :
        (plant : Plant) (shift user amount : ℕ) (phone : Text) (c : Chance) (price : ℕ × ℕ)
        → Keeps (From xs) (sell_for_cash pump_id plant shift user amount phone c price)
    unfolding sell_for_cash create_paid_cash
    Keeps-sell_for_cash plant shift user amount phone c price =
        Keeps-if (price.1 == 0) _ _ (Keeps-raise price_not_set) (
          Keeps-if (grams_from_amount amount price.1 == 0) _ _ (Keeps-raise amount_too_small) (
            Keeps-bind _ _ (Keeps-purchase xs _ c.bytes c.random c.wall c.id)
              (Keeps-record_sale plant.id shift user amount)))

    Keeps-sale_in_tenant :
        (plant : Plant) (shift user amount : ℕ) (phone : Text) (c : Chance)
        → Keeps (From xs) (sale_in_tenant pump_id plant shift user amount phone c)
    unfolding sale_in_tenant status_now load_current_price when_open
    Keeps-sale_in_tenant plant shift user amount phone c = Keeps-bind _ _ (Keeps-query _) (λ status.
        Keeps-if status.is_open _ _
          (Keeps-bind _ _ (Keeps-query_row _) (Keeps-sell_for_cash plant shift user amount phone c))
          (Keeps-raise plant_closed))

    Keeps-sale_of_form :
        (plant : Plant) (shift user : ℕ) (c : Chance) (form : Option (Option ℕ × Text))
        → Keeps (From xs) (sale_of_form pump_id plant shift user c form)
    unfolding sale_of_form
    Keeps-sale_of_form plant shift user c none = Keeps-pure _
    Keeps-sale_of_form plant shift user c (some (none, phone)) = Keeps-pure _
    Keeps-sale_of_form plant shift user c (some (some amount, phone)) =
        Keeps-attempt_then _ _
          (Keeps-with_tenant (From xs) plant.id _
            (Keeps-sale_in_tenant plant shift user amount _ c))
          (λ r. Keeps-pure (sale_reply pump_id r))

    Keeps-sale_in_shift :
        (plant : Plant) (actor : Actor) (c : Chance) (form : Option (Option ℕ × Text))
        (shift : Option ℕ)
        → Keeps (From xs) (sale_in_shift pump_id plant actor c form shift)
    unfolding sale_in_shift
    Keeps-sale_in_shift plant actor c form none = Keeps-pure _
    Keeps-sale_in_shift plant actor c form (some shift) =
        Keeps-if _ _ _ (Keeps-pure _) (Keeps-sale_of_form plant shift actor.user_id c form)

    pub Keeps-terminal_cash_sale :
        (session : Option (Plant × Actor)) (c : Chance) (form : Option (Option ℕ × Text))
        → Keeps (From xs) (terminal_cash_sale pump_id session c form)
    unfolding terminal_cash_sale
    Keeps-terminal_cash_sale none c form = Keeps-pure _
    Keeps-terminal_cash_sale (some (plant, actor)) c form =
        Keeps-sale_in_shift plant actor c form actor.shift_id
