-- ===== src/Terminal/Lifecycle.antt =====
-- cmd/server/terminal.go: what the terminal's handlers do to tickets.
pub mod Selling
use mathlib.Core.Option
use gatstogo.Base.{ℕ, refl, Option, none, some, List, Text, trim_space}
use gatstogo.Error.{Result}
use gatstogo.Db.Schema.{TicketRow}
use gatstogo.Db.Statement.Keeps.{
  Keeps, Keeps-pure, Keeps-lift, Keeps-query, Keeps-bind, Keeps-attempt_then, Keeps-if,
}
use gatstogo.Tenant.Invariants.{Keeps-with_tenant, Keeps-log}
use gatstogo.Tickets.History.{From}
use gatstogo.Tickets.History.Steps.{Keeps-close_filled, Keeps-bulk_close_filled}
use gatstogo.Tickets.Lifecycle.{redeem}
use gatstogo.Pumps.Assignment.History.{same_tickets}
use gatstogo.Shifts.Cash.{summary}
use gatstogo.Checkout.Buy.{Chance, Plant}
use gatstogo.Terminal.Dispensing.{terminal_fill}
use gatstogo.Terminal.CashSale.{terminal_cash_sale}
use gatstogo.Terminal.Lifecycle.Selling.{
  Keeps-summary, Keeps-terminal_fill, Keeps-terminal_cash_sale,
}
use gatstogo.Terminal.{
  Actor, CloseForm, redeem_reply, redeem_code, terminal_redeem, totals, close_reply,
  close_in_tenant, close_ticket, close_in_shift, terminal_close_receipt, bulk_close_in_tenant,
  bulk_close, terminal_bulk_close_receipts,
}

module _ (xs : List TicketRow) where
  Keeps-redeem :
      (to_upper : ℕ → ℕ) (plant : ℕ) (code : Text) → Keeps (From xs) (redeem to_upper plant code)
  unfolding redeem
  Keeps-redeem to_upper plant code = Keeps-bind _ _ (Keeps-query _) (λ found. Keeps-lift _)

  Keeps-redeem_code :
      (to_upper : ℕ → ℕ) (plant : ℕ) (code : Text)
      → Keeps (From xs) (redeem_code to_upper plant code)
  unfolding redeem_code
  Keeps-redeem_code to_upper plant code =
      Keeps-if _ _ _
        (Keeps-attempt_then _ _
          (Keeps-with_tenant (From xs) plant _ (Keeps-redeem to_upper plant code))
          (λ r. Keeps-pure (redeem_reply r)))
        (Keeps-pure _)

  Keeps-terminal_redeem :
      (to_upper : ℕ → ℕ) (session : Option (ℕ × Actor)) (form : Option Text)
      → Keeps (From xs) (terminal_redeem to_upper session form)
  unfolding terminal_redeem
  Keeps-terminal_redeem to_upper none form = Keeps-pure _
  Keeps-terminal_redeem to_upper (some (plant, actor)) none =
      Keeps-if _ _ _ (Keeps-pure _) (Keeps-pure _)
  Keeps-terminal_redeem to_upper (some (plant, actor)) (some code) =
      Keeps-if _ _ _ (Keeps-pure _) (Keeps-redeem_code to_upper plant (trim_space code))

  module _ (uuid_text : ℕ → Text) where
    Keeps-close_in_tenant :
        (plant shift user ticket : ℕ) (note : Text)
        → Keeps (From xs) (close_in_tenant uuid_text plant shift user ticket note)
    unfolding close_in_tenant
    Keeps-close_in_tenant plant shift user ticket note =
        Keeps-bind _ _ (Keeps-close_filled xs plant ticket shift user note) (λ _.
          Keeps-bind _ _ (Keeps-log (From xs) (λ db rows h. same_tickets xs db _ refl h) _ _ _ _)
            (λ _. Keeps-bind _ _ (Keeps-summary xs plant shift) (λ t. Keeps-pure (totals t))))

    Keeps-bulk_close_in_tenant :
        (plant pump shift user : ℕ) (note : Text)
        → Keeps (From xs) (bulk_close_in_tenant uuid_text plant pump shift user note)
    unfolding bulk_close_in_tenant
    Keeps-bulk_close_in_tenant plant pump shift user note =
        Keeps-bind _ _ (Keeps-bulk_close_filled xs plant pump shift user note) (λ count.
          Keeps-bind _ _ (Keeps-log (From xs) (λ db rows h. same_tickets xs db _ refl h) _ _ _ _)
            (λ _.
              Keeps-bind _ _ (Keeps-summary xs plant shift) (λ t. Keeps-pure (count, totals t))))

    Keeps-close_ticket :
        (plant shift user : ℕ) (note : Text) (ticket : Option ℕ)
        → Keeps (From xs) (close_ticket uuid_text plant shift user note ticket)
    unfolding close_ticket
    Keeps-close_ticket plant shift user note none = Keeps-pure _
    Keeps-close_ticket plant shift user note (some ticket) =
        Keeps-attempt_then _ _
          (Keeps-with_tenant (From xs) plant _ (Keeps-close_in_tenant plant shift user ticket note))
          (λ r. Keeps-pure (close_reply 400 r))

    Keeps-close_in_shift :
        (plant user : ℕ) (form : Option CloseForm) (shift : Option ℕ)
        → Keeps (From xs) (close_in_shift uuid_text plant user form shift)
    unfolding close_in_shift
    Keeps-close_in_shift plant user form none = Keeps-pure _
    Keeps-close_in_shift plant user none (some shift) = Keeps-pure _
    Keeps-close_in_shift plant user (some form) (some shift) =
        Keeps-close_ticket plant shift user (trim_space form.note) form.ticket

    Keeps-terminal_close_receipt :
        (session : Option (ℕ × Actor)) (form : Option CloseForm)
        → Keeps (From xs) (terminal_close_receipt uuid_text session form)
    unfolding terminal_close_receipt
    Keeps-terminal_close_receipt none form = Keeps-pure _
    Keeps-terminal_close_receipt (some (plant, actor)) form =
        Keeps-close_in_shift plant actor.user_id form actor.shift_id

    Keeps-bulk_close :
        (plant user : ℕ) (form : Option Text) (shift pump : Option ℕ)
        → Keeps (From xs) (bulk_close uuid_text plant user form shift pump)
    unfolding bulk_close
    Keeps-bulk_close plant user form none pump = Keeps-pure _
    Keeps-bulk_close plant user form (some shift) none = Keeps-pure _
    Keeps-bulk_close plant user none (some shift) (some pump) = Keeps-pure _
    Keeps-bulk_close plant user (some note) (some shift) (some pump) =
        Keeps-attempt_then _ _
          (Keeps-with_tenant (From xs) plant _
            (Keeps-bulk_close_in_tenant plant pump shift user (trim_space note)))
          (λ r. Keeps-pure (close_reply 500 r))

    Keeps-terminal_bulk_close_receipts :
        (session : Option (ℕ × Actor)) (form : Option Text)
        → Keeps (From xs) (terminal_bulk_close_receipts uuid_text session form)
    unfolding terminal_bulk_close_receipts
    Keeps-terminal_bulk_close_receipts none form = Keeps-pure _
    Keeps-terminal_bulk_close_receipts (some (plant, actor)) form =
        Keeps-bulk_close plant actor.user_id form actor.shift_id actor.pump_id

  -- The terminal's handlers for a code, for starting to dispense, for a sale for cash, for closing one
  -- ticket and for closing a pump's tickets, whatever they are sent and whichever statements fail,
  -- leave every ticket there with its sale unchanged and moved along the life cycle, add only tickets
  -- that begin pending or paid, and keep every unique index of tickets.
  pub Keeps-terminal :
      (to_upper : ℕ → ℕ) (uuid_text : ℕ → Text) (random : ℕ → Result (List ℕ))
      (review_id pump_id : ℕ) (plant : Plant) (actor : Option Actor) (c : Chance)
      (code note : Option Text) (ticket : Option (Option ℕ)) (sale : Option (Option ℕ × Text))
      (form : Option CloseForm)
      → Keeps (From xs) (terminal_redeem to_upper (Option.map (λ a. (plant.id, a)) actor) code)
        × Keeps (From xs) (
            terminal_fill uuid_text random review_id (Option.map (λ a. (plant.id, a)) actor) ticket)
        × Keeps (From xs) (terminal_cash_sale pump_id (Option.map (λ a. (plant, a)) actor) c sale)
        × Keeps
            (From xs)
            (terminal_close_receipt uuid_text (Option.map (λ a. (plant.id, a)) actor) form)
        × Keeps
            (From xs)
            (terminal_bulk_close_receipts uuid_text (Option.map (λ a. (plant.id, a)) actor) note)
  Keeps-terminal to_upper uuid_text random review_id pump_id plant actor c code note ticket sale
        form =
      (
        Keeps-terminal_redeem to_upper _ code,
        Keeps-terminal_fill xs uuid_text random review_id _ ticket,
        Keeps-terminal_cash_sale xs pump_id _ c sale,
        Keeps-terminal_close_receipt uuid_text _ form,
        Keeps-terminal_bulk_close_receipts uuid_text _ note,
      )
