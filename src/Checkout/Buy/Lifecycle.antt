-- ===== src/Checkout/Buy/Lifecycle.antt =====
-- cmd/server/tickets.go: buying gas adds at most pending tickets, and only when the plant is open.
use gatstogo.Base.{ℕ, refl, false, Option, none, some, List, Text, codes, ◌==◌}
use gatstogo.Error.{plant_closed, price_not_set, amount_too_small, Result, ok, err}
use gatstogo.Db.Schema.{TicketRow, Channel}
use gatstogo.Db.Statement.{M}
use gatstogo.Db.Statement.Keeps.{
  Keeps, Keeps-pure, Keeps-raise, Keeps-query, Keeps-query_row, Keeps-bind, Keeps-attempt_then,
  Keeps-if,
}
use gatstogo.Tenant.Invariants.{Keeps-with_tenant, Keeps-log}
use gatstogo.Tickets.Purchase.{Ticket, PurchaseParams, create_pending}
use gatstogo.Tickets.Money.{grams_from_amount}
use gatstogo.Tickets.History.{From}
use gatstogo.Tickets.History.Sales.{Keeps-purchase}
use gatstogo.Pumps.Assignment.History.{same_tickets}
use gatstogo.Hours.{TodayStatus, status_now}
use gatstogo.Checkout.{load_current_price}
use gatstogo.Checkout.Buy.{
  Chance, Plant, BuyForm, InitializeParams, pending_params, logged, sell, when_open, buy_in_tenant,
  to_checkout, on_channel, on_amount, buy_gas_submit,
}

module _ (xs : List TicketRow) where
  Keeps-logged : (plant : ℕ) (t : Ticket) → Keeps (From xs) (logged plant t)
  unfolding logged
  Keeps-logged plant t =
      Keeps-bind _ _
        (Keeps-log (From xs) (λ db rows h. same_tickets xs db _ refl h) (some plant) none
          (codes "ticket.created") t.reference)
        (λ _. Keeps-pure t)

  Keeps-create_pending :
      (p : PurchaseParams) (bytes : Result (List ℕ)) (random : ℕ → Result ℕ) (wall id : ℕ)
      → Keeps (From xs) (create_pending p bytes random wall id)
  unfolding create_pending
  Keeps-create_pending p bytes random wall id =
      Keeps-purchase xs (record p { paid = false; sold_by = none; shift_id = none }) bytes random
        wall id

  Keeps-sell :
      (plant : Plant) (amount : ℕ) (channel : Channel) (name phone : Text) (c : Chance)
      (price : ℕ × ℕ)
      → Keeps (From xs) (sell plant amount channel name phone c price)
  unfolding sell
  Keeps-sell plant amount channel name phone c price =
      Keeps-if (price.1 == 0) _ _ (Keeps-raise price_not_set) (
        Keeps-if (grams_from_amount amount price.1 == 0) _ _ (Keeps-raise amount_too_small) (
          Keeps-bind _ _
            (Keeps-create_pending (pending_params plant price amount channel name phone) c.bytes
              c.random c.wall c.id)
            (Keeps-logged plant.id)))

  Keeps-when_open :
      (m : M Ticket) (status : TodayStatus)
      → Keeps (From xs) m
      → Keeps (From xs) (when_open m status)
  unfolding when_open
  Keeps-when_open m status k = Keeps-if status.is_open _ _ k (Keeps-raise plant_closed)

  Keeps-buy_in_tenant :
      (plant : Plant) (amount : ℕ) (channel : Channel) (name phone : Text) (c : Chance)
      → Keeps (From xs) (buy_in_tenant plant amount channel name phone c)
  unfolding buy_in_tenant status_now load_current_price
  Keeps-buy_in_tenant plant amount channel name phone c = Keeps-bind _ _ (Keeps-query _) (λ status.
      Keeps-when_open _ status
        (Keeps-bind _ _ (Keeps-query_row _) (Keeps-sell plant amount channel name phone c)))

  module _ (initialize : InitializeParams → Result Text) (scheme host email : Text) where
    Keeps-to_checkout :
        (plant : Plant) (amount : ℕ) (channels : List Text) (r : Result Ticket)
        → Keeps (From xs) (to_checkout initialize scheme host email plant amount channels r)
    unfolding to_checkout
    Keeps-to_checkout plant amount channels (ok t) = Keeps-pure _
    Keeps-to_checkout plant amount channels (err e) = Keeps-pure _

    Keeps-on_channel :
        (plant : Plant) (amount : ℕ) (name phone : Text) (c : Chance)
        (o : Option (Channel × List Text))
        → Keeps (From xs) (on_channel initialize scheme host email plant amount name phone c o)
    unfolding on_channel
    Keeps-on_channel plant amount name phone c none = Keeps-pure _
    Keeps-on_channel plant amount name phone c (some (channel, channels)) =
        Keeps-attempt_then _ _
          (Keeps-with_tenant (From xs) plant.id _
            (Keeps-buy_in_tenant plant amount channel name phone c))
          (Keeps-to_checkout plant amount channels)

    Keeps-on_amount :
        (plant : Plant) (form : BuyForm) (c : Chance) (o : Option ℕ)
        → Keeps (From xs) (on_amount initialize scheme host email plant form c o)
    unfolding on_amount
    Keeps-on_amount plant form c none = Keeps-pure _
    Keeps-on_amount plant form c (some amount) =
        Keeps-if _ _ _ (Keeps-pure _) (Keeps-on_channel plant amount _ _ c _)

    -- Whatever the form holds and whichever statements fail, the handler of the buy form leaves every
    -- ticket there with its sale unchanged, adds only tickets that begin pending or paid, and keeps
    -- every unique index of tickets.
    pub Keeps-buy_gas_submit :
        (plant : Plant) (form : BuyForm) (c : Chance)
        → Keeps (From xs) (buy_gas_submit initialize scheme host email plant form c)
    unfolding buy_gas_submit
    Keeps-buy_gas_submit plant form c = Keeps-on_amount plant form c form.amount
