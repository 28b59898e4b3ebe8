-- ===== src/Checkout/Payment/Lifecycle.antt =====
-- cmd/server/tickets.go: whatever the handlers do to tickets, they do along the life cycle.
use gatstogo.Base.{ℕ, refl, Bool, true, false, Option, none, some, List, Text, codes}
use gatstogo.Error.{Result, ok, err}
use gatstogo.Db.Schema.{TicketRow}
use gatstogo.Db.Statement.Keeps.{
  Keeps, Keeps-pure, Keeps-query_row, Keeps-bind, Keeps-attempt_then, Keeps-if,
}
use gatstogo.Tenant.{log}
use gatstogo.Tenant.Invariants.{Keeps-with_tenant, Keeps-log}
use gatstogo.Tickets.History.{From}
use gatstogo.Tickets.History.Sales.{Keeps-mark_paid}
use gatstogo.Tickets.History.Steps.{Keeps-void}
use gatstogo.Pumps.Board.{Pump}
use gatstogo.Pumps.Assignment.History.{same_tickets, Keeps-assign_least_busy}
use gatstogo.Checkout.Payment.{
  VerifyResult, page, pump_label, log_paid, after_paid, settle_ticket, callback_in_tenant,
  ticket_callback, webhook_in_tenant, WebhookRequest, WebhookEvent, webhook_status, process,
  looked_up, on_event, paystack_webhook,
}
use gatstogo.Tickets.Receipts.{lookup_plant_by_reference}
use gatstogo.Checkout.Cancel.{void_reason, void_in_tenant, ticket_void}

module _ (xs : List TicketRow) where
  Keeps-log-From :
      (plant actor : Option ℕ) (action subject : Text)
      → Keeps (From xs) (log plant actor action subject)
  Keeps-log-From = Keeps-log (From xs) (λ db rows h. same_tickets xs db _ refl h)

  Keeps-log_paid :
      (plant : ℕ) (reference : Text) (t : TicketRow) (r : Result Pump)
      → Keeps (From xs) (log_paid plant reference t r)
  unfolding log_paid
  Keeps-log_paid plant reference t r =
      Keeps-bind _ _ (Keeps-log-From (some plant) none (codes "ticket.paid") reference)
        (λ _. Keeps-pure (page t true (pump_label r)))

  Keeps-after_paid :
      (plant : ℕ) (reference : Text) (new_id : ℕ) (t : TicketRow) (paid : Bool)
      → Keeps (From xs) (after_paid plant reference new_id t paid)
  unfolding after_paid
  Keeps-after_paid plant reference new_id t true =
      Keeps-attempt_then _ _ (Keeps-assign_least_busy xs plant t.id new_id)
        (Keeps-log_paid plant reference t)
  Keeps-after_paid plant reference new_id t false = Keeps-pure _

  Keeps-settle_ticket :
      (plant : ℕ) (reference : Text) (new_id : ℕ) (v : Result VerifyResult) (t : TicketRow)
      → Keeps (From xs) (settle_ticket plant reference new_id v t)
  unfolding settle_ticket
  Keeps-settle_ticket plant reference new_id v t =
      Keeps-if _ _ _
        (Keeps-bind _ _ (Keeps-mark_paid xs plant t.id) (Keeps-after_paid plant reference new_id t))
        (Keeps-pure _)

  Keeps-ticket_callback :
      (plant : ℕ) (reference : Text) (v : Result VerifyResult) (new_id : ℕ)
      → Keeps (From xs) (ticket_callback plant reference v new_id)
  unfolding ticket_callback callback_in_tenant
  Keeps-ticket_callback plant reference v new_id =
      Keeps-with_tenant (From xs) plant _
        (Keeps-bind _ _ (Keeps-query_row _) (Keeps-settle_ticket plant reference new_id v))

  module _ (verify : Text → Result VerifyResult) (new_id : ℕ) where
    Keeps-process :
        (found : ℕ × ℕ) (reference : Text) (v : Result VerifyResult)
        → Keeps (From xs) (process verify new_id found reference v)
    unfolding process webhook_in_tenant
    Keeps-process (plant, ticket) reference (ok v) =
        Keeps-attempt_then _ _
          (Keeps-with_tenant (From xs) plant _ (
            Keeps-bind _ _ (Keeps-query_row _) (λ t.
              Keeps-bind _ _ (Keeps-settle_ticket plant reference new_id (ok v) t)
                (λ _. Keeps-pure tt))))
          (λ r. Keeps-pure (webhook_status r))
    Keeps-process (plant, ticket) reference (err e) = Keeps-pure 500

    Keeps-looked_up :
        (reference : Text) (r : Result (ℕ × ℕ))
        → Keeps (From xs) (looked_up verify new_id reference r)
    unfolding looked_up
    Keeps-looked_up reference (ok found) = Keeps-process found reference (verify reference)
    Keeps-looked_up reference (err e) = Keeps-pure 200

    Keeps-on_event : (e : Option WebhookEvent) → Keeps (From xs) (on_event verify new_id e)
    unfolding on_event lookup_plant_by_reference
    Keeps-on_event none = Keeps-pure 400
    Keeps-on_event (some e) =
        Keeps-if _ _ _ (Keeps-attempt_then _ _ (Keeps-query_row _) (Keeps-looked_up e.reference))
          (Keeps-pure 200)

    Keeps-paystack_webhook :
        (r : WebhookRequest) → Keeps (From xs) (paystack_webhook verify new_id r)
    unfolding paystack_webhook
    Keeps-paystack_webhook r =
        Keeps-if _ _ _ (Keeps-pure 400) (Keeps-if _ _ _ (Keeps-pure 401) (Keeps-on_event r.event))

  Keeps-ticket_void :
      (plant actor : ℕ) (reference reason : Text)
      → Keeps (From xs) (ticket_void plant actor reference reason)
  unfolding ticket_void void_in_tenant
  Keeps-ticket_void plant actor reference reason = Keeps-with_tenant (From xs) plant _ (
      Keeps-bind _ _ (Keeps-query_row _) (λ id.
        Keeps-bind _ _ (Keeps-void xs plant id actor (void_reason reason))
          (λ _. Keeps-log-From (some plant) (some actor) (codes "ticket.voided") reference)))

  -- The callback, the webhook and the void handler, whatever they are sent, whatever Paystack answers
  -- and whichever statements fail, leave every ticket there with its sale unchanged and moved along
  -- the life cycle, and every unique index of tickets intact.
  pub Keeps-handlers :
      (plant actor new_id : ℕ) (reference reason : Text) (v : Result VerifyResult)
      (verify : Text → Result VerifyResult) (request : WebhookRequest)
      → Keeps (From xs) (ticket_callback plant reference v new_id)
        × Keeps (From xs) (paystack_webhook verify new_id request)
        × Keeps (From xs) (ticket_void plant actor reference reason)
  Keeps-handlers plant actor new_id reference reason v verify request = (
    Keeps-ticket_callback plant reference v new_id,
    Keeps-paystack_webhook verify new_id request,
    Keeps-ticket_void plant actor reference reason,
  )
