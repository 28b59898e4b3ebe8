-- ===== src/Checkout/Payment.antt =====
-- cmd/server/tickets.go: ticketCallbackHandler and paystackWebhookHandler. What Paystack's Verify
-- answers, the test of the signature, and the identifier of a default pump are arguments.
pub mod Lifecycle
pub mod Confirmed
use mathlib.Core.Option
use gatstogo.Base.{
  ℕ, ℤ, pos, negsuc, Bool, true, false, not, ◌&&◌, ◌||◌, Option, none, some, List, [], ◌∷◌, Text,
  text_eq, codes, is_empty, ◌==◌, if◌then◌else◌,
}
use gatstogo.Error.{Error, Result, ok, err}
use gatstogo.Db.Schema.{Db, TicketRow}
use gatstogo.Db.Table.{find_where}
use gatstogo.Db.Statement.{M, pure, raise, query_row, ◌>>=◌, ◌>>◌, attempt_then}
use gatstogo.Tenant.{with_tenant, log}
use gatstogo.Tickets.Lifecycle.{is_ticket, mark_paid}
use gatstogo.Tickets.Receipts.{has_reference, lookup_plant_by_reference}
use gatstogo.Pumps.Board.{Pump}
use gatstogo.Pumps.Assignment.{assign_least_busy}

-- The fields of payments.VerifyResult that the handlers read.
pub record VerifyResult : Type 0 where
  pub status : Text
  pub amount_kobo : ℤ
  pub currency : Text

abbrev pub is_amount : ℤ → ℕ → Bool
is_amount (pos n) amount = n == amount
is_amount (negsuc n) amount = false

-- The condition under which a payment counts.
unfoldable pub is_confirmed : VerifyResult → ℕ → Bool
unfolding text_eq
is_confirmed v amount =
    text_eq v.status (codes "success")
    && is_amount v.amount_kobo amount
    && (is_empty v.currency || text_eq v.currency (codes "NGN"))

unfoldable pub is_verified : Result VerifyResult → ℕ → Bool
unfolding is_confirmed
is_verified (ok v) amount = is_confirmed v amount
is_verified (err e) amount = false

-- What the page shows; the labels are the amount, the size and the pump's name.
pub record CallbackPage : Type 0 where
  pub paid : Bool
  pub code : Text
  pub amount_kobo : ℕ
  pub size_grams : ℕ
  pub pump : Option Text

abbrev pub page : TicketRow → Bool → Option Text → CallbackPage
page t paid pump = record {
  paid = paid;
  code = t.code;
  amount_kobo = t.amount;
  size_grams = t.size_grams;
  pump = pump;
}

-- The pump's name, and none where the assignment failed, which is only logged.
abbrev pub pump_label : Result Pump → Option Text
pump_label (ok p) = some p.name
pump_label (err e) = none

unfoldable pub log_paid : ℕ → Text → TicketRow → Result Pump → M CallbackPage
unfolding log pure ◌>>=◌
log_paid plant reference t assigned = do
  log (some plant) none (codes "ticket.paid") reference
  pure (page t true (pump_label assigned))

unfoldable pub after_paid : ℕ → Text → ℕ → TicketRow → Bool → M CallbackPage
unfolding log_paid pure attempt_then
after_paid plant reference new_id t true =
    attempt_then (assign_least_busy plant t.id new_id) (log_paid plant reference t)
after_paid plant reference new_id t false = pure (page t false none)

unfoldable pub settle_ticket : ℕ → Text → ℕ → Result VerifyResult → TicketRow → M CallbackPage
unfolding after_paid mark_paid is_verified pure ◌>>=◌
settle_ticket plant reference new_id verify t =
    if is_verified verify t.amount
    then mark_paid plant t.id >>= after_paid plant reference new_id t
    else pure (page t false none)

-- The function that WithTenant runs for the callback.
unfoldable pub callback_in_tenant : ℕ → Text → Result VerifyResult → ℕ → M CallbackPage
unfolding settle_ticket query_row find_where ◌>>=◌
callback_in_tenant plant reference verify new_id = do
  t ← query_row (λ db. find_where (has_reference plant reference) db.tickets)
  settle_ticket plant reference new_id verify t

unfoldable pub ticket_callback : ℕ → Text → Result VerifyResult → ℕ → M CallbackPage
unfolding with_tenant callback_in_tenant
ticket_callback plant reference verify new_id =
    with_tenant plant (callback_in_tenant plant reference verify new_id)

-- The function that WithTenant runs for the webhook; it answers with nothing.
unfoldable pub webhook_in_tenant : ℕ → ℕ → Text → VerifyResult → ℕ → M (Unit {0})
unfolding settle_ticket query_row find_where pure ◌>>=◌
webhook_in_tenant plant ticket reference v new_id = do
  t ← query_row (λ db. find_where (is_ticket plant ticket) db.tickets)
  settle_ticket plant reference new_id (ok v) t
  pure tt

pub record WebhookEvent : Type 0 where
  pub event : Text
  pub reference : Text

-- The request as the handler sees it: whether the body could be read, whether its signature is right,
-- and the event if it parses.
pub record WebhookRequest : Type 0 where
  pub readable : Bool
  pub signed : Bool
  pub event : Option WebhookEvent

-- The HTTP status of the outcome.
abbrev pub webhook_status : Result (Unit {0}) → ℕ
webhook_status (ok u) = 200
webhook_status (err e) = 500

module _ (verify : Text → Result VerifyResult) (new_id : ℕ) where
  process : ℕ × ℕ → Text → Result VerifyResult → M ℕ
  unfolding with_tenant webhook_in_tenant pure attempt_then
  process (plant, ticket) reference (ok v) =
      attempt_then (with_tenant plant (webhook_in_tenant plant ticket reference v new_id))
        (λ r. pure (webhook_status r))
  process (plant, ticket) reference (err e) = pure 500

  looked_up : Text → Result (ℕ × ℕ) → M ℕ
  unfolding process pure
  looked_up reference (ok found) = process found reference (verify reference)
  looked_up reference (err e) = pure 200

  on_event : Option WebhookEvent → M ℕ
  unfolding looked_up lookup_plant_by_reference text_eq pure attempt_then
  on_event none = pure 400
  on_event (some e) =
      if text_eq e.event (codes "charge.success")
      then attempt_then (lookup_plant_by_reference e.reference) (looked_up e.reference)
      else pure 200

  unfoldable pub paystack_webhook : WebhookRequest → M ℕ
  unfolding on_event pure
  paystack_webhook r =
      if not r.readable then pure 400 else if not r.signed then pure 401 else on_event r.event
