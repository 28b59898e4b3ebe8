-- ===== src/Examples/Payments.antt =====
-- Paying for a ticket with the theorems of cmd/server/tickets.go, internal/pumps and internal/tenantdb.
use gatstogo.Base.{
  ◌≡◌, refl, arith, pos, inr, true, false, Option, none, some, [], ◌∷◌, Text, codes, text_eq,
}
use gatstogo.Error.{ok}
use gatstogo.Db.Schema.{Status, PumpRow, PumpStatus}
use gatstogo.Db.Table.{find_where, exists_where, update_where}
use gatstogo.Db.Table.Distinct.{Distinct}
use gatstogo.Db.Statement.{Store, connected}
use gatstogo.Db.Statement.Keeps.{Keeps}
use gatstogo.Tenant.{with_tenant}
use gatstogo.Tenant.Atomicity.{Sealed, with_tenant-Sealed}
use gatstogo.Tickets.Purchase.{same_id}
use gatstogo.Tickets.Lifecycle.{is_ticket, status_of, mark_paid}
use gatstogo.Tickets.History.{From}
use gatstogo.Pumps.Board.{at_plant, pump_of}
use gatstogo.Pumps.Assignment.{
  candidate, is_unassigned, is_assigned, assigned_row, pump_joined, assign_least_busy,
}
use gatstogo.Pumps.Assignment.LeastBusy.{LeastBusy, assign_least_busy_lem}
use gatstogo.Checkout.Payment.{
  VerifyResult, WebhookRequest, page, callback_in_tenant, webhook_in_tenant, ticket_callback,
  paystack_webhook,
}
use gatstogo.Checkout.Payment.Confirmed.{ConfirmedFor, unconfirmed_unchanged, confirmed_paid}
use gatstogo.Checkout.Payment.Lifecycle.{Keeps-handlers}
use gatstogo.Checkout.Cancel.{ticket_void}
use gatstogo.Checkout.Buy.{Plant, BuyForm, Chance, buy_gas_submit}
use gatstogo.Checkout.Buy.Lifecycle.{Keeps-buy_gas_submit}
use gatstogo.Tickets.Receipts.{has_reference}
use gatstogo.Examples.{waiting, bought, tickets, pumps, a_pump, a_db}

abbrev paid_in_full : VerifyResult
paid_in_full = record { status = codes "success"; amount_kobo = pos 150000; currency = codes "NGN" }

abbrev paid_short : VerifyResult
paid_short = record { status = codes "success"; amount_kobo = pos 100; currency = codes "NGN" }

named : find_where (has_reference 1 (codes "sun-0a")) tickets ≡ some waiting
unfolding find_where text_eq
named = refl

keyed : find_where (is_ticket 1 10) tickets ≡ some waiting
unfolding find_where
keyed = refl

in_full : ConfirmedFor paid_in_full 150000
in_full = (refl, refl, inr refl)

short : ¬ ConfirmedFor paid_short 150000
short c = ground (arith, c.1)

pending_now : status_of 1 10 a_db ≡ some Status.pending
unfolding status_of
pending_now = refl

has_pumps : exists_where (at_plant 1) pumps ≡ true
unfolding exists_where
has_pumps = refl

confirmed_paid_example :
    let (r, t) =
      callback_in_tenant 1
        (codes "sun-0a")
        (ok paid_in_full)
        9
        (connected true (some 1) 200 a_db) in
    ((pump : Option Text) × (r ≡ ok (page waiting true pump)))
    × (status_of 1 10 t.db ≡ some Status.paid)
confirmed_paid_example =
    confirmed_paid 1 9 (codes "sun-0a") true (some 1) 200 a_db waiting paid_in_full named in_full
      pending_now has_pumps

unconfirmed_unchanged_example :
    (callback_in_tenant 1 (codes "sun-0a") (ok paid_short) 9 (connected true (some 1) 200 a_db)
      ≡ (ok (page waiting false none), connected true (some 1) 200 a_db))
    × (webhook_in_tenant 1 10 (codes "sun-0a") paid_short 9 (connected true (some 1) 200 a_db)
        ≡ (ok tt, connected true (some 1) 200 a_db))
unconfirmed_unchanged_example =
    unconfirmed_unchanged 1 9 (codes "sun-0a") true (some 1) 200 a_db waiting paid_short named keyed
      short

abbrev delivered : WebhookRequest
delivered = record {
  readable = true;
  signed = true;
  event = some (record { event = codes "charge.success"; reference = codes "sun-0a" });
}

Keeps-handlers_example :
    Keeps (From tickets) (ticket_callback 1 (codes "sun-0a") (ok paid_in_full) 9)
    × Keeps (From tickets) (paystack_webhook (λ reference. ok paid_in_full) 9 delivered)
    × Keeps (From tickets) (ticket_void 1 3 (codes "sun-0a") (codes "mistake"))
Keeps-handlers_example =
    Keeps-handlers tickets 1 3 9 (codes "sun-0a") (codes "mistake") (ok paid_in_full)
      (λ reference. ok paid_in_full) delivered

abbrev a_plant : Plant
a_plant = record { id = 1; slug = codes "sun"; subaccount = none }

abbrev a_form : BuyForm
a_form = record {
  amount = some 300000;
  name = codes "Bola";
  phone = codes "0803";
  channel = codes "ussd";
}

abbrev luck : Chance
luck = record {
  day = 1;
  clock = 36000000000000;
  bytes = ok (1 ∷ 2 ∷ 3 ∷ 4 ∷ 5 ∷ 6 ∷ []);
  random = λ n. ok 4040;
  wall = 200;
  id = 30;
}

Keeps-buy_gas_submit_example : Keeps (From tickets) (
    buy_gas_submit
      (λ p. ok (codes "https://pay"))
      (codes "https")
      (codes "sun.gatstogo.com")
      (codes "a@b.c")
      a_plant
      a_form
      luck)
Keeps-buy_gas_submit_example =
    Keeps-buy_gas_submit tickets (λ p. ok (codes "https://pay")) (codes "https")
      (codes "sun.gatstogo.com") (codes "a@b.c") a_plant a_form luck

-- The pump with no tickets waiting.
abbrev idle_pump : PumpRow
idle_pump = a_pump 8 (codes "Pump 2") PumpStatus.working

chosen : candidate 1 a_db ≡ some idle_pump
unfolding candidate
chosen = refl

unassigned : exists_where (is_unassigned 1 10) tickets ≡ true
unfolding exists_where
unassigned = refl

assign_least_busy_lem_example :
    (assign_least_busy 1 10 9 (connected true (some 1) 200 a_db) ≡ (
      ok (pump_of a_db false idle_pump),
      connected true (some 1) 200 (record a_db {
        tickets = update_where (is_unassigned 1 10) (assigned_row 8 200) tickets;
      }),
    ))
    × LeastBusy 1 a_db idle_pump
assign_least_busy_lem_example =
    assign_least_busy_lem 1 10 9 true (some 1) 200 a_db idle_pump has_pumps chosen unassigned

ids_distinct : Distinct same_id tickets
unfolding exists_where
ids_distinct = (refl, (refl, (refl, (refl, tt))))

assigned : find_where (is_assigned 1 11) tickets ≡ some bought
unfolding find_where
assigned = refl

joined : pump_joined a_db bought ≡ some (a_pump 7 (codes "Pump 1") PumpStatus.working)
unfolding pump_joined
joined = refl

-- A pool on which the third step from now fails.
abbrev shaky : Store
shaky = record (connected false none 200 a_db) { faults = false ∷ false ∷ false ∷ true ∷ [] }

with_tenant-Sealed_example : Sealed shaky (with_tenant 1 (mark_paid 1 10) shaky)
with_tenant-Sealed_example = with_tenant-Sealed 1 (mark_paid 1 10) shaky refl refl refl
