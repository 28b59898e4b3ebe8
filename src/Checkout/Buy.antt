-- ===== src/Checkout/Buy.antt =====
-- cmd/server/tickets.go: buyGasSubmitHandler. The form's amount in kobo, if it reads as a positive
-- number, the clock, the random numbers, and Paystack's Initialize are arguments.
pub mod Lifecycle
use gatstogo.Base.{
  ℕ, Bool, true, false, ◌||◌, Option, none, some, List, [], ◌∷◌, ◌++◌, Text, codes, is_empty,
  trim_space, ◌==◌, if◌then◌else◌,
}
use gatstogo.Error.{Error, plant_closed, price_not_set, amount_too_small, Result, ok, err}
use gatstogo.Db.Schema.{Channel}
use gatstogo.Db.Statement.{M, pure, raise, ◌>>=◌, ◌>>◌, attempt_then}
use gatstogo.Tenant.{with_tenant, log}
use gatstogo.Tickets.Money.{grams_from_amount}
use gatstogo.Tickets.Purchase.{Ticket, PurchaseParams, create_pending}
use gatstogo.Hours.{TodayStatus, status_now}
use gatstogo.Checkout.{load_current_price, map_customer_channel, ticket_email}

-- What the environment chooses during one request: the local day and the nanoseconds since midnight,
-- the random bytes of the reference, the random number of each attempt at a code, time.Now() and the
-- identifier of the row.
pub record Chance : Type 0 where
  pub day : ℕ
  pub clock : ℕ
  pub bytes : Result (List ℕ)
  pub random : ℕ → Result ℕ
  pub wall : ℕ
  pub id : ℕ

pub record Plant : Type 0 where
  pub id : ℕ
  pub slug : Text
  pub subaccount : Option Text

abbrev pub pending_params : Plant → ℕ × ℕ → ℕ → Channel → Text → Text → PurchaseParams
pending_params plant price amount channel name phone = record {
  plant_id = plant.id;
  plant_slug = plant.slug;
  price_id = price.0;
  rate_per_kg_kobo = price.1;
  amount_kobo = amount;
  size_grams = grams_from_amount amount price.1;
  channel = channel;
  customer_name = name;
  customer_phone = phone;
  paid = false;
  sold_by = none;
  shift_id = none;
}

logged : ℕ → Ticket → M Ticket
unfolding log pure ◌>>=◌
logged plant ticket = do
  log (some plant) none (codes "ticket.created") ticket.reference
  pure ticket

sell : Plant → ℕ → Channel → Text → Text → Chance → ℕ × ℕ → M Ticket
unfolding create_pending logged grams_from_amount raise ◌>>=◌
sell plant amount channel name phone c price =
    if price.1 == 0
    then raise price_not_set
    else if grams_from_amount amount price.1 == 0
    then raise amount_too_small
    else create_pending (pending_params plant price amount channel name phone) c.bytes c.random
        c.wall c.id
      >>= logged plant.id

when_open : M Ticket → TodayStatus → M Ticket
unfolding raise
when_open m status = if status.is_open then m else raise plant_closed

-- The function that WithTenant runs.
unfoldable pub buy_in_tenant : Plant → ℕ → Channel → Text → Text → Chance → M Ticket
unfolding status_now load_current_price when_open sell ◌>>=◌
buy_in_tenant plant amount channel name phone c = do
  status ← status_now plant.id c.day c.clock
  when_open (load_current_price plant.id >>= sell plant amount channel name phone c) status

pub record InitializeParams : Type 0 where
  pub email : Text
  pub amount_kobo : ℕ
  pub reference : Text
  pub callback_url : Text
  pub channels : List Text
  pub subaccount : Text
  pub bearer : Text

pub record BuyForm : Type 0 where
  pub amount : Option ℕ
  pub name : Text
  pub phone : Text
  pub channel : Text

-- Where the handler redirects to.
unfoldable refused_url : Error → Text
refused_url Error.plant_closed = codes "/?error=closed"
refused_url _ = codes "/?error=server"

module _ (initialize : InitializeParams → Result Text) (scheme host notification_email : Text) where
  abbrev subaccount_of : Option Text → Text
  subaccount_of none = []
  subaccount_of (some s) = s

  abbrev initialize_params : Plant → ℕ → List Text → Ticket → InitializeParams
  initialize_params plant amount channels ticket = record {
    email = ticket_email notification_email ticket.reference;
    amount_kobo = amount;
    reference = ticket.reference;
    callback_url =
        scheme ++ codes "://" ++ host ++ codes "/tickets/" ++ ticket.reference ++ codes "/callback";
    channels = channels;
    subaccount = subaccount_of plant.subaccount;
    bearer = codes "subaccount";
  }

  checkout_url : Result Text → Text
  checkout_url (ok url) = url
  checkout_url (err e) = codes "/?error=payment"

  to_checkout : Plant → ℕ → List Text → Result Ticket → M Text
  unfolding checkout_url ticket_email refused_url pure
  to_checkout plant amount channels (ok ticket) =
      pure (checkout_url (initialize (initialize_params plant amount channels ticket)))
  to_checkout plant amount channels (err e) = pure (refused_url e)

  on_channel : Plant → ℕ → Text → Text → Chance → Option (Channel × List Text) → M Text
  unfolding with_tenant buy_in_tenant to_checkout attempt_then pure
  on_channel plant amount name phone c none = pure (codes "/?error=channel")
  on_channel plant amount name phone c (some (channel, channels)) =
      attempt_then (with_tenant plant.id (buy_in_tenant plant amount channel name phone c))
        (to_checkout plant amount channels)

  on_amount : Plant → BuyForm → Chance → Option ℕ → M Text
  unfolding on_channel map_customer_channel trim_space pure
  on_amount plant form c none = pure (codes "/?error=amount")
  on_amount plant form c (some amount) =
      let name = trim_space form.name in
      let phone = trim_space form.phone in
      if is_empty name || is_empty phone
      then pure (codes "/?error=details")
      else on_channel plant amount name phone c (map_customer_channel form.channel)

  unfoldable pub buy_gas_submit : Plant → BuyForm → Chance → M Text
  unfolding on_amount
  buy_gas_submit plant form c = on_amount plant form c form.amount
