-- ===== src/Tickets/Purchase/Outcomes.antt =====
-- internal/tickets/tickets.go: what Purchase returns and inserts.
use gatstogo.Base.{
  ℕ, ◌-◌, ◌<◌, ◌≡◌, refl, ap, sym, subst, ◌∙◌, Bool, true, false, ◌&&◌, Option, none, some, List,
  ◌∷◌, Text, text_eq, ◌==◌, if◌then◌else◌, arith,
}
use gatstogo.Error.{Result, ok}
use gatstogo.Db.Schema.{Db, TicketRow, Status, is_open}
use gatstogo.Db.Table.{exists_where}
use gatstogo.Db.Statement.{connected}
use gatstogo.Tickets.Reference.{new_reference, four_digits, null_if_empty}
use gatstogo.Tickets.Purchase.{PurchaseParams, new_row, allocate, purchase, max_code_attempts}
use gatstogo.Tickets.Purchase.Attempts.{
  InRange, code_row, IsTaken, allocate_retries, purchase-allocate,
}

-- What the columns of a sold ticket hold.
pub record Sold (p : PurchaseParams) (reference code : Text) (wall id now : ℕ) (row : TicketRow)
    : Type 0 where
  pub id_is : row.id ≡ id
  pub plant_is : row.plant_id ≡ p.plant_id
  pub reference_is : row.reference ≡ reference
  pub code_is : row.code ≡ code
  pub size_is : row.size_grams ≡ p.size_grams
  pub rate_is : row.rate_per_kg ≡ p.rate_per_kg_kobo
  pub price_is : row.price_id ≡ p.price_id
  pub amount_is : row.amount ≡ p.amount_kobo
  pub channel_is : row.channel ≡ p.channel
  pub name_is : row.customer_name ≡ null_if_empty p.customer_name
  pub phone_is : row.customer_phone ≡ null_if_empty p.customer_phone
  pub prepaid : p.paid ≡ true → (row.status ≡ Status.paid) × (row.paid_at ≡ some wall)
  pub unpaid : p.paid ≡ false → (row.status ≡ Status.pending) × (row.paid_at ≡ none)
  pub seller_is : (row.sold_by ≡ p.sold_by) × (row.shift_id ≡ p.shift_id)
  pub not_filled : (row.net_grams ≡ none) × (row.filled_at ≡ none) × (row.filled_shift_id ≡ none)
  pub not_confirmed : row.confirmed_at ≡ none
  pub not_voided : (row.void_reason ≡ none) × (row.voided_by ≡ none) × (row.voided_at ≡ none)
  pub no_pump :
      (row.pump_id ≡ none) × (row.dispensing_started_at ≡ none) × (row.dispensing_started_by ≡ none)
  pub not_closed : (row.closed_by ≡ none) × (row.close_note ≡ none)
  pub created_is : (row.created_at ≡ now) × (row.updated_at ≡ now)

new_row-Sold :
    (p : PurchaseParams) (reference code : Text) (wall id now : ℕ)
    → Sold p reference code wall id now (new_row p reference code wall id now)
new_row-Sold p reference code wall id now = record {
  id_is = refl;
  plant_is = refl;
  reference_is = refl;
  code_is = refl;
  size_is = refl;
  rate_is = refl;
  price_is = refl;
  amount_is = refl;
  channel_is = refl;
  name_is = refl;
  phone_is = refl;
  prepaid = λ e. rw e (refl, refl);
  unpaid = λ e. rw e (refl, refl);
  seller_is = (refl, refl);
  not_filled = (refl, refl, refl);
  not_confirmed = refl;
  not_voided = (refl, refl, refl);
  no_pump = (refl, refl, refl);
  not_closed = (refl, refl);
  created_is = (refl, refl);
}

starts_open : (paid : Bool) → is_open (if paid then Status.paid else Status.pending) ≡ true
starts_open true = refl
starts_open false = refl

-- With a size and amounts in range, and an identifier and a reference that no ticket has: where the
-- codes of the attempts before one of the six are taken, which has to be on a pool, and no open
-- ticket of the plant has the code of that attempt, Purchase returns the identifier, the reference
-- and that code, and inserts one row with them, in which the columns of the plant, the size, the
-- rate, the price, the amount, the channel, the customer, the seller and the shift hold the
-- parameters, the status and the time of payment say whether it is paid, and the others are empty.
pub purchase_inserts :
    (p : PurchaseParams) (bytes : List ℕ) (random : ℕ → Result ℕ) (wall id k n : ℕ) (in_tx : Bool)
    (scope : Option ℕ) (now : ℕ) (db : Db) {reference : Text}
    → InRange p
    → new_reference p.plant_slug (ok bytes) ≡ ok reference
    → k < max_code_attempts
    → ((j : ℕ)
        → j < k
        → (in_tx ≡ false) × IsTaken p reference wall id in_tx scope now db (random j))
    → random k ≡ ok n
    → exists_where (λ x. id == x.id) db.tickets ≡ false
    → exists_where (λ x. p.plant_id == x.plant_id && text_eq reference x.reference) db.tickets
      ≡ false
    → exists_where
        (λ x. is_open x.status && p.plant_id == x.plant_id && text_eq (four_digits n) x.code)
        db.tickets
      ≡ false
    → (row : TicketRow) × Sold p reference (four_digits n) wall id now row
      × (purchase p (ok bytes) random wall id (connected in_tx scope now db) ≡ (
        ok (record { id = id; reference = reference; code = four_digits n }),
        connected in_tx scope now (record db { tickets = row ∷ db.tickets }),
      ))
purchase_inserts p bytes random wall id k n in_tx scope now db {reference} h e lt taken r own new
      free =
    (
      code_row p reference wall id now n,
      new_row-Sold p reference (four_digits n) wall id now,
      purchase-allocate p bytes random wall id in_tx scope now db e
          ∙ ap (λ m. allocate m p reference wall id random (connected in_tx scope now db))
              (omega (arith, lt))
          ∙ allocate_retries p reference wall id in_tx scope now db k (5 - k) n random h taken r own
              new
              (subst
                (λ b.
                  exists_where
                    (λ (x : TicketRow).
                      b
                      && is_open x.status
                      && p.plant_id == x.plant_id
                      && text_eq (four_digits n) x.code)
                    db.tickets
                  ≡ false)
                (sym (starts_open p.paid)) free),
    )
