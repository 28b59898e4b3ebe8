-- ===== src/Examples/Purchases.antt =====
-- Selling a ticket with the theorems of internal/tickets/tickets.go, for codes that are free and taken.
use gatstogo.Base.{
  ℕ, zero, suc, ◌<◌, ◌≡◌, refl, Bool, true, false, ◌&&◌, none, some, List, [], ◌∷◌, Text, codes,
  text_eq, ◌==◌, arith,
}
use gatstogo.Error.{in_failed_transaction, no_unique_code, Result, ok, err}
use gatstogo.Db.Schema.{TicketRow, Channel, is_open}
use gatstogo.Db.Table.{exists_where}
use gatstogo.Db.Statement.{connected}
use gatstogo.Tickets.Reference.{new_reference, four_digits}
use gatstogo.Tickets.Purchase.{PurchaseParams, purchase, max_code_attempts}
use gatstogo.Tickets.Purchase.Attempts.{InRange, IsTaken}
use gatstogo.Tickets.Purchase.Outcomes.{Sold, purchase_inserts}
use gatstogo.Tickets.Purchase.Collision.{purchase_exhausted, purchase_collision_in_transaction}
use gatstogo.Examples.{tickets, a_db}

abbrev order : PurchaseParams
order = record {
  plant_id = 1;
  plant_slug = codes "Sun Rise";
  price_id = 5;
  rate_per_kg_kobo = 150000;
  amount_kobo = 300000;
  size_grams = 2000;
  channel = Channel.ussd;
  customer_name = codes "Bola";
  customer_phone = codes "0803";
  paid = false;
  sold_by = none;
  shift_id = none;
}

abbrev six : List ℕ
six = 1 ∷ 2 ∷ 3 ∷ 4 ∷ 254 ∷ 255 ∷ []

abbrev reference : Text
reference = codes "sunrise-01020304feff"

reference_made : new_reference (codes "Sun Rise") (ok six) ≡ ok reference
unfolding new_reference
reference_made = refl

-- The first number is taken, and the next ones are free.
abbrev numbers : ℕ → Result ℕ
numbers zero = ok 1111
numbers (suc n) = ok 4040

order-InRange : InRange order
order-InRange = (omega arith, omega arith, omega arith, omega arith)

own_id : exists_where (λ (x : TicketRow). 30 == x.id) tickets ≡ false
unfolding exists_where
own_id = refl

new_name :
    exists_where (λ (x : TicketRow). 1 == x.plant_id && text_eq reference x.reference) tickets
    ≡ false
unfolding exists_where text_eq
new_name = refl

free_code :
    exists_where
      (λ (x : TicketRow). is_open x.status && 1 == x.plant_id && text_eq (four_digits 4040) x.code)
      tickets
    ≡ false
unfolding exists_where text_eq four_digits
free_code = refl

IsTaken-code : (in_tx : Bool) → IsTaken order reference 200 30 in_tx (some 1) 200 a_db (ok 1111)
unfolding exists_where text_eq four_digits
IsTaken-code in_tx = (1111, refl, refl)

IsTaken-first :
    (j : ℕ)
    → j < 1
    → (false ≡ false) × IsTaken order reference 200 30 false (some 1) 200 a_db (numbers j)
IsTaken-first zero h = (refl, IsTaken-code false)
IsTaken-first (suc j) h = absurd (omega arith)

purchase_inserts_example :
    (row : TicketRow) × Sold order reference (four_digits 4040) 200 30 200 row
    × (purchase order (ok six) numbers 200 30 (connected false (some 1) 200 a_db) ≡ (
      ok (record { id = 30; reference = reference; code = four_digits 4040 }),
      connected false (some 1) 200 (record a_db { tickets = row ∷ tickets }),
    ))
purchase_inserts_example =
    purchase_inserts order six numbers 200 30 1 4040 false (some 1) 200 a_db order-InRange
      reference_made (omega arith) IsTaken-first refl own_id new_name free_code

always-IsTaken :
    (j : ℕ)
    → j < max_code_attempts
    → IsTaken order reference 200 30 false (some 1) 200 a_db (ok 1111)
always-IsTaken j h = IsTaken-code false

purchase_exhausted_example :
    purchase order (ok six) (λ n. ok 1111) 200 30 (connected false (some 1) 200 a_db)
    ≡ (err no_unique_code, connected false (some 1) 200 a_db)
purchase_exhausted_example =
    purchase_exhausted order six (λ n. ok 1111) 200 30 (some 1) 200 a_db order-InRange
      reference_made always-IsTaken

purchase_collision_in_transaction_example :
    purchase order (ok six) numbers 200 30 (connected true (some 1) 200 a_db)
    ≡ (err in_failed_transaction, record (connected true (some 1) 200 a_db) { aborted = true })
purchase_collision_in_transaction_example =
    purchase_collision_in_transaction order six numbers 200 30 (some 1) 200 a_db 4040 order-InRange
      reference_made (IsTaken-code true) refl
