-- ===== src/Tickets/Purchase/Attempts.antt =====
-- internal/tickets/tickets.go: what one attempt of Purchase does, on a pool and in a transaction.
use gatstogo.Base.{
  ℕ, zero, suc, ◌+◌, ◌<◌, ◌≤◌, ◌≡◌, ap, ◌∙◌, Bool, true, false, Option, List, ◌∷◌, Text, arith,
}
use gatstogo.Error.{unique_violation, in_failed_transaction, Result, ok, err}
use gatstogo.Db.Schema.{Db, TicketRow}
use gatstogo.Db.Table.{exists_where}
use gatstogo.Db.Statement.{connected}
use gatstogo.Tickets.Reference.{new_reference, four_digits}
use gatstogo.Tickets.Purchase.{
  PurchaseParams, max_integer, max_bigint, fits, same_id, same_reference, same_open_code,
  insert_ticket, new_row, allocate, purchase, max_code_attempts,
}

-- The size is positive, and it and the two amounts fit their columns.
abbrev pub InRange : PurchaseParams → Type 0
InRange p =
    (0 < p.size_grams)
    × (p.size_grams ≤ max_integer)
    × (p.rate_per_kg_kobo ≤ max_bigint)
    × (p.amount_kobo ≤ max_bigint)

fits_lem :
    (row : TicketRow)
    → row.size_grams ≤ max_integer
    → row.rate_per_kg ≤ max_bigint
    → row.amount ≤ max_bigint
    → fits row ≡ true
unfolding fits
fits_lem row size rate amount = ground arith

insert_ticket_taken :
    (row : TicketRow) (db : Db)
    → fits row ≡ true
    → 0 < row.size_grams
    → exists_where (same_open_code row) db.tickets ≡ true
    → insert_ticket row db ≡ err unique_violation
unfolding insert_ticket
insert_ticket_taken row db typed h taken = ground arith

insert_ticket_free :
    (row : TicketRow) (db : Db)
    → fits row ≡ true
    → 0 < row.size_grams
    → exists_where (same_id row) db.tickets ≡ false
    → exists_where (same_reference row) db.tickets ≡ false
    → exists_where (same_open_code row) db.tickets ≡ false
    → insert_ticket row db ≡ ok (row.id, record db { tickets = row ∷ db.tickets })
unfolding insert_ticket
insert_ticket_free row db typed h own new free = ground arith

-- The row of an attempt whose random number is `n`.
abbrev pub code_row : PurchaseParams → Text → ℕ → ℕ → ℕ → ℕ → TicketRow
code_row p reference wall id now n = new_row p reference (four_digits n) wall id now

module _ (p : PurchaseParams) (reference : Text) (wall id : ℕ) (in_tx : Bool) (scope : Option ℕ)
    (now : ℕ) (db : Db) where
  -- The random number of an attempt stands for a code that an open ticket of the plant has.
  abbrev pub IsTaken : Result ℕ → Type 0
  IsTaken r =
      (n : ℕ) × (r ≡ ok n)
      × (exists_where (same_open_code (code_row p reference wall id now n)) db.tickets ≡ true)

  row-fits : InRange p → (n : ℕ) → fits (code_row p reference wall id now n) ≡ true
  row-fits (h, size, rate, amount) n =
      fits_lem (code_row p reference wall id now n) size rate amount

  allocate_free :
      (left n : ℕ) (random : ℕ → Result ℕ)
      → InRange p
      → random 0 ≡ ok n
      → exists_where (same_id (code_row p reference wall id now n)) db.tickets ≡ false
      → exists_where (same_reference (code_row p reference wall id now n)) db.tickets ≡ false
      → exists_where (same_open_code (code_row p reference wall id now n)) db.tickets ≡ false
      → allocate (suc left) p reference wall id random (connected in_tx scope now db) ≡ (
        ok (record { id = id; reference = reference; code = four_digits n }),
        connected in_tx scope now
            (record db { tickets = code_row p reference wall id now n ∷ db.tickets }),
      )
  unfolding allocate
  allocate_free left n random h e own new free =
      let row = code_row p reference wall id now n in
      rw (e, insert_ticket_free row db (row-fits h n) h.0 own new free)

  -- On a pool an attempt with a taken code changes nothing, and the loop goes on.
  pub allocate_again :
      (left : ℕ) (random : ℕ → Result ℕ)
      → in_tx ≡ false
      → InRange p
      → IsTaken (random 0)
      → allocate (suc left) p reference wall id random (connected in_tx scope now db)
        ≡ allocate left p reference wall id (λ k. random (suc k)) (connected in_tx scope now db)
  unfolding allocate
  allocate_again left random pool h (n, e, taken) = rw (
    e,
    insert_ticket_taken (code_row p reference wall id now n) db (row-fits h n) h.0 taken,
    pool,
  )

  -- In a transaction it leaves the transaction failed, and the next attempt is refused.
  pub allocate_aborted :
      (left m : ℕ) (random : ℕ → Result ℕ)
      → in_tx ≡ true
      → InRange p
      → IsTaken (random 0)
      → random 1 ≡ ok m
      → allocate (suc (suc left)) p reference wall id random (connected in_tx scope now db)
        ≡ (err in_failed_transaction, record (connected in_tx scope now db) { aborted = true })
  unfolding allocate
  allocate_aborted left m random tx h (n, e, taken) e' = rw (
    e,
    insert_ticket_taken (code_row p reference wall id now n) db (row-fits h n) h.0 taken,
    tx,
    e',
  )

  -- After taken codes on a pool the first free one is used.
  pub allocate_retries :
      (k left n : ℕ) (random : ℕ → Result ℕ)
      → InRange p
      → ((j : ℕ) → j < k → (in_tx ≡ false) × IsTaken (random j))
      → random k ≡ ok n
      → exists_where (same_id (code_row p reference wall id now n)) db.tickets ≡ false
      → exists_where (same_reference (code_row p reference wall id now n)) db.tickets ≡ false
      → exists_where (same_open_code (code_row p reference wall id now n)) db.tickets ≡ false
      → allocate (k + suc left) p reference wall id random (connected in_tx scope now db) ≡ (
        ok (record { id = id; reference = reference; code = four_digits n }),
        connected in_tx scope now
            (record db { tickets = code_row p reference wall id now n ∷ db.tickets }),
      )
  allocate_retries zero left n random h taken e own new free =
      ap (λ m. allocate m p reference wall id random (connected in_tx scope now db)) (omega arith)
      ∙ allocate_free left n random h e own new free
  allocate_retries (suc k) left n random h taken e own new free =
      let (pool, t) = taken 0 (omega arith) in
      ap (λ m. allocate m p reference wall id random (connected in_tx scope now db)) (omega arith)
      ∙ allocate_again (k + suc left) random pool h t
      ∙ allocate_retries k left n (λ j. random (suc j)) h (λ j lt. taken (suc j) (omega arith)) e
          own new free

pub purchase-allocate :
    (p : PurchaseParams) (bytes : List ℕ) (random : ℕ → Result ℕ) (wall id : ℕ) (in_tx : Bool)
    (scope : Option ℕ) (now : ℕ) (db : Db) {reference : Text}
    → new_reference p.plant_slug (ok bytes) ≡ ok reference
    → purchase p (ok bytes) random wall id (connected in_tx scope now db)
      ≡ allocate max_code_attempts p reference wall id random (connected in_tx scope now db)
unfolding purchase
purchase-allocate p bytes random wall id in_tx scope now db e = rw e
