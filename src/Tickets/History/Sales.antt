-- ===== src/Tickets/History/Sales.antt =====
-- internal/tickets/tickets.go: MarkPaid and Purchase keep to the life cycle. MarkPaid writes without
-- testing the status again, so its proof carries the row that it has read; Purchase rests on the
-- unique indexes that the INSERT meets.
use gatstogo.Base.{
  ℕ, zero, suc, ◌≡◌, sym, subst, Bool, true, false, Bool-cases, inl, inr, some, List, [], ◌∷◌, Text,
  All, arith, if◌then◌else◌,
}
use mathlib.Core.Option
use gatstogo.Error.{Error, Result, ok, err}
use gatstogo.Db.Schema.{Db, TicketRow, Status}
use gatstogo.Db.Table.{find_where, exists_where}
use gatstogo.Db.Table.Distinct.{Distinct}
use gatstogo.Db.Statement.{M, statement}
use gatstogo.Db.Statement.Keeps.{
  Keeps, Keeps-pure, Keeps-bind, Keeps-statement, Keeps-lift, Keeps-raise, Keeps-attempt_then,
}
use gatstogo.Db.Statement.Takes.{Takes, Takes-Keeps, Takes-exec, Takes-bind, Keeps-query_row-bind}
use gatstogo.Tickets.History.{
  here, pay, Initial, unpaid, prepaid, born, Moves, steps, From, From-update_where,
}
use gatstogo.Tickets.Lifecycle.{is_ticket, status_of, paid_row, set_paid, pay_from, mark_paid}
use gatstogo.Tickets.Purchase.{
  PurchaseParams, Ticket, same_id, same_reference, same_open_code, new_row, insert_ticket,
  after_insert, insert_with, allocate, purchase, max_code_attempts,
}

-- The rows of a table with one identifier, once a row with it is known, are that row.
module _ (plant id : ℕ) where
  absent :
      (x : TicketRow) (xs : List TicketRow)
      → x.id ≡ id
      → exists_where (same_id x) xs ≡ false
      → All (λ y. is_ticket plant id y ≡ true → ⊥) xs
  unfolding exists_where
  absent x [] e h = tt
  absent x (y ∷ ys) e h = ((λ hit. ground arith), absent x ys e (ground arith))

  abbrev HasStatus : Status → List TicketRow → Type 0
  HasStatus st = All (λ y. is_ticket plant id y ≡ true → y.status ≡ st)

  vacuous :
      (st : Status) (xs : List TicketRow)
      → All (λ y. is_ticket plant id y ≡ true → ⊥) xs
      → HasStatus st xs
  vacuous st [] h = tt
  vacuous st (x ∷ xs) h = ((λ hit. absurd (h.0 hit)), vacuous st xs h.1)

  read_status :
      (st : Status) (xs : List TicketRow)
      → Distinct same_id xs
      → Option.map (λ (t : TicketRow). t.status) (find_where (is_ticket plant id) xs) ≡ some st
      → HasStatus st xs
  unfolding find_where
  read_status st [] d e = tt
  read_status st (x ∷ xs) d e = elim (Bool-cases (is_ticket plant id x)) [
    | inl hit ↦ ((λ _. ground arith), vacuous st xs (absent x xs (ground arith) d.0))
    | inr miss ↦ ((λ hit. absurd (ground arith)), read_status st xs d.1 (rw miss at e))
  ]

-- MarkPaid takes pending tickets to paid: the row that its UPDATE reaches is the one it has read.
module _ (xs : List TicketRow) (plant id : ℕ) where
  set_paid-Moves :
      (rows : List TicketRow) (now : ℕ)
      → HasStatus plant id Status.pending rows
      → All
          (λ y.
            is_ticket plant id y ≡ true → Moves y (record (paid_row now y) { updated_at = now }))
          rows
  set_paid-Moves [] now h = tt
  set_paid-Moves (y ∷ rows) now h =
      ((λ hit. steps (ground arith) (rw (h.0 hit) pay)), set_paid-Moves rows now h.1)

  abbrev Reads : Status → Db → Type 0
  Reads st db = From xs db × (status_of plant id db ≡ some st)

  weaken : (st : Status) (db : Db) → Reads st db → From xs db
  weaken st db h = h.0

  Takes-set_paid : Takes (Reads Status.pending) (From xs) (set_paid plant id)
  unfolding set_paid status_of
  Takes-set_paid = Takes-exec (weaken Status.pending) _ (λ now db h.
      From-update_where _ _ db h.0 (
        set_paid-Moves db.tickets now (read_status plant id Status.pending db.tickets h.0.ids h.1)))

  pay_from-Takes : (st : Status) → Takes (Reads st) (From xs) (pay_from plant id st)
  unfolding pay_from
  pay_from-Takes Status.pending = Takes-bind _ _ Takes-set_paid (λ _. Keeps-pure true)
  pay_from-Takes Status.paid = Takes-Keeps (weaken _) _ (Keeps-pure true)
  pay_from-Takes Status.dispensing = Takes-Keeps (weaken _) _ (Keeps-pure true)
  pay_from-Takes Status.filled = Takes-Keeps (weaken _) _ (Keeps-pure true)
  pay_from-Takes Status.issue = Takes-Keeps (weaken _) _ (Keeps-pure false)
  pay_from-Takes Status.cancelled = Takes-Keeps (weaken _) _ (Keeps-pure false)
  pay_from-Takes Status.expired = Takes-Keeps (weaken _) _ (Keeps-pure false)
  pay_from-Takes Status.voided = Takes-Keeps (weaken _) _ (Keeps-pure false)

  pub Keeps-mark_paid : Keeps (From xs) (mark_paid plant id)
  unfolding mark_paid
  Keeps-mark_paid = Keeps-query_row-bind (status_of plant id) (pay_from plant id) pay_from-Takes

insert_ticket-eq-ok :
    (row : TicketRow) (db db' : Db) (id : ℕ)
    → insert_ticket row db ≡ ok (id, db')
    → (exists_where (same_id row) db.tickets ≡ false)
      × (exists_where (same_reference row) db.tickets ≡ false)
      × (exists_where (same_open_code row) db.tickets ≡ false)
      × (db' ≡ record db { tickets = row ∷ db.tickets })
unfolding insert_ticket
insert_ticket-eq-ok row db db' id e = ground arith

-- Purchase adds at most one row, pending or paid.
module _ (xs : List TicketRow) (p : PurchaseParams) where
  Initial-status : (paid : Bool) → Initial (if paid then Status.paid else Status.pending)
  Initial-status true = prepaid
  Initial-status false = unpaid

  insert_ticket-From :
      (row : TicketRow) (db db' : Db) (id : ℕ)
      → Initial row.status
      → From xs db
      → insert_ticket row db ≡ ok (id, db')
      → From xs db'
  insert_ticket-From row db db' id i h e =
      let (a, b, c, same) = insert_ticket-eq-ok row db db' id e in
      subst (From xs) (sym same) (record {
        history = born row.status i here h.history;
        ids = (a, h.ids);
        references = (b, h.references);
        codes = (c, h.codes);
      })

  Keeps-insert :
      (reference code : Text) (wall id : ℕ)
      → Keeps (From xs) (statement (λ now. insert_ticket (new_row p reference code wall id now)))
  Keeps-insert reference code wall id =
      Keeps-statement _
        (λ now db a db' h e. insert_ticket-From _ db db' a (Initial-status p.paid) h e)

  after_insert-Keeps :
      (again : M Ticket) (reference code : Text)
      → Keeps (From xs) again
      → (r : Result ℕ) → Keeps (From xs) (after_insert again reference code r)
  unfolding after_insert
  after_insert-Keeps again reference code k (ok id) = Keeps-pure _
  after_insert-Keeps again reference code k (err Error.unique_violation) = k
  after_insert-Keeps again reference code k (err e) = Keeps-raise _

  insert_with-Keeps :
      (reference : Text) (wall id : ℕ) (again : M Ticket) (code : Text)
      → Keeps (From xs) again
      → Keeps (From xs) (insert_with p reference wall id again code)
  unfolding insert_with
  insert_with-Keeps reference wall id again code k =
      Keeps-attempt_then _ _ (Keeps-insert reference code wall id)
        (after_insert-Keeps again reference code k)

  allocate-Keeps :
      (left : ℕ) (reference : Text) (wall id : ℕ) (random : ℕ → Result ℕ)
      → Keeps (From xs) (allocate left p reference wall id random)
  unfolding allocate
  allocate-Keeps zero reference wall id random = Keeps-raise _
  allocate-Keeps (suc left) reference wall id random = Keeps-bind _ _ (Keeps-lift _) (λ code.
      insert_with-Keeps reference wall id _ code
        (allocate-Keeps left reference wall id (λ n. random (suc n))))

  pub Keeps-purchase :
      (bytes : Result (List ℕ)) (random : ℕ → Result ℕ) (wall id : ℕ)
      → Keeps (From xs) (purchase p bytes random wall id)
  unfolding purchase
  Keeps-purchase bytes random wall id =
      Keeps-bind _ _ (Keeps-lift _)
        (λ reference. allocate-Keeps max_code_attempts reference wall id random)
