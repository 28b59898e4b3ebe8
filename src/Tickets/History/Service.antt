-- ===== src/Tickets/History/Service.antt =====
-- internal/tickets/tickets.go: any requests, in any order, on a database that may fail at any
-- statement. A client of the operations and of the rules that the sibling modules prove.
use gatstogo.Base.{ℕ, refl, Option, none, some, List, [], ◌∷◌, Text, arith}
use gatstogo.Error.{Error, Result, ok, err}
use gatstogo.Db.Schema.{TicketRow, Status}
use gatstogo.Db.Statement.{M, pure, ◌>>=◌, attempt_then}
use gatstogo.Db.Statement.Keeps.{
  Keeps, Keeps-pure, Keeps-bind, Keeps-attempt_then, Keeps-query_row, Keeps-raise,
}
use gatstogo.Tickets.History.{stays, From}
use gatstogo.Tickets.History.Steps.{
  Keeps-update_tickets, Keeps-start_dispensing, Keeps-close_filled, Keeps-bulk_close_filled,
  Keeps-fill, Keeps-void,
}
use gatstogo.Tickets.History.Sales.{Keeps-mark_paid, Keeps-purchase}
use gatstogo.Tickets.Purchase.{PurchaseParams, create_pending, create_paid_cash}
use gatstogo.Tickets.Lifecycle.{
  start_dispensing, close_filled, bulk_close_filled, fill, mark_paid, void,
}
use gatstogo.Tickets.Receipts.{confirmed_row, set_confirmed, no_rows_as, confirm_from, confirm}

-- The operations that write tickets, with the choices of the environment.
pub data Command : Type 0 where
  create : PurchaseParams → Result (List ℕ) → (ℕ → Result ℕ) → ℕ → ℕ → Command
  sell : PurchaseParams → ℕ → ℕ → Result (List ℕ) → (ℕ → Result ℕ) → ℕ → ℕ → Command
  pay : ℕ → ℕ → Command
  start : ℕ → ℕ → ℕ → Command
  close : ℕ → ℕ → ℕ → ℕ → Text → Command
  close_all : ℕ → ℕ → ℕ → ℕ → Text → Command
  fill_now : ℕ → ℕ → ℕ → Command
  cancel : ℕ → ℕ → ℕ → Text → Command
  receive : ℕ → Text → Text → Command

-- What a request leaves does not depend on what it answers.
forget {ℓ} : {A : Type ℓ} → M A → M (Unit {0})
forget m = attempt_then m (λ _. pure tt)

execute : Command → M (Unit {0})
execute (create p bytes random wall id) = forget (create_pending p bytes random wall id)
execute (sell p staff shift bytes random wall id) =
    forget (create_paid_cash p staff shift bytes random wall id)
execute (pay plant id) = forget (mark_paid plant id)
execute (start plant id actor) = forget (start_dispensing plant id actor)
execute (close plant id shift actor note) = forget (close_filled plant id shift actor note)
execute (close_all plant pump shift actor note) =
    forget (bulk_close_filled plant pump shift actor note)
execute (fill_now plant id shift) = forget (fill plant id shift)
execute (cancel plant id actor reason) = forget (void plant id actor reason)
execute (receive plant reference phone) = forget (confirm plant reference phone)

pub serve : List Command → M (Unit {0})
serve [] = pure tt
serve (c ∷ rest) = execute c >>= λ _. serve rest

module _ (xs : List TicketRow) where
  Keeps-set_confirmed :
      (plant : ℕ) (reference : Text) → Keeps (From xs) (set_confirmed plant reference)
  unfolding set_confirmed
  Keeps-set_confirmed plant reference =
      Keeps-bind _ _
        (Keeps-update_tickets xs _ confirmed_row (λ now x h. stays (ground arith) refl))
        (λ _. Keeps-pure tt)

  Keeps-confirm_from :
      (plant : ℕ) (reference : Text) (state : Status × Option ℕ)
      → Keeps (From xs) (confirm_from plant reference state)
  unfolding confirm_from
  Keeps-confirm_from plant reference (Status.filled, none) = Keeps-set_confirmed plant reference
  Keeps-confirm_from plant reference (Status.filled, some at) = Keeps-pure tt
  Keeps-confirm_from plant reference (_, _) = Keeps-raise _

  Keeps-no_rows_as {ℓ} : {A : Type ℓ} (e : Error) (r : Result A) → Keeps (From xs) (no_rows_as e r)
  unfolding no_rows_as
  Keeps-no_rows_as e (ok a) = Keeps-pure a
  Keeps-no_rows_as e (err Error.no_rows) = Keeps-raise e
  Keeps-no_rows_as e (err e') = Keeps-raise e'

  Keeps-confirm :
      (plant : ℕ) (reference phone : Text) → Keeps (From xs) (confirm plant reference phone)
  unfolding confirm
  Keeps-confirm plant reference phone =
      Keeps-bind _ _ (Keeps-attempt_then _ _ (Keeps-query_row _) (Keeps-no_rows_as _))
        (Keeps-confirm_from plant reference)

  Keeps-forget {ℓ} : {A : Type ℓ} (m : M A) → Keeps (From xs) m → Keeps (From xs) (forget m)
  unfolding forget
  Keeps-forget m k = Keeps-attempt_then m _ k (λ _. Keeps-pure tt)

  Keeps-execute : (c : Command) → Keeps (From xs) (execute c)
  unfolding execute create_pending create_paid_cash
  Keeps-execute (create p bytes random wall id) =
      Keeps-forget _ (Keeps-purchase xs _ bytes random wall id)
  Keeps-execute (sell p staff shift bytes random wall id) =
      Keeps-forget _ (Keeps-purchase xs _ bytes random wall id)
  Keeps-execute (pay plant id) = Keeps-forget _ (Keeps-mark_paid xs plant id)
  Keeps-execute (start plant id actor) = Keeps-forget _ (Keeps-start_dispensing xs plant id actor)
  Keeps-execute (close plant id shift actor note) =
      Keeps-forget _ (Keeps-close_filled xs plant id shift actor note)
  Keeps-execute (close_all plant pump shift actor note) =
      Keeps-forget _ (Keeps-bulk_close_filled xs plant pump shift actor note)
  Keeps-execute (fill_now plant id shift) = Keeps-forget _ (Keeps-fill xs plant id shift)
  Keeps-execute (cancel plant id actor reason) =
      Keeps-forget _ (Keeps-void xs plant id actor reason)
  Keeps-execute (receive plant reference phone) =
      Keeps-forget _ (Keeps-confirm plant reference phone)

  -- After any requests, whichever statements fail: every ticket is still there with its sale
  -- unchanged and has moved along the life cycle, and every new one began pending or paid; and the
  -- identifiers, the references of a plant and the open codes of a plant are still distinct.
  pub Keeps-serve : (commands : List Command) → Keeps (From xs) (serve commands)
  unfolding serve
  Keeps-serve [] = Keeps-pure tt
  Keeps-serve (c ∷ rest) = Keeps-bind _ _ (Keeps-execute c) (λ _. Keeps-serve rest)
