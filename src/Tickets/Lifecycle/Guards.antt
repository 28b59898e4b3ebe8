-- ===== src/Tickets/Lifecycle/Guards.antt =====
-- internal/tickets/tickets.go: when the guarded UPDATEs succeed.
use mathlib.Core.Option
use gatstogo.Base.{
  ℕ, ◌≡◌, refl, Bool, true, false, ◌&&◌, ◌||◌, Bool-cases, inl, inr, Option, none, some, List, [],
  ◌∷◌, Text, arith, if◌then◌else◌,
}
use gatstogo.Error.{Error, not_paid, not_dispensing, not_voidable, Result, ok, err}
use gatstogo.Db.Schema.{Db, TicketRow, Status, is_pending, is_paid, is_dispensing}
use gatstogo.Db.Table.{count_where, find_where, exists_where}
use gatstogo.Db.Table.Distinct.{Distinct}
use gatstogo.Db.Statement.{connected, pure, raise, ◌>>=◌}
use gatstogo.Tickets.Purchase.{same_id}
use gatstogo.Tickets.Reference.{null_if_empty}
use gatstogo.Tickets.Lifecycle.{
  dispensing_row, filled_row, directly_filled_row, voided_row, is_ticket, require_rows, status_of,
  update_tickets, start_dispensing, close_filled, fill, void,
}

-- A status that is there and passes the guard.
abbrev pub allows : (Status → Bool) → Option Status → Bool
allows guard none = false
allows guard (some st) = guard st

module _ (plant id : ℕ) (guard : Status → Bool) where
  abbrev guarded : TicketRow → Bool
  guarded t = is_ticket plant id t && guard t.status

  no_more :
      (x : TicketRow) (xs : List TicketRow)
      → x.id ≡ id
      → exists_where (same_id x) xs ≡ false
      → count_where guarded xs ≡ 0
  unfolding exists_where count_where
  no_more x [] e h = refl
  no_more x (y ∷ xs) e h = ground (arith, no_more x xs)

  -- A guarded UPDATE by primary key reaches the one row with the key, if its status passes.
  count_guarded :
      (xs : List TicketRow)
      → Distinct same_id xs
      → count_where guarded xs ≡ (
          if allows guard
            (Option.map (λ (t : TicketRow). t.status) (find_where (is_ticket plant id) xs))
          then 1
          else 0)
  unfolding count_where find_where
  count_guarded [] d = refl
  count_guarded (x ∷ xs) d = elim (Bool-cases (is_ticket plant id x)) [
    | inl hit ↦ rw hit (ground (arith, no_more x xs))
    | inr miss ↦ rw miss (omega (arith, count_guarded xs d.1))
  ]

-- RowsAffected() == 0 is the error.
abbrev pub granted : Bool → Error → Result (Unit {0})
granted true e = ok tt
granted false e = err e

module _ (plant id : ℕ) (in_tx : Bool) (scope : Option ℕ) (now : ℕ) (db : Db) where
  abbrev status : Option Status
  status = status_of plant id db

  guarded_outcome :
      (guard : Status → Bool) (set : ℕ → TicketRow → TicketRow) (e : Error)
      → Distinct same_id db.tickets
      → ((update_tickets (λ t. is_ticket plant id t && guard t.status) set >>= require_rows e)
          (connected in_tx scope now db)).0
        ≡ granted (allows guard status) e
  unfolding update_tickets require_rows pure raise ◌>>=◌ status_of
  guarded_outcome guard set e d = elim (Bool-cases (allows guard (status_of plant id db))) [
    | inl passes ↦ rw (count_guarded plant id guard db.tickets d, passes)
    | inr fails ↦ rw (count_guarded plant id guard db.tickets d, fails)
  ]

  -- Where identifiers are distinct, each guarded transition succeeds exactly when the plant has a
  -- ticket with that identifier in a status that the transition starts from, and otherwise fails
  -- with its own error: StartDispensing from paid, CloseFilled from dispensing, Fill from either,
  -- Void from pending or paid.
  pub guarded_outcomes :
      (shift actor : ℕ) (note : Text)
      → Distinct same_id db.tickets
      → ((start_dispensing plant id actor (connected in_tx scope now db)).0
          ≡ granted (allows is_paid status) not_paid)
        × ((close_filled plant id shift actor note (connected in_tx scope now db)).0
            ≡ granted (allows is_dispensing status) not_dispensing)
        × ((fill plant id shift (connected in_tx scope now db)).0
            ≡ granted (allows (λ st. is_paid st || is_dispensing st) status) not_paid)
        × ((void plant id actor note (connected in_tx scope now db)).0
            ≡ granted (allows (λ st. is_pending st || is_paid st) status) not_voidable)
  unfolding start_dispensing close_filled fill void
  guarded_outcomes shift actor note d = (
    guarded_outcome is_paid (dispensing_row actor) not_paid d,
    guarded_outcome is_dispensing (filled_row shift actor (null_if_empty note)) not_dispensing d,
    guarded_outcome (λ st. is_paid st || is_dispensing st) (directly_filled_row shift) not_paid d,
    guarded_outcome (λ st. is_pending st || is_paid st) (voided_row actor note) not_voidable d,
  )

module _ (plant id : ℕ) (in_tx : Bool) (scope : Option ℕ) (now : ℕ) (db : Db) where
  -- The rows that StartDispensing moves.
  abbrev startable : TicketRow → Bool
  startable t = is_ticket plant id t && is_paid t.status

  abbrev started : ℕ → TicketRow → TicketRow
  started actor t = record (dispensing_row actor now t) { updated_at = now }
