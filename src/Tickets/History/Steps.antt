-- ===== src/Tickets/History/Steps.antt =====
-- internal/tickets/tickets.go: every operation moves tickets along the life cycle only.
use gatstogo.Base.{ℕ, ◌≡◌, Bool, true, ◌&&◌, ◌||◌, ◌⊎◌, inl, inr, List, Text, arith}
use gatstogo.Error.{Error}
use gatstogo.Db.Schema.{TicketRow, Status, is_pending, is_paid, is_dispensing}
use gatstogo.Db.Statement.Keeps.{Keeps, keeps_rules, Keeps-exec, Keeps-bind}
use gatstogo.Tickets.History.{
  ◌⟶◌, start, close, fill_directly, void_pending, void_paid, Moves, steps, From, From-update_where,
  All-of,
}
use gatstogo.Tickets.Lifecycle.{
  directly_filled_row, update_tickets, require_rows, is_ticket, dispensing_row, start_dispensing,
  filled_row, close_filled, bulk_close_filled, fill, voided_row, void,
}

from_paid : (s : Status) {b : Status} → is_paid s ≡ true → Status.paid ⟶ b → s ⟶ b
from_paid Status.paid h e = e
from_paid _ h e = cc

from_pending : (s : Status) {b : Status} → is_pending s ≡ true → Status.pending ⟶ b → s ⟶ b
from_pending Status.pending h e = e
from_pending _ h e = cc

from_dispensing : (s : Status) {b : Status} → is_dispensing s ≡ true → Status.dispensing ⟶ b → s ⟶ b
from_dispensing Status.dispensing h e = e
from_dispensing _ h e = cc

and_right : (a b : Bool) → (a && b) ≡ true → b ≡ true
and_right a b h = ground arith

or_cases : (a b : Bool) → (a || b) ≡ true → (a ≡ true) ⊎ (b ≡ true)
or_cases a b h = ground arith

module _ (xs : List TicketRow) where
  pub Keeps-update_tickets :
      (test : TicketRow → Bool) (set : ℕ → TicketRow → TicketRow)
      → ((now : ℕ) (x : TicketRow)
          → test x ≡ true
          → Moves x (record (set now x) { updated_at = now }))
      → Keeps (From xs) (update_tickets test set)
  unfolding update_tickets
  Keeps-update_tickets test set move =
      Keeps-exec _ (λ now db h. From-update_where test _ db h (All-of (move now) db.tickets))

  Keeps-require_rows : (e : Error) (rows : ℕ) → Keeps (From xs) (require_rows e rows)
  unfolding require_rows
  Keeps-require_rows e rows = search keeps_rules

  -- StartDispensing takes paid tickets to dispensing, and touches no other.
  pub Keeps-start_dispensing :
      (plant id actor : ℕ) → Keeps (From xs) (start_dispensing plant id actor)
  unfolding start_dispensing
  Keeps-start_dispensing plant id actor =
      Keeps-bind _ _
        (Keeps-update_tickets _ (dispensing_row actor) (λ now x h.
          steps (ground arith) (from_paid x.status (and_right (is_ticket plant id x) _ h) start)))
        (Keeps-require_rows _)

  -- CloseFilled takes dispensing tickets to filled.
  pub Keeps-close_filled :
      (plant id shift actor : ℕ) (note : Text)
      → Keeps (From xs) (close_filled plant id shift actor note)
  unfolding close_filled
  Keeps-close_filled plant id shift actor note =
      Keeps-bind _ _
        (Keeps-update_tickets _ (filled_row shift actor _) (λ now x h.
          steps (ground arith)
            (from_dispensing x.status (and_right (is_ticket plant id x) _ h) close)))
        (Keeps-require_rows _)

  pub Keeps-bulk_close_filled :
      (plant pump shift actor : ℕ) (note : Text)
      → Keeps (From xs) (bulk_close_filled plant pump shift actor note)
  unfolding bulk_close_filled
  Keeps-bulk_close_filled plant pump shift actor note =
      Keeps-update_tickets _ (filled_row shift actor _)
        (λ now x h. steps (ground arith) (from_dispensing x.status (ground arith) close))

  fill_edge : (s : Status) → (is_paid s || is_dispensing s) ≡ true → s ⟶ Status.filled
  fill_edge s h = elim (or_cases (is_paid s) (is_dispensing s) h) [
    | inl paid ↦ from_paid s paid fill_directly
    | inr dispensing ↦ from_dispensing s dispensing close
  ]

  pub Keeps-fill : (plant id shift : ℕ) → Keeps (From xs) (fill plant id shift)
  unfolding fill
  Keeps-fill plant id shift =
      Keeps-bind _ _
        (Keeps-update_tickets _ (directly_filled_row shift) (λ now x h.
          steps (ground arith) (fill_edge x.status (and_right (is_ticket plant id x) _ h))))
        (Keeps-require_rows _)

  void_edge : (s : Status) → (is_pending s || is_paid s) ≡ true → s ⟶ Status.voided
  void_edge s h = elim (or_cases (is_pending s) (is_paid s) h) [
    | inl pending ↦ from_pending s pending void_pending
    | inr paid ↦ from_paid s paid void_paid
  ]

  pub Keeps-void :
      (plant id actor : ℕ) (reason : Text) → Keeps (From xs) (void plant id actor reason)
  unfolding void
  Keeps-void plant id actor reason =
      Keeps-bind _ _
        (Keeps-update_tickets _ (voided_row actor reason) (λ now x h.
          steps (ground arith) (void_edge x.status (and_right (is_ticket plant id x) _ h))))
        (Keeps-require_rows _)
