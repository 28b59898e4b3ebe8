-- ===== src/Tickets/Receipts/Confirmation.antt =====
-- internal/tickets/tickets.go: Confirm keeps the first confirmation.
use gatstogo.Base.{
  ℕ, ◌≡◌, refl, ap, sym, ◌∙◌, Bool, Option-cases, inl, inr, Option, none, some, Text, arith,
}
use gatstogo.Error.{not_confirmable, ok, err}
use gatstogo.Db.Schema.{Db, TicketRow, Status}
use gatstogo.Db.Table.{find_where, update_where}
use gatstogo.Db.Table.Laws.{find_where-update_where, find_where_sound}
use gatstogo.Db.Statement.{Store, connected}
use gatstogo.Tickets.Receipts.{
  is_receipt, has_reference, confirmed_row, confirm_state, confirm_from, confirm,
}

module _ (plant : ℕ) (reference phone : Text) (in_tx : Bool) (scope : Option ℕ) (now : ℕ)
    (db : Db) where
  abbrev found : Option TicketRow
  found = find_where (is_receipt plant reference phone) db.tickets

  abbrev confirmed : Db
  confirmed = record db {
    tickets =
        update_where (has_reference plant reference)
          (λ t. record (confirmed_row now t) { updated_at = now }) db.tickets;
  }

  confirm_read :
      (state : Status × Option ℕ)
      → confirm_state plant reference phone db ≡ some state
      → confirm plant reference phone (connected in_tx scope now db)
        ≡ confirm_from plant reference state (connected in_tx scope now db)
  unfolding confirm
  confirm_read state h = rw h refl

  confirm_missing :
      confirm_state plant reference phone db ≡ none
      → (confirm plant reference phone (connected in_tx scope now db)).0 ≡ err not_confirmable
  unfolding confirm
  confirm_missing h = rw h refl

  -- The row that was found, once it is confirmed.
  state_confirmed :
      (x : TicketRow)
      → found ≡ some x
      → confirm_state plant reference phone confirmed ≡ some (x.status, some now)
  unfolding confirm_state
  state_confirmed x h =
      let passes = find_where_sound (is_receipt plant reference phone) db.tickets x h in
      rw
        (
          find_where-update_where (has_reference plant reference)
              (λ t. record (confirmed_row now t) { updated_at = now })
              (is_receipt plant reference phone) (λ y. refl) db.tickets,
          h,
        )
        (ground arith)

  -- Only a filled ticket is confirmed, and a confirmed one is left alone.
  confirm_from-ok :
      (st : Status) (at : Option ℕ) (t : Store)
      → confirm_from plant reference (st, at) (connected in_tx scope now db) ≡ (ok tt, t)
      → (st ≡ Status.filled)
        × (t ≡ elim at [
          | none ↦ connected in_tx scope now confirmed
          | some _ ↦ connected in_tx scope now db
        ])
  unfolding confirm_from
  confirm_from-ok Status.filled none t e = (refl, sym (ap (λ r. r.1) e))
  confirm_from-ok Status.filled (some at) t e = (refl, sym (ap (λ r. r.1) e))
  confirm_from-ok Status.pending at t e = cc
  confirm_from-ok Status.paid at t e = cc
  confirm_from-ok Status.dispensing at t e = cc
  confirm_from-ok Status.issue at t e = cc
  confirm_from-ok Status.cancelled at t e = cc
  confirm_from-ok Status.expired at t e = cc
  confirm_from-ok Status.voided at t e = cc

  state_found :
      (x : TicketRow)
      → found ≡ some x
      → confirm_state plant reference phone db ≡ some (x.status, x.confirmed_at)
  unfolding confirm_state
  state_found x h = rw h refl

  confirm_done :
      (later at : ℕ) (db' : Db)
      → confirm_state plant reference phone db' ≡ some (Status.filled, some at)
      → confirm plant reference phone (connected in_tx scope later db')
        ≡ (ok tt, connected in_tx scope later db')
  unfolding confirm confirm_from
  confirm_done later at db' h = rw h refl

  confirmed_state :
      (x : TicketRow) (t : Store)
      → found ≡ some x
      → confirm plant reference phone (connected in_tx scope now db) ≡ (ok tt, t)
      → (at : ℕ) × (confirm_state plant reference phone t.db ≡ some (Status.filled, some at))
  confirmed_state x t h e =
      let read = confirm_read (x.status, x.confirmed_at) (state_found x h) in
      let (filled, left) = confirm_from-ok x.status x.confirmed_at t (sym read ∙ e) in
      elim (Option-cases x.confirmed_at) [
        | inl first ↦ (now, rw (left, first, state_confirmed x h, filled) refl)
        | inr (at, before) ↦ (at, rw (left, before, state_found x h, filled, before) refl)
      ]

  -- Once Confirm has succeeded, the ticket is filled and confirmed, and a later Confirm succeeds and
  -- changes nothing, the time of the first confirmation included.
  confirm_again :
      (later : ℕ) (t : Store)
      → confirm plant reference phone (connected in_tx scope now db) ≡ (ok tt, t)
      → ((at : ℕ) × (confirm_state plant reference phone t.db ≡ some (Status.filled, some at)))
        × (confirm plant reference phone (connected in_tx scope later t.db)
            ≡ (ok tt, connected in_tx scope later t.db))
  unfolding confirm_from confirm_state
  confirm_again later t e = elim (Option-cases found) [
    | inl absent ↦ let refused = sym (confirm_missing (rw absent refl)) ∙ ap (λ r. r.0) e in cc
    | inr (x, h) ↦
        let (at, state) = confirmed_state x t h e in ((at, state), confirm_done later at t.db state)
  ]
