-- ===== src/Tickets/Lifecycle/Payment.antt =====
-- internal/tickets/tickets.go: MarkPaid run again, and MarkPaid beside a Void.
use gatstogo.Base.{
  ℕ, ◌≡◌, refl, ap, sym, subst, ◌∙◌, Bool, true, false, ◌&&◌, ◌||◌, Bool-cases, Option-cases, inl,
  inr, Option, none, some, List, [], ◌∷◌, Text, arith, ◌==◌,
}
use gatstogo.Error.{no_rows, ok, err}
use gatstogo.Db.Schema.{Db, TicketRow, Status, is_pending, is_paid}
use gatstogo.Db.Table.{count_where, find_where, update_where}
use gatstogo.Db.Table.Laws.{find_where-update_where, find_where_sound}
use gatstogo.Db.Statement.{Store, connected}
use gatstogo.Tickets.Lifecycle.{
  is_ticket, paid_row, voided_row, status_of, pay_from, mark_paid, void,
}

module _ (plant id : ℕ) (in_tx : Bool) (scope : Option ℕ) (now : ℕ) (db : Db) where
  abbrev pub with_paid : Db
  with_paid = record db {
    tickets =
        update_where (is_ticket plant id) (λ t. record (paid_row now t) { updated_at = now })
          db.tickets;
  }

  pub status_paid :
      (st : Status)
      → status_of plant id db ≡ some st
      → status_of plant id with_paid ≡ some Status.paid
  unfolding status_of
  status_paid st h = elim (Option-cases (find_where (is_ticket plant id) db.tickets)) [
    | inl absent ↦ ground arith
    | inr (x, found) ↦
        let passes = find_where_sound (is_ticket plant id) db.tickets x found in
        rw
          (
            find_where-update_where (is_ticket plant id)
                (λ t. record (paid_row now t) { updated_at = now }) (is_ticket plant id) (λ y. refl)
                db.tickets,
            found,
            passes,
          )
          refl
  ]

  pay_pending :
      pay_from plant id Status.pending (connected in_tx scope now db)
      ≡ (ok true, connected in_tx scope now with_paid)
  unfolding pay_from
  pay_pending = refl

  pub mark_paid_read :
      (st : Status)
      → status_of plant id db ≡ some st
      → mark_paid plant id (connected in_tx scope now db)
        ≡ pay_from plant id st (connected in_tx scope now db)
  unfolding mark_paid
  mark_paid_read st h = rw h refl

  mark_paid_missing :
      status_of plant id db ≡ none
      → (mark_paid plant id (connected in_tx scope now db)).0 ≡ err no_rows
  unfolding mark_paid
  mark_paid_missing h = rw h refl

  -- What MarkPaid makes of each status.
  pay_from-true :
      (st : Status) (t : Store)
      → pay_from plant id st (connected in_tx scope now db) ≡ (ok true, t)
      → status_of plant id db ≡ some st
      → ((settled : Status) × (pay_from plant id settled (connected in_tx scope now t.db)
            ≡ (ok true, connected in_tx scope now t.db))
          × (status_of plant id t.db ≡ some settled))
        × (t ≡ connected in_tx scope now t.db)
  unfolding pay_from
  pay_from-true Status.pending t e h =
      let left = ap (λ r. r.1) e in
      rw (← left) ((Status.paid, refl, status_paid Status.pending h), refl)
  pay_from-true Status.paid t e h =
      let left = ap (λ r. r.1) e in rw (← left) ((Status.paid, refl, h), refl)
  pay_from-true Status.dispensing t e h =
      let left = ap (λ r. r.1) e in rw (← left) ((Status.dispensing, refl, h), refl)
  pay_from-true Status.filled t e h =
      let left = ap (λ r. r.1) e in rw (← left) ((Status.filled, refl, h), refl)
  pay_from-true Status.issue t e h = cc
  pay_from-true Status.cancelled t e h = cc
  pay_from-true Status.expired t e h = cc
  pay_from-true Status.voided t e h = cc

  read_settled :
      (settled : Status) (db' : Db)
      → status_of plant id db' ≡ some settled
      → mark_paid plant id (connected in_tx scope now db')
        ≡ pay_from plant id settled (connected in_tx scope now db')
  unfolding mark_paid
  read_settled settled db' h = rw h refl

  paid_once :
      (t : Store) (settled : Status)
      → t ≡ connected in_tx scope now t.db
      → pay_from plant id settled (connected in_tx scope now t.db)
        ≡ (ok true, connected in_tx scope now t.db)
      → status_of plant id t.db ≡ some settled
      → mark_paid plant id t ≡ (ok true, t)
  paid_once t settled same done h =
      subst (λ s. mark_paid plant id s ≡ (ok true, s)) (sym same)
        (read_settled settled t.db h ∙ done)

  -- Once MarkPaid has answered true, calling it again answers true and changes nothing.
  mark_paid_again :
      (t : Store)
      → mark_paid plant id (connected in_tx scope now db) ≡ (ok true, t)
      → mark_paid plant id t ≡ (ok true, t)
  mark_paid_again t e = elim (Option-cases (status_of plant id db)) [
    | inl absent ↦ let refused = sym (mark_paid_missing absent) ∙ ap (λ r. r.0) e in cc
    | inr (st, h) ↦
        let ((settled, done, now_settled), same) =
          pay_from-true st t (sym (mark_paid_read st h) ∙ e) h in
        paid_once t settled same done now_settled
  ]

module _ (plant id : ℕ) (in_tx : Bool) (scope : Option ℕ) (now : ℕ) (db : Db) where
  abbrev voidable : TicketRow → Bool
  voidable t = is_ticket plant id t && (is_pending t.status || is_paid t.status)

  abbrev with_voided : ℕ → Text → Db
  with_voided actor reason = record db {
    tickets =
        update_where voidable (λ t. record (voided_row actor reason now t) { updated_at = now })
          db.tickets;
  }

  voidable-some :
      (xs : List TicketRow) (x : TicketRow)
      → find_where (is_ticket plant id) xs ≡ some x
      → is_pending x.status ≡ true
      → (count_where voidable xs == 0) ≡ false
  unfolding find_where count_where
  voidable-some [] x e h = cc
  voidable-some (y ∷ ys) x e h = elim (Bool-cases (is_ticket plant id y)) [
    | inl hit ↦ ground arith
    | inr miss ↦ ground (arith, voidable-some ys x)
  ]

  void_pending_ok :
      (actor : ℕ) (reason : Text) (x : TicketRow)
      → find_where (is_ticket plant id) db.tickets ≡ some x
      → is_pending x.status ≡ true
      → void plant id actor reason (connected in_tx scope now db)
        ≡ (ok tt, connected in_tx scope now (with_voided actor reason))
  unfolding void
  void_pending_ok actor reason x e h = rw (voidable-some db.tickets x e h) refl

  status_voided :
      (actor : ℕ) (reason : Text) (x : TicketRow)
      → find_where (is_ticket plant id) db.tickets ≡ some x
      → is_pending x.status ≡ true
      → status_of plant id (with_voided actor reason) ≡ some Status.voided
  unfolding status_of
  status_voided actor reason x e h =
      let passes = find_where_sound (is_ticket plant id) db.tickets x e in
      rw
        (
          find_where-update_where voidable
              (λ t. record (voided_row actor reason now t) { updated_at = now })
              (is_ticket plant id) (λ y. refl) db.tickets,
          e,
          passes,
          h,
        )
        refl

  -- A ticket that is pending when MarkPaid reads it, and that a Void makes voided before MarkPaid
  -- writes, ends up paid: MarkPaid answers true and its UPDATE overwrites the voided status.
  pub mark_paid_overwrites_void :
      (actor : ℕ) (reason : Text) (x : TicketRow)
      → find_where (is_ticket plant id) db.tickets ≡ some x
      → is_pending x.status ≡ true
      → let (r, t) = void plant id actor reason (connected in_tx scope now db) in
        let (answer, t') = pay_from plant id Status.pending t in
        (r ≡ ok tt)
        × (status_of plant id t.db ≡ some Status.voided)
        × (answer ≡ ok true)
        × (status_of plant id t'.db ≡ some Status.paid)
  mark_paid_overwrites_void actor reason x e h =
      let voided = status_voided actor reason x e h in
      rw
        (
          void_pending_ok actor reason x e h,
          pay_pending plant id in_tx scope now (with_voided actor reason),
        )
        (
          refl,
          voided,
          refl,
          status_paid plant id in_tx scope now (with_voided actor reason) Status.voided voided,
        )
