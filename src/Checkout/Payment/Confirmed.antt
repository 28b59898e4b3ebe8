-- ===== src/Checkout/Payment/Confirmed.antt =====
-- cmd/server/tickets.go: when a payment counts.
use gatstogo.Base.{
  ℕ, ℤ, pos, negsuc, ◌≡◌, refl, ◌∙◌, arith, Bool, true, false, ◌||◌, ◌↔◌, ◌⊎◌, inl, inr, Bool-cases,
  Option, none, some, [], ◌∷◌, Text, text_eq, text_eq_iff, codes, is_empty,
}
use gatstogo.Error.{Result, ok}
use gatstogo.Db.Schema.{Db, TicketRow, Status}
use gatstogo.Db.Table.{find_where, exists_where}
use gatstogo.Db.Statement.{connected}
use gatstogo.Tickets.Lifecycle.{is_ticket, status_of}
use gatstogo.Tickets.Lifecycle.Payment.{with_paid, status_paid, mark_paid_read}
use gatstogo.Tickets.Receipts.{has_reference}
use gatstogo.Pumps.Board.{at_plant}
use gatstogo.Pumps.Assignment.{assign}
use gatstogo.Pumps.Assignment.History.{assigned_pump, assign_least_busy_statement, status_of-assign}
use gatstogo.Checkout.Payment.{
  VerifyResult, page, pump_label, is_amount, is_confirmed, is_verified, settle_ticket,
  callback_in_tenant, webhook_in_tenant,
}

-- Paystack says that this amount was paid, in naira or in no currency that it names.
abbrev pub ConfirmedFor : VerifyResult → ℕ → Type 0
ConfirmedFor v amount =
    (v.status ≡ codes "success")
    × (v.amount_kobo ≡ pos amount)
    × ((v.currency ≡ []) ⊎ (v.currency ≡ codes "NGN"))

is_amount_iff : (a : ℤ) (amount : ℕ) → (is_amount a amount ≡ true) ↔ (a ≡ pos amount)
is_amount_iff (pos n) amount = ground arith
is_amount_iff (negsuc n) amount = ground arith

is_naira_iff :
    (c : Text) → ((is_empty c || text_eq c (codes "NGN")) ≡ true) ↔ ((c ≡ []) ⊎ (c ≡ codes "NGN"))
is_naira_iff [] = ((λ _. inl refl), (λ _. refl))
is_naira_iff (x ∷ xs) = ground (arith, text_eq_iff (x ∷ xs) (codes "NGN"))

is_confirmed_iff :
    (v : VerifyResult) (amount : ℕ) → (is_confirmed v amount ≡ true) ↔ ConfirmedFor v amount
unfolding is_confirmed
is_confirmed_iff v amount = ground (
  arith,
  text_eq_iff v.status (codes "success"),
  is_amount_iff v.amount_kobo amount,
  is_naira_iff v.currency,
)

refused : (v : VerifyResult) (amount : ℕ) → ¬ ConfirmedFor v amount → is_confirmed v amount ≡ false
refused v amount h = elim (Bool-cases (is_confirmed v amount)) [
  | inl e ↦ absurd (h ((is_confirmed_iff v amount).0 e))
  | inr e ↦ e
]

module _ (plant new_id : ℕ) (reference : Text) (in_tx : Bool) (scope : Option ℕ) (now : ℕ) (db : Db)
    (x : TicketRow) where
  settle_unconfirmed :
      (v : Result VerifyResult)
      → is_verified v x.amount ≡ false
      → settle_ticket plant reference new_id v x (connected in_tx scope now db)
        ≡ (ok (page x false none), connected in_tx scope now db)
  unfolding settle_ticket
  settle_unconfirmed v h = rw h refl

  -- A payment that Paystack does not confirm for the ticket's own amount, in naira or no named
  -- currency, changes nothing, neither through the callback, whose page then says unpaid, nor through
  -- the webhook.
  pub unconfirmed_unchanged :
      (v : VerifyResult)
      → find_where (has_reference plant reference) db.tickets ≡ some x
      → find_where (is_ticket plant x.id) db.tickets ≡ some x
      → ¬ ConfirmedFor v x.amount
      → (callback_in_tenant plant reference (ok v) new_id (connected in_tx scope now db)
          ≡ (ok (page x false none), connected in_tx scope now db))
        × (webhook_in_tenant plant x.id reference v new_id (connected in_tx scope now db)
            ≡ (ok tt, connected in_tx scope now db))
  unfolding callback_in_tenant webhook_in_tenant is_verified
  unconfirmed_unchanged v found same h =
      let e = refused v x.amount h in (rw (found, e) refl, rw (same, e) refl)

  paid_result :
      (v : Result VerifyResult)
      → is_verified v x.amount ≡ true
      → status_of plant x.id db ≡ some Status.pending
      → exists_where (at_plant plant) db.pumps ≡ true
      → let (r, t) = settle_ticket plant reference new_id v x (connected in_tx scope now db) in
        ((pump : Option Text) × (r ≡ ok (page x true pump)))
        × (status_of plant x.id t.db ≡ some Status.paid)
  unfolding settle_ticket status_of
  paid_result v confirmed pending has_pump =
      let paid = with_paid plant x.id in_tx scope now db in
      rw
        (
          confirmed,
          mark_paid_read plant x.id in_tx scope now db Status.pending pending,
          assign_least_busy_statement plant x.id new_id in_tx scope now paid has_pump,
        )
        (
          (pump_label (assigned_pump (assign plant x.id now paid).0), refl),
          status_of-assign plant x.id new_id in_tx scope now paid x.id
              ∙ status_paid plant x.id in_tx scope now db Status.pending pending,
        )

  -- With a pump at the plant, a pending ticket whose own amount Paystack confirms as paid, in naira or
  -- no named currency, is paid after the callback, whose page says so.
  pub confirmed_paid :
      (v : VerifyResult)
      → find_where (has_reference plant reference) db.tickets ≡ some x
      → ConfirmedFor v x.amount
      → status_of plant x.id db ≡ some Status.pending
      → exists_where (at_plant plant) db.pumps ≡ true
      → let (r, t) =
          callback_in_tenant plant reference (ok v) new_id (connected in_tx scope now db) in
        ((pump : Option Text) × (r ≡ ok (page x true pump)))
        × (status_of plant x.id t.db ≡ some Status.paid)
  unfolding callback_in_tenant is_verified
  confirmed_paid v found confirmed pending has_pump =
      rw found (paid_result (ok v) ((is_confirmed_iff v x.amount).1 confirmed) pending has_pump)
