-- ===== src/Terminal.antt =====
-- cmd/server/terminal.go: terminalRedeemHandler, terminalCloseReceiptHandler and
-- terminalBulkCloseReceiptsHandler; the children have the other handlers. The texts of the replies are left out, their HTTP status and data
-- are not.
pub mod Lifecycle
pub mod Redeeming
pub mod Dispensing
pub mod CashSale
pub mod Managing
pub mod Shift
use gatstogo.Base.{
  ℕ, ℤ, Bool, true, false, not, Option, none, some, Text, codes, trim_space, byte_len, ◌==◌,
  if◌then◌else◌,
}
use gatstogo.Error.{Error, code_not_found, code_already_redeemed, code_not_payable, Result, ok, err}
use gatstogo.Db.Schema.{Role}
use gatstogo.Db.Statement.{M, pure, ◌>>=◌, ◌>>◌, attempt_then}
use gatstogo.Tenant.{with_tenant, log}
use gatstogo.Tickets.Lifecycle.{RedeemedTicket, redeem, close_filled, bulk_close_filled}
use gatstogo.Shifts.Cash.{summary}

-- The staff session that the middleware found, with its shift and its pump.
pub record Actor : Type 0 where
  pub user_id : ℕ
  pub role : Role
  pub shift_id : Option ℕ
  pub pump_id : Option ℕ

-- writeJSON with 200, and writeJSONError with its status.
pub data Reply {ℓ} (A : Type ℓ) : Type ℓ where
  json : A → Reply A
  refused : ℕ → Reply A

abbrev pub is_operator : Role → Bool
is_operator Role.operator = true
is_operator _ = false

abbrev pub redeem_reply : Result RedeemedTicket → Reply RedeemedTicket
redeem_reply (ok t) = Reply.json t
redeem_reply (err code_already_redeemed) = Reply.refused 409
redeem_reply (err code_not_found) = Reply.refused 404
redeem_reply (err code_not_payable) = Reply.refused 404
redeem_reply (err _) = Reply.refused 500

module _ (to_upper : ℕ → ℕ) where
  unfoldable pub redeem_code : ℕ → Text → M (Reply RedeemedTicket)
  unfolding byte_len with_tenant redeem pure attempt_then
  redeem_code plant code =
      if byte_len code == 4
      then attempt_then (with_tenant plant (redeem to_upper plant code))
          (λ r. pure (redeem_reply r))
      else pure (Reply.refused 400)

  -- The plant and the session, where the middleware found both, and the form's code where the form
  -- could be read.
  unfoldable pub terminal_redeem : Option (ℕ × Actor) → Option Text → M (Reply RedeemedTicket)
  unfolding redeem_code trim_space pure
  terminal_redeem none form = pure (Reply.refused 401)
  terminal_redeem (some (plant, actor)) none =
      if is_operator actor.role then pure (Reply.refused 403) else pure (Reply.refused 400)
  terminal_redeem (some (plant, actor)) (some code) =
      if is_operator actor.role
      then pure (Reply.refused 403)
      else redeem_code plant (trim_space code)

-- The form: ticket_id as uuid.Parse reads it, and the note.
pub record CloseForm : Type 0 where
  pub ticket : Option ℕ
  pub note : Text

-- The fills and the grams of the shift after the close.
abbrev pub totals : ℕ × ℕ × ℤ → ℕ × ℕ
totals (fills, grams, cash) = (fills, grams)

abbrev pub close_reply {ℓ} : {A : Type ℓ} → ℕ → Result A → Reply A
close_reply status (ok a) = Reply.json a
close_reply status (err e) = Reply.refused status

module _ (uuid_text : ℕ → Text) where
  -- The function that WithTenant runs.
  unfoldable pub close_in_tenant : ℕ → ℕ → ℕ → ℕ → Text → M (ℕ × ℕ)
  unfolding close_filled log summary pure ◌>>=◌
  close_in_tenant plant shift user ticket note = do
    close_filled plant ticket shift user note
    log (some plant) (some user) (codes "ticket.filled") (uuid_text ticket)
    t ← summary plant shift
    pure (totals t)

  unfoldable pub close_ticket : ℕ → ℕ → ℕ → Text → Option ℕ → M (Reply (ℕ × ℕ))
  unfolding with_tenant close_in_tenant pure attempt_then
  close_ticket plant shift user note none = pure (Reply.refused 400)
  close_ticket plant shift user note (some ticket) =
      attempt_then (with_tenant plant (close_in_tenant plant shift user ticket note))
        (λ r. pure (close_reply 400 r))

  unfoldable pub close_in_shift : ℕ → ℕ → Option CloseForm → Option ℕ → M (Reply (ℕ × ℕ))
  unfolding close_ticket trim_space pure
  close_in_shift plant user form none = pure (Reply.refused 401)
  close_in_shift plant user none (some shift) = pure (Reply.refused 400)
  close_in_shift plant user (some form) (some shift) =
      close_ticket plant shift user (trim_space form.note) form.ticket

  unfoldable pub terminal_close_receipt : Option (ℕ × Actor) → Option CloseForm → M (Reply (ℕ × ℕ))
  unfolding close_in_shift pure
  terminal_close_receipt none form = pure (Reply.refused 401)
  terminal_close_receipt (some (plant, actor)) form =
      close_in_shift plant actor.user_id form actor.shift_id

  unfoldable pub bulk_close_in_tenant : ℕ → ℕ → ℕ → ℕ → Text → M (ℕ × (ℕ × ℕ))
  unfolding bulk_close_filled log summary pure ◌>>=◌
  bulk_close_in_tenant plant pump shift user note = do
    count ← bulk_close_filled plant pump shift user note
    log (some plant) (some user) (codes "ticket.bulk_filled") (uuid_text pump)
    t ← summary plant shift
    pure (count, totals t)

  unfoldable pub bulk_close : ℕ → ℕ → Option Text → Option ℕ → Option ℕ → M (Reply (ℕ × (ℕ × ℕ)))
  unfolding with_tenant bulk_close_in_tenant trim_space pure attempt_then
  bulk_close plant user form none pump = pure (Reply.refused 401)
  bulk_close plant user form (some shift) none = pure (Reply.refused 401)
  bulk_close plant user none (some shift) (some pump) = pure (Reply.refused 400)
  bulk_close plant user (some note) (some shift) (some pump) =
      attempt_then
        (with_tenant plant (bulk_close_in_tenant plant pump shift user (trim_space note)))
        (λ r. pure (close_reply 500 r))

  unfoldable pub terminal_bulk_close_receipts :
      Option (ℕ × Actor) → Option Text → M (Reply (ℕ × (ℕ × ℕ)))
  unfolding bulk_close pure
  terminal_bulk_close_receipts none form = pure (Reply.refused 401)
  terminal_bulk_close_receipts (some (plant, actor)) form =
      bulk_close plant actor.user_id form actor.shift_id actor.pump_id
