-- ===== src/Terminal/Redeeming.antt =====
-- cmd/server/terminal.go: what terminalRedeemHandler answers to a code.
use gatstogo.Base.{ℕ, ◌≡◌, refl, true, false, Option, none, some, Text, byte_len, trim_space, ◌==◌}
use gatstogo.Error.{ok}
use gatstogo.Db.Schema.{Db, TicketRow, Status}
use gatstogo.Db.Statement.{connected}
use gatstogo.Tickets.Lifecycle.{RedeemedTicket, redeemed, by_code, pump_name_of}
use gatstogo.Terminal.{Actor, Reply, is_operator, redeem_code, terminal_redeem}

module _ (to_upper : ℕ → ℕ) where
  -- The reply that fits the plant's latest ticket with the code.
  abbrev reply_for : Db → TicketRow → Status → Reply RedeemedTicket
  reply_for db x Status.paid = Reply.json (redeemed to_upper (x, pump_name_of db x))
  reply_for db x Status.dispensing = Reply.refused 409
  reply_for db x Status.filled = Reply.refused 409
  reply_for db x _ = Reply.refused 404

  abbrev pub reply_to : Db → Option TicketRow → Reply RedeemedTicket
  reply_to db none = Reply.refused 404
  reply_to db (some x) = reply_for db x x.status

  module _ (plant now : ℕ) (db : Db) (code : Text) (four : (byte_len code == 4) ≡ true) where
    redeem_unknown :
        by_code plant code db ≡ none
        → redeem_code to_upper plant code (connected false none now db)
          ≡ (ok (Reply.refused 404), connected false none now db)
    unfolding redeem_code
    redeem_unknown h = rw (four, h) refl

    redeem_known :
        (x : TicketRow) (status : Status)
        → x.status ≡ status
        → by_code plant code db ≡ some x
        → redeem_code to_upper plant code (connected false none now db)
          ≡ (ok (reply_for db x status), connected false none now db)
    unfolding redeem_code
    redeem_known x Status.pending e h = rw (four, h, e) refl
    redeem_known x Status.paid e h = rw (four, h, e) refl
    redeem_known x Status.dispensing e h = rw (four, h, e) refl
    redeem_known x Status.filled e h = rw (four, h, e) refl
    redeem_known x Status.issue e h = rw (four, h, e) refl
    redeem_known x Status.cancelled e h = rw (four, h, e) refl
    redeem_known x Status.expired e h = rw (four, h, e) refl
    redeem_known x Status.voided e h = rw (four, h, e) refl

    redeem_code_reply :
        (found : Option TicketRow)
        → by_code plant code db ≡ found
        → redeem_code to_upper plant code (connected false none now db)
          ≡ (ok (reply_to db found), connected false none now db)
    redeem_code_reply none h = redeem_unknown h
    redeem_code_reply (some x) h = redeem_known x x.status refl h

  -- From a pool and with no failure, the reply to a manager or a cashier with a code of four bytes is
  -- decided by the plant's latest ticket with that code, and no table changes: its data if it is paid,
  -- 409 if it is being dispensed or filled, and 404 if it is in another status or there is none.
  pub terminal_redeem_lem :
      (plant now : ℕ) (db : Db) (actor : Actor) (code : Text)
      → is_operator actor.role ≡ false
      → (byte_len (trim_space code) == 4) ≡ true
      → terminal_redeem to_upper (some (plant, actor)) (some code) (connected false none now db)
        ≡ (ok (reply_to db (by_code plant (trim_space code) db)), connected false none now db)
  unfolding terminal_redeem
  terminal_redeem_lem plant now db actor code counter four =
      rw counter (redeem_code_reply plant now db (trim_space code) four _ refl)
