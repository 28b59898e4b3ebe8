-- ===== src/Examples/Desk.antt =====
-- Codes and closes at the terminal with the theorems of cmd/server/terminal.go.
use gatstogo.Base.{
  ℕ, List, ◌∷◌, ◌≡◌, refl, true, false, none, some, [], Text, codes, byte_len, trim_space, ◌==◌,
}
use gatstogo.Error.{Result, ok}
use gatstogo.Checkout.Buy.{Plant, Chance}
use gatstogo.Terminal.Dispensing.{terminal_fill}
use gatstogo.Terminal.CashSale.{terminal_cash_sale}
use gatstogo.Db.Schema.{Role}
use gatstogo.Db.Statement.{connected}
use gatstogo.Db.Statement.Keeps.{Keeps}
use gatstogo.Tickets.Lifecycle.{by_code}
use gatstogo.Tickets.History.{From}
use gatstogo.Terminal.{Actor, terminal_redeem, terminal_close_receipt, terminal_bulk_close_receipts}
use gatstogo.Terminal.Lifecycle.{Keeps-terminal}
use gatstogo.Terminal.Redeeming.{reply_to, terminal_redeem_lem}
use gatstogo.Examples.{tickets, a_db}

abbrev cashier : Actor
cashier = record { user_id = 3; role = Role.cashier; shift_id = some 30; pump_id = some 7 }

abbrev same_letter : ℕ → ℕ
same_letter r = r

abbrev no_text : ℕ → Text
no_text id = []

four : (byte_len (trim_space (codes " 2222")) == 4) ≡ true
unfolding trim_space byte_len
four = refl

terminal_redeem_lem_example :
    terminal_redeem same_letter
      (some (1, cashier))
      (some (codes " 2222"))
      (connected false none 200 a_db)
    ≡ (
      ok (reply_to same_letter a_db (by_code 1 (trim_space (codes " 2222")) a_db)),
      connected false none 200 a_db,
    )
terminal_redeem_lem_example =
    terminal_redeem_lem same_letter 1 200 a_db cashier (codes " 2222") refl four

abbrev a_plant : Plant
a_plant = record { id = 1; slug = codes "sun"; subaccount = none }

abbrev luck : Chance
luck = record {
  day = 1;
  clock = 36000000000000;
  bytes = ok (1 ∷ 2 ∷ 3 ∷ 4 ∷ 5 ∷ 6 ∷ []);
  random = λ n. ok 4040;
  wall = 200;
  id = 30;
}

abbrev bytes : ℕ → Result (List ℕ)
bytes n = ok (1 ∷ 2 ∷ 3 ∷ [])

Keeps-terminal_example :
    Keeps (From tickets) (terminal_redeem same_letter (some (1, cashier)) (some (codes "2222")))
    × Keeps (From tickets) (terminal_fill no_text bytes 60 (some (1, cashier)) (some (some 11)))
    × Keeps
        (From tickets)
        (terminal_cash_sale 31 (some (a_plant, cashier)) luck (some (some 300000, codes "0803")))
    × Keeps (From tickets) (
        terminal_close_receipt no_text
          (some (1, cashier))
          (some (record { ticket = some 12; note = codes "full" })))
    × Keeps
        (From tickets)
        (terminal_bulk_close_receipts no_text (some (1, cashier)) (some (codes "end")))
Keeps-terminal_example =
    Keeps-terminal tickets same_letter no_text bytes 60 31 a_plant (some cashier) luck
      (some (codes "2222")) (some (codes "end")) (some (some 11)) (some (some 300000, codes "0803"))
      (some (record { ticket = some 12; note = codes "full" }))
