-- ===== src/Examples/Sales.antt =====
-- The theorems of internal/tickets/tickets.go on a plant with four tickets.
use gatstogo.Base.{◌≡◌, ◌↔◌, refl, true, false, ◌||◌, none, some, List, [], ◌∷◌, codes, text_eq}
use gatstogo.Error.{not_paid, not_dispensing, not_voidable, ok}
use gatstogo.Db.Schema.{TicketRow, Status, is_pending, is_paid, is_dispensing}
use gatstogo.Db.Table.{find_where, exists_where}
use gatstogo.Db.Table.Distinct.{Distinct}
use gatstogo.Db.Statement.{connected}
use gatstogo.Db.Statement.Keeps.{Keeps}
use gatstogo.Tickets.Purchase.{same_id, same_reference, same_open_code}
use gatstogo.Tickets.Lifecycle.{
  is_ticket, start_dispensing, close_filled, fill, void, pay_from, status_of,
}
use gatstogo.Tickets.Lifecycle.Guards.{allows, granted, guarded_outcomes}
use gatstogo.Tickets.Lifecycle.Payment.{mark_paid_overwrites_void}
use gatstogo.Tickets.History.{SameSale, From}
use gatstogo.Tickets.History.Service.{Command, serve, Keeps-serve}
use gatstogo.Tickets.History.Terminal.{has_id, IsFinal, From-refl, serve-IsFinal}
use gatstogo.Tickets.Receipts.{Receipt, is_receipt, receipt_of, get_receipt}
use gatstogo.Tickets.Receipts.Privacy.{SoldTo, get_receipt_private}
use gatstogo.Tickets.Phone.{normalize_phone, phone_match}
use gatstogo.Tickets.Phone.Laws.{phone_match_iff}
use gatstogo.Examples.{waiting, done, tickets, a_db}

abbrev requests : List Command
requests =
    Command.pay 1 10
    ∷ Command.start 1 11 3
    ∷ Command.close 1 12 20 3 (codes "full")
    ∷ Command.cancel 1 13 3 (codes "no")
    ∷ []

Keeps-serve_example : Keeps (From tickets) (serve requests)
Keeps-serve_example = Keeps-serve tickets requests

ids_distinct : Distinct same_id tickets
unfolding exists_where
ids_distinct = (refl, (refl, (refl, (refl, tt))))

references_distinct : Distinct same_reference tickets
unfolding exists_where text_eq
references_distinct = (refl, (refl, (refl, (refl, tt))))

codes_distinct : Distinct same_open_code tickets
unfolding exists_where text_eq
codes_distinct = (refl, (refl, (refl, (refl, tt))))

done_found : find_where (has_id 13) tickets ≡ some done
unfolding find_where
done_found = refl

serve-IsFinal_example :
    (y : TicketRow) × (find_where
        (has_id 13)
        (serve requests (connected false none 200 a_db)).1.db.tickets
      ≡ some y)
    × SameSale done y
    × (y.status ≡ done.status)
serve-IsFinal_example =
    serve-IsFinal requests (connected false none 200 a_db) 13 done
      (From-refl a_db ids_distinct references_distinct codes_distinct) done_found
      IsFinal.filled_final

guarded_outcomes_example :
    ((start_dispensing 1 11 3 (connected true (some 1) 200 a_db)).0
      ≡ granted (allows is_paid (status_of 1 11 a_db)) not_paid)
    × ((close_filled 1 11 20 3 [] (connected true (some 1) 200 a_db)).0
        ≡ granted (allows is_dispensing (status_of 1 11 a_db)) not_dispensing)
    × ((fill 1 11 20 (connected true (some 1) 200 a_db)).0
        ≡ granted (allows (λ st. is_paid st || is_dispensing st) (status_of 1 11 a_db)) not_paid)
    × ((void 1 11 3 [] (connected true (some 1) 200 a_db)).0
        ≡ granted (allows (λ st. is_pending st || is_paid st) (status_of 1 11 a_db)) not_voidable)
guarded_outcomes_example = guarded_outcomes 1 11 true (some 1) 200 a_db 20 3 [] ids_distinct

waiting_found : find_where (is_ticket 1 10) tickets ≡ some waiting
unfolding find_where
waiting_found = refl

mark_paid_overwrites_void_example :
    let (r, t) = void 1 10 3 (codes "changed mind") (connected true (some 1) 200 a_db) in
    let (answer, t') = pay_from 1 10 Status.pending t in
    (r ≡ ok tt)
    × (status_of 1 10 t.db ≡ some Status.voided)
    × (answer ≡ ok true)
    × (status_of 1 10 t'.db ≡ some Status.paid)
mark_paid_overwrites_void_example =
    mark_paid_overwrites_void 1 10 true (some 1) 200 a_db 3 (codes "changed mind") waiting
      waiting_found refl

abbrev the_receipt : Receipt
the_receipt = receipt_of (codes "sun-0d") done

receipt_answer :
    get_receipt 1
      (codes "sun-0d")
      (normalize_phone (codes "08031234567"))
      (connected false (some 1) 200 a_db)
    ≡ (ok the_receipt, connected false (some 1) 200 a_db)
unfolding get_receipt phone_match normalize_phone text_eq
receipt_answer = refl

get_receipt_private_example :
    (x : TicketRow) × (find_where
        (is_receipt 1 (codes "sun-0d") (normalize_phone (codes "08031234567")))
        tickets
      ≡ some x)
    × SoldTo 1 (codes "08031234567") x
    × (x.reference ≡ codes "sun-0d")
    × (the_receipt ≡ receipt_of (codes "sun-0d") x)
get_receipt_private_example =
    get_receipt_private 1 (codes "sun-0d") (codes "08031234567") false (some 1) 200 a_db the_receipt
      (connected false (some 1) 200 a_db) receipt_answer

phone_match_iff_example :
    (phone_match (some (codes "+234 803 123 4567")) (normalize_phone (codes "08031234567")) ≡ true)
    ↔ (normalize_phone (codes "+234 803 123 4567") ≡ normalize_phone (codes "08031234567"))
phone_match_iff_example = phone_match_iff (codes "+234 803 123 4567") (codes "08031234567")
