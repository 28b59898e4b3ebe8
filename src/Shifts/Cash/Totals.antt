-- ===== src/Shifts/Cash/Totals.antt =====
-- internal/shifts/shifts.go: the running totals, and what moves them.
use gatstogo.Base.{
  ℕ, ◌+◌, ◌≡◌, refl, ℤ, Bool, true, false, ◌&&◌, Bool-cases, inl, inr, Option, none, some, List, [],
  ◌∷◌, Text, arith, null_if_empty, ◌==◌, if◌then◌else◌,
}
use gatstogo.Error.{ok}
use gatstogo.Db.Schema.{Db, TicketRow, CashRow, CashKind, is_dispensing, is_sale}
use gatstogo.Db.Table.{count_where, find_where, exists_where, select_where, sum_of, update_where}
use gatstogo.Db.Table.Distinct.{Distinct}
use gatstogo.Db.Statement.{connected}
use gatstogo.Db.Statement.Keeps.{Keeps, Keeps-exec, Keeps-raise}
use gatstogo.Tickets.Purchase.{same_id}
use gatstogo.Tickets.Lifecycle.{filled_row, is_ticket, close_filled}
use gatstogo.Tickets.Reference.{null_if_empty as trimmed_or_none}
use gatstogo.Shifts.Lifecycle.{insert_cash}
use gatstogo.Shifts.Cash.{
  is_filled_in, is_sale_in, fills_completed, grams_dispensed, cash_held_kobo, is_manual,
  record_cash_movement,
}

manual_is_no_sale :
    (plant shift : ℕ) (row : CashRow)
    → is_manual row.kind ≡ true
    → is_sale_in plant shift row ≡ false
manual_is_no_sale plant shift row h = elim (Bool-cases (is_sale row.kind)) [
  | inl sale ↦ ground arith
  | inr other ↦ ground arith
]

-- Whatever comes of RecordCashMovement, the cash that a shift holds from its sales is as it was.
Keeps-record_cash_movement :
    (plant shift : ℕ) (held : ℤ) (plant' shift' : ℕ) (kind : CashKind) (amount : ℤ)
    (counted : Option ℤ) (recorded_by : ℕ) (note : Text)
    → Keeps
        (λ db. cash_held_kobo plant shift db ≡ held)
        (record_cash_movement plant' shift' kind amount counted recorded_by note)
unfolding record_cash_movement insert_cash cash_held_kobo select_where
Keeps-record_cash_movement plant shift held plant' shift' kind amount counted recorded_by note =
    elim (Bool-cases (is_manual kind)) [
      | inl manual ↦ rw manual (
          Keeps-exec _ (λ now db h.
            rw
              (manual_is_no_sale plant shift
                (record {
                  plant_id = plant';
                  shift_id = shift';
                  kind = kind;
                  amount_kobo = amount;
                  counted_kobo = counted;
                  ticket_id = none;
                  recorded_by = recorded_by;
                  note = null_if_empty note;
                })
                manual)
              h))
      | inr other ↦ rw other (Keeps-raise _)
    ]

module _ (plant id shift actor : ℕ) (note : Option Text) (now : ℕ) where
  abbrev closes : TicketRow → Bool
  closes t = is_ticket plant id t && is_dispensing t.status

  abbrev filled : List TicketRow → List TicketRow
  filled xs =
      update_where closes (λ t. record (filled_row shift actor note now t) { updated_at = now }) xs

  abbrev fills : ℕ → List TicketRow → ℕ
  fills s xs = count_where (is_filled_in plant s) xs

  abbrev grams : ℕ → List TicketRow → ℕ
  grams s xs = sum_of (λ (t : TicketRow). t.size_grams) (select_where (is_filled_in plant s) xs)

  others_stay :
      (x : TicketRow) (xs : List TicketRow)
      → x.id ≡ id
      → exists_where (same_id x) xs ≡ false
      → filled xs ≡ xs
  unfolding exists_where update_where
  others_stay x [] e h = refl
  others_stay x (y ∷ ys) e h = ground (arith, others_stay x ys)

  -- What a row adds to a total of its shift, and to those of other shifts.
  abbrev added : ℕ → ℕ → ℕ
  added s n = if s == shift then n else 0

  filled_totals :
      (s : ℕ) (xs : List TicketRow) (x : TicketRow)
      → Distinct same_id xs
      → find_where (is_ticket plant id) xs ≡ some x
      → is_dispensing x.status ≡ true
      → (fills s (filled xs) ≡ added s 1 + fills s xs)
        × (grams s (filled xs) ≡ added s x.size_grams + grams s xs)
  unfolding find_where update_where count_where select_where sum_of
  filled_totals s [] x d e h = cc
  filled_totals s (y ∷ ys) x d e h = elim (Bool-cases (is_ticket plant id y)) [
    | inl hit ↦ ground (arith, others_stay y ys)
    | inr miss ↦ ground (arith, filled_totals s ys x)
  ]

closes_some :
    (plant id : ℕ) (xs : List TicketRow) (x : TicketRow)
    → find_where (is_ticket plant id) xs ≡ some x
    → is_dispensing x.status ≡ true
    → (count_where (λ t. is_ticket plant id t && is_dispensing t.status) xs == 0) ≡ false
unfolding find_where count_where
closes_some plant id [] x e h = cc
closes_some plant id (y ∷ ys) x e h = elim (Bool-cases (is_ticket plant id y)) [
  | inl hit ↦ ground arith
  | inr miss ↦ ground (arith, closes_some plant id ys x)
]

-- Where ticket identifiers are distinct and the ticket is dispensing at the plant: CloseFilled into a
-- shift succeeds and adds one fill and the grams of that ticket to the totals of that shift, and
-- leaves the totals of every other shift of the plant as they were.
pub close_filled_totals :
    (plant id shift actor : ℕ) (note : Text) (in_tx : Bool) (scope : Option ℕ) (now : ℕ) (db : Db)
    (x : TicketRow)
    → Distinct same_id db.tickets
    → find_where (is_ticket plant id) db.tickets ≡ some x
    → is_dispensing x.status ≡ true
    → let (r, t) = close_filled plant id shift actor note (connected in_tx scope now db) in
      (r ≡ ok tt)
      × ((s : ℕ)
          → (fills_completed plant s t.db
              ≡ (if s == shift then 1 else 0) + fills_completed plant s db)
            × (grams_dispensed plant s t.db
                ≡ (if s == shift then x.size_grams else 0) + grams_dispensed plant s db))
unfolding close_filled fills_completed grams_dispensed
close_filled_totals plant id shift actor note in_tx scope now db x d e h =
    rw (closes_some plant id db.tickets x e h) (
      refl,
      λ s. filled_totals plant id shift actor (trimmed_or_none note) now s db.tickets x d e h,
    )
