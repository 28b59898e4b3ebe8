-- ===== src/Shifts/Cash.antt =====
-- internal/shifts/shifts.go: Summary and RecordCashMovement.
pub mod Totals
use gatstogo.Base.{
  ℕ, ◌+◌, ℤ, pos, ◌+ℤ◌, Bool, true, false, ◌&&◌, Option, none, some, List, [], ◌∷◌, map, Text, leb,
  ltb, is_some_of, null_if_empty, ◌==◌, if◌then◌else◌,
}
use gatstogo.Error.{Error, invalid_kind}
use gatstogo.Db.Schema.{
  Db, TicketRow, CashRow, CashKind, UserRow, Role, is_filled, is_sale, is_staff,
}
use gatstogo.Db.Table.{count_where, select_where, sum_of}
use gatstogo.Db.Statement.{M, pure, raise, query, ◌>>=◌}
use gatstogo.Shifts.Lifecycle.{insert_cash}

-- COALESCE(SUM(f), 0) of a signed column.
unfoldable sum_kobo : List CashRow → ℤ
unfolding ◌+ℤ◌
sum_kobo [] = pos 0
sum_kobo (x ∷ xs) = x.amount_kobo +ℤ sum_kobo xs

-- WHERE plant_id = $1 AND filled_shift_id = $2 AND status = 'filled'.
abbrev pub is_filled_in : ℕ → ℕ → TicketRow → Bool
is_filled_in plant shift t =
    t.plant_id == plant && is_some_of t.filled_shift_id shift && is_filled t.status

-- WHERE plant_id = $1 AND shift_id = $2 AND kind = 'sale'.
abbrev pub is_sale_in : ℕ → ℕ → CashRow → Bool
is_sale_in plant shift c = c.plant_id == plant && c.shift_id == shift && is_sale c.kind

unfoldable pub fills_completed : ℕ → ℕ → Db → ℕ
unfolding count_where
fills_completed plant shift db = count_where (is_filled_in plant shift) db.tickets

unfoldable pub grams_dispensed : ℕ → ℕ → Db → ℕ
unfolding select_where sum_of
grams_dispensed plant shift db =
    sum_of (λ t. t.size_grams) (select_where (is_filled_in plant shift) db.tickets)

unfoldable pub cash_held_kobo : ℕ → ℕ → Db → ℤ
unfolding select_where sum_kobo
cash_held_kobo plant shift db = sum_kobo (select_where (is_sale_in plant shift) db.cash_movements)

unfoldable fill_totals : ℕ → ℕ → Db → ℕ × ℕ
unfolding fills_completed grams_dispensed
fill_totals plant shift db = (fills_completed plant shift db, grams_dispensed plant shift db)

unfoldable pub summary : ℕ → ℕ → M (ℕ × ℕ × ℤ)
unfolding fill_totals cash_held_kobo query pure ◌>>=◌
summary plant shift = do
  fills ← query (fill_totals plant shift)
  cash ← query (cash_held_kobo plant shift)
  pure (fills.0, fills.1, cash)

-- cashMovementKinds.
abbrev pub is_manual : CashKind → Bool
is_manual CashKind.deposit = true
is_manual CashKind.payout = true
is_manual CashKind.count = true
is_manual _ = false

unfoldable pub record_cash_movement : ℕ → ℕ → CashKind → ℤ → Option ℤ → ℕ → Text → M (Unit {0})
unfolding insert_cash raise
record_cash_movement plant shift kind amount counted recorded_by note =
    if is_manual kind
    then insert_cash (record {
      plant_id = plant;
      shift_id = shift;
      kind = kind;
      amount_kobo = amount;
      counted_kobo = counted;
      ticket_id = none;
      recorded_by = recorded_by;
      note = null_if_empty note;
    })
    else raise invalid_kind
