-- ===== src/Pumps/Assignment.antt =====
-- internal/pumps/pumps.go: AssignLeastBusy.
pub mod LeastBusy
pub mod History
use mathlib.Core.Option
use gatstogo.Base.{
  ℕ, suc, ℤ, pos, Bool, true, false, not, ◌&&◌, ◌||◌, Option, none, some, List, [], ◌∷◌, map, Text,
  text_eq, codes, trim_space, is_none, is_some_of, leb, ltb, ◌==◌, if◌then◌else◌,
}
use gatstogo.Error.{
  Error, unique_violation, no_working_pump, pump_busy, pump_not_found, Result, ok, err,
}
use gatstogo.Db.Schema.{
  Db, PumpRow, PumpStatus, TicketRow, ShiftRow, is_paid, is_dispensing, is_working,
}
use gatstogo.Db.Table.{
  update_where, count_where, select_where, find_where, exists_where, order_by, first_by,
}
use gatstogo.Db.Statement.{
  M, pure, raise, statement, query, query_row, exec, exec_returning, ◌>>=◌, ◌>>◌, attempt_then,
}
use gatstogo.Tickets.Lifecycle.{is_ticket}
use gatstogo.Pumps.Board.{
  Pump, same_pump_id, same_pump_name, insert_pump, at_plant, ensure_default, busy_count, pump_of,
  listed_before,
}

-- ORDER BY busy_count ASC, sort_order ASC, created_at ASC.
unfoldable pub less_busy : Db → PumpRow → PumpRow → Bool
unfolding listed_before busy_count
less_busy db x y =
    if ltb (busy_count db x) (busy_count db y)
    then true
    else if ltb (busy_count db y) (busy_count db x)
    then false
    else listed_before x y

abbrev pub is_candidate : ℕ → PumpRow → Bool
is_candidate plant p = p.plant_id == plant && is_working p.status

-- WITH candidate AS (…).
unfoldable pub candidate : ℕ → Db → Option PumpRow
unfolding less_busy first_by select_where
candidate plant db = first_by (less_busy db) (select_where (is_candidate plant) db.pumps)

-- WHERE tickets.id = $2 AND tickets.plant_id = $1 AND tickets.pump_id IS NULL.
abbrev pub is_unassigned : ℕ → ℕ → TicketRow → Bool
is_unassigned plant id t = is_ticket plant id t && is_none t.pump_id

-- WHERE existing.id = $2 AND existing.plant_id = $1 AND existing.pump_id IS NOT NULL.
abbrev pub is_assigned : ℕ → ℕ → TicketRow → Bool
is_assigned plant id t = is_ticket plant id t && not (is_none t.pump_id)

-- JOIN pumps p ON p.id = existing.pump_id AND p.plant_id = existing.plant_id.
unfoldable pub pump_joined : Db → TicketRow → Option PumpRow
unfolding find_where
pump_joined db t = find_where (λ p. is_some_of t.pump_id p.id && p.plant_id == t.plant_id) db.pumps

-- The second SELECT of the UNION, as the tables were when the statement began.
unfoldable already_assigned : ℕ → ℕ → Db → Option Pump
unfolding find_where pump_joined busy_count
already_assigned plant ticket db = elim (find_where (is_assigned plant ticket) db.tickets) [
  | none ↦ none
  | some t ↦ Option.map (pump_of db false) (pump_joined db t)
]

abbrev pub assigned_row : ℕ → ℕ → TicketRow → TicketRow
assigned_row pump now t = record t { pump_id = some pump; updated_at = now }

-- UPDATE … FROM candidate … RETURNING, and the union.
assign_with : ℕ → ℕ → Option PumpRow → ℕ → Db → Option Pump × Db
unfolding already_assigned update_where exists_where busy_count
assign_with plant ticket none now db = (already_assigned plant ticket db, db)
assign_with plant ticket (some c) now db =
    if exists_where (is_unassigned plant ticket) db.tickets
    then (
      some (pump_of db false c),
      record db {
        tickets = update_where (is_unassigned plant ticket) (assigned_row c.id now) db.tickets;
      },
    )
    else (already_assigned plant ticket db, db)

unfoldable pub assign : ℕ → ℕ → ℕ → Db → Option Pump × Db
unfolding assign_with candidate
assign plant ticket now db = assign_with plant ticket (candidate plant db) now db

unfoldable pub no_rows_is_no_pump : Result Pump → M Pump
unfolding pure raise
no_rows_is_no_pump (ok p) = pure p
no_rows_is_no_pump (err Error.no_rows) = raise no_working_pump
no_rows_is_no_pump (err e) = raise e

unfoldable pub assign_least_busy : ℕ → ℕ → ℕ → M Pump
unfolding ensure_default exec_returning assign no_rows_is_no_pump attempt_then ◌>>=◌
assign_least_busy plant ticket new_id = do
  ensure_default plant new_id
  attempt_then (exec_returning (assign plant ticket)) no_rows_is_no_pump
