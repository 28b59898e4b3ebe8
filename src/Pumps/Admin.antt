-- ===== src/Pumps/Admin.antt =====
-- internal/pumps/pumps.go: ValidateShiftPump and Upsert.
use mathlib.Core.Option
use gatstogo.Base.{
  ℕ, suc, ℤ, pos, Bool, not, ◌&&◌, Option, none, some, [], ◌∷◌, Text, text_eq, codes, trim_space,
  is_none, is_some_of, ◌==◌, if◌then◌else◌,
}
use gatstogo.Error.{
  Error, unique_violation, no_working_pump, pump_busy, pump_not_found, Result, ok, err,
}
use gatstogo.Db.Schema.{Db, PumpRow, PumpStatus, ShiftRow, is_working}
use gatstogo.Db.Table.{update_where, count_where, find_where, exists_where}
use gatstogo.Db.Statement.{M, pure, raise, statement, query, query_row, ◌>>=◌, attempt_then}
use gatstogo.Pumps.Board.{insert_pump}

-- SELECT status FROM pumps WHERE id = $1 AND plant_id = $2.
abbrev is_pump : ℕ → ℕ → PumpRow → Bool
is_pump plant id p = p.id == id && p.plant_id == plant

unfoldable pump_missing {ℓ} : {A : Type ℓ} → Result A → M A
unfolding pure raise
pump_missing (ok a) = pure a
pump_missing (err Error.no_rows) = raise pump_not_found
pump_missing (err e) = raise e

-- WHERE plant_id = $1 AND pump_id = $2 AND user_id <> $3 AND closed_at IS NULL.
abbrev is_held_by_other : ℕ → ℕ → ℕ → ShiftRow → Bool
is_held_by_other plant pump user s =
    s.plant_id == plant
    && is_some_of s.pump_id pump
    && not (s.user_id == user)
    && is_none s.closed_at

unless_busy : Bool → M (Unit {0})
unfolding raise pure
unless_busy busy = if busy then raise pump_busy else pure tt

free_for : ℕ → ℕ → ℕ → PumpStatus → M (Unit {0})
unfolding query exists_where unless_busy raise ◌>>=◌
free_for plant pump user status =
    if is_working status
    then query (λ db. exists_where (is_held_by_other plant pump user) db.shifts) >>= unless_busy
    else raise no_working_pump

unfoldable pub validate_shift_pump : ℕ → ℕ → ℕ → M (Unit {0})
unfolding query_row pump_missing free_for find_where attempt_then ◌>>=◌
validate_shift_pump plant pump user = do
  status ←
      attempt_then
        (query_row
          (λ db. Option.map (λ (p : PumpRow). p.status) (find_where (is_pump plant pump) db.pumps)))
        pump_missing
  free_for plant pump user status

-- The name, status and order that Upsert stores for what it is given.
unfoldable stored_name : Text → Text
unfolding trim_space
stored_name name = elim (trim_space name) [ [] ↦ codes "Pump 1" | c ∷ s ↦ c ∷ s ]

unfoldable stored_status : Text → PumpStatus
unfolding text_eq
stored_status status =
    if text_eq status (codes "not_working")
    then PumpStatus.not_working
    else if text_eq status (codes "maintenance")
    then PumpStatus.maintenance
    else PumpStatus.working

unfoldable stored_order : ℤ → ℕ
stored_order (pos (suc n)) = suc n
stored_order _ = 1

abbrev stored_row : Text → Text → ℤ → PumpRow → PumpRow
stored_row name status order p = record p {
  name = stored_name name;
  status = stored_status status;
  sort_order = stored_order order;
}

-- UPDATE pumps …, which the unique name may refuse.
unfoldable update_pump : ℕ → ℕ → Text → Text → ℤ → Db → Result (ℕ × Db)
unfolding stored_name stored_status stored_order update_where count_where exists_where
update_pump plant id name status order db =
    if count_where (is_pump plant id) db.pumps == 0
    then ok (0, db)
    else if exists_where
        (λ p. p.plant_id == plant && not (p.id == id) && text_eq p.name (stored_name name)) db.pumps
    then err unique_violation
    else ok (
      count_where (is_pump plant id) db.pumps,
      record db { pumps = update_where (is_pump plant id) (stored_row name status order) db.pumps },
    )

found_pump : ℕ → ℕ → M ℕ
unfolding raise pure
found_pump id rows = if rows == 0 then raise pump_not_found else pure id

-- A nil identifier, here none, is a new pump.
unfoldable pub upsert : ℕ → Option ℕ → Text → Text → ℤ → ℕ → M ℕ
unfolding insert_pump update_pump found_pump statement stored_name stored_status stored_order ◌>>=◌
upsert plant none name status order new_id = statement λ now. insert_pump (record {
  id = new_id;
  plant_id = plant;
  name = stored_name name;
  status = stored_status status;
  sort_order = stored_order order;
  created_at = now;
})
upsert plant (some id) name status order new_id = do
  rows ← statement (λ _. update_pump plant id name status order)
  found_pump id rows
