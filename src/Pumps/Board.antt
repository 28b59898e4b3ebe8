-- ===== src/Pumps/Board.antt =====
-- internal/pumps/pumps.go: Pump, EnsureDefault and List. The identifier that the database generates
-- for a default pump is an argument.
use gatstogo.Base.{
  ℕ, Bool, true, false, ◌&&◌, ◌||◌, List, ◌∷◌, map, Text, text_eq, codes, is_none, is_some_of, leb,
  ltb, ◌==◌, if◌then◌else◌,
}
use gatstogo.Error.{unique_violation, Result, ok, err}
use gatstogo.Db.Schema.{Db, PumpRow, PumpStatus, is_paid, is_dispensing}
use gatstogo.Db.Table.{count_where, select_where, exists_where, order_by}
use gatstogo.Db.Statement.{M, statement, query, ◌>>=◌, ◌>>◌}

pub record Pump : Type 0 where
  pub id : ℕ
  pub name : Text
  pub status : PumpStatus
  pub sort_order : ℕ
  pub busy_count : ℕ
  pub open_shift : Bool

-- The primary key, and UNIQUE (plant_id, name).
abbrev pub same_pump_id : PumpRow → PumpRow → Bool
same_pump_id x y = x.id == y.id

abbrev pub same_pump_name : PumpRow → PumpRow → Bool
same_pump_name x y = x.plant_id == y.plant_id && text_eq x.name y.name

unfoldable pub insert_pump : PumpRow → Db → Result (ℕ × Db)
unfolding exists_where
insert_pump row db =
    if exists_where (same_pump_id row) db.pumps || exists_where (same_pump_name row) db.pumps
    then err unique_violation
    else ok (row.id, record db { pumps = row ∷ db.pumps })

abbrev pub at_plant : ℕ → PumpRow → Bool
at_plant plant p = p.plant_id == plant

abbrev default_pump : ℕ → ℕ → ℕ → PumpRow
default_pump plant id now = record {
  id = id;
  plant_id = plant;
  name = codes "Pump 1";
  status = PumpStatus.working;
  sort_order = 1;
  created_at = now;
}

-- INSERT … SELECT … WHERE NOT EXISTS: with a pump at the plant it inserts nothing.
unfoldable pub insert_default : ℕ → ℕ → ℕ → Db → Result (Unit {0} × Db)
unfolding insert_pump exists_where
insert_default plant id now db =
    if exists_where (at_plant plant) db.pumps
    then ok (tt, db)
    else elim (insert_pump (default_pump plant id now) db) [
      | ok (n, db') ↦ ok (tt, db')
      | err e ↦ err e
    ]

unfoldable pub ensure_default : ℕ → ℕ → M (Unit {0})
unfolding statement insert_default
ensure_default plant id = statement (insert_default plant id)

-- COUNT(t.id) FILTER (WHERE t.status IN ('paid', 'dispensing')) over the tickets of the pump.
unfoldable pub busy_count : Db → PumpRow → ℕ
unfolding count_where
busy_count db p =
    count_where
      (λ t.
        is_some_of t.pump_id p.id
        && t.plant_id == p.plant_id
        && (is_paid t.status || is_dispensing t.status))
      db.tickets

-- EXISTS (SELECT 1 FROM shifts …).
unfoldable has_open_shift : Db → PumpRow → Bool
unfolding exists_where
has_open_shift db p =
    exists_where (λ s. s.plant_id == p.plant_id && is_some_of s.pump_id p.id && is_none s.closed_at)
      db.shifts

abbrev pub pump_of : Db → Bool → PumpRow → Pump
pump_of db open_shift p = record {
  id = p.id;
  name = p.name;
  status = p.status;
  sort_order = p.sort_order;
  busy_count = busy_count db p;
  open_shift = open_shift;
}

-- ORDER BY sort_order, created_at.
unfoldable pub listed_before : PumpRow → PumpRow → Bool
listed_before x y =
    if ltb x.sort_order y.sort_order
    then true
    else if ltb y.sort_order x.sort_order
    then false
    else leb x.created_at y.created_at

unfoldable pub list : ℕ → ℕ → M (List Pump)
unfolding ensure_default query busy_count has_open_shift order_by listed_before select_where ◌>>=◌
list plant id = do
  ensure_default plant id
  query λ db.
      map (λ p. pump_of db (has_open_shift db p) p)
        (order_by listed_before (select_where (at_plant plant) db.pumps))
