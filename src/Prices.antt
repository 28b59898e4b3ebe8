-- ===== src/Prices.antt =====
-- internal/prices/prices.go: Set. A price is a new row, and the current one is the latest.
pub mod Current
use gatstogo.Base.{ℕ, zero, suc, ℤ, pos, negsuc, Bool, some, ◌∷◌, ◌==◌, if◌then◌else◌}
use gatstogo.Error.{unique_violation, invalid_price, Result, ok, err}
use gatstogo.Db.Schema.{Db, PriceRow}
use gatstogo.Db.Table.{exists_where}
use gatstogo.Db.Statement.{M, raise, statement}

-- The row of the INSERT, whose effective_from is the default now().
abbrev pub new_price : ℕ → ℕ → ℕ → ℕ → ℕ → PriceRow
new_price plant price set_by id now = record {
  id = id;
  plant_id = plant;
  price_per_kg = price;
  effective_from = now;
  set_by = some set_by;
}

unfoldable insert_price : PriceRow → Db → Result (ℕ × Db)
unfolding exists_where
insert_price row db =
    if exists_where (λ (p : PriceRow). p.id == row.id) db.prices
    then err unique_violation
    else ok (row.id, record db { prices = row ∷ db.prices })

unfoldable pub set : ℕ → ℤ → ℕ → ℕ → M ℕ
unfolding raise statement insert_price
set plant (pos (suc n)) set_by id =
    statement (λ now. insert_price (new_price plant (suc n) set_by id now))
set plant (pos zero) set_by id = raise invalid_price
set plant (negsuc n) set_by id = raise invalid_price
