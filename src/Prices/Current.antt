-- ===== src/Prices/Current.antt =====
-- internal/prices/prices.go and loadCurrentPrice of cmd/server/tickets.go: a price that is set is the
-- current one.
use gatstogo.Base.{
  ℕ, suc, ◌≤◌, ◌≡◌, refl, pos, Bool, true, false, Option, some, ◌∷◌, All, arith, ◌==◌,
}
use gatstogo.Error.{ok}
use gatstogo.Db.Schema.{Db, PriceRow}
use gatstogo.Db.Table.{exists_where, select_where}
use gatstogo.Db.Table.Laws.{latest-first, select_where-All}
use gatstogo.Db.Statement.{connected}
use gatstogo.Checkout.{current_price, load_current_price}
use gatstogo.Prices.{new_price, set}

module _ (plant price set_by id now : ℕ) (db : Db) where
  abbrev priced : Db
  priced = record db { prices = new_price plant price set_by id now ∷ db.prices }

  current_price-priced :
      All (λ (p : PriceRow). p.effective_from ≤ now) db.prices
      → current_price plant priced ≡ some (id, price)
  unfolding current_price select_where
  current_price-priced h =
      let here : (plant == plant) ≡ true = ground arith in
      rw
        (
          here,
          latest-first (λ (p : PriceRow). p.effective_from) (new_price plant price set_by id now)
              (select_where (λ p. p.plant_id == plant) db.prices)
              (select_where-All (λ p. p.effective_from) _ _ db.prices h),
        )
        refl

-- Where no price lies in the future and the identifier is new, Set of a positive price stores a row
-- that is then the plant's current price, and keeps every row there was.
set_current :
    (plant n set_by id now later : ℕ) (in_tx : Bool) (scope : Option ℕ) (db : Db)
    → All (λ (p : PriceRow). p.effective_from ≤ now) db.prices
    → exists_where (λ (p : PriceRow). p.id == id) db.prices ≡ false
    → let db' = record db { prices = new_price plant (suc n) set_by id now ∷ db.prices } in
      (set plant (pos (suc n)) set_by id (connected in_tx scope now db)
        ≡ (ok id, connected in_tx scope now db'))
      × (load_current_price plant (connected in_tx scope later db')
          ≡ (ok (id, suc n), connected in_tx scope later db'))
unfolding set load_current_price
set_current plant n set_by id now later in_tx scope db past new =
    (rw new refl, rw (current_price-priced plant (suc n) set_by id now db past) refl)
