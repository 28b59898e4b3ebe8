-- ===== src/Checkout.antt =====
-- cmd/server/tickets.go: loadCurrentPrice, mapCustomerChannel and ticketEmail.
pub mod Buy
pub mod Payment
pub mod Cancel
use mathlib.Core.Option
use gatstogo.Base.{
  ℕ, Bool, true, false, ◌||◌, Option, none, some, List, [], ◌∷◌, ◌++◌, Text, text_eq, codes, ◌==◌,
  if◌then◌else◌,
}
use gatstogo.Db.Schema.{Db, PriceRow, Channel}
use gatstogo.Db.Table.{select_where, latest}
use gatstogo.Db.Statement.{M, query_row}

-- WHERE plant_id = $1 ORDER BY effective_from DESC LIMIT 1.
unfoldable pub current_price : ℕ → Db → Option (ℕ × ℕ)
unfolding latest select_where
current_price plant db =
    Option.map (λ (p : PriceRow). (p.id, p.price_per_kg))
      (latest (λ p. p.effective_from) (select_where (λ p. p.plant_id == plant) db.prices))

-- The identifier and the price per kilogram.
unfoldable pub load_current_price : ℕ → M (ℕ × ℕ)
unfolding current_price query_row
load_current_price plant = query_row (current_price plant)

-- The channel that is stored, and those that Paystack is asked for.
unfoldable pub map_customer_channel : Text → Option (Channel × List Text)
unfolding text_eq
map_customer_channel input =
    if text_eq input (codes "transfer")
    then some (Channel.transfer, codes "bank_transfer" ∷ [])
    else if text_eq input (codes "terminal")
    then some (Channel.terminal, codes "card" ∷ [])
    else if text_eq input (codes "ussd")
    then some (Channel.ussd, codes "ussd" ∷ [])
    else none

-- What stands before the first @, and the rest from it on.
before_at : Text → Text
before_at [] = []
before_at (c ∷ s) = let rest = before_at s in if c == b'@' then [] else c ∷ rest

from_at : Text → Text
from_at [] = []
from_at (c ∷ s) = let rest = from_at s in if c == b'@' then c ∷ s else rest

has_at : Text → Bool
has_at [] = false
has_at (c ∷ s) = c == b'@' || has_at s

unfoldable pub ticket_email : Text → Text → Text
unfolding before_at from_at has_at
ticket_email base reference =
    if has_at base then before_at base ++ (b'+' ∷ reference) ++ from_at base else base
