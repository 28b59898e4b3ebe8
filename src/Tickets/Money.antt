-- ===== src/Tickets/Money.antt =====
-- internal/tickets/tickets.go: AmountFromGrams and GramsFromAmount, and the naira amounts that the
-- handlers round. Go computes in float64; for products below 2 ^ 52 (4.5 million million kobo
-- grams) the rounded quotient is the one of exact arithmetic, which stands here: math.Round takes a
-- half away from zero.
pub mod Rounding
use gatstogo.Base.{ℕ, ◌+◌, ◌*◌, ◌/◌}

-- math.Round(float64(a) / float64(b)).
pub round_div : ℕ → ℕ → ℕ
round_div a b = (2 * a + b) / (2 * b)

unfoldable pub amount_from_grams : ℕ → ℕ → ℕ
unfolding round_div
amount_from_grams size_grams price_per_kg_kobo = round_div (size_grams * price_per_kg_kobo) 1000

unfoldable pub grams_from_amount : ℕ → ℕ → ℕ
unfolding round_div
grams_from_amount amount_kobo price_per_kg_kobo = round_div (amount_kobo * 1000) price_per_kg_kobo
