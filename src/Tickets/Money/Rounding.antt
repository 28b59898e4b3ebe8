-- ===== src/Tickets/Money/Rounding.antt =====
-- internal/tickets/tickets.go: the two price conversions undo one another up to rounding.
use native.Mathlib.Nat.{mul_comm}
use native.Mathlib.Decide.{dec_lt}
use gatstogo.Base.{ℕ, ap, ◌+◌, ◌*◌, ◌≤◌, ◌<◌, ◌≡◌, arith}
use gatstogo.Tickets.Money.{round_div, amount_from_grams, grams_from_amount}

-- The rounded quotient is within a half of the exact one, and a half is rounded up.
round_div_bounds :
    (a b : ℕ)
    → 0 < b
    → (2 * (b * round_div a b) ≤ 2 * a + b) × (2 * a < 2 * (b * round_div a b) + b)
unfolding round_div
round_div_bounds a b h = grind arith

round_div_unique :
    (a b q : ℕ) → 0 < b → 2 * (b * q) ≤ 2 * a + b → 2 * a < 2 * (b * q) + b → round_div a b ≡ q
round_div_unique a b q h lo hi = grind (arith, round_div_bounds a b h)

-- From a price of 1000 kobo per kilogram on, the grams that are charged for are the grams that the
-- amount buys back.
grams_from_amount-amount_from_grams :
    (size_grams price : ℕ)
    → 1000 ≤ price
    → grams_from_amount (amount_from_grams size_grams price) price ≡ size_grams
unfolding grams_from_amount amount_from_grams
grams_from_amount-amount_from_grams g p h =
    let (lo, hi) = round_div_bounds (g * p) 1000 (omega arith) in
    let below : 2 * (round_div (g * p) 1000 * 1000) < 2 * (p * g) + p = elim (dec_lt 1000 p) [
      | yes more ↦ omega (arith, mul_comm g p)
      | no same ↦
          let e : p ≡ 1000 = omega arith in omega (arith, mul_comm g p, ap (λ (x : ℕ). g * x) e)
    ] in
    round_div_unique _ p g (omega arith) (omega (arith, mul_comm g p)) below

-- An amount turned into grams and back is off by at most half a gram's price and half a kobo.
amount_from_grams-grams_from_amount_bounds :
    (amount price : ℕ)
    → 0 < price
    → (2000 * amount_from_grams (grams_from_amount amount price) price
        ≤ 2000 * amount + price + 1000)
      × (2000 * amount
          ≤ 2000 * amount_from_grams (grams_from_amount amount price) price + price + 1000)
unfolding grams_from_amount amount_from_grams
amount_from_grams-grams_from_amount_bounds a p h =
    let (lo, hi) = round_div_bounds (a * 1000) p h in
    let (lo', hi') = round_div_bounds (round_div (a * 1000) p * p) 1000 (omega arith) in
    (omega arith, omega arith)

-- A larger amount never buys fewer grams at the same price.
grams_from_amount-le :
    (a b price : ℕ) → a ≤ b → 0 < price → grams_from_amount a price ≤ grams_from_amount b price
unfolding grams_from_amount
grams_from_amount-le a b p h k =
    grind (arith, round_div_bounds (a * 1000) p k, round_div_bounds (b * 1000) p k)
