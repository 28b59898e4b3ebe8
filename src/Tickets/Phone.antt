-- ===== src/Tickets/Phone.antt =====
-- internal/tickets/tickets.go: NormalizePhone, and the reduction that phoneMatchSQL states of the
-- stored column.
pub mod Laws
use gatstogo.Base.{
  ℕ, ◌-◌, Bool, false, not, Option, none, some, [], ◌∷◌, Text, text_eq, is_digit, ltb, length, drop,
  if◌then◌else◌,
}

-- The loop that appends the digits.
unfoldable pub digits_of : Text → Text
digits_of [] = []
digits_of (r ∷ phone) = let rest = digits_of phone in if is_digit r then r ∷ rest else rest

unfoldable pub normalize_phone : Text → Text
unfolding digits_of
normalize_phone phone =
    let digits = digits_of phone in
    if ltb 10 (length digits) then drop (length digits - 10) digits else digits

-- regexp_replace(s, '\D', '', 'g').
remove_non_digits : Text → Text
remove_non_digits [] = []
remove_non_digits (r ∷ s) =
    let rest = remove_non_digits s in if not (is_digit r) then rest else r ∷ rest

-- right(s, n).
right : Text → ℕ → Text
right s n = drop (length s - n) s

sql_phone : Text → Text
unfolding remove_non_digits right
sql_phone customer_phone = right (remove_non_digits customer_phone) 10

-- WHERE phoneMatchSQL = $n: a NULL phone matches nothing.
unfoldable pub phone_match : Option Text → Text → Bool
unfolding sql_phone
phone_match none phone = false
phone_match (some customer_phone) phone = text_eq (sql_phone customer_phone) phone
