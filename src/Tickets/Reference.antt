-- ===== src/Tickets/Reference.antt =====
-- internal/tickets/tickets.go: NewReference, sanitizeReferenceSegment, NewCode, randomHex,
-- initialsFromName and nullIfEmpty. What crypto/rand returns is an argument.
pub mod Shape
use gatstogo.Base.{
  ℕ, ◌+◌, ◌/◌, ◌%◌, Bool, true, false, ◌||◌, ◌&&◌, Option, none, some, List, [], ◌∷◌, ◌++◌, Text,
  codes, trim_space, to_lower, is_space, is_digit, is_empty, ltb, leb, ◌==◌, if◌then◌else◌,
}
use gatstogo.Error.{Error, rand_failed, Result, ok, err}

-- What Paystack allows in a reference.
pub is_reference_char : ℕ → Bool
is_reference_char r =
    (leb b'a' r && leb r b'z') || is_digit r || r == b'-' || r == b'.' || r == b'='

keep_allowed : Text → Text
unfolding is_reference_char
keep_allowed [] = []
keep_allowed (c ∷ s) =
    let rest = keep_allowed s in
    let r = to_lower c in if is_reference_char r then r ∷ rest else rest

or_plant : Text → Text
or_plant [] = codes "plant"
or_plant (c ∷ s) = c ∷ s

unfoldable pub sanitize_reference_segment : Text → Text
unfolding keep_allowed or_plant trim_space to_lower
sanitize_reference_segment s = or_plant (keep_allowed (trim_space s))

hex_digit : ℕ → ℕ
hex_digit n = if ltb n 10 then n + b'0' else n + 87

-- fmt.Sprintf("%x", b), and encoding/hex's EncodeToString.
unfoldable pub hex : List ℕ → Text
unfolding hex_digit
hex [] = []
hex (b ∷ bytes) = hex_digit (b / 16) ∷ hex_digit (b % 16) ∷ hex bytes

-- `random` is what rand.Read left in the six bytes.
unfoldable pub new_reference : Text → Result (List ℕ) → Result Text
unfolding sanitize_reference_segment hex
new_reference plant_slug (err e) = err e
new_reference plant_slug (ok random) =
    ok (sanitize_reference_segment plant_slug ++ (b'-' ∷ hex random))

-- fmt.Sprintf("%04d", n) of a number below 10000.
unfoldable pub four_digits : ℕ → Text
four_digits n =
    (b'0' + n / 1000) ∷ (b'0' + n / 100 % 10) ∷ (b'0' + n / 10 % 10) ∷ (b'0' + n % 10) ∷ []

-- `random` is what rand.Int returned, a number below 10000.
unfoldable pub new_code : Result ℕ → Result Text
unfolding four_digits
new_code (err e) = err e
new_code (ok n) = ok (four_digits n)

-- nullIfEmpty of this package: the text is trimmed first.
non_empty : Text → Option Text
non_empty [] = none
non_empty (c ∷ s) = some (c ∷ s)

unfoldable pub null_if_empty : Text → Option Text
unfolding non_empty trim_space
null_if_empty s = non_empty (trim_space s)

-- The first letters of the fields of a text, from a state that says whether a field has begun.
field_starts : Bool → Text → Text
unfolding is_space
field_starts inside [] = []
field_starts inside (c ∷ s) =
    let outside = field_starts false s in
    let more = field_starts true s in
    if is_space c then outside else if inside then more else c ∷ more

module _ (to_upper : ℕ → ℕ) where
  dotted : ℕ → Text → Text
  dotted c rest = to_upper c ∷ b'.' ∷ rest

  first_two : Text → Text
  unfolding dotted
  first_two [] = []
  first_two (a ∷ []) = dotted a []
  first_two (a ∷ b ∷ rest) = dotted a (dotted b [])

  -- `to_upper` is unicode.ToUpper.
  unfoldable pub initials_from_name : Option Text → Text
  unfolding first_two field_starts
  initials_from_name none = []
  initials_from_name (some name) = first_two (field_starts false name)
