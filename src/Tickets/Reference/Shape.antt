-- ===== src/Tickets/Reference/Shape.antt =====
-- internal/tickets/tickets.go: what references and codes look like.
use gatstogo.Base.{
  ℕ, ◌*◌, subst, ◌/◌, ◌%◌, ◌≤◌, ◌<◌, ◌≡◌, refl, true, false, Option, none, some, List, [], ◌∷◌,
  ◌++◌, Text, trim_space, to_lower, Bool-cases, inl, inr, is_digit, length, length-append, All,
  arith,
}
use gatstogo.Error.{ok}
use gatstogo.Tickets.Reference.{
  is_reference_char, keep_allowed, or_plant, sanitize_reference_segment, hex_digit, hex,
  new_reference, four_digits, new_code, first_two, initials_from_name, field_starts,
}

abbrev IsReference : Text → Type 0
IsReference = All (λ c. is_reference_char c ≡ true)

keep_allowed-IsReference : (s : Text) → IsReference (keep_allowed s)
unfolding keep_allowed
keep_allowed-IsReference [] = tt
keep_allowed-IsReference (c ∷ s) = elim (Bool-cases (is_reference_char (to_lower c))) [
  | inl allowed ↦ rw allowed (allowed, keep_allowed-IsReference s)
  | inr other ↦ rw other (keep_allowed-IsReference s)
]

or_plant-IsReference : (s : Text) → IsReference s → IsReference (or_plant s)
unfolding or_plant is_reference_char
or_plant-IsReference [] h = ground arith
or_plant-IsReference (c ∷ s) h = h

append-IsReference : (s t : Text) → IsReference s → IsReference t → IsReference (s ++ t)
append-IsReference [] t h k = k
append-IsReference (c ∷ s) t h k = (h.0, append-IsReference s t h.1 k)

hex_digit-allowed : (n : ℕ) → n < 16 → is_reference_char (hex_digit n) ≡ true
unfolding hex_digit is_reference_char
hex_digit-allowed n h = ground arith

hex-IsReference : (bytes : List ℕ) → All (λ b. b < 256) bytes → IsReference (hex bytes)
unfolding hex
hex-IsReference [] h = tt
hex-IsReference (b ∷ bytes) h = (
  hex_digit-allowed (b / 16) (omega arith),
  (hex_digit-allowed (b % 16) (omega arith), hex-IsReference bytes h.1),
)

length-hex : (bytes : List ℕ) → length (hex bytes) ≡ 2 * length bytes
unfolding hex
length-hex [] = omega arith
length-hex (b ∷ bytes) = omega (arith, length-hex bytes)

IsReference-shape :
    (segment : Text) (bytes : List ℕ)
    → IsReference segment × (0 < length segment)
    → All (λ b. b < 256) bytes
    → length bytes ≡ 6
    → IsReference (segment ++ (b'-' ∷ hex bytes)) × (13 < length (segment ++ (b'-' ∷ hex bytes)))
unfolding is_reference_char
IsReference-shape segment bytes good h six = (
  append-IsReference segment (b'-' ∷ hex bytes) good.0 (refl, hex-IsReference bytes h),
  omega (arith, length-append segment (b'-' ∷ hex bytes), length-hex bytes, good.1),
)

or_plant_nonempty : (s : Text) → 0 < length (or_plant s)
unfolding or_plant
or_plant_nonempty [] = omega arith
or_plant_nonempty (c ∷ s) = omega arith

sanitized :
    (s : Text)
    → IsReference (sanitize_reference_segment s) × (0 < length (sanitize_reference_segment s))
unfolding sanitize_reference_segment
sanitized s =
    let kept = keep_allowed (trim_space s) in
    (or_plant-IsReference kept (keep_allowed-IsReference (trim_space s)), or_plant_nonempty kept)

-- Whatever the slug holds, a reference has only the characters that Paystack allows, and it is
-- longer than its thirteen characters of random suffix.
new_reference_shape :
    (slug : Text) (bytes : List ℕ) {reference : Text}
    → All (λ b. b < 256) bytes
    → length bytes ≡ 6
    → new_reference slug (ok bytes) ≡ ok reference
    → IsReference reference × (13 < length reference)
unfolding new_reference
new_reference_shape slug bytes h six e =
    let same : sanitize_reference_segment slug ++ (b'-' ∷ hex bytes) ≡ _ = cc in
    subst (λ r. IsReference r × (13 < length r)) same
      (IsReference-shape (sanitize_reference_segment slug) bytes (sanitized slug) h six)

abbrev IsNumeric : Text → Type 0
IsNumeric = All (λ c. is_digit c ≡ true)

four_digits_shape : (n : ℕ) → n < 10000 → (length (four_digits n) ≡ 4) × IsNumeric (four_digits n)
unfolding four_digits
four_digits_shape n h = (refl, ground arith)

-- Codes are four digits, and differ for different random numbers.
new_code_shape :
    (n : ℕ) {code : Text}
    → n < 10000
    → new_code (ok n) ≡ ok code
    → (length code ≡ 4) × IsNumeric code
unfolding new_code
new_code_shape n h e =
    let same : four_digits n ≡ _ = cc in
    subst (λ c. (length c ≡ 4) × IsNumeric c) same (four_digits_shape n h)

new_code_injective : (m n : ℕ) → m < 10000 → n < 10000 → new_code (ok m) ≡ new_code (ok n) → m ≡ n
unfolding new_code
new_code_injective m n h k e = ground arith

length-first_two-le : (to_upper : ℕ → ℕ) (s : Text) → length (first_two to_upper s) ≤ 4
unfolding first_two
length-first_two-le u [] = omega arith
length-first_two-le u (a ∷ []) = omega arith
length-first_two-le u (a ∷ b ∷ s) = omega arith

-- At most two letters of a customer's name reach the terminal.
length-initials_from_name-le :
    (to_upper : ℕ → ℕ) (name : Option Text) → length (initials_from_name to_upper name) ≤ 4
unfolding initials_from_name
length-initials_from_name-le u none = omega arith
length-initials_from_name-le u (some name) = length-first_two-le u (field_starts false name)
